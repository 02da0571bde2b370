-- ===== src/Userlib.antt =====
-- The user library of tinyoslib.c: the arguments of a new process, and the barrier. The program of a process is
-- named by its address, and memory is the list of its bytes.
pub mod Launch
pub mod Epochs
mod Tests
use tinyos.Base.{
  ℕ, zero, suc, ◌+◌, ◌-◌, ◌*◌, ◌/◌, ◌%◌, ◌^◌, List, [], ◌∷◌, ◌++◌, Bool, true, false, not, Option,
  none, some, ◌==◌, ltb, if◌then◌else◌, drop,
}
use tinyos.Base.Int.{ℤ, pos, minus_one}
use tinyos.Args.{argvlen, argvpack, argscount, argvunpack}

-- `memcpy` of a number of `n` bytes, the lowest first.
unfoldable pub store_bytes : (n value : ℕ) → List ℕ
store_bytes zero value = []
store_bytes (suc n) value = value % 256 ∷ store_bytes n (value / 256)

-- `none` is a read behind the buffer.
unfoldable pub load_bytes : (n : ℕ) → List ℕ → Option ℕ
load_bytes zero args = some 0
load_bytes (suc n) [] = none
load_bytes (suc n) (b ∷ args) = elim (load_bytes n args) [
  | none ↦ none
  | some v ↦ some (b + 256 * v)
]

-- `sizeof(Program)`
abbrev pub program_size : ℕ
program_size = 8

-- What `Execute` gives to `Exec`: the length and the bytes of the argument.
unfoldable pub execute : (prog : ℕ) → (argv : List (List ℕ)) → ℕ × List ℕ
unfolding store_bytes
execute prog argv =
    (argvlen argv + program_size, store_bytes program_size prog ++ (argvpack argv).0)

-- The call that `exec_wrapper` makes: the program and its arguments.
unfoldable pub exec_wrapper : (argl : ℕ) → (args : List ℕ) → Option (ℕ × List (List ℕ))
unfolding load_bytes
exec_wrapper argl args = elim (load_bytes program_size args) [
  | none ↦ none
  | some prog ↦
      let strings = drop program_size args in
      elim (argscount (argl - program_size) strings) [
        | none ↦ none
        | some argc ↦ elim (argvunpack argc strings) [
          | none ↦ none
          | some (argv, _) ↦ some (prog, argv)
        ]
      ]
]

abbrev pub procinfo_max_args_size : ℕ
procinfo_max_args_size = 128

-- `ParseProcInfo` with an array of `argc` pointers: the value, and the pointers it stores. It loads the program
-- over its own parameter, so that the caller gets none.
unfoldable pub parse_proc_info :
    (known_task : Bool) → (argl : ℕ) → (args : List ℕ) → (argc : ℕ) → Option (ℤ × List (List ℕ))
parse_proc_info known_task argl args argc =
    let strings = drop program_size args in
    if not known_task
    then some (minus_one, [])
    else if ltb procinfo_max_args_size argl
    then some (minus_one, [])
    else elim (argscount (argl - program_size) strings) [
      | none ↦ none
      | some n ↦ elim (argvunpack (if ltb n argc then n else argc) strings) [
        | none ↦ none
        | some (argv, _) ↦ some (pos n, argv)
      ]
    ]

-- `barrier`, without its mutex and its condition variable. The epoch is an `unsigned int`; the count stays at most
-- `n`, which is one.
pub record Barrier : Type 0 where
  pub count : ℕ
  pub epoch : ℕ

-- `BarrierSync` up to its loop: the epoch it waits to end. `none` is a failed assertion.
unfoldable pub barrier_arrive : (n : ℕ) → Barrier → Option (ℕ × Barrier)
barrier_arrive n bar =
    let count = bar.count + 1 in
    if not (ltb 0 n)
    then none
    else if not (ltb bar.count n)
    then none
    else some (
      bar.epoch,
      if count == n
          then record { count = 0; epoch = (bar.epoch + 1) % 2 ^ 32 }
          else record bar { count = count },
    )

-- Whether the loop of `BarrierSync` waits on. The epoch of the call is an `int` with the same 32 bits, which the
-- comparison converts back.
unfoldable pub barrier_waits : (epoch : ℕ) → Barrier → Bool
barrier_waits epoch bar = epoch == bar.epoch
