-- ===== src/Userlib/Launch.antt =====
-- The arguments of `Execute` reach the program.
use Prim.Native.Nat.pow
use tinyos.Base.{
  ℕ, zero, suc, ◌+◌, ◌-◌, ◌*◌, ◌/◌, ◌%◌, ◌^◌, ◌<◌, ◌≤◌, ◌≡◌, List, [], ◌++◌, map, true, false, none,
  some, length, drop, ltb, arith, refl, ap, ◌∙◌, if◌then◌else◌,
}
use tinyos.Base.Int.{pos}
use tinyos.Args.{argvpack, argscount, argvunpack}
use tinyos.Args.Round.{AreTexts, text_at, argvpack-Packed}
use tinyos.Userlib.{
  store_bytes, load_bytes, program_size, execute, exec_wrapper, parse_proc_info,
  procinfo_max_args_size,
}

pub load_bytes-store_bytes :
    (n value : ℕ) (rest : List ℕ)
    → value < 256 ^ n
    → load_bytes n (store_bytes n value ++ rest) ≡ some value
unfolding load_bytes store_bytes
load_bytes-store_bytes zero value rest h = ap (λ v. some v) (omega (arith, h))
load_bytes-store_bytes (suc n) value rest h =
    let low = value / 256 in
    let power : 256 ^ suc n ≡ 256 ^ n * 256 = pow.suc 256 n in
    ap (λ o. elim o [ none ↦ none | some v ↦ some (value % 256 + 256 * v) ])
      (load_bytes-store_bytes n low rest (omega (arith, h, power)))
    ∙ ap (λ v. some v) (omega arith)

drop-store_bytes : (n value : ℕ) (rest : List ℕ) → drop n (store_bytes n value ++ rest) ≡ rest
unfolding store_bytes
drop-store_bytes zero value rest = refl
drop-store_bytes (suc n) value rest = drop-store_bytes n (value / 256) rest

exec_wrapper-some :
    (argl prog n : ℕ) (args end : List ℕ) (argv : List (List ℕ))
    → load_bytes program_size args ≡ some prog
    → argscount (argl - program_size) (drop program_size args) ≡ some n
    → argvunpack n (drop program_size args) ≡ some (argv, end)
    → exec_wrapper argl args ≡ some (prog, argv)
unfolding exec_wrapper
exec_wrapper-some argl prog n args end argv e g h = rw (e, exec_wrapper) (rw g (rw h refl))

parse_proc_info-some :
    (argl n argc : ℕ) (args end : List ℕ) (argv : List (List ℕ))
    → argl ≤ procinfo_max_args_size
    → argscount (argl - program_size) (drop program_size args) ≡ some n
    → n ≤ argc
    → argvunpack n (drop program_size args) ≡ some (argv, end)
    → parse_proc_info true argl args argc ≡ some (pos n, argv)
unfolding parse_proc_info
parse_proc_info-some argl n argc args end argv short g enough h =
    let fits : ltb procinfo_max_args_size argl ≡ false = ground arith in
    let all : (if ltb n argc then n else argc) ≡ n = ground arith in
    rw (fits, parse_proc_info) (rw g (rw all (rw h refl)))

-- The program gets what `Execute` has been given: its address, which has 8 bytes, and its strings, which
-- contain no zero byte, as pointers into the argument. If the argument is not longer than 128 bytes,
-- `ParseProcInfo` counts the same strings and gives pointers to them, to one with room for all of them.
pub exec_wrapper-execute :
    (prog argc : ℕ) (argv : List (List ℕ))
    → prog < 2 ^ 64
    → AreTexts argv
    → let (argl, args) = execute prog argv in
      (pointers : List (List ℕ)) × (map text_at pointers ≡ argv)
      × (exec_wrapper argl args ≡ some (prog, pointers))
      × (argl ≤ procinfo_max_args_size
          → length argv ≤ argc
          → parse_proc_info true argl args argc ≡ some (pos (length argv), pointers))
unfolding execute
exec_wrapper-execute prog argc argv fits texts =
    let (argl, args) = execute prog argv in
    let packed = argvpack-Packed argv texts in
    let strings = (argvpack argv).0 in
    let (pointers, unpacks, same) = packed.unpacked in
    let loads = load_bytes-store_bytes program_size prog strings fits in
    let drops = drop-store_bytes program_size prog strings in
    let counts : argscount (argl - program_size) (drop program_size args) ≡ some (length argv) =
      ap (argscount (argl - program_size)) drops
      ∙ (ap (λ m. argscount m strings) (omega (arith, packed.measured)) ∙ packed.counted) in
    let unpacked : argvunpack (length argv) (drop program_size args) ≡ some (pointers, []) =
      ap (argvunpack (length argv)) drops ∙ unpacks in
    (
      pointers,
      same,
      exec_wrapper-some argl prog (length argv) args [] pointers loads counts unpacked,
      (λ short room.
          parse_proc_info-some argl (length argv) argc args [] pointers short counts room unpacked),
    )
