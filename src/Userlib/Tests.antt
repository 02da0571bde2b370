-- ===== src/Userlib/Tests.antt =====
-- The launch of "wc -l", and two threads at a barrier.
use tinyos.Base.{
  ℕ, ◌+◌, ◌*◌, ◌≤◌, ◌<◌, ◌≡◌, ◌⊎◌, List, [], ◌∷◌, map, true, false, some, count, arith, refl,
}
use tinyos.Base.Int.{pos}
use tinyos.Args.Round.{text_at}
use tinyos.Userlib.{
  Barrier, barrier_arrive, barrier_waits, execute, exec_wrapper, parse_proc_info,
  procinfo_max_args_size, store_bytes,
}
use tinyos.Userlib.Launch.{exec_wrapper-execute}
use tinyos.Userlib.Epochs.{
  Meeting, Step, arrives, leaves, here, there, empty_meeting, returned_calls,
}

abbrev words : List (List ℕ)
words = (b'w' ∷ b'c' ∷ []) ∷ (b'-' ∷ b'l' ∷ []) ∷ []

exec_wrapper-execute_example :
    let (argl, args) = execute 4198400 words in
    (pointers : List (List ℕ)) × (map text_at pointers ≡ words)
    × (exec_wrapper argl args ≡ some (4198400, pointers))
    × (argl ≤ procinfo_max_args_size
        → 2 ≤ 10
        → parse_proc_info true argl args 10 ≡ some (pos 2, pointers))
exec_wrapper-execute_example =
    exec_wrapper-execute 4198400 10 words (omega arith) (refl, (refl, tt))

program_bytes : store_bytes 8 4198400 ≡ 0 ∷ 16 ∷ 64 ∷ 0 ∷ 0 ∷ 0 ∷ 0 ∷ 0 ∷ []
unfolding store_bytes
program_bytes = refl

abbrev one_waits : Meeting
one_waits = record {
  bar = record { count = 1; epoch = 0 };
  inside = 0 ∷ [];
  called = 1;
  returned = 0;
}

abbrev both_arrived : Meeting
both_arrived = record {
  bar = record { count = 0; epoch = 1 };
  inside = 0 ∷ 0 ∷ [];
  called = 2;
  returned = 0;
}

abbrev one_returned : Meeting
one_returned = record {
  bar = record { count = 0; epoch = 1 };
  inside = 0 ∷ [];
  called = 2;
  returned = 1;
}

first_waits : Step 2 empty_meeting one_waits
unfolding barrier_arrive
first_waits = arrives 0 refl

second_arrives : Step 2 one_waits both_arrived
unfolding barrier_arrive
second_arrives = arrives 0 refl

first_returns : Step 2 both_arrived one_returned
unfolding barrier_waits
first_returns = leaves 0 (omega arith) refl

returned_calls_example :
    ((r : ℕ × Barrier) × (barrier_arrive 2 one_returned.bar ≡ some r))
    × (0 < 2)
    × (2 ≡ 2 * 1 + 0)
    × (1 ≤ 2 * 1)
    × (count 1 (0 ∷ []) ≡ 0)
    × ((e : ℕ) → 0 < count e (0 ∷ []) → (e ≡ 1) ⊎ (barrier_waits e one_returned.bar ≡ false))
returned_calls_example =
    returned_calls 2 one_returned (omega arith)
      (there (there (there here first_waits) second_arrives) first_returns) (omega arith)
