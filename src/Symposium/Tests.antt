-- ===== src/Symposium/Tests.antt =====
-- A symposium of three philosophers with one bite each, up to the first turn in which one waits.
use tinyos.Base.{ℕ, ◌<◌, ◌*◌, ◌+◌, ◌≤◌, ◌≡◌, ◌≢◌, ◌⊎◌, true, arith, refl}
use tinyos.Symposium.{
  eating, hungry, thinking, asleep, Table, moves, fails, turn, Steps, here, there,
  symposium_table_init, get_hungry, wait_hungry, trytoeat, can_eat, wake, turn_from, left, right,
}
use tinyos.Symposium.Ends.{is_gone, IsForked, symposium-IsForked, symposium-Ends}

abbrev after : ℕ → Table → Table
after i t = elim (turn i t) [ moves u ↦ u | _ ↦ t ]

abbrev arrived : Table
arrived = after 2 (after 1 (after 0 (symposium_table_init 3 1)))

abbrev waiting : Table
waiting = after 1 (after 0 arrived)

states :
    (waiting.state 0 ≡ eating)
    × (waiting.state 1 ≡ hungry)
    × (waiting.state 2 ≡ thinking)
    × (waiting.place 1 ≡ asleep 0)
unfolding turn turn_from get_hungry wait_hungry trytoeat can_eat wake left right
    symposium_table_init
states = (refl, refl, refl, refl)

waiting-Steps : Steps (symposium_table_init 3 1) 5 waiting
unfolding turn turn_from get_hungry wait_hungry trytoeat can_eat wake left right
    symposium_table_init
waiting-Steps =
    there 1 (omega arith)
      (there 0 (omega arith)
        (there 2 (omega arith) (there 1 (omega arith) (there 0 (omega arith) here refl) refl) refl)
        refl)
      refl

symposium-IsForked_example : IsForked 1 3 waiting
symposium-IsForked_example =
    symposium-IsForked 3 1 5 1 waiting (omega arith) waiting-Steps (omega arith)

symposium-Ends_example :
    (5 ≤ 3 * (3 * 1 + 2))
    × ((i : ℕ) → i < 3 → turn i waiting ≢ fails)
    × (((i : ℕ) → i < 3 → is_gone (waiting.place i) ≡ true)
        ⊎ ((i : ℕ) × (u : Table) × (i < 3) × (turn i waiting ≡ moves u)))
symposium-Ends_example = symposium-Ends 3 1 5 waiting (omega arith) waiting-Steps
