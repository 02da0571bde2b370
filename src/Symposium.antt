-- ===== src/Symposium.antt =====
-- The dining philosophers of symposium.c and symposium.h. A philosopher is a thread that runs
-- `SymposiumTable_philosopher`; the regions under the mutex of the table are its turns.
pub mod Seats
pub mod Forks
pub mod Turns
pub mod Ends
mod Tests
use tinyos.Base.{
  ℕ, zero, suc, ◌+◌, ◌-◌, ◌%◌, ◌<◌, ◌≡◌, Bool, true, false, not, ◌&&◌, if◌then◌else◌, update,
}

-- `PHIL`
pub data Phil : Type 0 where
  nothere thinking hungry eating : Phil

abbrev pub is_hungry : Phil → Bool
is_hungry hungry = true
is_hungry _ = false

abbrev pub is_eating : Phil → Bool
is_eating eating = true
is_eating _ = false

-- Where the thread of a philosopher stands, with the rounds that its loop has left: before its first
-- region; in `think`; asleep in `Cond_Wait`, or woken there, or in `eat`, with the rounds after this
-- one; or behind its last region.
pub data Place : Type 0 where
  outside gone : Place
  thinks asleep woken eats : (left : ℕ) → Place

-- `symposium_t` and `SymposiumTable`, with the place of each thread. The condition variable of philosopher `i`
-- only ever has the thread `i` as a waiter, so its ring is told by the place of that thread.
pub record Table : Type 0 where
  pub n : ℕ
  pub bites : ℕ
  pub state : ℕ → Phil
  pub place : ℕ → Place

-- `LEFT` and `RIGHT`
unfoldable pub left : (i n : ℕ) → ℕ
left i n = (i + 1) % n

unfoldable pub right : (i n : ℕ) → ℕ
right i n = (i + n - 1) % n

-- `Cond_Signal` of a philosopher's condition variable: the thread wakes if it sleeps there.
unfoldable pub wake : Place → Place
wake (asleep k) = woken k
wake p = p

abbrev pub set_state : ℕ → Phil → Table → Table
set_state i p t = record t { state = update t.state i p }

abbrev pub set_place : ℕ → Place → Table → Table
set_place i p t = record t { place = update t.place i p }

-- The test of `trytoeat`.
unfoldable pub can_eat : ℕ → Table → Bool
unfolding left right
can_eat i t =
    is_hungry (t.state i)
    && not (is_eating (t.state (left i t.n)))
    && not (is_eating (t.state (right i t.n)))

unfoldable pub trytoeat : ℕ → Table → Table
unfolding can_eat wake
trytoeat i t = if can_eat i t then set_place i (wake (t.place i)) (set_state i eating t) else t

-- What a turn of a philosopher comes to: it moves, it cannot, or an assertion fails.
pub data Turn : Type 0 where
  moves : Table → Turn
  rests fails : Turn

-- The loop of `SymposiumTable_philosopher` around `Cond_Wait`, with its assertion, on the state that it
-- reads; `k` rounds are left after this one.
unfoldable pub wait_hungry : (i k : ℕ) → Phil → Table → Turn
wait_hungry i k hungry t = moves (set_place i (asleep k) t)
wait_hungry i k eating t = moves (set_place i (eats k) t)
wait_hungry i k _ t = fails

-- The region in which a philosopher gets hungry.
unfoldable pub get_hungry : (i k : ℕ) → Table → Turn
unfolding trytoeat wait_hungry
get_hungry i k t = let t' = trytoeat i (set_state i hungry t) in wait_hungry i k (t'.state i) t'

-- The region in which a philosopher is done with eating.
unfoldable pub done_eating : (i : ℕ) → Table → Table
unfolding trytoeat left right
done_eating i t = trytoeat (right i t.n) (trytoeat (left i t.n) (set_state i thinking t))

-- The next region of `SymposiumTable_philosopher` for the philosopher `i`.
unfoldable pub turn_from : Place → (i : ℕ) → Table → Turn
unfolding get_hungry wait_hungry done_eating
turn_from outside i t = moves (set_place i (thinks t.bites) (set_state i thinking t))
turn_from (thinks zero) i t = moves (set_place i gone (set_state i nothere t))
turn_from (thinks (suc k)) i t = get_hungry i k t
turn_from (asleep k) i t = rests
turn_from (woken k) i t = wait_hungry i k (t.state i) t
turn_from (eats k) i t = moves (set_place i (thinks k) (done_eating i t))
turn_from gone i t = rests

unfoldable pub turn : (i : ℕ) → Table → Turn
unfolding turn_from
turn i t = turn_from (t.place i) i t

-- `SymposiumTable_init`, with the philosophers that are about to start.
unfoldable pub symposium_table_init : (n bites : ℕ) → Table
symposium_table_init n bites = record {
  n = n;
  bites = bites;
  state = λ i. nothere;
  place = λ i. outside;
}

-- The tables that turns of philosophers lead to, with their number.
pub data Steps (start : Table) : ℕ → Table → Type 0 where
  here : Steps start 0 start
  there :
      {k : ℕ} {t u : Table} (i : ℕ)
      → i < t.n
      → Steps start k t
      → turn i t ≡ moves u
      → Steps start (suc k) u
