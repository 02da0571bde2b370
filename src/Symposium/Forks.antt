-- ===== src/Symposium/Forks.antt =====
-- Who eats and who is hungry: what the turns of the philosophers keep.
use tinyos.Base.{
  ℕ, ◌<◌, ◌≤◌, ◌≡◌, ◌⊎◌, inl, inr, ◌==◌, true, false, update, Bool-cases, arith, refl, ap, ◌∙◌, sym,
}
use tinyos.Symposium.{
  Phil, nothere, thinking, hungry, eating, Place, outside, gone, thinks, asleep, woken, eats, Table,
  is_hungry, is_eating, left, right, wake, can_eat, trytoeat,
}
use tinyos.Symposium.Seats.{Neighbours, neighbours}

-- A philosopher who eats has a neighbour on the left who does not.
abbrev pub Apart : ℕ → Table → Type 0
Apart j t = is_eating (t.state j) ≡ true → is_eating (t.state (left j t.n)) ≡ false

-- A hungry philosopher has a neighbour who eats.
abbrev pub Fed : ℕ → Table → Type 0
Fed j t =
    is_hungry (t.state j) ≡ true
    → (is_eating (t.state (left j t.n)) ≡ true) ⊎ (is_eating (t.state (right j t.n)) ≡ true)

-- The state that belongs to a place.
abbrev pub state_of : Place → Phil
state_of outside = nothere
state_of (thinks k) = thinking
state_of (asleep k) = hungry
state_of (woken k) = eating
state_of (eats k) = eating
state_of gone = nothere

abbrev pub Agrees : ℕ → Table → Type 0
Agrees j t = t.state j ≡ state_of (t.place j)

can_eat-checks :
    (i : ℕ) (t : Table)
    → can_eat i t ≡ true
    → (is_hungry (t.state i) ≡ true)
      × (is_eating (t.state (left i t.n)) ≡ false)
      × (is_eating (t.state (right i t.n)) ≡ false)
unfolding can_eat
can_eat-checks i t b = ground (arith, b)

-- The philosopher `i` starts to eat.
eats-Apart :
    (i j n : ℕ) (state : ℕ → Phil)
    → Neighbours j n
    → is_eating (state (left i n)) ≡ false
    → is_eating (state (right i n)) ≡ false
    → (is_eating (state j) ≡ true → is_eating (state (left j n)) ≡ false)
    → is_eating (update state i eating j) ≡ true
    → is_eating (update state i eating (left j n)) ≡ false
eats-Apart i j n state m l r a e = elim (Bool-cases (left j n == i)) [
  | inl same ↦
      let here : left j n ≡ i = ground (arith, same) in
      let back : right i n ≡ j = ap (λ k. right k n) (sym here) ∙ m.right_left in
      let hungry_j = sym (ap (λ k. is_eating (state k)) back) ∙ r in
      absurd (ground (arith, e, hungry_j, here, m.left_ne))
  | inr other ↦
      ground (arith, other, a, e, l, λ (s : j ≡ i). ap (λ k. is_eating (state (left k n))) s ∙ l)
]

pub trytoeat-Apart : (i j : ℕ) (t : Table) → 2 ≤ t.n → j < t.n → Apart j t → Apart j (trytoeat i t)
unfolding trytoeat
trytoeat-Apart i j t h b a = elim (Bool-cases (can_eat i t)) [
  | inl c ↦
      let (_, l, r) = can_eat-checks i t c in
      rw c (eats-Apart i j t.n t.state (neighbours j t.n h b) l r a)
  | inr c ↦ rw c a
]

pub trytoeat-Fed : (i j : ℕ) (t : Table) → Fed j t → Fed j (trytoeat i t)
unfolding trytoeat can_eat
trytoeat-Fed i j t f = ground (arith, f)

pub trytoeat-feeds : (i : ℕ) (t : Table) → Fed i (trytoeat i t)
unfolding trytoeat can_eat
trytoeat-feeds i t = ground arith

wake-state_of : (p : Place) → is_hungry (state_of p) ≡ true → state_of (wake p) ≡ eating
unfolding wake
wake-state_of (asleep k) e = refl
wake-state_of outside e = ground (arith, e)
wake-state_of gone e = ground (arith, e)
wake-state_of (thinks k) e = ground (arith, e)
wake-state_of (woken k) e = ground (arith, e)
wake-state_of (eats k) e = ground (arith, e)

pub trytoeat-Agrees : (i j : ℕ) (t : Table) → Agrees j t → Agrees j (trytoeat i t)
unfolding trytoeat can_eat
trytoeat-Agrees i j t a = ground (arith, a, wake-state_of (t.place j), ap is_hungry a)

pub trytoeat-sizes :
    (i : ℕ) (t : Table) → ((trytoeat i t).n ≡ t.n) × ((trytoeat i t).bites ≡ t.bites)
unfolding trytoeat
trytoeat-sizes i t = ground arith

-- Only a hungry philosopher changes, and starts to eat.
pub trytoeat-state :
    (i j : ℕ) (t : Table) → is_hungry (t.state j) ≡ false → (trytoeat i t).state j ≡ t.state j
unfolding trytoeat can_eat
trytoeat-state i j t h = ground (arith, h)

pub trytoeat-hungry :
    (i : ℕ) (t : Table)
    → t.state i ≡ hungry
    → ((trytoeat i t).state i ≡ hungry) ⊎ ((trytoeat i t).state i ≡ eating)
unfolding trytoeat
trytoeat-hungry i t h = ground (arith, h)

-- What a turn keeps: the eaters are apart, the hungry have a neighbour who eats, and states and places agree.
pub record IsServed (t : Table) : Type 0 where
  pub apart : (j : ℕ) → j < t.n → Apart j t
  pub fed : (j : ℕ) → j < t.n → Fed j t
  pub agrees : (j : ℕ) → Agrees j t
