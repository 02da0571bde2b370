-- ===== src/Symposium/Ends.antt =====
-- The run of a symposium as a whole.
use tinyos.Base.{
  ℕ, zero, suc, ◌+◌, ◌*◌, ◌<◌, ◌≤◌, ◌≡◌, ◌≢◌, ◌⊎◌, inl, inr, Bool, true, false, Bool-cases, arith,
  refl, ap, ◌∙◌, sym, subst, ap₂,
}
use tinyos.Base.Sums.{total, total-change, total-le}
use tinyos.Symposium.{
  Place, outside, gone, thinks, asleep, woken, eats, Table, Turn, moves, rests, fails, is_hungry,
  is_eating, left, right, turn, Steps, here, there, symposium_table_init,
}
use tinyos.Symposium.Seats.{neighbours}
use tinyos.Symposium.Forks.{IsServed, state_of}
use tinyos.Symposium.Turns.{weight, Keeps, Goes, is_resting, turn-Goes}

abbrev pub is_gone : Place → Bool
is_gone gone = true
is_gone _ = false

-- The turns that the threads may still take.
abbrev to_go : Table → ℕ
to_go t = total t.n (λ i. weight t.bites (t.place i))

Keeps-to_go : (i : ℕ) (t u : Table) → i < t.n → Keeps i t u → to_go u < to_go t
Keeps-to_go i t u b k =
    let f : ℕ → ℕ = λ j. weight t.bites (t.place j) in
    let g : ℕ → ℕ = λ j. weight t.bites (u.place j) in
    let c = total-change t.n f g i b k.others in
    let e : to_go u ≡ total t.n g =
      ap₂ (λ n m. total n (λ j. weight m (u.place j))) k.size k.bites in
    omega (arith, c, k.nearer, e)

moves-Keeps : (i : ℕ) (t u : Table) → turn i t ≡ moves u → Goes i t (turn i t) → Keeps i t u
moves-Keeps i t u e g = subst (Goes i t) e g

pub record Follows (n bites k : ℕ) (t : Table) : Type 0 where
  pub size : t.n ≡ n
  pub served : IsServed t
  pub spent : k + to_go t ≤ n * (3 * bites + 2)

init-Follows : (n bites : ℕ) → Follows n bites 0 (symposium_table_init n bites)
unfolding symposium_table_init weight
init-Follows n bites = record {
  size = refl;
  served = record { apart = λ j b e. refl; fed = λ j b e. ground (arith, e); agrees = λ j. refl };
  spent =
      omega (arith, total-le n (3 * bites + 2) (λ i. weight bites outside) (λ i b. omega arith));
}

Steps-Follows :
    (n bites : ℕ) {k : ℕ} {t : Table}
    → 2 ≤ n
    → Steps (symposium_table_init n bites) k t
    → Follows n bites k t
Steps-Follows n bites h here = init-Follows n bites
Steps-Follows n bites h (there {k} {t} {u} i b s e) =
    let f = Steps-Follows n bites h s in
    let g = moves-Keeps i t u e (turn-Goes i t (omega (arith, h, f.size)) b f.served) in
    record {
      size = g.size ∙ f.size;
      served = g.served;
      spent = omega (arith, f.spent, Keeps-to_go i t u b g);
    }

-- A turn of a philosopher who does not rest moves.
Goes-moves :
    (i : ℕ) (t : Table) (r : Turn)
    → Goes i t r
    → is_resting (t.place i) ≡ false
    → (u : Table) × (r ≡ moves u)
Goes-moves i t (moves u) g h = (u, refl)
Goes-moves i t rests g h = absurd (ground (arith, g, h))
Goes-moves i t fails g h = absurd (ground (arith, g))

-- The search for a philosopher who does not rest.
find_mover :
    (m : ℕ) (place : ℕ → Place)
    → ((i : ℕ) → i < m → is_resting (place i) ≡ true)
      ⊎ ((i : ℕ) × (i < m) × (is_resting (place i) ≡ false))
find_mover zero place = inl (λ i h. absurd (omega arith))
find_mover (suc m) place = elim (find_mover m place) [
  | inr f ↦ inr (f.0, omega (arith, f.1), f.2)
  | inl h ↦ elim (Bool-cases (is_resting (place m))) [
    | inl r ↦ inl (λ i b. ground (arith, h i, r))
    | inr r ↦ inr (m, omega arith, r)
  ]
]

state_of-resting : (p : Place) → is_eating (state_of p) ≡ true → is_resting p ≡ false
state_of-resting outside e = absurd (ground (arith, e))
state_of-resting gone e = absurd (ground (arith, e))
state_of-resting (thinks k) e = absurd (ground (arith, e))
state_of-resting (asleep k) e = absurd (ground (arith, e))
state_of-resting (woken k) e = refl
state_of-resting (eats k) e = refl

resting-gone : (p : Place) → is_resting p ≡ true → is_hungry (state_of p) ≡ false → is_gone p ≡ true
resting-gone outside r h = r
resting-gone gone r h = refl
resting-gone (thinks k) r h = r
resting-gone (asleep k) r h = sym h
resting-gone (woken k) r h = r
resting-gone (eats k) r h = r

-- When nobody moves, nobody is hungry, since who is hungry has a neighbour who eats.
all_rest-gone :
    (t : Table)
    → 2 ≤ t.n
    → IsServed t
    → ((i : ℕ) → i < t.n → is_resting (t.place i) ≡ true)
    → (i : ℕ) → i < t.n
    → is_gone (t.place i) ≡ true
all_rest-gone t h v r i b =
    let m = neighbours i t.n h b in
    let idle : (j : ℕ) → j < t.n → is_eating (t.state j) ≡ false =
      λ j c. ground (arith, r j c, ap is_eating (v.agrees j), state_of-resting (t.place j)) in
    resting-gone (t.place i) (r i b) (
      ground (
        arith,
        v.fed i b,
        ap is_hungry (v.agrees i),
        idle (left i t.n) m.left_lt,
        idle (right i t.n) m.right_lt,
      ))

-- Who eats has no neighbour who eats, and who is hungry has one.
abbrev pub IsForked : (i n : ℕ) → Table → Type 0
IsForked i n t =
    (is_eating (t.state i) ≡ true
      → (is_eating (t.state (left i n)) ≡ false) × (is_eating (t.state (right i n)) ≡ false))
    × (is_hungry (t.state i) ≡ true
        → (is_eating (t.state (left i n)) ≡ true) ⊎ (is_eating (t.state (right i n)) ≡ true))

IsServed-IsForked : (i : ℕ) (t : Table) → 2 ≤ t.n → i < t.n → IsServed t → IsForked i t.n t
IsServed-IsForked i t h b v =
    let m = neighbours i t.n h b in
    let back = ap (λ j. is_eating (t.state j)) m.left_right in
    (λ e. (v.apart i b e, ground (arith, v.apart (right i t.n) m.right_lt, back, e)), v.fed i b)

-- In a symposium of at least two philosophers, at every table that turns lead to, who eats has no neighbour who
-- eats, and who is hungry has one.
pub symposium-IsForked :
    (n bites k i : ℕ) (t : Table)
    → 2 ≤ n
    → Steps (symposium_table_init n bites) k t
    → i < n
    → IsForked i n t
symposium-IsForked n bites k i t h s b =
    let f = Steps-Follows n bites h s in
    subst (λ m. IsForked i m t) f.size
      (IsServed-IsForked i t (omega (arith, h, f.size)) (omega (arith, b, f.size)) f.served)

-- In a symposium of at least two philosophers there are at most `3 * bites + 2` turns for each. No
-- turn fails an assertion, and while not all philosophers are gone one of them has a turn.
pub symposium-Ends :
    (n bites k : ℕ) (t : Table)
    → 2 ≤ n
    → Steps (symposium_table_init n bites) k t
    → (k ≤ n * (3 * bites + 2))
      × ((i : ℕ) → i < n → turn i t ≢ fails)
      × (((i : ℕ) → i < n → is_gone (t.place i) ≡ true)
          ⊎ ((i : ℕ) × (u : Table) × (i < n) × (turn i t ≡ moves u)))
symposium-Ends n bites k t h s =
    let f = Steps-Follows n bites h s in
    let h' : 2 ≤ t.n = omega (arith, h, f.size) in
    let goes : (i : ℕ) → i < n → Goes i t (turn i t) =
      λ i b. turn-Goes i t h' (omega (arith, b, f.size)) f.served in
    (
      omega (arith, f.spent),
      λ i b e. absurd (ground (arith, subst (Goes i t) e (goes i b))),
      elim (find_mover t.n t.place) [
        | inl r ↦ inl (λ i b. all_rest-gone t h' f.served r i (omega (arith, b, f.size)))
        | inr m ↦
            let (u, e) =
              Goes-moves m.0 t (turn m.0 t) (goes m.0 (omega (arith, m.1, f.size))) m.2 in
            inr (m.0, u, omega (arith, m.1, f.size), e)
      ],
    )
