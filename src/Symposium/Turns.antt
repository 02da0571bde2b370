-- ===== src/Symposium/Turns.antt =====
-- The turns of the philosophers: each keeps the table served, and brings its philosopher nearer to the end.
use tinyos.Base.{
  ℕ, zero, suc, ◌+◌, ◌*◌, ◌<◌, ◌≤◌, ◌≡◌, inl, inr, ◌==◌, Bool, true, false, Bool-cases, arith, refl,
  ap, ◌∙◌, sym, subst,
}
use tinyos.Symposium.{
  nothere, thinking, hungry, Place, outside, gone, thinks, asleep, woken, eats, Table, Turn, moves,
  rests, fails, is_hungry, is_eating, left, right, wake, set_state, set_place, trytoeat,
  wait_hungry, get_hungry, done_eating, turn_from, turn,
}
use tinyos.Symposium.Seats.{Neighbours, neighbours}
use tinyos.Symposium.Forks.{
  IsServed, Apart, Fed, Agrees, state_of, trytoeat-Apart, trytoeat-Fed, trytoeat-feeds,
  trytoeat-Agrees, trytoeat-sizes, trytoeat-state, trytoeat-hungry,
}

-- How many turns a thread may still take.
unfoldable pub weight : (bites : ℕ) → Place → ℕ
weight bites outside = 3 * bites + 2
weight bites (thinks k) = 3 * k + 1
weight bites (asleep k) = 3 * k + 3
weight bites (woken k) = 3 * k + 3
weight bites (eats k) = 3 * k + 2
weight bites gone = 0

abbrev pub is_resting : Place → Bool
is_resting (asleep k) = true
is_resting gone = true
is_resting _ = false

-- A turn of the philosopher `i`.
pub record Keeps (i : ℕ) (t u : Table) : Type 0 where
  pub served : IsServed u
  pub size : u.n ≡ t.n
  pub bites : u.bites ≡ t.bites
  pub nearer : weight t.bites (u.place i) < weight t.bites (t.place i)
  pub others : (j : ℕ) → (j == i) ≡ false → weight t.bites (u.place j) ≡ weight t.bites (t.place j)

abbrev pub Goes : ℕ → Table → Turn → Type 0
Goes i t (moves u) = Keeps i t u
Goes i t rests = is_resting (t.place i) ≡ true
Goes i t fails = false ≡ true

wake-weight : (b : ℕ) (p : Place) → weight b (wake p) ≡ weight b p
unfolding wake weight
wake-weight b outside = refl
wake-weight b gone = refl
wake-weight b (thinks k) = refl
wake-weight b (asleep k) = refl
wake-weight b (woken k) = refl
wake-weight b (eats k) = refl

trytoeat-weight : (b i j : ℕ) (t : Table) → weight b ((trytoeat i t).place j) ≡ weight b (t.place j)
unfolding trytoeat
trytoeat-weight b i j t = ground (arith, wake-weight b (t.place j))

-- The table `u` inside a turn of the philosopher `i`, before the thread moves on to the place `p`.
record Readies (i : ℕ) (p : Place) (t u : Table) : Type 0 where
  apart : (j : ℕ) → j < t.n → Apart j u
  fed : (j : ℕ) → j < t.n → Fed j u
  agrees : (j : ℕ) → (j == i) ≡ false → Agrees j u
  here : u.state i ≡ state_of p
  size : u.n ≡ t.n
  bites : u.bites ≡ t.bites
  nearer : weight t.bites p < weight t.bites (t.place i)
  others : (j : ℕ) → weight t.bites (u.place j) ≡ weight t.bites (t.place j)

Readies-Keeps : (i : ℕ) (p : Place) (t u : Table) → Readies i p t u → Keeps i t (set_place i p u)
Readies-Keeps i p t u r = record {
  served = record {
    apart = λ j b. r.apart j (omega (arith, b, r.size));
    fed = λ j b. r.fed j (omega (arith, b, r.size));
    agrees = λ j. ground (arith, r.agrees j, r.here);
  };
  size = r.size;
  bites = r.bites;
  nearer = ground (arith, r.nearer);
  others = λ j h. ground (arith, r.others j, h);
}

-- A philosopher who does not eat starts to think or leaves.
quiet-Readies :
    (i : ℕ) (p : Place) (t : Table)
    → is_eating (t.state i) ≡ false
    → is_eating (state_of p) ≡ false
    → is_hungry (state_of p) ≡ false
    → weight t.bites p < weight t.bites (t.place i)
    → IsServed t
    → Readies i p t (set_state i (state_of p) t)
quiet-Readies i p t e e' h w v = record {
  apart = λ j b. ground (arith, v.apart j b, e, e', h);
  fed = λ j b. ground (arith, v.fed j b, e, e', h);
  agrees = λ j ne. ground (arith, v.agrees j);
  here = ground arith;
  size = refl;
  bites = refl;
  nearer = w;
  others = λ j. refl;
}

-- A philosopher who has been woken eats.
woken-Readies : (i k : ℕ) (t : Table) → t.place i ≡ woken k → IsServed t → Readies i (eats k) t t
unfolding weight
woken-Readies i k t e v = record {
  apart = v.apart;
  fed = v.fed;
  agrees = λ j h. v.agrees j;
  here = v.agrees i ∙ ap state_of e;
  size = refl;
  bites = refl;
  nearer = ground (arith, ap (weight t.bites) e);
  others = λ j. refl;
}

-- A philosopher who thinks gets hungry, and eats if she can.
hungry-Readies :
    (i k : ℕ) (p : Place) (t : Table)
    → 2 ≤ t.n
    → t.place i ≡ thinks (suc k)
    → (trytoeat i (set_state i hungry t)).state i ≡ state_of p
    → weight t.bites p < weight t.bites (thinks (suc k))
    → IsServed t
    → Readies i p t (trytoeat i (set_state i hungry t))
hungry-Readies i k p t h e st w v =
    let t0 = set_state i hungry t in
    let s = trytoeat-sizes i t0 in
    let quiet = v.agrees i ∙ ap state_of e in
    record {
      apart = λ j b. trytoeat-Apart i j t0 h b (ground (arith, v.apart j b, quiet));
      fed = λ j b. elim (Bool-cases (j == i)) [
        | inl same ↦ subst (λ q. Fed q (trytoeat i t0)) (ground (arith, same)) (trytoeat-feeds i t0)
        | inr other ↦ trytoeat-Fed i j t0 (ground (arith, v.fed j b, quiet, other))
      ];
      agrees = λ j ne. trytoeat-Agrees i j t0 (ground (arith, v.agrees j, ne));
      here = st;
      size = s.0;
      bites = s.1;
      nearer = ground (arith, w, ap (weight t.bites) e);
      others = λ j. trytoeat-weight t.bites i j t0;
    }

not_left : (i j n : ℕ) → Neighbours j n → (j == right i n) ≡ false → (left j n == i) ≡ false
not_left i j n m h = ground (arith, λ (e : left j n ≡ i). ap (λ x. right x n) e, m.right_left, h)

not_right : (i j n : ℕ) → Neighbours j n → (j == left i n) ≡ false → (right j n == i) ≡ false
not_right i j n m h = ground (arith, λ (e : right j n ≡ i). ap (λ x. left x n) e, m.left_right, h)

-- A philosopher starts to think who is no neighbour.
thinking-Fed :
    (i j : ℕ) (t : Table)
    → (left j t.n == i) ≡ false
    → (right j t.n == i) ≡ false
    → Fed j t
    → Fed j (set_state i thinking t)
thinking-Fed i j t l r f = ground (arith, l, r, f)

-- A philosopher who eats starts to think, and her neighbours try.
done-Readies :
    (i k : ℕ) (t : Table)
    → 2 ≤ t.n
    → i < t.n
    → t.place i ≡ eats k
    → IsServed t
    → Readies i (thinks k) t (done_eating i t)
unfolding done_eating weight
done-Readies i k t h b e v =
    let t0 = set_state i thinking t in
    let l = left i t.n in
    let r = right i t.n in
    let t1 = trytoeat l t0 in
    let s0 = trytoeat-sizes l t0 in
    let s1 = trytoeat-sizes r t1 in
    let eater = v.agrees i ∙ ap state_of e in
    let st0 : t0.state i ≡ thinking = ground arith in
    let st1 : t1.state i ≡ thinking = trytoeat-state l i t0 (ap is_hungry st0) ∙ st0 in
    record {
      apart = λ j c.
          trytoeat-Apart r j t1 (omega (arith, h, s0.0)) (omega (arith, c, s0.0))
            (trytoeat-Apart l j t0 h c (ground (arith, v.apart j c)));
      fed = λ j c. elim (Bool-cases (j == r)) [
        | inl same ↦ subst (λ q. Fed q (trytoeat r t1)) (ground (arith, same)) (trytoeat-feeds r t1)
        | inr other ↦ trytoeat-Fed r j t1 (elim (Bool-cases (j == l)) [
          | inl same ↦ subst (λ q. Fed q t1) (ground (arith, same)) (trytoeat-feeds l t0)
          | inr next ↦ trytoeat-Fed l j t0 (
              thinking-Fed i j t (not_left i j t.n (neighbours j t.n h c) other)
                (not_right i j t.n (neighbours j t.n h c) next) (v.fed j c))
        ])
      ];
      agrees =
          λ j ne. trytoeat-Agrees r j t1 (trytoeat-Agrees l j t0 (ground (arith, v.agrees j, ne)));
      here = trytoeat-state r i t1 (ap is_hungry st1) ∙ st1;
      size = s1.0 ∙ s0.0;
      bites = s1.1 ∙ s0.1;
      nearer = ground (arith, ap (weight t.bites) e);
      others = λ j. trytoeat-weight t.bites r j t1 ∙ trytoeat-weight t.bites l j t0;
    }

get_hungry-Goes :
    (i k : ℕ) (t : Table)
    → 2 ≤ t.n
    → t.place i ≡ thinks (suc k)
    → IsServed t
    → Goes i t (get_hungry i k t)
unfolding get_hungry weight
get_hungry-Goes i k t h e v =
    let t1 = trytoeat i (set_state i hungry t) in
    elim (trytoeat-hungry i (set_state i hungry t) (ground arith)) [
      | inl waits ↦
          subst (λ p. Goes i t (wait_hungry i k p t1)) (sym waits)
            (Readies-Keeps i (asleep k) t t1
              (hungry-Readies i k (asleep k) t h e waits (omega arith) v))
      | inr served ↦
          subst (λ p. Goes i t (wait_hungry i k p t1)) (sym served)
            (Readies-Keeps i (eats k) t t1
              (hungry-Readies i k (eats k) t h e served (omega arith) v))
    ]

turn_from-Goes :
    (p : Place) (i : ℕ) (t : Table)
    → 2 ≤ t.n
    → i < t.n
    → t.place i ≡ p
    → IsServed t
    → Goes i t (turn_from p i t)
unfolding turn_from weight
turn_from-Goes outside i t h b e v =
    let st = v.agrees i ∙ ap state_of e in
    Readies-Keeps i (thinks t.bites) t (set_state i thinking t) (
      quiet-Readies i (thinks t.bites) t (ap is_eating st) refl refl
        (ground (arith, ap (weight t.bites) e)) v)
turn_from-Goes (thinks zero) i t h b e v =
    let st = v.agrees i ∙ ap state_of e in
    Readies-Keeps i gone t (set_state i nothere t)
      (quiet-Readies i gone t (ap is_eating st) refl refl (ground (arith, ap (weight t.bites) e)) v)
turn_from-Goes (thinks (suc k)) i t h b e v = get_hungry-Goes i k t h e v
turn_from-Goes (asleep k) i t h b e v = ap is_resting e
turn_from-Goes (woken k) i t h b e v =
    subst (λ q. Goes i t (wait_hungry i k q t)) (sym (v.agrees i ∙ ap state_of e))
      (Readies-Keeps i (eats k) t t (woken-Readies i k t e v))
turn_from-Goes (eats k) i t h b e v =
    Readies-Keeps i (thinks k) t (done_eating i t) (done-Readies i k t h b e v)
turn_from-Goes gone i t h b e v = ap is_resting e

pub turn-Goes : (i : ℕ) (t : Table) → 2 ≤ t.n → i < t.n → IsServed t → Goes i t (turn i t)
unfolding turn
turn-Goes i t h b v = turn_from-Goes (t.place i) i t h b refl v
