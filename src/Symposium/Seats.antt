-- ===== src/Symposium/Seats.antt =====
-- The neighbours at the table: `LEFT` and `RIGHT`.
use tinyos.Base.{
  ℕ, zero, suc, ◌-◌, ◌%◌, ◌<◌, ◌≤◌, ◌≡◌, ◌⊎◌, inl, inr, ◌==◌, false, arith, refl, ◌∙◌, ap,
}
use tinyos.Symposium.{left, right}
use native.Mathlib.Nat.{mod-eq_of_lt, add-mod_right}

pub left-cases :
    (i n : ℕ) → i < n → ((suc i < n) × (left i n ≡ suc i)) ⊎ ((suc i ≡ n) × (left i n ≡ 0))
unfolding left
left-cases i n h = grind arith

pub right-cases :
    (i n : ℕ) → i < n → ((i ≡ 0) × (right i n ≡ n - 1)) ⊎ ((0 < i) × (right i n ≡ i - 1))
unfolding right
right-cases zero n h = inl (refl, mod-eq_of_lt (omega arith) ∙ omega arith)
right-cases (suc j) n h = inr (
  omega arith,
  ap (λ k. k % n) (omega arith) ∙ add-mod_right j n ∙ mod-eq_of_lt (omega arith) ∙ omega arith,
)

-- What the proofs use of the neighbours of a seat at a table of at least two.
pub record Neighbours (i n : ℕ) : Type 0 where
  pub left_lt : left i n < n
  pub right_lt : right i n < n
  pub left_ne : (left i n == i) ≡ false
  pub right_ne : (right i n == i) ≡ false
  pub right_left : right (left i n) n ≡ i
  pub left_right : left (right i n) n ≡ i

pub neighbours : (i n : ℕ) → 2 ≤ n → i < n → Neighbours i n
neighbours i n h b =
    let l = left-cases i n b in
    let r = right-cases i n b in
    let rl = right-cases (left i n) n in
    let lr = left-cases (right i n) n in
    record {
      left_lt = ground (arith, l);
      right_lt = ground (arith, r);
      left_ne = ground (arith, l);
      right_ne = ground (arith, r);
      right_left = ground (arith, l, rl);
      left_right = ground (arith, r, lr);
    }
