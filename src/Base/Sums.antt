-- ===== src/Base/Sums.antt =====
-- Sums over the first numbers, and how they change with one summand.
use tinyos.Base.Tests.{◌==◌}
use Prim.Native.Nat.{ℕ, zero, suc, ◌+◌, ◌*◌, ◌≤◌, ◌<◌}
use mathlib.Core.Path.{◌≡◌, refl}
use mathlib.Core.Bool.{Bool}
use native.Mathlib.Omega.{arith}
use native.Mathlib.Decide.{dec_lt}

pub total : ℕ → (ℕ → ℕ) → ℕ
total zero f = 0
total (suc n) f = total n f + f n

pub total-same : (n : ℕ) (f g : ℕ → ℕ) → ((i : ℕ) → i < n → g i ≡ f i) → total n g ≡ total n f
unfolding total
total-same zero f g h = refl
total-same (suc n) f g h =
    omega (arith, total-same n f g (λ i q. h i (omega arith)), h n (omega arith))

-- Two families that agree but at `i`.
pub total-change :
    (n : ℕ) (f g : ℕ → ℕ) (i : ℕ)
    → i < n
    → ((j : ℕ) → (j == i) ≡ Bool.false → g j ≡ f j)
    → total n g + f i ≡ total n f + g i
unfolding total
total-change zero f g i h e = absurd (omega arith)
total-change (suc n) f g i h e = elim (dec_lt i n) [
  | yes below ↦ ground (arith, total-change n f g i below e, e n)
  | no last ↦ let same = total-same n f g (λ j q. e j (ground arith)) in ground arith
]

pub total-le : (n b : ℕ) (f : ℕ → ℕ) → ((i : ℕ) → i < n → f i ≤ b) → total n f ≤ n * b
unfolding total
total-le zero b f h = omega arith
total-le (suc n) b f h = omega (arith, total-le n b f (λ i q. h i (omega arith)), h n (omega arith))

pub total_ones : (n : ℕ) → total n (λ i. 1) ≡ n
unfolding total
total_ones zero = refl
total_ones (suc n) = omega (arith, total_ones n)
