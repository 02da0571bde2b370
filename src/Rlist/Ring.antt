-- ===== src/Rlist/Ring.antt =====
-- When the nodes of a heap form a path, a ring and a list.
use tinyos.Base.{ℕ, ◌≤◌, ◌<◌, ◌≡◌, ◌≢◌, List, [], ◌∷◌, ◌++◌, arith, count}
use tinyos.Rlist.{Heap}

-- From `a` the nodes `xs` lead, in order, to `c`; each link is there in both directions.
abbrev pub Links : Heap → ℕ → List ℕ → ℕ → Type 0
Links h a [] c = (h.next a ≡ c) × (h.prev c ≡ a)
Links h a (x ∷ xs) c = (h.next a ≡ x) × (h.prev x ≡ a) × Links h x xs c

-- No node stands in the list twice.
abbrev pub IsDistinct : List ℕ → Type 0
IsDistinct xs = (z : ℕ) → count z xs ≤ 1

-- The ring through `l` and then `xs`, which as a list with sentinel `l` is the list `xs`.
pub record IsList (h : Heap) (l : ℕ) (xs : List ℕ) : Type 0 where
  pub links : Links h l xs l
  pub distinct : IsDistinct (l ∷ xs)

pub Links-append :
    (h : Heap) (a b c : ℕ) (xs ys : List ℕ)
    → Links h a xs b
    → Links h b ys c
    → Links h a (xs ++ (b ∷ ys)) c
Links-append h a b c [] ys p q = (p.0, p.1, q)
Links-append h a b c (x ∷ xs) ys p q = (p.0, p.1, Links-append h x b c xs ys p.2 q)

-- A path splits at each of its nodes.
pub Links-split :
    (h : Heap) (a b c : ℕ) (xs ys : List ℕ)
    → Links h a (xs ++ (b ∷ ys)) c
    → Links h a xs b × Links h b ys c
Links-split h a b c [] ys p = ((p.0, p.1), p.2)
Links-split h a b c (x ∷ xs) ys p = let (q, r) = Links-split h x b c xs ys p.2 in ((p.0, p.1, q), r)

module _ (h g : Heap) where
  -- A path stays if the forward links of its first nodes and the backward links of its last stay.
  pub Links-same :
      (a c : ℕ) (xs : List ℕ)
      → Links h a xs c
      → ((z : ℕ) → 0 < count z (a ∷ xs) → g.next z ≡ h.next z)
      → ((z : ℕ) → 0 < count z (xs ++ (c ∷ [])) → g.prev z ≡ h.prev z)
      → Links g a xs c
  Links-same a c [] p n q = (ground (arith, n a), ground (arith, q c))
  Links-same a c (x ∷ xs) p n q = (
    ground (arith, n a),
    ground (arith, q x),
    Links-same x c xs p.2 (λ z m. n z (omega arith)) (λ z m. q z (omega arith)),
  )

  -- The path from `a`, taken over by `b`.
  pub Links-redirect :
      (a b c : ℕ) (xs : List ℕ)
      → Links h a xs c
      → g.next b ≡ h.next a
      → g.prev (h.next a) ≡ b
      → ((z : ℕ) → 0 < count z xs → g.next z ≡ h.next z)
      → ((z : ℕ) → z ≢ h.next a → 0 < count z (xs ++ (c ∷ [])) → g.prev z ≡ h.prev z)
      → IsDistinct (xs ++ (c ∷ []))
      → Links g b xs c
  Links-redirect a b c [] p n q same prev d = (ground arith, ground arith)
  Links-redirect a b c (x ∷ xs) p n q same prev d = (
    ground arith,
    ground arith,
    Links-same x c xs p.2 same (λ z m. prev z (ground (arith, d z)) (omega arith)),
  )
