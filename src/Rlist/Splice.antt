-- ===== src/Rlist/Splice.antt =====
-- The two transformations that util.h documents for the splice: it joins two rings, and it splits one.
use tinyos.Base.{ℕ, ◌<◌, ◌≡◌, ◌≢◌, ◌⊎◌, List, [], ◌∷◌, ◌++◌, arith, count, count-append}
use tinyos.Rlist.{Heap, rlnode_swap, rl_splice}
use tinyos.Rlist.Ring.{Links, IsDistinct, Links-redirect}

-- The node behind the start of a path.
first : List ℕ → ℕ → ℕ
first [] c = c
first (x ∷ xs) c = x

first_next :
    (h : Heap) (a c : ℕ) (xs : List ℕ)
    → Links h a xs c
    → (h.next a ≡ first xs c) × (h.prev (first xs c) ≡ a)
unfolding first
first_next h a c [] p = p
first_next h a c (x ∷ xs) p = (p.0, p.1)

first_mem : (xs : List ℕ) (c : ℕ) → 0 < count (first xs c) (xs ++ (c ∷ []))
unfolding first
first_mem [] c = ground arith
first_mem (x ∷ xs) c = ground arith

-- Two paths whose nodes are all distinct exchange their starts.
pub Links-rl_splice :
    (h : Heap) (a b c d : ℕ) (xs ys : List ℕ)
    → Links h a xs c
    → Links h b ys d
    → IsDistinct ((xs ++ (c ∷ [])) ++ (ys ++ (d ∷ [])))
    → (((a ≡ c) × (b ≡ d)) ⊎ ((a ≡ d) × (b ≡ c)))
    → Links (rl_splice a b h) b xs c × Links (rl_splice a b h) a ys d
unfolding rl_splice rlnode_swap
Links-rl_splice h a b c d xs ys p q dis ends =
    let fp = first_next h a c xs p in
    let fq = first_next h b d ys q in
    let mp = first_mem xs c in
    let mq = first_mem ys d in
    let g = rl_splice a b h in
    let app = λ (z : ℕ). count-append z (xs ++ (c ∷ [])) (ys ++ (d ∷ [])) in
    let ax = λ (z : ℕ). count-append z xs (c ∷ []) in
    let ay = λ (z : ℕ). count-append z ys (d ∷ []) in
    let apart : h.next a ≢ h.next b = λ e. ground (arith, app (h.next a), dis (h.next a)) in
    let ab : a ≢ b = ground (arith, app a, ax a, ay a, dis a) in
    (
      Links-redirect h g a b c xs p (ground arith) (ground arith)
          (λ z m. ground (arith, app z, ax z, ay z, dis z)) (λ z ne m. ground (arith, app z, dis z))
          (λ z. omega (arith, app z, dis z)),
      Links-redirect h g b a d ys q (ground arith) (ground arith)
          (λ z m. ground (arith, app z, ax z, ay z, dis z)) (λ z ne m. ground (arith, app z, dis z))
          (λ z. omega (arith, app z, dis z)),
    )
