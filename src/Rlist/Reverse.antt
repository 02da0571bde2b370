-- ===== src/Rlist/Reverse.antt =====
-- `rlist_reverse`: the loop over a ring that turns its links round.
use mathlib.Core.List.{reverse, reverse-cons}
use tinyos.Base.{
  ℕ, zero, suc, ◌<◌, ◌≡◌, List, [], ◌∷◌, ◌++◌, arith, count, count-append, ◌==◌, length,
  count-reverse, length-reverse, refl, subst, sym, ◌∙◌, false,
}
use tinyos.Rlist.{Heap, swap_links, reverse_loop, rlist_reverse}
use tinyos.Rlist.Ring.{Links, IsDistinct, IsList, Links-append}

-- The nodes `ws` that the backward links give from `p`, before they come to `l`.
abbrev Back : Heap → (p : ℕ) → List ℕ → (l : ℕ) → Type 0
Back h p [] l = h.prev p ≡ l
Back h p (w ∷ ws) l = (h.prev p ≡ w) × Back h w ws l

Back-same :
    (h g : Heap) (p l : ℕ) (ws : List ℕ)
    → ((z : ℕ) → 0 < count z (p ∷ ws) → g.prev z ≡ h.prev z)
    → Back h p ws l
    → Back g p ws l
Back-same h g p l [] e b = ground (arith, e p)
Back-same h g p l (w ∷ ws) e b =
    (ground (arith, e p), Back-same h g w l ws (λ z m. e z (omega arith)) b.1)

Back-append :
    (h : Heap) (p l x : ℕ) (ws : List ℕ)
    → Back h p ws x
    → h.prev x ≡ l
    → Back h p (ws ++ (x ∷ [])) l
Back-append h p l x [] b e = (b, e)
Back-append h p l x (w ∷ ws) b e = (b.0, Back-append h w l x ws b.1 e)

Links-Back : (h : Heap) (a c : ℕ) (xs : List ℕ) → Links h a xs c → Back h c (reverse xs) a
Links-Back h a c [] p = p.1
Links-Back h a c (x ∷ xs) p =
    subst (λ ws. Back h c ws a) (sym (reverse-cons x xs))
      (Back-append h c a x (reverse xs) (Links-Back h x c xs p.2) p.1)

-- The nodes `zs` have their two links swapped, the others not.
record Swapped (h g : Heap) (zs : List ℕ) : Type 0 where
  next : (z : ℕ) → 0 < count z zs → g.next z ≡ h.prev z
  prev : (z : ℕ) → 0 < count z zs → g.prev z ≡ h.next z
  other_next : (z : ℕ) → count z zs ≡ 0 → g.next z ≡ h.next z
  other_prev : (z : ℕ) → count z zs ≡ 0 → g.prev z ≡ h.prev z
  key : g.key ≡ h.key

swap_links-Swapped : (p : ℕ) (h : Heap) → Swapped h (swap_links p h) (p ∷ [])
unfolding swap_links
swap_links-Swapped p h = record {
  next = λ z m. ground arith;
  prev = λ z m. ground arith;
  other_next = λ z m. ground arith;
  other_prev = λ z m. ground arith;
  key = refl;
}

Swapped-cons :
    (h g k : Heap) (p : ℕ) (ws : List ℕ)
    → IsDistinct (p ∷ ws)
    → Swapped h g (p ∷ [])
    → Swapped g k ws
    → Swapped h k (p ∷ ws)
Swapped-cons h g k p ws d a b = record {
  next = λ z m. ground (arith, d z, a.next z, a.other_prev z, b.next z, b.other_next z);
  prev = λ z m. ground (arith, d z, a.prev z, a.other_next z, b.prev z, b.other_prev z);
  other_next = λ z m. ground (arith, a.other_next z, b.other_next z);
  other_prev = λ z m. ground (arith, a.other_prev z, b.other_prev z);
  key = b.key ∙ a.key;
}

reverse_loop-last :
    (fuel l p : ℕ) (h : Heap) → h.prev p ≡ l → reverse_loop (suc fuel) l p h ≡ swap_links p h
unfolding reverse_loop
reverse_loop-last fuel l p h e = ground (arith, e)

reverse_loop-more :
    (fuel l p w : ℕ) (h : Heap)
    → h.prev p ≡ w
    → (w == l) ≡ false
    → reverse_loop (suc fuel) l p h ≡ reverse_loop fuel l w (swap_links p h)
unfolding reverse_loop
reverse_loop-more fuel l p w h e n =
    let here : (swap_links p h).next p ≡ w = ground (arith, e) in rw here (rw n refl)

reverse_loop-Swapped :
    (fuel l p : ℕ) (ws : List ℕ) (h : Heap)
    → Back h p ws l
    → IsDistinct (p ∷ ws)
    → count l ws ≡ 0
    → length ws < fuel
    → Swapped h (reverse_loop fuel l p h) (p ∷ ws)
reverse_loop-Swapped zero l p ws h b d n f = absurd (omega arith)
reverse_loop-Swapped (suc fuel) l p [] h b d n f =
    subst (λ g. Swapped h g (p ∷ [])) (sym (reverse_loop-last fuel l p h b))
      (swap_links-Swapped p h)
reverse_loop-Swapped (suc fuel) l p (w ∷ ws) h b d n f =
    let s = swap_links-Swapped p h in
    let g = swap_links p h in
    let back = Back-same h g w l ws (λ z m. s.other_prev z (ground (arith, d z))) b.1 in
    subst (λ k. Swapped h k (p ∷ w ∷ ws))
      (sym (reverse_loop-more fuel l p w h b.0 (ground (arith, n))))
      (Swapped-cons h g (reverse_loop fuel l w g) p (w ∷ ws) d s (
        reverse_loop-Swapped fuel l w ws g back (λ z. omega (arith, d z)) (ground (arith, n))
          (omega (arith, f))))

Swapped-Links :
    (h g : Heap) (a c : ℕ) (xs : List ℕ)
    → ((z : ℕ) → 0 < count z (xs ++ (c ∷ [])) → g.next z ≡ h.prev z)
    → ((z : ℕ) → 0 < count z (a ∷ xs) → g.prev z ≡ h.next z)
    → Links h a xs c
    → Links g c (reverse xs) a
Swapped-Links h g a c [] n q p = (ground (arith, n c), ground (arith, q a))
Swapped-Links h g a c (x ∷ xs) n q p =
    subst (λ ws. Links g c ws a) (sym (reverse-cons x xs))
      (Links-append g c x a (reverse xs) []
        (Swapped-Links h g x c xs (λ z m. n z (omega arith)) (λ z m. q z (omega arith)) p.2)
        (ground (arith, n x), ground (arith, q a)))

-- Given more rounds than elements, `rlist_reverse` turns the order of a list round and keeps the keys.
pub rlist_reverse-IsList :
    (h : Heap) (l fuel : ℕ) (xs : List ℕ)
    → IsList h l xs
    → length xs < fuel
    → IsList (rlist_reverse fuel l h) l (reverse xs) × ((rlist_reverse fuel l h).key ≡ h.key)
unfolding rlist_reverse
rlist_reverse-IsList h l fuel xs p f =
    let g = rlist_reverse fuel l h in
    let c = λ (z : ℕ). count-reverse z xs in
    let s : Swapped h g (l ∷ reverse xs) =
      reverse_loop-Swapped fuel l l (reverse xs) h (Links-Back h l l xs p.links)
        (λ z. omega (arith, c z, p.distinct z)) (ground (arith, c l, p.distinct l))
        (omega (arith, f, length-reverse xs)) in
    (
      record {
        links =
            Swapped-Links h g l l xs
              (λ z m. s.next z (omega (arith, c z, m, count-append z xs (l ∷ []))))
              (λ z m. s.prev z (omega (arith, c z, m))) p.links;
        distinct = λ z. omega (arith, c z, p.distinct z);
      },
      s.key,
    )
