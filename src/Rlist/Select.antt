-- ===== src/Rlist/Select.antt =====
-- `rlist_select`: moving the nodes of one list that satisfy a test behind another.
use tinyos.Base.{
  ℕ, zero, suc, ◌+◌, ◌≤◌, ◌<◌, ◌≡◌, List, [], ◌∷◌, ◌++◌, arith, count, count-append, ◌==◌,
  if◌then◌else◌, length, refl, subst, true, false, Bool, Bool-cases, inl, inr, append_assoc,
  append-nil, not,
}
use tinyos.Rlist.{
  Heap, rl_splice, rlnode_swap, rlist_remove, rlist_push_back, select_loop, rlist_select,
}
use tinyos.Rlist.Ring.{Links, IsList, Links-same}
use tinyos.Rlist.Queue.{rlist_remove-IsList, rlist_push_back-IsList}

-- The elements that satisfy the test, in their order.
pub select : (ℕ → Bool) → List ℕ → List ℕ
select pred [] = []
select pred (x ∷ xs) = if pred x then x ∷ select pred xs else select pred xs

-- The links of a ring stay in the ring.
Links-next :
    (h : Heap) (a c z : ℕ) (xs : List ℕ)
    → Links h a xs c
    → 0 < count z (a ∷ xs)
    → 0 < count (h.next z) (xs ++ (c ∷ []))
Links-next h a c z [] p m = ground (arith, p)
Links-next h a c z (x ∷ xs) p m = ground (arith, p, Links-next h x c z xs p.2)

Links-prev :
    (h : Heap) (a c z : ℕ) (xs : List ℕ)
    → Links h a xs c
    → 0 < count z (xs ++ (c ∷ []))
    → 0 < count (h.prev z) (a ∷ xs)
Links-prev h a c z [] p m = ground (arith, p)
Links-prev h a c z (x ∷ xs) p m = ground (arith, p, Links-prev h x c z xs p.2)

module _ (h : Heap) (l : ℕ) (xs : List ℕ) (p : IsList h l xs) where
  IsList-next : (z : ℕ) → 0 < count z (l ∷ xs) → 0 < count (h.next z) (l ∷ xs)
  IsList-next z m =
      omega (arith, Links-next h l l z xs p.links m, count-append (h.next z) xs (l ∷ []))

  IsList-prev : (z : ℕ) → 0 < count z (l ∷ xs) → 0 < count (h.prev z) (l ∷ xs)
  IsList-prev z m = Links-prev h l l z xs p.links (omega (arith, m, count-append z xs (l ∷ [])))

  -- A splice at two nodes of another ring leaves a ring as it is.
  rl_splice-frame :
      (a b : ℕ)
      → count a (l ∷ xs) ≡ 0
      → count b (l ∷ xs) ≡ 0
      → count (h.next a) (l ∷ xs) ≡ 0
      → count (h.next b) (l ∷ xs) ≡ 0
      → IsList (rl_splice a b h) l xs
  unfolding rl_splice rlnode_swap
  rl_splice-frame a b na nb ma mb = record {
    links =
        Links-same h (rl_splice a b h) l l xs p.links (λ z m. ground (arith, na, nb, m))
          (λ z m. ground (arith, ma, mb, m, count-append z xs (l ∷ [])));
    distinct = p.distinct;
  }

-- Two lists without a common node.
abbrev pub AreApart : (s : ℕ) → List ℕ → (d : ℕ) → List ℕ → Type 0
AreApart s xs d ys = (z : ℕ) → count z (s ∷ xs) + count z (d ∷ ys) ≤ 1

-- One node moves from the list `s` to the back of the list `d`.
module _ (h : Heap) (s d x : ℕ) (zs rest ys : List ℕ) (p : IsList h s (zs ++ (x ∷ rest)))
    (q : IsList h d ys) (a : AreApart s (zs ++ (x ∷ rest)) d ys) where
  removed-IsList : IsList (rlist_remove x h) d ys
  unfolding rlist_remove
  removed-IsList =
      let xs = zs ++ (x ∷ rest) in
      let here : 0 < count x (s ∷ xs) = ground (arith, count-append x zs (x ∷ rest)) in
      let back = IsList-prev h s xs p x here in
      rl_splice-frame h d ys q x (h.prev x) (omega (arith, a x, here))
        (omega (arith, a (h.prev x), back))
        (omega (arith, a (h.next x), IsList-next h s xs p x here))
        (omega (arith, a (h.next (h.prev x)), IsList-next h s xs p (h.prev x) back))

  -- One node moves from the list `s` to the back of the list `d`.
  moved-IsList :
      IsList (rlist_push_back d x (rlist_remove x h)) s (zs ++ rest)
      × IsList (rlist_push_back d x (rlist_remove x h)) d (ys ++ (x ∷ []))
  unfolding rlist_push_back
  moved-IsList =
      let g = rlist_remove x h in
      let (r, alone) = rlist_remove-IsList h s x zs rest p in
      let t = removed-IsList in
      let c = λ (z : ℕ). count-append z zs (x ∷ rest) in
      let c' = λ (z : ℕ). count-append z zs rest in
      let here : 0 < count d (d ∷ ys) = ground arith in
      let back = IsList-prev g d ys t d here in
      (
        rl_splice-frame g s (zs ++ rest) r (g.prev d) x
            (omega (arith, a (g.prev d), back, c (g.prev d), c' (g.prev d)))
            (ground (arith, p.distinct x, c x, c' x))
            (omega (
              arith,
              a (g.next (g.prev d)),
              IsList-next g d ys t (g.prev d) back,
              c (g.next (g.prev d)),
              c' (g.next (g.prev d)),
            ))
            (ground (arith, alone.links.0, p.distinct x, c x, c' x)),
        rlist_push_back-IsList g d x ys [] t alone
            (λ z. omega (arith, a z, c z, count-append z (d ∷ ys) (x ∷ []))),
      )

select_loop-end :
    (fuel s d i : ℕ) (pred : ℕ → Bool) (h : Heap)
    → h.next i ≡ s
    → select_loop (suc fuel) s d pred i h ≡ h
unfolding select_loop
select_loop-end fuel s d i pred h e = ground (arith, e)

select_loop-moved :
    (fuel s d i x : ℕ) (pred : ℕ → Bool) (h : Heap)
    → h.next i ≡ x
    → (x == s) ≡ false
    → pred x ≡ true
    → select_loop (suc fuel) s d pred i h
      ≡ select_loop fuel s d pred i (rlist_push_back d x (rlist_remove x h))
unfolding select_loop
select_loop-moved fuel s d i x pred h e n t = rw e (rw n (rw t refl))

select_loop-kept :
    (fuel s d i x : ℕ) (pred : ℕ → Bool) (h : Heap)
    → h.next i ≡ x
    → (x == s) ≡ false
    → pred x ≡ false
    → select_loop (suc fuel) s d pred i h ≡ select_loop fuel s d pred x h
unfolding select_loop
select_loop-kept fuel s d i x pred h e n t = rw e (rw n (rw t refl))

-- The last node of a path.
last : ℕ → List ℕ → ℕ
last a [] = a
last a (x ∷ xs) = last x xs

last-append : (a x : ℕ) (zs : List ℕ) → last a (zs ++ (x ∷ [])) ≡ x
unfolding last
last-append a x [] = refl
last-append a x (z ∷ zs) = last-append z x zs

next_last :
    (h : Heap) (a c x : ℕ) (zs rest : List ℕ)
    → Links h a (zs ++ (x ∷ rest)) c
    → h.next (last a zs) ≡ x
unfolding last
next_last h a c x [] rest p = p.0
next_last h a c x (z ∷ zs) rest p = next_last h z c x zs rest p.2

next_end : (h : Heap) (a c : ℕ) (zs : List ℕ) → Links h a (zs ++ []) c → h.next (last a zs) ≡ c
unfolding last
next_end h a c [] p = p.0
next_end h a c (z ∷ zs) p = next_end h z c zs p.2

-- Both lists behind a selection: `zs` has been passed, and `rest` is still to come.
abbrev IsSelected : (pred : ℕ → Bool) → (s d : ℕ) → (zs rest ys : List ℕ) → Heap → Type 0
IsSelected pred s d zs rest ys g =
    IsList g s (zs ++ select (λ z. not (pred z)) rest) × IsList g d (ys ++ select pred rest)

IsSelected-moved :
    (pred : ℕ → Bool) (s d x : ℕ) (zs rest ys : List ℕ) (g : Heap)
    → pred x ≡ true
    → IsSelected pred s d zs rest (ys ++ (x ∷ [])) g
    → IsSelected pred s d zs (x ∷ rest) ys g
unfolding select
IsSelected-moved pred s d x zs rest ys g t r =
    rw t (r.0, rw (append_assoc ys (x ∷ []) (select pred rest)) at r.1)

IsSelected-kept :
    (pred : ℕ → Bool) (s d x : ℕ) (zs rest ys : List ℕ) (g : Heap)
    → pred x ≡ false
    → IsSelected pred s d (zs ++ (x ∷ [])) rest ys g
    → IsSelected pred s d zs (x ∷ rest) ys g
unfolding select
IsSelected-kept pred s d x zs rest ys g t r =
    rw t (rw (append_assoc zs (x ∷ []) (select (λ z. not (pred z)) rest)) at r.0, r.1)

IsSelected-end :
    (pred : ℕ → Bool) (s d : ℕ) (zs ys : List ℕ) (h : Heap)
    → IsList h s (zs ++ [])
    → IsList h d ys
    → IsSelected pred s d zs [] ys h
unfolding select
IsSelected-end pred s d zs ys h p q = (p, rw (append-nil ys) q)

select_loop-IsSelected :
    (pred : ℕ → Bool) (s d fuel : ℕ) (zs rest ys : List ℕ) (h : Heap)
    → IsList h s (zs ++ rest)
    → IsList h d ys
    → AreApart s (zs ++ rest) d ys
    → length rest < fuel
    → IsSelected pred s d zs rest ys (select_loop fuel s d pred (last s zs) h)
select_loop-IsSelected pred s d zero zs rest ys h p q a f = absurd (omega arith)
select_loop-IsSelected pred s d (suc fuel) zs [] ys h p q a f =
    rw (select_loop-end fuel s d (last s zs) pred h (next_end h s s zs p.links))
      (IsSelected-end pred s d zs ys h p q)
select_loop-IsSelected pred s d (suc fuel) zs (x ∷ rest) ys h p q a f =
    let e = next_last h s s x zs rest p.links in
    let c = λ (z : ℕ). count-append z zs (x ∷ rest) in
    let c' = λ (z : ℕ). count-append z zs rest in
    let n : (x == s) ≡ false = ground (arith, p.distinct s, c s) in
    elim (Bool-cases (pred x)) [
      | inl t ↦
          let g = rlist_push_back d x (rlist_remove x h) in
          let (r, w) = moved-IsList h s d x zs rest ys p q a in
          rw (select_loop-moved fuel s d (last s zs) x pred h e n t) (
            IsSelected-moved pred s d x zs rest ys (select_loop fuel s d pred (last s zs) g) t (
              select_loop-IsSelected pred s d fuel zs rest (ys ++ (x ∷ [])) g r w
                (λ z. omega (arith, a z, c z, c' z, count-append z ys (x ∷ [])))
                (omega (arith, f))))
      | inr t ↦
          let at_x = last-append s x zs in
          let join = append_assoc zs (x ∷ []) rest in
          let more =
            select_loop-IsSelected pred s d fuel (zs ++ (x ∷ [])) rest ys h (rw join p) q
              (rw join a) (omega (arith, f)) in
          rw (select_loop-kept fuel s d (last s zs) x pred h e n t) (
            IsSelected-kept pred s d x zs rest ys (select_loop fuel s d pred x h) t (
              subst
                (λ i. IsSelected pred s d (zs ++ (x ∷ [])) rest ys (select_loop fuel s d pred i h))
                at_x more))
    ]

-- Given more rounds than elements, `rlist_select` between two lists without a common node takes out of
-- the first the elements that satisfy the test, and puts them behind those of the second, all in their
-- order.
pub rlist_select-select :
    (pred : ℕ → Bool) (s d fuel : ℕ) (xs ys : List ℕ) (h : Heap)
    → IsList h s xs
    → IsList h d ys
    → AreApart s xs d ys
    → length xs < fuel
    → let g = rlist_select fuel s d pred h in
      IsList g s (select (λ z. not (pred z)) xs) × IsList g d (ys ++ select pred xs)
unfolding rlist_select last
rlist_select-select pred s d fuel xs ys h p q a f =
    select_loop-IsSelected pred s d fuel [] xs ys h p q a f
