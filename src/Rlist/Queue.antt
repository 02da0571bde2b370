-- ===== src/Rlist/Queue.antt =====
-- The list operations of util.h, each as what it does to the list that a sentinel stands for.
use tinyos.Base.{
  ℕ, ◌≡◌, ◌⊎◌, inl, inr, List, [], ◌∷◌, ◌++◌, arith, count-append, refl, ap, subst, append_assoc,
  append-nil, true, Bool,
}
use tinyos.Rlist.{
  Heap, rlnode_swap, rl_splice, rlist_remove, is_rlist_empty, rlist_push_front, rlist_push_back,
  rlist_pop_front, rlist_pop_back, rlist_append, rlist_prepend,
}
use tinyos.Rlist.Ring.{IsDistinct, IsList, Links-append, Links-split}
use tinyos.Rlist.Splice.{Links-rl_splice}

-- A ring may be read from any of its nodes.
IsList-rotate :
    (h : Heap) (l p : ℕ) (zs ws : List ℕ)
    → IsList h l (zs ++ (p ∷ ws))
    → IsList h p (ws ++ (l ∷ zs))
IsList-rotate h l p zs ws r =
    let (q, s) = Links-split h l p l zs ws r.links in
    record {
      links = Links-append h p l p ws zs s q;
      distinct =
          λ z. omega (arith, r.distinct z, count-append z zs (p ∷ ws), count-append z ws (l ∷ zs));
    }

-- Splicing two lists with no common node joins them: [a, x...] [b, y...] becomes
-- [a, y..., b, x...].
pub rl_splice-join :
    (h : Heap) (a b : ℕ) (xs ys : List ℕ)
    → IsList h a xs
    → IsList h b ys
    → IsDistinct ((a ∷ xs) ++ (b ∷ ys))
    → IsList (rl_splice a b h) a (ys ++ (b ∷ xs))
rl_splice-join h a b xs ys p q d =
    let both =
      Links-rl_splice h a b a b xs ys p.links q.links
        (λ z. omega (
          arith,
          d z,
          count-append z (a ∷ xs) (b ∷ ys),
          count-append z (xs ++ (a ∷ [])) (ys ++ (b ∷ [])),
          count-append z xs (a ∷ []),
          count-append z ys (b ∷ []),
        ))
        (inl (refl, refl)) in
    record {
      links = Links-append (rl_splice a b h) a b a ys xs both.1 both.0;
      distinct =
          λ z. omega (arith, d z, count-append z (a ∷ xs) (b ∷ ys), count-append z ys (b ∷ xs));
    }

-- Splicing at two nodes of one list splits it: [a, x..., b, y...] becomes [a, y...] [b, x...].
pub rl_splice-split :
    (h : Heap) (a b : ℕ) (xs ys : List ℕ)
    → IsList h a (xs ++ (b ∷ ys))
    → IsList (rl_splice a b h) a ys × IsList (rl_splice a b h) b xs
rl_splice-split h a b xs ys p =
    let (q, r) = Links-split h a b a xs ys p.links in
    let both =
      Links-rl_splice h a b b a xs ys q r
        (λ z. omega (
          arith,
          p.distinct z,
          count-append z xs (b ∷ ys),
          count-append z (xs ++ (b ∷ [])) (ys ++ (a ∷ [])),
          count-append z xs (b ∷ []),
          count-append z ys (a ∷ []),
        ))
        (inr (refl, refl)) in
    (
      record {
        links = both.1;
        distinct = λ z. omega (arith, p.distinct z, count-append z xs (b ∷ ys));
      },
      record {
        links = both.0;
        distinct = λ z. omega (arith, p.distinct z, count-append z xs (b ∷ ys));
      },
    )

-- A second splice of the same two nodes undoes the first, in any heap.
pub rl_splice-rl_splice :
    (h : Heap) (a b z : ℕ)
    → let g = rl_splice a b (rl_splice a b h) in
      (g.next z ≡ h.next z) × (g.prev z ≡ h.prev z) × (g.key z ≡ h.key z)
unfolding rl_splice rlnode_swap
rl_splice-rl_splice h a b z = ground arith

-- A list is empty, or has a last element.
pub snoc : (xs : List ℕ) → (xs ≡ []) ⊎ ((zs : List ℕ) × (p : ℕ) × (xs ≡ zs ++ (p ∷ [])))
snoc [] = inl refl
snoc (x ∷ xs) = elim (snoc xs) [
  | inl e ↦ inr ([], x, ap (λ l. x ∷ l) e)
  | inr (zs, p, e) ↦ inr (x ∷ zs, p, ap (λ l. x ∷ l) e)
]

prev_last : (h : Heap) (l p : ℕ) (zs : List ℕ) → IsList h l (zs ++ (p ∷ [])) → h.prev l ≡ p
prev_last h l p zs r = (Links-split h l p l zs [] r.links).1.1

-- Pushing the ring of `n` at the front of a list that shares no node with it.
pub rlist_push_front-IsList :
    (h : Heap) (l n : ℕ) (xs ys : List ℕ)
    → IsList h l xs
    → IsList h n ys
    → IsDistinct ((l ∷ xs) ++ (n ∷ ys))
    → IsList (rlist_push_front l n h) l (ys ++ (n ∷ xs))
unfolding rlist_push_front
rlist_push_front-IsList h l n xs ys p q d = rl_splice-join h l n xs ys p q d

push_back_nonempty :
    (h : Heap) (l n p : ℕ) (zs ys : List ℕ)
    → IsList h l (zs ++ (p ∷ []))
    → IsList h n ys
    → IsDistinct ((l ∷ zs ++ (p ∷ [])) ++ (n ∷ ys))
    → IsList (rl_splice p n h) l ((zs ++ (p ∷ [])) ++ (ys ++ (n ∷ [])))
push_back_nonempty h l n p zs ys r q d =
    let turned = IsList-rotate h l p zs [] r in
    let joined = rl_splice-join h p n (l ∷ zs) ys turned q (λ z. omega (
      arith,
      d z,
      count-append z (l ∷ zs ++ (p ∷ [])) (n ∷ ys),
      count-append z zs (p ∷ []),
      count-append z (p ∷ l ∷ zs) (n ∷ ys),
    )) in
    rw (append_assoc zs (p ∷ [])) (
      IsList-rotate (rl_splice p n h) p l (ys ++ (n ∷ [])) zs
        (rw (append_assoc ys (n ∷ []) (l ∷ zs)) joined))

-- Pushing the ring of `n` at the back of a list that shares no node with it: its own nodes come
-- first, then `n`. For a single node that is the node at the end.
pub rlist_push_back-IsList :
    (h : Heap) (l n : ℕ) (xs ys : List ℕ)
    → IsList h l xs
    → IsList h n ys
    → IsDistinct ((l ∷ xs) ++ (n ∷ ys))
    → IsList (rlist_push_back l n h) l (xs ++ (ys ++ (n ∷ [])))
unfolding rlist_push_back
rlist_push_back-IsList h l n xs ys p q d = elim (snoc xs) [
  | inl e ↦
      let p' = subst (λ k. IsList h l k) e p in
      rw (e, p'.links.1)
        (rl_splice-join h l n [] ys p' q (subst (λ k. IsDistinct ((l ∷ k) ++ (n ∷ ys))) e d))
  | inr (zs, b, e) ↦
      let p' = subst (λ k. IsList h l k) e p in
      rw (e, prev_last h l b zs p')
        (push_back_nonempty h l n b zs ys p' q (subst (λ k. IsDistinct ((l ∷ k) ++ (n ∷ ys))) e d))
]

-- `rlist_pop_front` of a nonempty list returns its head, which is then alone, and keeps the others in
-- order.
pub rlist_pop_front-IsList :
    (h : Heap) (l x : ℕ) (xs : List ℕ)
    → IsList h l (x ∷ xs)
    → let (y, g) = rlist_pop_front l h in (y ≡ x) × IsList g l xs × IsList g x []
unfolding rlist_pop_front
rlist_pop_front-IsList h l x xs p =
    let s = rl_splice-split h l x [] xs p in rw (p.links.0) (refl, s.0, s.1)

-- `rlist_pop_back` of a nonempty list returns the last element, but leaves the list empty: the other
-- elements stay, in order, in the ring of the last.
pub rlist_pop_back-IsList :
    (h : Heap) (l p : ℕ) (zs : List ℕ)
    → IsList h l (zs ++ (p ∷ []))
    → let (y, g) = rlist_pop_back l h in (y ≡ p) × IsList g l [] × IsList g p zs
unfolding rlist_pop_back
rlist_pop_back-IsList h l p zs r =
    let s = rl_splice-split h l p zs [] r in rw (prev_last h l p zs r) (refl, s.0, s.1)

remove_nonempty :
    (h : Heap) (a p : ℕ) (ws : List ℕ)
    → IsList h a (ws ++ (p ∷ []))
    → IsList (rlist_remove a h) a [] × IsList (rlist_remove a h) p ws
unfolding rlist_remove
remove_nonempty h a p ws r = rw (prev_last h a p ws r) (rl_splice-split h a p ws [] r)

-- Removing any element of a list leaves the others in their order, and the element alone in a list
-- of its own.
pub rlist_remove-IsList :
    (h : Heap) (l a : ℕ) (xs ys : List ℕ)
    → IsList h l (xs ++ (a ∷ ys))
    → IsList (rlist_remove a h) l (xs ++ ys) × IsList (rlist_remove a h) a []
rlist_remove-IsList h l a xs ys r = elim (snoc xs) [
  | inl e ↦
      let t = IsList-rotate h l a [] ys (subst (λ k. IsList h l (k ++ (a ∷ ys))) e r) in
      let s = remove_nonempty h a l ys t in rw e (s.1, s.0)
  | inr (zs, p, e) ↦
      let t =
        IsList-rotate h l a (zs ++ (p ∷ [])) ys (subst (λ k. IsList h l (k ++ (a ∷ ys))) e r) in
      let s = remove_nonempty h a p (ys ++ (l ∷ zs)) (rw (append_assoc ys (l ∷ zs) (p ∷ [])) t) in
      rw (e, append_assoc zs (p ∷ []) ys) (IsList-rotate (rlist_remove a h) p l ys zs s.1, s.0)
]

-- A sentinel says that its list is empty exactly when it is.
pub is_rlist_empty_iff :
    (h : Heap) (l : ℕ) (xs : List ℕ)
    → IsList h l xs
    → is_rlist_empty l h ≡ elim xs [ [] ↦ true | _ ∷ _ ↦ Bool.false ]
unfolding is_rlist_empty
is_rlist_empty_iff h l [] p = ground arith
is_rlist_empty_iff h l (x ∷ xs) p = ground (arith, p.distinct l)

-- For two lists with no common node, appending moves the elements of the source behind those of the
-- destination, in order, and empties the source.
pub rlist_append-IsList :
    (h : Heap) (l n : ℕ) (xs ys : List ℕ)
    → IsList h l xs
    → IsList h n ys
    → IsDistinct ((l ∷ xs) ++ (n ∷ ys))
    → IsList (rlist_append l n h) l (xs ++ ys) × IsList (rlist_append l n h) n []
unfolding rlist_append
rlist_append-IsList h l n xs ys p q d =
    let pushed = rlist_push_back-IsList h l n xs ys p q d in
    let g = rlist_push_back l n h in
    let s = rlist_remove-IsList g l n (xs ++ ys) [] (rw (append_assoc xs ys (n ∷ [])) pushed) in
    (rw (append-nil (xs ++ ys)) at s.0, s.1)

-- Prepending moves the elements of the source before those of the destination, in order, and
-- empties the source.
pub rlist_prepend-IsList :
    (h : Heap) (l n : ℕ) (xs ys : List ℕ)
    → IsList h l xs
    → IsList h n ys
    → IsDistinct ((l ∷ xs) ++ (n ∷ ys))
    → IsList (rlist_prepend l n h) l (ys ++ xs) × IsList (rlist_prepend l n h) n []
unfolding rlist_prepend
rlist_prepend-IsList h l n xs ys p q d =
    rlist_remove-IsList (rlist_push_front l n h) l n ys xs
      (rlist_push_front-IsList h l n xs ys p q d)
