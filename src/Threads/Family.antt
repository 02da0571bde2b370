-- ===== src/Threads/Family.antt =====
-- The exit of a process keeps the tree of processes.
use tinyos.Base.{
  List-cases, inl, inr, ℕ, ◌+◌, ◌≡◌, ◌≢◌, List, [], ◌∷◌, ◌++◌, some, if◌then◌else◌, count,
  count-append, arith, ltb, ◌==◌, refl, ◌∙◌,
}
use tinyos.Kernel.{Kernel, Pcb, broadcast_child_exit}
use tinyos.Kernel.Family.{broadcast_child_exit-SameFamily}
use tinyos.Threads.{adopt_child, adopt_children, move_exited, adopt_exited, put_exited}

-- What the children `cs` of `p` being given to `i` comes to.
pub record Adopted (i p : ℕ) (cs : List ℕ) (pt pt' : ℕ → Pcb) : Type 0 where
  pub parent : (x : ℕ) → (pt' x).parent ≡ (if ltb 0 (count x cs) then some i else (pt x).parent)
  pub left : (pt' p).children_list ≡ []
  pub children :
      (q x : ℕ)
      → q ≢ p
      → count x (pt' q).children_list
        ≡ count x (pt q).children_list + (if q == i then count x cs else 0)
  pub exited : (q : ℕ) → (pt' q).exited_list ≡ (pt q).exited_list
  pub pstate : (q : ℕ) → (pt' q).pstate ≡ (pt q).pstate

module _ {Ops World : Type 0} (i p : ℕ) (apart : i ≢ p) where
  adopt_child_lem :
      (c : ℕ) (cs : List ℕ) (k : Kernel Ops World) (q : ℕ)
      → let k' = adopt_child i p c cs k in
        ((k'.pt q).parent ≡ (if q == c then some i else (k.pt q).parent))
        × ((k'.pt q).children_list ≡ (
            if q == i
            then c ∷ (k.pt q).children_list
            else if q == p
            then cs
            else (k.pt q).children_list))
        × ((k'.pt q).exited_list ≡ (k.pt q).exited_list)
        × ((k'.pt q).pstate ≡ (k.pt q).pstate)
  unfolding adopt_child
  adopt_child_lem c cs k q = ground arith

  pub adopt_children-Adopted :
      (cs : List ℕ) (k : Kernel Ops World)
      → (k.pt p).children_list ≡ cs
      → Adopted i p cs k.pt (adopt_children i p cs k).pt
  unfolding adopt_children
  adopt_children-Adopted [] k e = record {
    parent = λ x. ground arith;
    left = e;
    children = λ q x h. ground arith;
    exited = λ q. refl;
    pstate = λ q. refl;
  }
  adopt_children-Adopted (c ∷ cs) k e =
      let ih =
        adopt_children-Adopted cs (adopt_child i p c cs k)
          (ground (arith, (adopt_child_lem c cs k p).1)) in
      record {
        parent = λ x. ground (arith, ih.parent x, (adopt_child_lem c cs k x).0);
        left = ih.left;
        children = λ q x h. ground (arith, ih.children q x h, (adopt_child_lem c cs k q).1);
        exited = λ q. ih.exited q ∙ (adopt_child_lem c cs k q).2;
        pstate = λ q. ih.pstate q ∙ (adopt_child_lem c cs k q).3;
      }

  move_exited_lem :
      (k : Kernel Ops World) (q : ℕ)
      → let k' = move_exited i p k in
        ((k'.pt q).parent ≡ (k.pt q).parent)
        × ((k'.pt q).children_list ≡ (k.pt q).children_list)
        × ((k'.pt q).exited_list ≡ (
            if q == p
            then []
            else if q == i
            then (k.pt q).exited_list ++ (k.pt p).exited_list
            else (k.pt q).exited_list))
        × ((k'.pt q).pstate ≡ (k.pt q).pstate)
  unfolding move_exited
  move_exited_lem k q = ground arith

  -- The same, with the waking of process `i`, and where there is nothing to move.
  adopt_exited_lem :
      (k : Kernel Ops World) (q x : ℕ)
      → let k' = adopt_exited i p k in
        ((k'.pt q).parent ≡ (k.pt q).parent)
        × ((k'.pt q).children_list ≡ (k.pt q).children_list)
        × ((k'.pt p).exited_list ≡ [])
        × (q ≢ p
            → count x (k'.pt q).exited_list
              ≡ count x (k.pt q).exited_list + (if q == i then count x (k.pt p).exited_list else 0))
        × ((k'.pt q).pstate ≡ (k.pt q).pstate)
  unfolding adopt_exited
  adopt_exited_lem k q x = elim (List-cases (k.pt p).exited_list) [
    | inl e ↦ ground (arith, e)
    | inr (y, ys, e) ↦
        let m = move_exited i p k in
        let b = broadcast_child_exit-SameFamily i m q in
        let b' = broadcast_child_exit-SameFamily i m p in
        ground (
          arith,
          e,
          b.parent,
          b.children,
          b.exited,
          b.pstate,
          b'.exited,
          move_exited_lem k q,
          (move_exited_lem k p).2,
          count-append x (k.pt q).exited_list (k.pt p).exited_list,
        )
  ]

put_exited_lem :
    {Ops World : Type 0} (q p : ℕ) (k : Kernel Ops World) (r : ℕ)
    → let k' = put_exited q p k in
      ((k'.pt r).parent ≡ (k.pt r).parent)
      × ((k'.pt r).children_list ≡ (k.pt r).children_list)
      × ((k'.pt r).exited_list
          ≡ (if r == q then p ∷ (k.pt r).exited_list else (k.pt r).exited_list))
      × ((k'.pt r).pstate ≡ (k.pt r).pstate)
unfolding put_exited broadcast_child_exit
put_exited_lem q p k r = ground arith

-- The table after process `p`, a child of `q`, has handed over its children to process 1.
pub record Left (q p : ℕ) (pt pt' : ℕ → Pcb) : Type 0 where
  pub parent :
      (x : ℕ)
      → (pt' x).parent ≡ (if ltb 0 (count x (pt p).children_list) then some 1 else (pt x).parent)
  pub no_children : (pt' p).children_list ≡ []
  pub children :
      (r x : ℕ)
      → r ≢ p
      → count x (pt' r).children_list
        ≡ count x (pt r).children_list + (if r == 1 then count x (pt p).children_list else 0)
  pub no_exited : (pt' p).exited_list ≡ []
  pub exited :
      (r x : ℕ)
      → r ≢ p
      → count x (pt' r).exited_list
        ≡ count x (pt r).exited_list
          + (if r == 1 then count x (pt p).exited_list else 0)
          + (if r == q then (if p == x then 1 else 0) else 0)
  pub pstate : (r : ℕ) → (pt' r).pstate ≡ (pt r).pstate

module _ {Ops World : Type 0} (q p : ℕ) (k : Kernel Ops World) (not_root : 1 ≢ p)
    (not_self : q ≢ p) where
  abbrev orphaned : Kernel Ops World
  orphaned = adopt_children 1 p (k.pt p).children_list k

  pub leaves-Left : Left q p k.pt (put_exited q p (adopt_exited 1 p orphaned)).pt
  leaves-Left =
      let a = adopt_children-Adopted 1 p not_root (k.pt p).children_list k refl in
      let e = adopt_exited_lem 1 p not_root orphaned in
      let f = put_exited_lem q p (adopt_exited 1 p orphaned) in
      record {
        parent = λ x. (f x).0 ∙ (e x x).0 ∙ a.parent x;
        no_children = (f p).1 ∙ (e p p).1 ∙ a.left;
        children = λ r x h. ground (arith, (f r).1, (e r x).1, a.children r x h);
        no_exited = ground (arith, (f p).2, (e p p).2);
        exited = λ r x h. ground (arith, (f r).2, (e r x).3, a.exited r, a.exited p);
        pstate = λ r. (f r).3 ∙ (e r r).4 ∙ a.pstate r;
      }
