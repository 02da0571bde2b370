-- ===== src/Proc/Blank.antt =====
-- The entries and the file tables after the loops of `initialize_processes`.
use native.Mathlib.Decide.{dec_lt}
use tinyos.Base.{
  ℕ, zero, suc, ◌+◌, ◌≤◌, ◌<◌, ◌≡◌, [], none, arith, refl, inl, inr, Bool-cases, ◌==◌, true, ap,
  ◌∙◌, subst,
}
use tinyos.Kernel.{Kernel, Pcb, is_free, max_proc}
use tinyos.Proc.{initialize_pcb, initialize_pcbs, link_free, build_freelist, blank_table}

-- An entry of the table that is free and has no children.
pub record IsUnused (c : Pcb) : Type 0 where
  pub pstate : is_free c.pstate ≡ true
  pub children : c.children_list ≡ []
  pub exited : c.exited_list ≡ []

module _ {Ops World : Type 0} where
  initialize_pcb-IsUnused : (p : ℕ) (k : Kernel Ops World) → IsUnused ((initialize_pcb p k).pt p)
  unfolding initialize_pcb
  initialize_pcb-IsUnused p k = record {
    pstate = ground arith;
    children = ground arith;
    exited = ground arith;
  }

  initialize_pcb-keeps :
      (p x : ℕ) (k : Kernel Ops World) → IsUnused (k.pt x) → IsUnused ((initialize_pcb p k).pt x)
  unfolding initialize_pcb
  initialize_pcb-keeps p x k u = record {
    pstate = ground (arith, u.pstate);
    children = ground (arith, u.children);
    exited = ground (arith, u.exited);
  }

  initialize_pcbs-keeps :
      (n p : ℕ) (k : Kernel Ops World) (x : ℕ)
      → IsUnused (k.pt x)
      → IsUnused ((initialize_pcbs n p k).pt x)
  unfolding initialize_pcbs
  initialize_pcbs-keeps zero p k x u = u
  initialize_pcbs-keeps (suc n) p k x u =
      initialize_pcbs-keeps n (p + 1) (initialize_pcb p k) x (initialize_pcb-keeps p x k u)

  initialize_pcbs-IsUnused :
      (n p : ℕ) (k : Kernel Ops World) (x : ℕ)
      → p ≤ x
      → x < p + n
      → IsUnused ((initialize_pcbs n p k).pt x)
  unfolding initialize_pcbs
  initialize_pcbs-IsUnused zero p k x h b = absurd (omega (arith, h, b))
  initialize_pcbs-IsUnused (suc n) p k x h b = elim (Bool-cases (x == p)) [
    | inl same ↦
        let e : p ≡ x = ground (arith, same) in
        initialize_pcbs-keeps n (p + 1) (initialize_pcb p k) x
          (subst (λ y. IsUnused ((initialize_pcb p k).pt y)) e (initialize_pcb-IsUnused p k))
    | inr other ↦
        initialize_pcbs-IsUnused n (p + 1) (initialize_pcb p k) x (ground (arith, h, other))
          (omega (arith, b))
  ]

  -- The tables of file ids are empty.
  initialize_pcbs-fidt :
      (n p : ℕ) (k : Kernel Ops World) (x i : ℕ)
      → let r = initialize_pcbs n p k in
        (p ≤ x → x < p + n → r.files.fidt x i ≡ none)
        × (k.files.fidt x i ≡ none → r.files.fidt x i ≡ none)
  unfolding initialize_pcbs initialize_pcb
  initialize_pcbs-fidt zero p k x i = ground arith
  initialize_pcbs-fidt (suc n) p k x i =
      ground (arith, initialize_pcbs-fidt n (p + 1) (initialize_pcb p k) x i)

  build_freelist-keeps :
      (p : ℕ) (k : Kernel Ops World) (x : ℕ)
      → let r = build_freelist p k in
        ((r.pt x).pstate ≡ (k.pt x).pstate)
        × ((r.pt x).children_list ≡ (k.pt x).children_list)
        × ((r.pt x).exited_list ≡ (k.pt x).exited_list)
        × (r.files ≡ k.files)
  unfolding build_freelist link_free
  build_freelist-keeps zero k x = (refl, refl, refl, refl)
  build_freelist-keeps (suc p) k x = ground (arith, build_freelist-keeps p (link_free p k) x)

  pub blank_table-IsUnused :
      (k : Kernel Ops World) (x : ℕ)
      → (max_proc ≤ x → IsUnused (k.pt x))
      → IsUnused ((blank_table k).pt x)
  unfolding blank_table
  blank_table-IsUnused k x h =
      let blank = record (initialize_pcbs max_proc 0 k) { pcb_freelist = none } in
      let (s, c, e, _) = build_freelist-keeps max_proc blank x in
      let u : IsUnused (blank.pt x) = elim (dec_lt x max_proc) [
        | yes b ↦ initialize_pcbs-IsUnused max_proc 0 k x (omega arith) (omega (arith, b))
        | no b ↦ initialize_pcbs-keeps max_proc 0 k x (h (omega (arith, b)))
      ] in
      record { pstate = ap is_free s ∙ u.pstate; children = c ∙ u.children; exited = e ∙ u.exited }

  pub blank_table-fidt :
      (k : Kernel Ops World) (x i : ℕ) → x < max_proc → (blank_table k).files.fidt x i ≡ none
  unfolding blank_table
  blank_table-fidt k x i b =
      let blank = record (initialize_pcbs max_proc 0 k) { pcb_freelist = none } in
      ap (λ f. f.fidt x i) (build_freelist-keeps max_proc blank x).3
      ∙ (initialize_pcbs-fidt max_proc 0 k x i).0 (omega arith) (omega (arith, b))
