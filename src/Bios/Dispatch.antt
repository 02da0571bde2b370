-- ===== src/Bios/Dispatch.antt =====
-- Which interrupt a core dispatches, in the loop of `try_dispatch` of bios.c.
use tinyos.Base.{
  ℕ, zero, suc, ◌+◌, ◌<◌, ◌≤◌, ◌≡◌, ◌⊎◌, inl, inr, Bool, true, false, ◌==◌, update, arith, refl, ap,
  sym, ◌∙◌, fun_ext, subst, Bool-cases, ==_iff,
}
use tinyos.Bios.{
  Vm, set_core, interrupt_clear, dispatch_irq, dispatch_from, try_dispatch, maximum_interrupt_no,
}

update-same {ℓ} : {A : Type ℓ} (f : ℕ → A) (c : ℕ) (a : A) → f c ≡ a → update f c a ≡ f
update-same f c a e = fun_ext (λ x. elim (Bool-cases (x == c)) [
  | inl t ↦ rw t (sym e ∙ ap f (sym ((==_iff x c).0 t)))
  | inr n ↦ rw n refl
])

module _ {Handler World : Type 0} where
  interrupt_clear-absent :
      (c i : ℕ) (v : Vm Handler World)
      → (v.core c).int_pending i ≡ false
      → (interrupt_clear c i v).1 ≡ v
  unfolding interrupt_clear set_core
  interrupt_clear-absent c i v e =
      let k = v.core c in
      ap (λ f. record v { core = f })
        (update-same v.core c (record k { int_pending = update k.int_pending i false })
          (ap (λ p. record k { int_pending = p }) (sym (update-same k.int_pending i false e))))

  module _ (call : Handler → Vm Handler World → Vm Handler World) (c : ℕ)
      (v : Vm Handler World) where
    abbrev Finds : (n i : ℕ) → Bool × Vm Handler World → Type 0
    Finds n i r =
        (((j : ℕ) → i ≤ j → j < i + n → (v.core c).int_pending j ≡ false) × (r ≡ (false, v)))
        ⊎ ((j : ℕ) × (j < i + n)
            × ((v.core c).int_pending j ≡ true)
            × ((m : ℕ) → i ≤ m → m < j → (v.core c).int_pending m ≡ false)
            × (r ≡ (true, dispatch_irq call c j (interrupt_clear c j v).1)))

    dispatch_from-pending :
        (n i : ℕ)
        → (v.core c).int_pending i ≡ true
        → dispatch_from call (suc n) i c v ≡ (true, dispatch_irq call c i (interrupt_clear c i v).1)
    unfolding dispatch_from interrupt_clear
    dispatch_from-pending n i e = rw e refl

    dispatch_from-absent :
        (n i : ℕ)
        → (v.core c).int_pending i ≡ false
        → dispatch_from call (suc n) i c v ≡ dispatch_from call n (i + 1) c v
    unfolding dispatch_from interrupt_clear
    dispatch_from-absent n i e =
        rw e (ap (dispatch_from call n (i + 1) c) (interrupt_clear-absent c i v e))

    Finds-absent :
        (n i : ℕ) (r : Bool × Vm Handler World)
        → (v.core c).int_pending i ≡ false
        → Finds n (i + 1) r
        → Finds (suc n) i r
    Finds-absent n i r e (inl (absent, same)) = inl (
      (λ j p q. elim (Bool-cases (j == i)) [
        | inl t ↦ ap (v.core c).int_pending ((==_iff j i).0 t) ∙ e
        | inr t ↦ absent j (ground arith) (omega arith)
      ]),
      same,
    )
    Finds-absent n i r e (inr (j, below, set, lower, same)) = inr (
      j,
      omega arith,
      set,
      (λ m p q. elim (Bool-cases (m == i)) [
        | inl t ↦ ap (v.core c).int_pending ((==_iff m i).0 t) ∙ e
        | inr t ↦ lower m (ground arith) q
      ]),
      same,
    )

    dispatch_from-Finds : (n i : ℕ) → Finds n i (dispatch_from call n i c v)
    unfolding dispatch_from
    dispatch_from-Finds zero i = inl ((λ j p q. absurd (omega arith)), refl)
    dispatch_from-Finds (suc n) i = elim (Bool-cases ((v.core c).int_pending i)) [
      | inl e ↦
          inr (i, omega arith, e, (λ m p q. absurd (omega arith)), dispatch_from-pending n i e)
      | inr e ↦ Finds-absent n i (dispatch_from call (suc n) i c v) e (
          subst (Finds n (i + 1)) (sym (dispatch_from-absent n i e))
            (dispatch_from-Finds n (i + 1)))
    ]

    -- A core dispatches the first of the interrupts that are pending, which it clears, and no other; when
    -- none is pending, nothing changes.
    pub try_dispatch-first :
        (((j : ℕ) → j < maximum_interrupt_no → (v.core c).int_pending j ≡ false)
          × (try_dispatch call c v ≡ (false, v)))
        ⊎ ((j : ℕ) × (j < maximum_interrupt_no)
            × ((v.core c).int_pending j ≡ true)
            × ((m : ℕ) → m < j → (v.core c).int_pending m ≡ false)
            × (try_dispatch call c v ≡ (true, dispatch_irq call c j (interrupt_clear c j v).1)))
    unfolding try_dispatch
    try_dispatch-first = elim (dispatch_from-Finds maximum_interrupt_no 0) [
      | inl (absent, same) ↦ inl ((λ j q. absent j (omega arith) q), same)
      | inr (j, below, set, lower, same) ↦
          inr (j, below, set, (λ m q. lower m (omega arith) q), same)
    ]
