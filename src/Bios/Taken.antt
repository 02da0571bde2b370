-- ===== src/Bios/Taken.antt =====
-- What a core of bios.c does when it takes a signal, and what is left pending then.
use tinyos.Base.{
  ℕ, suc, ◌+◌, ◌-◌, ◌<◌, ◌≤◌, ◌≡◌, ◌≢◌, ◌⊎◌, inl, inr, true, false, none, some, if◌then◌else◌, ◌==◌,
  arith, refl, ap, sym, ◌∙◌, subst, Option-cases, ==_refl, Bool-cases, ==_iff,
}
use tinyos.Bios.{
  Vm, Core, Signals, take_signal, interrupt_clear, dispatch_irq, sigusr1_handler,
  dispatch_interrupts, try_dispatch, set_core, raise_interrupt,
}
use tinyos.Bios.Halt.{IsHalted, raise_interrupt-core}
use tinyos.Bios.Dispatch.{try_dispatch-first}
use tinyos.Bios.Machine.{Delivers, IsMerging}
use tinyos.Bios.Served.{pending}

two_pending :
    {Handler : Type 0} (k : Core Handler) (i j : ℕ)
    → i < 4
    → j < 4
    → i ≢ j
    → k.int_pending i ≡ true
    → k.int_pending j ≡ true
    → 2 ≤ pending k
two_pending k i j p q differ e f = ground (arith, p, q, e, f)

one_pending :
    {Handler : Type 0} (k : Core Handler) (i : ℕ)
    → i < 4
    → k.int_pending i ≡ true
    → ((j : ℕ) → j < 4 → j ≢ i → k.int_pending j ≡ false)
    → pending k ≡ 1
one_pending k i p e f = ground (arith, p, e, f 0, f 1, f 2, f 3)

module _ {Handler World : Type 0} (os : Signals World) where
  module _ (call : Handler → Vm Handler World → Vm Handler World) (c : ℕ) where
    sigusr1_handler-try_dispatch :
        (v : Vm Handler World) → sigusr1_handler call c c v ≡ some (try_dispatch call c v).1
    unfolding sigusr1_handler dispatch_interrupts
    sigusr1_handler-try_dispatch v =
        ap (λ b. if b then some (try_dispatch call c v).1 else none) (==_refl c)

    -- What the core does when it takes a signal with its number, in the state behind the delivery.
    pub sigusr1_handler-first :
        (v : Vm Handler World)
        → (((j : ℕ) → j < 4 → (v.core c).int_pending j ≡ false)
            × (sigusr1_handler call c c v ≡ some v))
          ⊎ ((j : ℕ) × (j < 4)
              × ((v.core c).int_pending j ≡ true)
              × (sigusr1_handler call c c v
                  ≡ some (dispatch_irq call c j (interrupt_clear c j v).1)))
    sigusr1_handler-first v = elim (try_dispatch-first call c v) [
      | inl (absent, same) ↦ inl (absent, sigusr1_handler-try_dispatch v ∙ ap (λ r. some r.1) same)
      | inr (j, below, set, lower, same) ↦
          inr (j, below, set, sigusr1_handler-try_dispatch v ∙ ap (λ r. some r.1) same)
    ]

    pub take_signal-none :
        (v : Vm Handler World) → os.deliver c v.world ≡ none → take_signal call os c v ≡ some v
    unfolding take_signal
    take_signal-none v e = rw (e, take_signal) refl

    pub take_signal-some :
        (v : Vm Handler World) (w : World)
        → os.deliver c v.world ≡ some (c, w)
        → take_signal call os c v ≡ sigusr1_handler call c c (record v { world = w })
    unfolding take_signal
    take_signal-some v w e = rw (e, take_signal) refl

    -- The state in which the handler of an interrupt starts.
    pub interrupt_clear-pending :
        (j : ℕ) (v : Vm Handler World)
        → j < 4
        → (v.core c).int_pending j ≡ true
        → let u = (interrupt_clear c j v).1 in
          ((x : ℕ) → pending (v.core x) ≡ pending (u.core x) + (if x == c then 1 else 0))
          × (u.world ≡ v.world)
    unfolding interrupt_clear set_core
    interrupt_clear-pending j v below e = ((λ x. ground (arith, below, e)), refl)

    pub interrupt_clear-IsHalted :
        (j : ℕ) (v : Vm Handler World) → IsHalted v → IsHalted (interrupt_clear c j v).1
    unfolding interrupt_clear set_core
    interrupt_clear-IsHalted j v h = record {
      listed = λ x. ground (arith, h.listed x);
      cores = λ x. ground (arith, h.cores x);
    }

    pub dispatch_irq-cases :
        (j : ℕ) (v : Vm Handler World)
        → (dispatch_irq call c j v ≡ v) ⊎ ((h : Handler) × (dispatch_irq call c j v ≡ call h v))
    unfolding dispatch_irq
    dispatch_irq-cases j v = elim (Option-cases ((v.core c).intvec j)) [
      | inl e ↦ inl (rw (e, dispatch_irq) refl)
      | inr (h, e) ↦ inr (h, rw (e, dispatch_irq) refl)
    ]

    pub no_pending :
        (k : Core Handler) → ((j : ℕ) → j < 4 → k.int_pending j ≡ false) → pending k ≡ 0
    no_pending k h =
        ground (arith, h 0 (omega arith), h 1 (omega arith), h 2 (omega arith), h 3 (omega arith))

    -- Handlers that raise nothing for the core, set no timer of it and take no signal of it.
    pub record IsQuiet (waiting : World → ℕ → ℕ) : Type 0 where
      pub pends :
          (h : Handler) (v : Vm Handler World) → pending ((call h v).core c) ≡ pending (v.core c)
      pub waits :
          (h : Handler) (v : Vm Handler World) → waiting (call h v).world c ≡ waiting v.world c

    module _ (waiting : World → ℕ → ℕ) (d : Delivers os waiting) where
      -- One signal less, and one pending interrupt less, if there was one.
      abbrev Less : (n : ℕ) → (v w : Vm Handler World) → Type 0
      Less n v w = (waiting w.world c ≡ n) × (pending (w.core c) ≡ pending (v.core c) - 1)

      dispatch_irq-Less :
          (n j : ℕ) (v : Vm Handler World)
          → IsQuiet waiting
          → j < 4
          → (v.core c).int_pending j ≡ true
          → waiting v.world c ≡ n
          → Less n v (dispatch_irq call c j (interrupt_clear c j v).1)
      dispatch_irq-Less n j v quiet below set e =
          let u = (interrupt_clear c j v).1 in
          let (less, same) = interrupt_clear-pending j v below set in
          let left = ap (λ w. waiting w c) same ∙ e in
          elim (dispatch_irq-cases j u) [
            | inl nothing ↦ subst (Less n v) (sym nothing) (left, ground (arith, less c, ==_refl c))
            | inr (h, runs) ↦
                subst (Less n v) (sym runs)
                  (quiet.waits h u ∙ left, ground (arith, less c, ==_refl c, quiet.pends h u))
          ]

      pub take_signal-Less :
          (n : ℕ) (v : Vm Handler World)
          → IsQuiet waiting
          → waiting v.world c ≡ suc n
          → (w : Vm Handler World) × (take_signal call os c v ≡ some w) × Less n v w
      take_signal-Less n v quiet e =
          let (w, given, left) = d.next c n v.world e in
          let v' = record v { world = w } in
          let taken = take_signal-some v w given in
          let left_c : waiting w c ≡ n = ground (arith, left c, ==_refl c) in
          elim (sigusr1_handler-first v') [
            | inl (absent, same) ↦
                (v', taken ∙ same, (left_c, omega (arith, no_pending (v.core c) absent)))
            | inr (j, below, set, same) ↦ (
              dispatch_irq call c j (interrupt_clear c j v').1,
              taken ∙ same,
              dispatch_irq-Less n j v' quiet below set left_c,
            )
          ]

    -- On a host where at most one signal waits for a thread: of two interrupts that are raised for a core
    -- before it takes a signal, one at least is still pending when it has taken the signal that waits, and
    -- then no signal waits; the handlers raise nothing for the core and take no signal of it.
    pub raise_interrupt-take_signal :
        (m : IsMerging os) (i j : ℕ) (v : Vm Handler World)
        → IsQuiet m.waiting
        → i < 4
        → j < 4
        → i ≢ j
        → let both = raise_interrupt os c j (raise_interrupt os c i v) in
          (w : Vm Handler World) × (take_signal call os c both ≡ some w)
          × (m.waiting w.world c ≡ 0)
          × (0 < pending (w.core c))
          × (take_signal call os c w ≡ some w)
    raise_interrupt-take_signal m i j v quiet p q differ =
        let one = raise_interrupt os c i v in
        let both = raise_interrupt os c j one in
        let (w, taken, (left, less)) = take_signal-Less m.waiting m.delivers 0 both quiet (
          ap (λ w. m.waiting w c) (raise_interrupt-core os c j c 0 one).2
          ∙ ground (arith, m.sigqueue c c one.world, ==_refl c)) in
        let set_i : (both.core c).int_pending i ≡ true = ground (
          arith,
          raise_interrupt-core os c j c i one,
          raise_interrupt-core os c i c i v,
          ==_refl c,
          ==_refl i,
        ) in
        let set_j : (both.core c).int_pending j ≡ true =
          ground (arith, raise_interrupt-core os c j c j one, ==_refl c, ==_refl j) in
        (
          w,
          taken,
          left,
          omega (arith, less, two_pending (both.core c) i j p q differ set_i set_j),
          take_signal-none w (m.delivers.empty c w.world left),
        )

    -- The core takes the signal of its one pending interrupt.
    abbrev pub Dispatches : (m : IsMerging os) → (i : ℕ) → Vm Handler World → Type 0
    Dispatches m i v =
        (w : World) × (m.waiting w c ≡ 0)
        × (take_signal call os c v
            ≡ some (dispatch_irq call c i (interrupt_clear c i (record v { world = w })).1))
        × (pending ((interrupt_clear c i (record v { world = w })).1.core c) ≡ 0)

    -- On a host where at most one signal waits for a thread: an interrupt that is raised for a core with no other one
    -- pending makes a signal wait there; when the core takes it, the handler of that interrupt runs, no signal
    -- waits, and as the handler starts no interrupt is pending. No assertion fails.
    pub raise_interrupt-dispatch_irq :
        (m : IsMerging os) (i : ℕ) (v : Vm Handler World)
        → i < 4
        → ((j : ℕ) → j < 4 → (v.core c).int_pending j ≡ false)
        → Dispatches m i (raise_interrupt os c i v)
    raise_interrupt-dispatch_irq m i v below calm =
        let one = raise_interrupt os c i v in
        let waits : m.waiting one.world c ≡ 1 =
          ap (λ w. m.waiting w c) (raise_interrupt-core os c i c 0 v).2
          ∙ ground (arith, m.sigqueue c c v.world, ==_refl c) in
        let (w, given, left) = m.delivers.next c 0 one.world waits in
        let v' = record one { world = w } in
        let u = (interrupt_clear c i v').1 in
        let taken = take_signal-some one w given in
        let none_left : m.waiting w c ≡ 0 = ground (arith, left c, ==_refl c) in
        let set_i : (one.core c).int_pending i ≡ true =
          ground (arith, raise_interrupt-core os c i c i v, ==_refl c, ==_refl i) in
        let others : (j : ℕ) → j < 4 → j ≢ i → (one.core c).int_pending j ≡ false =
          λ j h ne. ground (arith, raise_interrupt-core os c i c j v, calm j h, ne) in
        let alone : pending (one.core c) ≡ 1 = one_pending (one.core c) i below set_i others in
        let less = (interrupt_clear-pending i v' below set_i).0 c in
        (
          w,
          none_left,
          taken ∙ elim (sigusr1_handler-first v') [
            | inl (absent, same) ↦ absurd (ground (arith, absent i below, set_i))
            | inr (j, h, set, same) ↦ elim (Bool-cases (j == i)) [
              | inl e ↦
                  subst
                    (λ k.
                      sigusr1_handler call c c v'
                      ≡ some (dispatch_irq call c k (interrupt_clear c k v').1))
                    ((==_iff j i).0 e) same
              | inr e ↦ absurd (ground (arith, others j h (λ q. ground (arith, e, q)), set))
            ]
          ],
          ground (arith, less, alone, ==_refl c),
        )
