-- ===== src/Bios/Poll.antt =====
-- What the daemon of bios.c does for one device.
use tinyos.Base.{
  ℕ, ◌≡◌, inl, inr, Bool, true, false, ◌||◌, if◌then◌else◌, ◌==◌, ltb, arith, refl, ap, sym, ◌∙◌,
  subst, Bool-cases, ==_refl,
}
use tinyos.Bios.{
  Vm, IoDevice, Signals, raise_interrupt, serial_rx_ready, serial_tx_ready, interrupt_set,
  interrupt_core, cpu_core_restart, core_restart, set_core,
}
use tinyos.Bios.Halt.{raise_interrupt-core}
use tinyos.Bios.Devices.{poll_con, poll_kbd, set_con, set_kbd, clock_diff, serial_timeout}

-- A device is due when `select` has told so, or when it has been silent for too long.
abbrev pub due : (isset : Bool) → (now : ℕ) → IoDevice → Bool
due isset now d = isset || ltb serial_timeout (clock_diff now d.last_int)

module _ {Handler World : Type 0} (os : Signals World) where
  -- What interrupts have been raised for cores stays so, and the devices keep their cores.
  pub record Grows (v w : Vm Handler World) : Type 0 where
    pub pends :
        (c j : ℕ)
        → (v.core c).int_pending j ≡ true
        → (v.core c).halted ≡ false
        → ((w.core c).int_pending j ≡ true) × ((w.core c).halted ≡ false)
    pub clock : w.system_clock ≡ v.system_clock
    pub nterm : w.nterm ≡ v.nterm

  pub Grows-refl : (v : Vm Handler World) → Grows v v
  Grows-refl v = record { pends = λ c j e f. (e, f); clock = refl; nterm = refl }

  pub Grows-trans : (u v w : Vm Handler World) → Grows u v → Grows v w → Grows u w
  Grows-trans u v w g h = record {
    pends = λ c j e f. let (e', f') = g.pends c j e f in h.pends c j e' f';
    clock = h.clock ∙ g.clock;
    nterm = h.nterm ∙ g.nterm;
  }

  core_restart-same :
      (c : ℕ) (v : Vm Handler World)
      → let w = core_restart c v in
        (w.con ≡ v.con) × (w.kbd ≡ v.kbd) × (w.system_clock ≡ v.system_clock) × (w.nterm ≡ v.nterm)
  unfolding core_restart set_core
  core_restart-same c v = elim (Bool-cases (v.core c).halted) [
    | inl e ↦ rw (e, core_restart) (refl, refl, refl, refl)
    | inr e ↦ rw (e, core_restart) (refl, refl, refl, refl)
  ]

  pub raise_interrupt-same :
      (c i : ℕ) (v : Vm Handler World)
      → let w = raise_interrupt os c i v in
        (w.con ≡ v.con) × (w.kbd ≡ v.kbd) × (w.system_clock ≡ v.system_clock) × (w.nterm ≡ v.nterm)
  unfolding raise_interrupt interrupt_core cpu_core_restart interrupt_set set_core
  raise_interrupt-same c i v =
      core_restart-same c (record (interrupt_set c i v) { world = os.sigqueue c v.world })

  pub raise_interrupt-Grows : (c i : ℕ) (v : Vm Handler World) → Grows v (raise_interrupt os c i v)
  raise_interrupt-Grows c i v = record {
    pends = λ x j e f. ground (arith, raise_interrupt-core os c i x j v, e, f);
    clock = (raise_interrupt-same c i v).2;
    nterm = (raise_interrupt-same c i v).3;
  }

  -- What a round comes to in `w` for a device that was `d` and is `d'`.
  abbrev pub Told :
      (intno : ℕ) → (isset : Bool) → (now : ℕ) → (d d' : IoDevice) → Vm Handler World → Type 0
  Told intno isset now d d' w =
      (due isset now d ≡ true
        → ((w.core d.int_core).int_pending intno ≡ true)
          × ((w.core d.int_core).halted ≡ false)
          × (d'.ready ≡ true)
          × (d'.last_int ≡ now))
      × (due isset now d ≡ false → d' ≡ d)

  pub Told-Grows :
      (intno : ℕ) (isset : Bool) (now : ℕ) (d d' : IoDevice) (v w : Vm Handler World)
      → Grows v w
      → Told intno isset now d d' v
      → Told intno isset now d d' w
  Told-Grows intno isset now d d' v w g (told, kept) = (
    (λ e.
        let (pends, up, ready, last) = told e in
        let (pends', up') = g.pends d.int_core intno pends up in (pends', up', ready, last)),
    kept,
  )

  -- The same, for the same device at the same time.
  pub Told-same :
      (intno : ℕ) (isset : Bool) (now now' : ℕ) (d e d' e' : IoDevice) (w : Vm Handler World)
      → now ≡ now'
      → d ≡ e
      → d' ≡ e'
      → Told intno isset now d d' w
      → Told intno isset now' e e' w
  Told-same intno isset now now' d e d' e' w p q r h =
      subst (λ x. Told intno isset x e e' w) p
        (subst (λ x. Told intno isset now x e' w) q (subst (λ x. Told intno isset now d x w) r h))

  pub raised-Told :
      (intno : ℕ) (v : Vm Handler World) (c : ℕ)
      → let w = raise_interrupt os c intno v in
        ((w.core c).int_pending intno ≡ true) × ((w.core c).halted ≡ false)
  raised-Told intno v c =
      ground (arith, raise_interrupt-core os c intno c intno v, ==_refl c, ==_refl intno)

  -- The loop of the daemon for a console has gone from `v` to `w`.
  abbrev pub PolledCon : (i : ℕ) → (isset : Bool) → (v w : Vm Handler World) → Type 0
  PolledCon i isset v w =
      Grows v w
      × (w.kbd ≡ v.kbd)
      × ((j : ℕ) → (j == i) ≡ false → w.con j ≡ v.con j)
      × Told serial_tx_ready isset v.system_clock (v.con i) (w.con i) w

  polled_con : ℕ → Vm Handler World → Vm Handler World
  unfolding set_con
  polled_con i v = set_con i (record (v.con i) { ready = true; last_int = v.system_clock }) v

  raised-PolledCon :
      (i : ℕ) (isset : Bool) (v : Vm Handler World)
      → due isset v.system_clock (v.con i) ≡ true
      → PolledCon i isset v (raise_interrupt os (v.con i).int_core serial_tx_ready (polled_con i v))
  unfolding polled_con set_con
  raised-PolledCon i isset v e =
      let d = v.con i in
      let set = polled_con i v in
      let w = raise_interrupt os d.int_core serial_tx_ready set in
      let same = raise_interrupt-same d.int_core serial_tx_ready set in
      let raised = raised-Told serial_tx_ready set d.int_core in
      let own = ap (λ f. f i) same.0 in
      (
        Grows-trans v set w (record { pends = λ c j p q. (p, q); clock = refl; nterm = refl })
            (raise_interrupt-Grows d.int_core serial_tx_ready set),
        same.1,
        (λ j n. ap (λ f. f j) same.0 ∙ ground (arith, n)),
        (
          (λ t. (
            raised.0,
            raised.1,
            ap (λ x. x.ready) own ∙ ground (arith, ==_refl i),
            ap (λ x. x.last_int) own ∙ ground (arith, ==_refl i),
          )),
          (λ t. absurd (ground (arith, t, e))),
        ),
      )

  pub poll_con-PolledCon :
      (i : ℕ) (isset : Bool) (v : Vm Handler World) → PolledCon i isset v (poll_con os i isset v)
  unfolding poll_con set_con polled_con
  poll_con-PolledCon i isset v =
      let w = raise_interrupt os (v.con i).int_core serial_tx_ready (polled_con i v) in
      elim (Bool-cases (due isset v.system_clock (v.con i))) [
        | inl e ↦
            subst (PolledCon i isset v) (sym (ap (λ b. if b then w else v) e))
              (raised-PolledCon i isset v e)
        | inr e ↦
            subst (PolledCon i isset v) (sym (ap (λ b. if b then w else v) e)) (
              Grows-refl v,
              refl,
              (λ j n. refl),
              ((λ t. absurd (ground (arith, t, e))), (λ t. refl)),
            )
      ]

  -- The loop of the daemon for a keyboard has gone from `v` to `w`.
  abbrev pub PolledKbd : (i : ℕ) → (isset : Bool) → (v w : Vm Handler World) → Type 0
  PolledKbd i isset v w =
      Grows v w
      × (w.con ≡ v.con)
      × ((j : ℕ) → (j == i) ≡ false → w.kbd j ≡ v.kbd j)
      × Told serial_rx_ready isset v.system_clock (v.kbd i) (w.kbd i) w

  polled_kbd : ℕ → Vm Handler World → Vm Handler World
  unfolding set_kbd
  polled_kbd i v = set_kbd i (record (v.kbd i) { ready = true; last_int = v.system_clock }) v

  raised-PolledKbd :
      (i : ℕ) (isset : Bool) (v : Vm Handler World)
      → due isset v.system_clock (v.kbd i) ≡ true
      → PolledKbd i isset v (raise_interrupt os (v.kbd i).int_core serial_rx_ready (polled_kbd i v))
  unfolding polled_kbd set_kbd
  raised-PolledKbd i isset v e =
      let d = v.kbd i in
      let set = polled_kbd i v in
      let w = raise_interrupt os d.int_core serial_rx_ready set in
      let same = raise_interrupt-same d.int_core serial_rx_ready set in
      let raised = raised-Told serial_rx_ready set d.int_core in
      let own = ap (λ f. f i) same.1 in
      (
        Grows-trans v set w (record { pends = λ c j p q. (p, q); clock = refl; nterm = refl })
            (raise_interrupt-Grows d.int_core serial_rx_ready set),
        same.0,
        (λ j n. ap (λ f. f j) same.1 ∙ ground (arith, n)),
        (
          (λ t. (
            raised.0,
            raised.1,
            ap (λ x. x.ready) own ∙ ground (arith, ==_refl i),
            ap (λ x. x.last_int) own ∙ ground (arith, ==_refl i),
          )),
          (λ t. absurd (ground (arith, t, e))),
        ),
      )

  pub poll_kbd-PolledKbd :
      (i : ℕ) (isset : Bool) (v : Vm Handler World) → PolledKbd i isset v (poll_kbd os i isset v)
  unfolding poll_kbd set_kbd polled_kbd
  poll_kbd-PolledKbd i isset v =
      let w = raise_interrupt os (v.kbd i).int_core serial_rx_ready (polled_kbd i v) in
      elim (Bool-cases (due isset v.system_clock (v.kbd i))) [
        | inl e ↦
            subst (PolledKbd i isset v) (sym (ap (λ b. if b then w else v) e))
              (raised-PolledKbd i isset v e)
        | inr e ↦
            subst (PolledKbd i isset v) (sym (ap (λ b. if b then w else v) e)) (
              Grows-refl v,
              refl,
              (λ j n. refl),
              ((λ t. absurd (ground (arith, t, e))), (λ t. refl)),
            )
      ]
