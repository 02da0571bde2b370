-- ===== src/Bios/Round.antt =====
-- What a round of the daemon of bios.c does for the timers and the devices.
use tinyos.Base.{
  ℕ, zero, suc, ◌+◌, ◌<◌, ◌≤◌, ◌≡◌, inl, inr, List, [], ◌∷◌, Bool, true, false, some, ◌==◌, arith,
  refl, ap, sym, ◌∙◌, subst, Bool-cases, ==_iff, count,
}
use tinyos.Bios.{Vm, IoDevice, Signals, raise_interrupt, alarm, serial_rx_ready, serial_tx_ready}
use tinyos.Bios.Poll.{
  Grows, Grows-refl, Grows-trans, raise_interrupt-same, raise_interrupt-Grows, Told, Told-Grows,
  Told-same, raised-Told, PolledCon, PolledKbd, poll_con-PolledCon, poll_kbd-PolledKbd,
}
use tinyos.Bios.Devices.{pic_round, raise_alarms, poll_from, poll_con, poll_kbd}

module _ {Handler World : Type 0} (os : Signals World) where
  module _ (writefds readfds : ℕ → Bool) where
    -- Terminal `j`, from `v` to `w`.
    abbrev pub ToldBoth : (now j : ℕ) → (con kbd : ℕ → IoDevice) → Vm Handler World → Type 0
    ToldBoth now j con kbd w =
        Told os serial_tx_ready (writefds j) now (con j) (w.con j) w
        × Told os serial_rx_ready (readfds j) now (kbd j) (w.kbd j) w

    -- The loop has gone from terminal `i` over `n` of them.
    record Polls (n i : ℕ) (v w : Vm Handler World) : Type 0 where
      grows : Grows os v w
      below : (j : ℕ) → j < i → (w.con j ≡ v.con j) × (w.kbd j ≡ v.kbd j)
      told : (j : ℕ) → i ≤ j → j < i + n → ToldBoth v.system_clock j v.con v.kbd w

    first-ToldBoth :
        (i : ℕ) (v u t w : Vm Handler World)
        → PolledCon os i (writefds i) v u
        → PolledKbd os i (readfds i) u t
        → Grows os t w
        → (w.con i ≡ t.con i) × (w.kbd i ≡ t.kbd i)
        → ToldBoth v.system_clock i v.con v.kbd w
    first-ToldBoth i v u t w (gu, kbds, _, told_con) (gt, cons, _, told_kbd) gw (con_i, kbd_i) = (
      Told-same os serial_tx_ready (writefds i) v.system_clock v.system_clock (v.con i) (v.con i)
          (u.con i) (w.con i) w refl refl (sym (con_i ∙ ap (λ f. f i) cons))
          (Told-Grows os serial_tx_ready (writefds i) v.system_clock (v.con i) (u.con i) u w
            (Grows-trans os u t w gt gw) told_con),
      Told-same os serial_rx_ready (readfds i) u.system_clock v.system_clock (u.kbd i) (v.kbd i)
          (t.kbd i) (w.kbd i) w gu.clock (ap (λ f. f i) kbds) (sym kbd_i)
          (Told-Grows os serial_rx_ready (readfds i) u.system_clock (u.kbd i) (t.kbd i) t w gw
            told_kbd),
    )

    Polls-suc :
        (n i : ℕ) (v u t w : Vm Handler World)
        → PolledCon os i (writefds i) v u
        → PolledKbd os i (readfds i) u t
        → Polls n (i + 1) t w
        → Polls (suc n) i v w
    Polls-suc n i v u t w (gu, kbds, con_j, told_con) (gt, cons, kbd_j, told_kbd) rest =
        let g = Grows-trans os v u t gu gt in
        let con_same : (j : ℕ) → (j == i) ≡ false → t.con j ≡ v.con j =
          λ j e. ap (λ f. f j) cons ∙ con_j j e in
        let kbd_same : (j : ℕ) → (j == i) ≡ false → t.kbd j ≡ v.kbd j =
          λ j e. kbd_j j e ∙ ap (λ f. f j) kbds in
        record {
          grows = Grows-trans os v t w g rest.grows;
          below = λ j b.
              let other : (j == i) ≡ false = ground (arith, b) in
              let same = rest.below j (omega arith) in
              (same.0 ∙ con_same j other, same.1 ∙ kbd_same j other);
          told = λ j p q. elim (Bool-cases (j == i)) [
            | inl e ↦
                subst (λ k. ToldBoth v.system_clock k v.con v.kbd w) (sym ((==_iff j i).0 e))
                  (first-ToldBoth i v u t w (gu, kbds, con_j, told_con) (gt, cons, kbd_j, told_kbd)
                    rest.grows (rest.below i (omega arith)))
            | inr e ↦
                let both = rest.told j (ground (arith, p, e)) (omega (arith, q)) in
                (
                  Told-same os serial_tx_ready (writefds j) t.system_clock v.system_clock (t.con j)
                      (v.con j) (w.con j) (w.con j) w g.clock (con_same j e) refl both.0,
                  Told-same os serial_rx_ready (readfds j) t.system_clock v.system_clock (t.kbd j)
                      (v.kbd j) (w.kbd j) (w.kbd j) w g.clock (kbd_same j e) refl both.1,
                )
          ];
        }

    poll_from-Polls :
        (n i : ℕ) (v : Vm Handler World) → Polls n i v (poll_from os writefds readfds n i v)
    unfolding poll_from
    poll_from-Polls zero i v = record {
      grows = Grows-refl os v;
      below = λ j b. (refl, refl);
      told = λ j p q. absurd (omega arith);
    }
    poll_from-Polls (suc n) i v =
        let u = poll_con os i (writefds i) v in
        let t = poll_kbd os i (readfds i) u in
        Polls-suc n i v u t (poll_from os writefds readfds n (i + 1) t)
          (poll_con-PolledCon os i (writefds i) v) (poll_kbd-PolledKbd os i (readfds i) u)
          (poll_from-Polls n (i + 1) t)

  raise_alarms-Grows :
      (cs : List ℕ) (v : Vm Handler World)
      → let w = raise_alarms os cs v in Grows os v w × (w.con ≡ v.con) × (w.kbd ≡ v.kbd)
  unfolding raise_alarms
  raise_alarms-Grows [] v = (Grows-refl os v, refl, refl)
  raise_alarms-Grows (c ∷ cs) v =
      let u = raise_interrupt os c alarm v in
      let same = raise_interrupt-same os c alarm v in
      let (grows, con, kbd) = raise_alarms-Grows cs u in
      (
        Grows-trans os v u (raise_alarms os cs u) (raise_interrupt-Grows os c alarm v) grows,
        con ∙ same.0,
        kbd ∙ same.1,
      )

  raise_alarms-raised :
      (cs : List ℕ) (v : Vm Handler World) (x : ℕ)
      → 0 < count x cs
      → let w = raise_alarms os cs v in
        ((w.core x).int_pending alarm ≡ true) × ((w.core x).halted ≡ false)
  unfolding raise_alarms
  raise_alarms-raised [] v x h = absurd (omega arith)
  raise_alarms-raised (c ∷ cs) v x h =
      let u = raise_interrupt os c alarm v in
      elim (Bool-cases (c == x)) [
        | inl e ↦
            let raised = raised-Told os alarm v c in
            let here = (==_iff c x).0 e in
            (raise_alarms-Grows cs u).0.pends x alarm
              (subst (λ y. (u.core y).int_pending alarm ≡ true) here raised.0)
              (subst (λ y. (u.core y).halted ≡ false) here raised.1)
        | inr e ↦ raise_alarms-raised cs u x (ground (arith, h, e))
      ]

  -- After a round of the daemon at time `now` in which `select` has not failed: the cores of the timers that
  -- have expired are not halted, with an ALARM pending; and each device of a terminal that `select` has
  -- told to be ready, or that had its last interrupt more than 300 msec ago, is ready, has `now` as the time
  -- of its last interrupt, and the core of its interrupts is not halted, with one pending of its kind. The
  -- other devices are as they were.
  pub pic_round-Told :
      (now : ℕ) (expired : List ℕ) (writefds readfds : ℕ → Bool) (v : Vm Handler World)
      → let w = pic_round os now (some (expired, (writefds, readfds))) v in
        ((c : ℕ)
          → 0 < count c expired
          → ((w.core c).int_pending alarm ≡ true) × ((w.core c).halted ≡ false))
        × ((j : ℕ) → j < v.nterm → ToldBoth writefds readfds now j v.con v.kbd w)
  unfolding pic_round
  pic_round-Told now expired writefds readfds v =
      let v' = record v { system_clock = now } in
      let u = raise_alarms os expired v' in
      let (grows, con, kbd) = raise_alarms-Grows expired v' in
      let w = poll_from os writefds readfds u.nterm 0 u in
      let p = poll_from-Polls writefds readfds u.nterm 0 u in
      (
        (λ c h.
            let raised = raise_alarms-raised expired v' c h in
            p.grows.pends c alarm raised.0 raised.1),
        (λ j h.
            let told = p.told j (omega arith) (omega (arith, h, grows.nterm)) in
            subst (λ n. ToldBoth writefds readfds n j v.con v.kbd w) grows.clock
              (subst (λ f. ToldBoth writefds readfds u.system_clock j f v.kbd w) con
                (subst (λ f. ToldBoth writefds readfds u.system_clock j u.con f w) kbd told))),
      )
