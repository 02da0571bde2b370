-- ===== src/Bios/Rounds.antt =====
-- The timers, the transfers and the rounds of the daemon of bios.c keep the list of halted cores right.
use tinyos.Base.{
  ℕ, zero, suc, ◌+◌, ◌≡◌, ◌⊎◌, inl, inr, List, [], ◌∷◌, Bool, true, false, not, ◌&&◌, ◌||◌, Option,
  none, some, ltb, arith, refl, subst, Bool-cases,
}
use tinyos.Bios.{
  Vm, IoDevice, Signals, raise_interrupt, interrupt_clear, set_core, interrupt_pic_thread, alarm,
  serial_rx_ready, serial_tx_ready,
}
use tinyos.Bios.Halt.{IsHalted, raise_interrupt-IsHalted}
use tinyos.Bios.Devices.{
  Transfer, Fifos, bios_read_serial, bios_write_serial, pic_round, raise_alarms, poll_from,
  poll_con, poll_kbd, set_con, set_kbd, transfer_con, transfer_kbd, read_retry, write_retry,
  clock_diff, serial_timeout,
}
use tinyos.Bios.Timer.{Timers, bios_set_timer}

Transfer-cases :
    {A : Type 0} (t : Transfer A)
    → ((a : A) × (t ≡ Transfer.moved a))
      ⊎ ((t ≡ Transfer.interrupted) ⊎ ((t ≡ Transfer.refused) ⊎ (t ≡ Transfer.failed)))
Transfer-cases (Transfer.moved a) = inl (a, refl)
Transfer-cases Transfer.interrupted = inr (inl refl)
Transfer-cases Transfer.refused = inr (inr (inl refl))
Transfer-cases Transfer.failed = inr (inr (inr refl))

-- The value of a call, if it gives one.
abbrev pub OnSome : {A : Type 0} → (A → Type 0) → Option A → Type 0
OnSome P none = Unit
OnSome P (some a) = P a

pub OnSome-some :
    {A : Type 0} (P : A → Type 0) (o : Option A) (a : A) → o ≡ some a → OnSome P o → P a
OnSome-some P o a e h = subst (OnSome P) e h

module _ {Handler World : Type 0} (os : Signals World) where
  set_con-IsHalted :
      (i : ℕ) (d : IoDevice) (v : Vm Handler World) → IsHalted v → IsHalted (set_con i d v)
  unfolding set_con
  set_con-IsHalted i d v s = record { listed = s.listed; cores = s.cores }

  set_kbd-IsHalted :
      (i : ℕ) (d : IoDevice) (v : Vm Handler World) → IsHalted v → IsHalted (set_kbd i d v)
  unfolding set_kbd
  set_kbd-IsHalted i d v s = record { listed = s.listed; cores = s.cores }

  world-IsHalted :
      (v : Vm Handler World) (w : World) → IsHalted v → IsHalted (record v { world = w })
  world-IsHalted v w s = record { listed = s.listed; cores = s.cores }

  clock-IsHalted :
      (v : Vm Handler World) (now : ℕ) → IsHalted v → IsHalted (record v { system_clock = now })
  clock-IsHalted v now s = record { listed = s.listed; cores = s.cores }

  interrupt_pic_thread-IsHalted :
      (v : Vm Handler World) → IsHalted v → IsHalted (interrupt_pic_thread os v)
  unfolding interrupt_pic_thread
  interrupt_pic_thread-IsHalted v s = record { listed = s.listed; cores = s.cores }

  poll_con-IsHalted :
      (i : ℕ) (b : Bool) (v : Vm Handler World) → IsHalted v → IsHalted (poll_con os i b v)
  unfolding poll_con
  poll_con-IsHalted i b v s =
      let d = v.con i in
      let polled = record d { ready = true; last_int = v.system_clock } in
      elim (Bool-cases (b || ltb serial_timeout (clock_diff v.system_clock d.last_int))) [
        | inl e ↦
            rw (e, poll_con)
              (raise_interrupt-IsHalted os d.int_core serial_tx_ready (set_con i polled v)
                (set_con-IsHalted i polled v s))
        | inr e ↦ rw (e, poll_con) s
      ]

  poll_kbd-IsHalted :
      (i : ℕ) (b : Bool) (v : Vm Handler World) → IsHalted v → IsHalted (poll_kbd os i b v)
  unfolding poll_kbd
  poll_kbd-IsHalted i b v s =
      let d = v.kbd i in
      let polled = record d { ready = true; last_int = v.system_clock } in
      elim (Bool-cases (b || ltb serial_timeout (clock_diff v.system_clock d.last_int))) [
        | inl e ↦
            rw (e, poll_kbd)
              (raise_interrupt-IsHalted os d.int_core serial_rx_ready (set_kbd i polled v)
                (set_kbd-IsHalted i polled v s))
        | inr e ↦ rw (e, poll_kbd) s
      ]

  poll_from-IsHalted :
      (writefds readfds : ℕ → Bool) (n i : ℕ) (v : Vm Handler World)
      → IsHalted v
      → IsHalted (poll_from os writefds readfds n i v)
  unfolding poll_from
  poll_from-IsHalted writefds readfds zero i v s = s
  poll_from-IsHalted writefds readfds (suc n) i v s =
      let v' = poll_con os i (writefds i) v in
      poll_from-IsHalted writefds readfds n (i + 1) (poll_kbd os i (readfds i) v')
        (poll_kbd-IsHalted i (readfds i) v' (poll_con-IsHalted i (writefds i) v s))

  raise_alarms-IsHalted :
      (cs : List ℕ) (v : Vm Handler World) → IsHalted v → IsHalted (raise_alarms os cs v)
  unfolding raise_alarms
  raise_alarms-IsHalted [] v s = s
  raise_alarms-IsHalted (c ∷ cs) v s =
      raise_alarms-IsHalted cs (raise_interrupt os c alarm v)
        (raise_interrupt-IsHalted os c alarm v s)

  pub pic_round-IsHalted :
      (now : ℕ) (sel : Option (List ℕ × ((ℕ → Bool) × (ℕ → Bool)))) (v : Vm Handler World)
      → IsHalted v
      → IsHalted (pic_round os now sel v)
  unfolding pic_round
  pic_round-IsHalted now none v s = clock-IsHalted v now s
  pic_round-IsHalted now (some (expired, (writefds, readfds))) v s =
      let v' = raise_alarms os expired (record v { system_clock = now }) in
      poll_from-IsHalted writefds readfds v'.nterm 0 v'
        (raise_alarms-IsHalted expired (record v { system_clock = now }) (clock-IsHalted v now s))

  transfer_kbd-IsHalted :
      (i : ℕ) (done : Bool) (v : Vm Handler World)
      → IsHalted v
      → IsHalted (transfer_kbd os i done v)
  unfolding transfer_kbd
  transfer_kbd-IsHalted i done v s =
      let d = v.kbd i in
      let dead = record d { ready = false } in
      elim (Bool-cases (not done && d.ready)) [
        | inl e ↦
            rw (e, transfer_kbd)
              (interrupt_pic_thread-IsHalted (set_kbd i dead v) (set_kbd-IsHalted i dead v s))
        | inr e ↦ rw (e, transfer_kbd) s
      ]

  transfer_con-IsHalted :
      (i : ℕ) (done : Bool) (v : Vm Handler World)
      → IsHalted v
      → IsHalted (transfer_con os i done v)
  unfolding transfer_con
  transfer_con-IsHalted i done v s =
      let d = v.con i in
      let dead = record d { ready = false } in
      elim (Bool-cases (not done && d.ready)) [
        | inl e ↦
            rw (e, transfer_con)
              (interrupt_pic_thread-IsHalted (set_con i dead v) (set_con-IsHalted i dead v s))
        | inr e ↦ rw (e, transfer_con) s
      ]

  module _ (io : Fifos World) (tm : Timers World) where
    pub bios_read_serial-IsHalted :
        (fuel serial : ℕ) (v : Vm Handler World)
        → IsHalted v
        → OnSome (λ r. IsHalted r.1) (bios_read_serial os io fuel serial v)
    unfolding bios_read_serial
    bios_read_serial-IsHalted fuel serial v s = go (read_retry io fuel (v.kbd serial).fd v.world)
      where
        after : (o : Option (Option ℕ × World)) → Option (Option ℕ × Vm Handler World)
        after none = none
        after (some (none, w)) = some (none, transfer_kbd os serial false (record v { world = w }))
        after (some (some c, w)) =
            some (some c, transfer_kbd os serial true (record v { world = w }))

        go : (o : Option (Option ℕ × World)) → OnSome (λ r. IsHalted r.1) (after o)
        go none = tt
        go (some (none, w)) =
            transfer_kbd-IsHalted serial false (record v { world = w }) (world-IsHalted v w s)
        go (some (some c, w)) =
            transfer_kbd-IsHalted serial true (record v { world = w }) (world-IsHalted v w s)

    pub bios_write_serial-IsHalted :
        (fuel serial byte : ℕ) (v : Vm Handler World)
        → IsHalted v
        → OnSome (λ r. IsHalted r.1) (bios_write_serial os io fuel serial byte v)
    unfolding bios_write_serial
    bios_write_serial-IsHalted fuel serial byte v s =
        go (write_retry io fuel (v.con serial).fd byte v.world)
      where
        after : (o : Option (Bool × World)) → Option (Bool × Vm Handler World)
        after none = none
        after (some (done, w)) = some (done, transfer_con os serial done (record v { world = w }))

        go : (o : Option (Bool × World)) → OnSome (λ r. IsHalted r.1) (after o)
        go none = tt
        go (some (done, w)) =
            transfer_con-IsHalted serial done (record v { world = w }) (world-IsHalted v w s)

    pub bios_set_timer-IsHalted :
        (c usec : ℕ) (v : Vm Handler World) → IsHalted v → IsHalted (bios_set_timer tm c usec v).1
    unfolding bios_set_timer interrupt_clear set_core
    bios_set_timer-IsHalted c usec v s = record {
      listed = λ x. ground (arith, s.listed x);
      cores = λ x. ground (arith, s.cores x);
    }
