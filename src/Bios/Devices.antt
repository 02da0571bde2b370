-- ===== src/Bios/Devices.antt =====
-- The serial devices of bios.c: the transfers of the cores, and what the PIC daemon does for the devices in
-- each round of its loop. The files of the host are a parameter.
use tinyos.Base.{
  ℕ, zero, suc, ◌+◌, ◌-◌, ◌%◌, ◌^◌, List, [], ◌∷◌, Bool, true, false, not, ◌&&◌, ◌||◌, Option, none,
  some, ◌==◌, ltb, if◌then◌else◌, update,
}
use tinyos.Bios.{
  Vm, IoDevice, Signals, interrupt_pic_thread, raise_interrupt, serial_rx_ready, serial_tx_ready,
  alarm,
}

-- What `read` and `write` of one byte come to: a byte is transferred, or -1 with EINTR, or there is none to
-- be had (0, EAGAIN or EPIPE), or another failure.
pub data Transfer (A : Type 0) : Type 0 where
  moved : A → Transfer A
  interrupted refused failed : Transfer A

pub record Fifos (World : Type 0) : Type 0 where
  pub read_fd : (fd : ℕ) → World → Transfer ℕ × World
  pub write_fd : (fd byte : ℕ) → World → Transfer ℕ × World

abbrev pub serial_timeout : ℕ
serial_timeout = 300

-- The difference of two times of type `coarse_clock_t`, which wraps around.
abbrev pub clock_diff : (now last : ℕ) → ℕ
clock_diff now last = (now + (2 ^ 64 - last % 2 ^ 64)) % 2 ^ 64

module _ {World : Type 0} (io : Fifos World) where
  -- The loop of `io_device_read` while the call is interrupted, on fuel; the value is what `rc` is 1 for.
  -- `none` is a failed assertion, or the end of the fuel.
  unfoldable pub read_retry : (fuel fd : ℕ) → World → Option (Option ℕ × World)
  read_retry zero fd w = none
  read_retry (suc fuel) fd w =
      let (rc, w') = io.read_fd fd w in
      let rest = read_retry fuel fd w' in
      elim rc [
        | moved c ↦ some (some c, w')
        | interrupted ↦ rest
        | refused ↦ some (none, w')
        | failed ↦ none
      ]

  unfoldable pub write_retry : (fuel fd byte : ℕ) → World → Option (Bool × World)
  write_retry zero fd byte w = none
  write_retry (suc fuel) fd byte w =
      let (rc, w') = io.write_fd fd byte w in
      let rest = write_retry fuel fd byte w' in
      elim rc [
        | moved _ ↦ some (true, w')
        | interrupted ↦ rest
        | refused ↦ some (false, w')
        | failed ↦ none
      ]

module _ {Handler World : Type 0} where
  unfoldable pub set_kbd : ℕ → IoDevice → Vm Handler World → Vm Handler World
  set_kbd i d v = record v { kbd = update v.kbd i d }

  unfoldable pub set_con : ℕ → IoDevice → Vm Handler World → Vm Handler World
  set_con i d v = record v { con = update v.con i d }

  module _ (os : Signals World) where
    -- What `io_device_read` does to its device after the transfer.
    unfoldable pub transfer_kbd : (serial : ℕ) → (done : Bool) → Vm Handler World → Vm Handler World
    unfolding set_kbd interrupt_pic_thread
    transfer_kbd serial done v =
        let d = v.kbd serial in
        if not done && d.ready
        then interrupt_pic_thread os (set_kbd serial (record d { ready = false }) v)
        else v

    unfoldable pub transfer_con : (serial : ℕ) → (done : Bool) → Vm Handler World → Vm Handler World
    unfolding set_con interrupt_pic_thread
    transfer_con serial done v =
        let d = v.con serial in
        if not done && d.ready
        then interrupt_pic_thread os (set_con serial (record d { ready = false }) v)
        else v

    -- The byte read, if any.
    unfoldable pub bios_read_serial :
        Fifos World → (fuel serial : ℕ) → Vm Handler World → Option (Option ℕ × Vm Handler World)
    unfolding read_retry transfer_kbd
    bios_read_serial io fuel serial v = elim (read_retry io fuel (v.kbd serial).fd v.world) [
      | none ↦ none
      | some (none, w) ↦ some (none, transfer_kbd serial false (record v { world = w }))
      | some (some c, w) ↦ some (some c, transfer_kbd serial true (record v { world = w }))
    ]

    unfoldable pub bios_write_serial :
        Fifos World → (fuel serial value : ℕ) → Vm Handler World → Option (Bool × Vm Handler World)
    unfolding write_retry transfer_con
    bios_write_serial io fuel serial value v =
        elim (write_retry io fuel (v.con serial).fd value v.world) [
          | none ↦ none
          | some (done, w) ↦ some (done, transfer_con serial done (record v { world = w }))
        ]

    -- The daemon on the console of terminal `i`, with its bit in the set of `select`.
    unfoldable pub poll_con : (i : ℕ) → (isset : Bool) → Vm Handler World → Vm Handler World
    unfolding set_con raise_interrupt
    poll_con i isset v =
        let d = v.con i in
        if isset || ltb serial_timeout (clock_diff v.system_clock d.last_int)
        then raise_interrupt os d.int_core serial_tx_ready
            (set_con i (record d { ready = true; last_int = v.system_clock }) v)
        else v

    unfoldable pub poll_kbd : (i : ℕ) → (isset : Bool) → Vm Handler World → Vm Handler World
    unfolding set_kbd raise_interrupt
    poll_kbd i isset v =
        let d = v.kbd i in
        if isset || ltb serial_timeout (clock_diff v.system_clock d.last_int)
        then raise_interrupt os d.int_core serial_rx_ready
            (set_kbd i (record d { ready = true; last_int = v.system_clock }) v)
        else v

    -- The loop of `PIC_daemon` that handles the devices, from terminal `i` on; the sets are those that
    -- `select` leaves.
    unfoldable pub poll_from :
        (writefds readfds : ℕ → Bool) → (rounds i : ℕ) → Vm Handler World → Vm Handler World
    unfolding poll_con poll_kbd
    poll_from writefds readfds zero i v = v
    poll_from writefds readfds (suc n) i v =
        poll_from writefds readfds n (i + 1) (poll_kbd i (readfds i) (poll_con i (writefds i) v))

    -- The loop over the expired timers of the cores.
    unfoldable pub raise_alarms : (expired : List ℕ) → Vm Handler World → Vm Handler World
    unfolding raise_interrupt
    raise_alarms [] v = v
    raise_alarms (c ∷ cs) v = raise_alarms cs (raise_interrupt os c alarm v)

    -- The sets that the daemon gives to `select`: the live terminals whose devices are not ready.
    unfoldable pub watched_kbd : (live : ℕ → Bool) → Vm Handler World → ℕ → Bool
    watched_kbd live v i = ltb i v.nterm && (live i && not (v.kbd i).ready)

    unfoldable pub watched_con : (live : ℕ → Bool) → Vm Handler World → ℕ → Bool
    watched_con live v i = ltb i v.nterm && (live i && not (v.con i).ready)

    -- A round of the daemon after `select`, which has told `none` for an error, or else the expired timers and
    -- the ready devices.
    unfoldable pub pic_round :
        (now : ℕ)
        → Option (List ℕ × ((ℕ → Bool) × (ℕ → Bool)))
        → Vm Handler World
        → Vm Handler World
    unfolding raise_alarms poll_from
    pic_round now none v = record v { system_clock = now }
    pic_round now (some (expired, (writefds, readfds))) v =
        let v' = raise_alarms expired (record v { system_clock = now }) in
        poll_from writefds readfds v'.nterm 0 v'

  -- No effect on an illegal argument.
  unfoldable pub bios_serial_interrupt_core :
      (serial intno coreid : ℕ) → Vm Handler World → Vm Handler World
  unfolding set_kbd set_con
  bios_serial_interrupt_core serial intno coreid v =
      let kbd = v.kbd serial in
      let con = v.con serial in
      if not (ltb serial v.nterm)
      then v
      else if not ((intno == serial_rx_ready) || (intno == serial_tx_ready))
      then v
      else if not (ltb coreid v.ncores)
      then v
      else if intno == serial_rx_ready
      then set_kbd serial (record kbd { int_core = coreid }) v
      else set_con serial (record con { int_core = coreid }) v

  unfoldable pub bios_serial_ports : Vm Handler World → ℕ
  bios_serial_ports v = v.nterm
