-- ===== src/Bios/Ports.antt =====
-- The serial ports that the device drivers read, as the virtual machine of bios.c gives them.
use tinyos.Base.{
  ℕ, zero, suc, ◌<◌, ◌≡◌, inl, inr, List, [], ◌∷◌, true, false, Option, none, some, if◌then◌else◌,
  arith, refl, ap, ◌∙◌, Bool-cases, ==_refl, ℕ-cases,
}
use tinyos.Bios.{Vm, Signals, interrupt_pic_thread}
use tinyos.Bios.Devices.{
  Transfer, Fifos, read_retry, bios_read_serial, bios_write_serial, transfer_kbd, set_kbd,
}
use tinyos.Dev.{SerialDcb, SerialPorts, serial_read}
use tinyos.Dev.Serial.{IsPort, Reads, serial_read-Reads}

-- The ports, with the calls of bios.c; a call that comes to nothing is one that takes no byte.
abbrev pub machine_ports :
    {Handler World : Type 0}
    → Signals World
    → Fifos World
    → (fuel : ℕ) → SerialPorts (Vm Handler World)
machine_ports os io fuel = record {
  read_serial =
      λ devno v. elim (bios_read_serial os io fuel devno v) [ none ↦ (none, v) | some r ↦ r ];
  write_serial = λ devno byte v. elim (bios_write_serial os io fuel devno byte v) [
    | none ↦ (false, v)
    | some r ↦ r
  ];
}

-- A keyboard file: a read of one byte is interrupted fewer than `fuel` times in a row; then it takes the
-- oldest of the bytes that have come in, or there is none. The signals of the daemon do not touch it.
pub record IsKeyboard {World : Type 0} (os : Signals World) (io : Fifos World) (fuel : ℕ)
    : Type 0 where
  pub incoming : (fd : ℕ) → World → List ℕ
  pub interruptions : (fd : ℕ) → World → ℕ
  pub few : (fd : ℕ) (w : World) → interruptions fd w < fuel
  pub interrupted :
      (fd n : ℕ) (w : World)
      → interruptions fd w ≡ suc n
      → (w' : World) × (io.read_fd fd w ≡ (Transfer.interrupted, w'))
        × (interruptions fd w' ≡ n)
        × (incoming fd w' ≡ incoming fd w)
  pub byte :
      (fd c : ℕ) (cs : List ℕ) (w : World)
      → interruptions fd w ≡ 0
      → incoming fd w ≡ c ∷ cs
      → (w' : World) × (io.read_fd fd w ≡ (Transfer.moved c, w')) × (incoming fd w' ≡ cs)
  pub nothing :
      (fd : ℕ) (w : World)
      → interruptions fd w ≡ 0
      → incoming fd w ≡ []
      → (w' : World) × (io.read_fd fd w ≡ (Transfer.refused, w')) × (incoming fd w' ≡ [])
  pub sigqueue_pic : (fd : ℕ) (w : World) → incoming fd (os.sigqueue_pic w) ≡ incoming fd w

module _ {World : Type 0} (os : Signals World) (io : Fifos World) (fuel : ℕ)
    (k : IsKeyboard os io fuel) where
  -- The round of the loop after the call.
  abbrev pub retried : (n fd : ℕ) → Transfer ℕ × World → Option (Option ℕ × World)
  retried n fd (rc, w) = elim rc [
    | Transfer.moved c ↦ some (some c, w)
    | Transfer.interrupted ↦ read_retry io n fd w
    | Transfer.refused ↦ some (none, w)
    | Transfer.failed ↦ none
  ]

  -- The fuel is enough when it exceeds the interruptions.
  pub read_retry-byte :
      (n fd c : ℕ) (cs : List ℕ) (w : World)
      → k.interruptions fd w < n
      → k.incoming fd w ≡ c ∷ cs
      → (w' : World) × (read_retry io n fd w ≡ some (some c, w')) × (k.incoming fd w' ≡ cs)
  unfolding read_retry
  read_retry-byte zero fd c cs w few e = absurd (omega arith)
  read_retry-byte (suc n) fd c cs w few e = elim (ℕ-cases (k.interruptions fd w)) [
    | inl calm ↦
        let (w', reads, left) = k.byte fd c cs w calm e in (w', ap (retried n fd) reads, left)
    | inr (m, busy) ↦
        let (w', reads, fewer, same) = k.interrupted fd m w busy in
        let (w'', again, left) =
          read_retry-byte n fd c cs w' (omega (arith, fewer, busy, few)) (same ∙ e) in
        (w'', ap (retried n fd) reads ∙ again, left)
  ]

  pub read_retry-nothing :
      (n fd : ℕ) (w : World)
      → k.interruptions fd w < n
      → k.incoming fd w ≡ []
      → (w' : World) × (read_retry io n fd w ≡ some (none, w')) × (k.incoming fd w' ≡ [])
  unfolding read_retry
  read_retry-nothing zero fd w few e = absurd (omega arith)
  read_retry-nothing (suc n) fd w few e = elim (ℕ-cases (k.interruptions fd w)) [
    | inl calm ↦
        let (w', reads, left) = k.nothing fd w calm e in (w', ap (retried n fd) reads, left)
    | inr (m, busy) ↦
        let (w', reads, fewer, same) = k.interrupted fd m w busy in
        let (w'', again, left) =
          read_retry-nothing n fd w' (omega (arith, fewer, busy, few)) (same ∙ e) in
        (w'', ap (retried n fd) reads ∙ again, left)
  ]

module _ {Handler World : Type 0} (os : Signals World) (io : Fifos World) (fuel : ℕ)
    (k : IsKeyboard os io fuel) (devno : ℕ) where
  -- The bytes that have come in on the keyboard of the port.
  abbrev pub typed : Vm Handler World → List ℕ
  typed v = k.incoming (v.kbd devno).fd v.world

  pub typed-transfer_kbd : (v : Vm Handler World) → typed (transfer_kbd os devno false v) ≡ typed v
  unfolding transfer_kbd set_kbd interrupt_pic_thread
  typed-transfer_kbd v = elim (Bool-cases (v.kbd devno).ready) [
    | inl e ↦
        rw (e, transfer_kbd)
          (ap
              (λ b.
                k.incoming (if b then record (v.kbd devno) { ready = false } else v.kbd devno).fd
                  (os.sigqueue_pic v.world))
              (==_refl devno)
            ∙ k.sigqueue_pic (v.kbd devno).fd v.world)
    | inr e ↦ rw (e, transfer_kbd) refl
  ]

  -- A call of `bios_read_serial`, from what its transfer comes to.
  abbrev pub read_done : Vm Handler World → Option (Option ℕ × World) → Option ℕ × Vm Handler World
  read_done v none = (none, v)
  read_done v (some (none, w)) = (none, transfer_kbd os devno false (record v { world = w }))
  read_done v (some (some c, w)) = (some c, transfer_kbd os devno true (record v { world = w }))

  pub read_serial-read_done :
      (v : Vm Handler World)
      → (machine_ports os io fuel).read_serial devno v
        ≡ read_done v (read_retry io fuel (v.kbd devno).fd v.world)
  unfolding bios_read_serial
  read_serial-read_done v = go (read_retry io fuel (v.kbd devno).fd v.world)
    where
      called : Option (Option ℕ × World) → Option (Option ℕ × Vm Handler World)
      called none = none
      called (some (none, w)) = some (none, transfer_kbd os devno false (record v { world = w }))
      called (some (some c, w)) = some (some c, transfer_kbd os devno true (record v { world = w }))

      port : Option (Option ℕ × Vm Handler World) → Option ℕ × Vm Handler World
      port none = (none, v)
      port (some r) = r

      go : (o : Option (Option ℕ × World)) → port (called o) ≡ read_done v o
      go none = refl
      go (some (none, w)) = refl
      go (some (some c, w)) = refl

  pub transfer_kbd-done : (v : Vm Handler World) → transfer_kbd os devno true v ≡ v
  unfolding transfer_kbd
  transfer_kbd-done v = refl

  abbrev pub machine_ports-IsPort : IsPort (machine_ports {Handler = Handler} os io fuel) devno
  machine_ports-IsPort = record {
    incoming = typed;
    byte = λ v c cs e.
        let fd = (v.kbd devno).fd in
        let (w, reads, left) =
          read_retry-byte os io fuel k fuel fd c cs v.world (k.few fd v.world) e in
        let after = record v { world = w } in
        (
          after,
          (read_serial-read_done v ∙ ap (read_done v) reads)
              ∙ ap (λ u. (some c, u)) (transfer_kbd-done after),
          left,
        );
    nothing = λ v e.
        let fd = (v.kbd devno).fd in
        let (w, reads, left) =
          read_retry-nothing os io fuel k fuel fd v.world (k.few fd v.world) e in
        let after = record v { world = w } in
        (
          transfer_kbd os devno false after,
          read_serial-read_done v ∙ ap (read_done v) reads,
          typed-transfer_kbd after ∙ left,
        );
  }

-- On the virtual machine, over a keyboard file whose reads are interrupted fewer times in a row than there is
-- fuel: `serial_read` gives the bytes that have come in on the keyboard, in order, up to `size`, and leaves the
-- rest; it gives no byte only if none is asked for, and sleeps just when there is none.
pub serial_read-bios_read_serial :
    {Handler World : Type 0} (os : Signals World) (io : Fifos World) (fuel : ℕ)
    (k : IsKeyboard os io fuel) (dcb : SerialDcb) (size : ℕ) (v : Vm Handler World)
    → Reads
        (machine_ports os io fuel)
        dcb
        (machine_ports-IsPort os io fuel k dcb.devno)
        size
        (typed os io fuel k dcb.devno v)
        (serial_read (machine_ports os io fuel) dcb size v)
serial_read-bios_read_serial os io fuel k dcb size v =
    serial_read-Reads (machine_ports os io fuel) dcb (machine_ports-IsPort os io fuel k dcb.devno)
      size v
