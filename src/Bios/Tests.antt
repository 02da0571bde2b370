-- ===== src/Bios/Tests.antt =====
-- Runs of the virtual machine with two cores, and its theorems on a host that merges its signals.
use tinyos.Base.{
  ℕ, zero, suc, ◌+◌, ◌*◌, ◌/◌, ◌%◌, ◌<◌, ◌≡◌, List, [], ◌∷◌, Bool, true, false, Option, none, some,
  arith, refl, ap, update, count,
}
use tinyos.Cc.Tests.{no_waiters}
use tinyos.Dev.{SerialDcb, serial_read}
use tinyos.Dev.Serial.{Reads}
use tinyos.Bios.{
  Vm, IoDevice, Signals, booted_core, vm_boot, boot_cores, cpu_core_halt, raise_interrupt,
  take_signal, set_core, interrupt_set, interrupt_core, cpu_core_restart, core_restart, cpu_ici,
  alarm, serial_rx_ready,
}
use tinyos.Bios.Devices.{
  Transfer, Fifos, pic_round, raise_alarms, poll_from, poll_con, poll_kbd, set_con, set_kbd,
}
use tinyos.Bios.Timer.{Timers, bios_set_timer, bios_cancel_timer}
use tinyos.Bios.Machine.{IsMerging, halts, interrupts, here, there}
use tinyos.Bios.Served.{pending}
use tinyos.Bios.Halt.{IsHalted}
use tinyos.Bios.Taken.{
  IsQuiet, Dispatches, raise_interrupt-take_signal, raise_interrupt-dispatch_irq,
}
use tinyos.Bios.Reached.{IsBlank, vm_boot-Reachable}
use tinyos.Bios.Round.{ToldBoth, pic_round-Told}
use tinyos.Bios.Alarm.{IsTimer, bios_set_timer-bios_cancel_timer}
use tinyos.Bios.Ports.{
  IsKeyboard, machine_ports, machine_ports-IsPort, serial_read-bios_read_serial,
}

-- A host whose world is the number of signals that wait for each core.
abbrev Host : Type 0
Host = ℕ → ℕ

abbrev take_one : (c : ℕ) → ℕ → Host → Option (ℕ × Host)
take_one c zero w = none
take_one c (suc n) w = some (c, update w c n)

abbrev merging : Signals Host
merging = record {
  sigqueue = λ c w. update w c 1;
  sigqueue_pic = λ w. w;
  deliver = λ c w. take_one c (w c) w;
}

abbrev merging-IsMerging : IsMerging merging
merging-IsMerging = record {
  waiting = λ w. w;
  delivers = record {
    empty = λ c w e. ap (λ n. take_one c n w) e;
    next = λ c n w e. (update w c n, ap (λ m. take_one c m w) e, (λ x. refl));
  };
  sigqueue = λ c x w. refl;
}

abbrev silent_files : Fifos Host
silent_files = record {
  read_fd = λ fd w. (Transfer.refused, w);
  write_fd = λ fd byte w. (Transfer.moved byte, w);
}

abbrev stopped_timers : Timers Host
stopped_timers = record { timer_settime = λ c sec nsec w. ((0, 0), w) }

abbrev idle_device : (fd : ℕ) → IoDevice
idle_device fd = record { fd = fd; int_core = 0; ready = false; last_int = 0 }

-- A machine that is off, in the given world, with handlers that are numbers.
abbrev off : {World : Type 0} → World → Vm ℕ World
off w = record {
  core = λ c. booted_core;
  ncores = 0;
  halted_list = [];
  con = λ i. idle_device i;
  kbd = λ i. idle_device (i + 10);
  nterm = 0;
  system_clock = 0;
  pic_usr1_queued = 0;
  world = w;
}

abbrev no_signals : Host
no_signals c = 0

abbrev idle_handlers : ℕ → Vm ℕ Host → Vm ℕ Host
idle_handlers h v = v

off-IsBlank : IsBlank (off no_signals)
off-IsBlank = record { halted = λ c. refl }

abbrev two_cores : {World : Type 0} → World → Vm ℕ World
two_cores w = record (off w) { ncores = 2; nterm = 1; core = boot_cores 2 0 (λ c. booted_core) }

two_cores_booted : vm_boot 2 1 0 (off no_signals) ≡ some (two_cores no_signals)
unfolding vm_boot
two_cores_booted = refl

-- Core 1 halts, and core 0 sends it an interrupt.
abbrev halted_core : Vm ℕ Host
halted_core = cpu_core_halt 1 (two_cores no_signals)

abbrev woken_core : Vm ℕ Host
woken_core = raise_interrupt merging 1 0 halted_core

core_is_known : 1 < (two_cores no_signals).ncores
core_is_known = omega arith

core_is_up : ((two_cores no_signals).core 1).halted ≡ false
unfolding boot_cores
core_is_up = refl

interrupt_is_sent : cpu_ici merging 1 halted_core ≡ some woken_core
unfolding cpu_ici cpu_core_halt set_core
interrupt_is_sent = refl

core_has_woken : (woken_core.halted_list ≡ []) × ((woken_core.core 1).int_pending 0 ≡ true)
unfolding raise_interrupt interrupt_set interrupt_core cpu_core_restart core_restart cpu_core_halt
    set_core boot_cores
core_has_woken = (refl, refl)

vm_boot-Reachable_example : IsHalted woken_core
vm_boot-Reachable_example =
    vm_boot-Reachable merging idle_handlers (λ h v s. s) silent_files stopped_timers 2 1 0
      (off no_signals) (two_cores no_signals) woken_core off-IsBlank two_cores_booted
      (there (there here (halts 1 core_is_known core_is_up)) (interrupts 1 interrupt_is_sent))

merging_idle-IsQuiet : (c : ℕ) → IsQuiet merging idle_handlers c (λ w. w)
merging_idle-IsQuiet c = record { pends = λ h v. refl; waits = λ h v. refl }

abbrev alarm_and_input : Vm ℕ Host
alarm_and_input =
    raise_interrupt merging 0 serial_rx_ready
      (raise_interrupt merging 0 alarm (two_cores no_signals))

raise_interrupt-take_signal_example :
    (w : Vm ℕ Host) × (take_signal idle_handlers merging 0 alarm_and_input ≡ some w)
    × (w.world 0 ≡ 0)
    × (0 < pending (w.core 0))
    × (take_signal idle_handlers merging 0 w ≡ some w)
raise_interrupt-take_signal_example =
    raise_interrupt-take_signal merging idle_handlers 0 merging-IsMerging alarm serial_rx_ready
      (two_cores no_signals) (merging_idle-IsQuiet 0) (omega arith) (omega arith)
      (λ e. omega (arith, e))

calm_core : (j : ℕ) → j < 4 → ((two_cores no_signals).core 0).int_pending j ≡ false
unfolding boot_cores
calm_core j h = refl

raise_interrupt-dispatch_irq_example :
    Dispatches merging idle_handlers 0 merging-IsMerging alarm
      (raise_interrupt merging 0 alarm (two_cores no_signals))
raise_interrupt-dispatch_irq_example =
    raise_interrupt-dispatch_irq merging idle_handlers 0 merging-IsMerging alarm
      (two_cores no_signals) (omega arith) calm_core

-- One timer has expired, and there is input.
abbrev input_ready : ℕ → Bool
input_ready i = true

abbrev none_ready : ℕ → Bool
none_ready i = false

abbrev polled : Vm ℕ Host
polled = pic_round merging 5 (some (1 ∷ [], (none_ready, input_ready))) (two_cores no_signals)

pic_round-Told_example :
    ((c : ℕ)
      → 0 < count c (1 ∷ [])
      → ((polled.core c).int_pending alarm ≡ true) × ((polled.core c).halted ≡ false))
    × ((j : ℕ)
        → j < 1
        → ToldBoth merging none_ready input_ready 5 j idle_device
            (λ i. idle_device (i + 10))
            polled)
pic_round-Told_example =
    pic_round-Told merging 5 (1 ∷ []) none_ready input_ready (two_cores no_signals)

input_is_pending :
    ((polled.core 0).int_pending serial_rx_ready ≡ true) × ((polled.kbd 0).last_int ≡ 5)
unfolding pic_round raise_alarms poll_from poll_con poll_kbd set_con set_kbd raise_interrupt
    interrupt_set interrupt_core cpu_core_restart core_restart set_core boot_cores
input_is_pending = (refl, refl)

-- A timer whose world is the nanoseconds left.
abbrev counter : Timers ℕ
counter = record {
  timer_settime = λ c sec nsec w. ((w / 1000000000, w % 1000000000), sec * 1000000000 + nsec);
}

abbrev counter-IsTimer : IsTimer counter
counter-IsTimer = record { left = λ c w. w; timer_settime = λ c sec nsec w h. (refl, refl, refl) }

bios_set_timer-bios_cancel_timer_example :
    let (old, u) = bios_set_timer counter 0 2500000 (two_cores 7000) in
    let (back, w) = bios_cancel_timer counter 0 u in
    (old ≡ 7) × ((u.core 0).int_pending alarm ≡ false) × (back ≡ 2500000) × (w.world ≡ 0)
bios_set_timer-bios_cancel_timer_example =
    bios_set_timer-bios_cancel_timer counter counter-IsTimer 0 2500000 (two_cores 7000)

-- A keyboard whose world is whether a read is interrupted, and the bytes that have come in.
abbrev Keys : Type 0
Keys = Bool × List ℕ

abbrev read_key : Keys → Transfer ℕ × Keys
read_key (true, cs) = (Transfer.interrupted, (false, cs))
read_key (false, []) = (Transfer.refused, (true, []))
read_key (false, c ∷ cs) = (Transfer.moved c, (true, cs))

abbrev keys : Fifos Keys
keys = record { read_fd = λ fd w. read_key w; write_fd = λ fd byte w. (Transfer.moved byte, w) }

abbrev no_signalling : Signals Keys
no_signalling = record { sigqueue = λ c w. w; sigqueue_pic = λ w. w; deliver = λ c w. none }

-- The interruptions that are still to come.
abbrev busy : Keys → ℕ
busy (true, cs) = 1
busy (false, cs) = 0

interrupted_key :
    (n : ℕ) (w : Keys)
    → busy w ≡ suc n
    → (w' : Keys) × (read_key w ≡ (Transfer.interrupted, w')) × (busy w' ≡ n) × (w'.1 ≡ w.1)
interrupted_key n (true, cs) e = ((false, cs), refl, omega (arith, e), refl)
interrupted_key n (false, cs) e = absurd (omega (arith, e))

typed_key :
    (c : ℕ) (cs : List ℕ) (w : Keys)
    → busy w ≡ 0
    → w.1 ≡ c ∷ cs
    → (w' : Keys) × (read_key w ≡ (Transfer.moved c, w')) × (w'.1 ≡ cs)
typed_key c cs (true, ks) e h = absurd (omega (arith, e))
typed_key c cs (false, ks) e h = ((true, cs), ap (λ l. read_key (false, l)) h, refl)

no_key :
    (w : Keys)
    → busy w ≡ 0
    → w.1 ≡ []
    → (w' : Keys) × (read_key w ≡ (Transfer.refused, w')) × (w'.1 ≡ [])
no_key (true, ks) e h = absurd (omega (arith, e))
no_key (false, ks) e h = ((true, []), ap (λ l. read_key (false, l)) h, refl)

few_interruptions : (w : Keys) → busy w < 2
few_interruptions (true, cs) = omega arith
few_interruptions (false, cs) = omega arith

abbrev keys-IsKeyboard : IsKeyboard no_signalling keys 2
keys-IsKeyboard = record {
  incoming = λ fd w. w.1;
  interruptions = λ fd w. busy w;
  few = λ fd w. few_interruptions w;
  interrupted = λ fd n w e. interrupted_key n w e;
  byte = λ fd c cs w e h. typed_key c cs w e h;
  nothing = λ fd w e h. no_key w e h;
  sigqueue_pic = λ fd w. refl;
}

abbrev terminal : SerialDcb
terminal = record { devno = 0; rx_ready = no_waiters }

abbrev typed_hi : Vm ℕ Keys
typed_hi = two_cores (true, 104 ∷ 105 ∷ 10 ∷ [])

serial_read-bios_read_serial_example :
    Reads
      (machine_ports no_signalling keys 2)
      terminal
      (machine_ports-IsPort no_signalling keys 2 keys-IsKeyboard 0)
      2
      (104 ∷ 105 ∷ 10 ∷ [])
      (serial_read (machine_ports no_signalling keys 2) terminal 2 typed_hi)
serial_read-bios_read_serial_example =
    serial_read-bios_read_serial no_signalling keys 2 keys-IsKeyboard terminal 2 typed_hi
