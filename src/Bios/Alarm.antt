-- ===== src/Bios/Alarm.antt =====
-- The interval that `bios_set_timer` of bios.c sets, and the one it gives back.
use tinyos.Base.{ℕ, ◌+◌, ◌*◌, ◌/◌, ◌%◌, ◌<◌, ◌≡◌, false, arith, ==_refl}
use tinyos.Bios.{Vm, interrupt_clear, set_core, alarm}
use tinyos.Bios.Timer.{Timers, bios_set_timer, bios_cancel_timer}

-- A timer that counts down the nanoseconds that are left, of which none pass while the machine does nothing; its
-- calls want fewer than 10^9 nanoseconds beside the seconds.
pub record IsTimer {World : Type 0} (tm : Timers World) : Type 0 where
  pub left : (core : ℕ) → World → ℕ
  pub timer_settime :
      (c sec nsec : ℕ) (w : World)
      → nsec < 1000000000
      → let (old, w') = tm.timer_settime c sec nsec w in
        (old.0 ≡ left c w / 1000000000)
        × (old.1 ≡ left c w % 1000000000)
        × (left c w' ≡ sec * 1000000000 + nsec)

module _ {Handler World : Type 0} (tm : Timers World) (t : IsTimer tm) where
  bios_set_timer-left :
      (c usec : ℕ) (v : Vm Handler World)
      → let (old, u) = bios_set_timer tm c usec v in
        (old ≡ t.left c v.world / 1000)
        × (t.left c u.world ≡ usec * 1000)
        × ((u.core c).int_pending alarm ≡ false)
  unfolding bios_set_timer interrupt_clear set_core
  bios_set_timer-left c usec v =
      let sec = usec / 1000000 in
      let nsec = usec % 1000000 * 1000 in
      let settime = t.timer_settime c sec nsec v.world (omega arith) in
      (omega (arith, settime.0, settime.1), omega (arith, settime.2), ground (arith, ==_refl c))

  -- On a timer that gives the time left and takes fewer than 10^9 nanoseconds: `bios_set_timer` gives the
  -- microseconds left of the interval before, rounded down, and no ALARM is pending for the core; if the timer
  -- is cancelled at once, the value is the interval that was set, and no time is left.
  pub bios_set_timer-bios_cancel_timer :
      (c usec : ℕ) (v : Vm Handler World)
      → let (old, u) = bios_set_timer tm c usec v in
        let (back, w) = bios_cancel_timer tm c u in
        (old ≡ t.left c v.world / 1000)
        × ((u.core c).int_pending alarm ≡ false)
        × (back ≡ usec)
        × (t.left c w.world ≡ 0)
  unfolding bios_cancel_timer
  bios_set_timer-bios_cancel_timer c usec v =
      let (old, u) = bios_set_timer tm c usec v in
      let set = bios_set_timer-left c usec v in
      let cancelled = bios_set_timer-left c 0 u in
      (set.0, set.2, omega (arith, cancelled.0, set.1), omega (arith, cancelled.1))
