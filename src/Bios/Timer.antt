-- ===== src/Bios/Timer.antt =====
-- The timer and the clock of bios.c. The timers of the host are a parameter.
use tinyos.Base.{ℕ, ◌+◌, ◌*◌, ◌/◌, ◌%◌}
use tinyos.Bios.{Vm, interrupt_clear, alarm}

-- `timer_settime` of the timer of a core: it sets the time, in seconds and nanoseconds, and gives the one left.
pub record Timers (World : Type 0) : Type 0 where
  pub timer_settime : (core sec nsec : ℕ) → World → (ℕ × ℕ) × World

module _ {Handler World : Type 0} (os : Timers World) where
  -- The value is the time left in the interval of the last call.
  unfoldable pub bios_set_timer : (core usec : ℕ) → Vm Handler World → ℕ × Vm Handler World
  unfolding interrupt_clear
  bios_set_timer c usec v =
      let sec = usec / 1000000 in
      let nsec = usec % 1000000 * 1000 in
      let (old, w) = os.timer_settime c sec nsec v.world in
      let (_, v') = interrupt_clear c alarm (record v { world = w }) in
      (1000000 * old.0 + old.1 / 1000, v')

  unfoldable pub bios_cancel_timer : (core : ℕ) → Vm Handler World → ℕ × Vm Handler World
  unfolding bios_set_timer
  bios_cancel_timer c v = bios_set_timer c 0 v

-- `get_coarse_time`, from what `clock_gettime` gives.
unfoldable pub get_coarse_time : (tv_sec tv_nsec : ℕ) → ℕ
get_coarse_time tv_sec tv_nsec = tv_nsec / 1000000 + tv_sec * 1000

unfoldable pub bios_clock : {Handler World : Type 0} → Vm Handler World → ℕ
bios_clock v = v.system_clock * 1000
