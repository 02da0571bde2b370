-- ===== src/Bios/Machine.antt =====
-- The steps of the machine of bios.c, and what the signals of its host promise.
use tinyos.Base.{ℕ, ◌<◌, ◌≡◌, List, Bool, false, Option, none, some, if◌then◌else◌, ◌==◌, suc}
use tinyos.Bios.{
  Vm, Signals, cpu_core_halt, cpu_core_restart, cpu_core_restart_one, cpu_core_restart_all, cpu_ici,
  take_signal, cpu_interrupt_handler,
}
use tinyos.Bios.Devices.{Fifos, bios_read_serial, bios_write_serial, pic_round}
use tinyos.Bios.Timer.{Timers, bios_set_timer}

-- How the host delivers signals: not one when none waits for the core, and else one of them, which carries
-- the number of the core.
pub record Delivers {World : Type 0} (os : Signals World) (waiting : World → ℕ → ℕ) : Type 0 where
  pub empty : (c : ℕ) (w : World) → waiting w c ≡ 0 → os.deliver c w ≡ none
  pub next :
      (c n : ℕ) (w : World)
      → waiting w c ≡ suc n
      → (w' : World) × (os.deliver c w ≡ some (c, w'))
        × ((x : ℕ) → waiting w' x ≡ (if x == c then n else waiting w x))

-- A host on which at most one SIGUSR1 waits for a thread, as POSIX has it for a signal that is not a
-- real-time signal: one that is sent while another waits is not queued.
pub record IsMerging {World : Type 0} (os : Signals World) : Type 0 where
  pub waiting : World → ℕ → ℕ
  pub delivers : Delivers os waiting
  pub sigqueue :
      (c x : ℕ) (w : World) → waiting (os.sigqueue c w) x ≡ (if x == c then 1 else waiting w x)

module _ {Handler World : Type 0} (os : Signals World) (io : Fifos World) (tm : Timers World)
    (call : Handler → Vm Handler World → Vm Handler World) where
  -- What the cores, the daemon and the host do. Only a core that runs, and is one of the machine's, halts.
  pub data Step : Vm Handler World → Vm Handler World → Type 0 where
    halts :
        (c : ℕ) {v : Vm Handler World}
        → c < v.ncores
        → (v.core c).halted ≡ false
        → Step v (cpu_core_halt c v)
    restarts : (c : ℕ) {v : Vm Handler World} → Step v (cpu_core_restart c v)
    restarts_one : {v : Vm Handler World} → Step v (cpu_core_restart_one v)
    restarts_all : {v : Vm Handler World} → Step v (cpu_core_restart_all v)
    interrupts : (c : ℕ) {v w : Vm Handler World} → cpu_ici os c v ≡ some w → Step v w
    takes : (c : ℕ) {v w : Vm Handler World} → take_signal call os c v ≡ some w → Step v w
    handles :
        (c interrupt : ℕ) (h : Option Handler) {v : Vm Handler World}
        → Step v (cpu_interrupt_handler c interrupt h v)
    sets_timer : (c usec : ℕ) {v : Vm Handler World} → Step v (bios_set_timer tm c usec v).1
    reads :
        (fuel serial : ℕ) (o : Option ℕ) {v w : Vm Handler World}
        → bios_read_serial os io fuel serial v ≡ some (o, w)
        → Step v w
    writes :
        (fuel serial byte : ℕ) (done : Bool) {v w : Vm Handler World}
        → bios_write_serial os io fuel serial byte v ≡ some (done, w)
        → Step v w
    rounds :
        (now : ℕ) (sel : Option (List ℕ × ((ℕ → Bool) × (ℕ → Bool)))) {v : Vm Handler World}
        → Step v (pic_round os now sel v)

  pub data Reachable (start : Vm Handler World) : Vm Handler World → Type 0 where
    here : Reachable start start
    there : {x y : Vm Handler World} → Reachable start x → Step x y → Reachable start y
