-- ===== src/Init.antt =====
-- The boot of kernel_init.c on core 0, up to the call of `run_scheduler`.
pub mod Exec
pub mod Booted
mod Tests
use tinyos.Base.{ℕ, List, Option, none, some, ◌==◌, if◌then◌else◌}
use tinyos.Sched.{initialize_scheduler}
use tinyos.Streams.{initialize_files}
use tinyos.Kernel.{Kernel}
use tinyos.Proc.{initialize_processes, sys_exec}
use tinyos.Dev.{Devices, initialize_devices}

-- What the boot initialises.
pub record Machine (Ops World : Type 0) : Type 0 where
  pub devices : Devices
  pub kernel : Kernel Ops World

module _ {Ops World : Type 0} where
  -- The initialisers behind `initialize_processes`.
  unfoldable pub initialize_rest :
      (serial_ports : ℕ) → Devices → Kernel Ops World → Machine Ops World
  unfolding initialize_devices initialize_files initialize_scheduler
  initialize_rest serial_ports d k =
      let l = k.lock in
      record {
        devices = initialize_devices serial_ports d;
        kernel = record k {
          files = initialize_files k.files;
          lock = record l { sched = initialize_scheduler l.sched };
        };
      }

  -- `boot_tinyos_kernel`, with the block `a` and the thread `t` of the new process; `none` is a fatal error.
  -- `Exec` of the processes 0 and 1 does not look at the caller.
  unfoldable pub boot_tinyos_kernel :
      (serial_ports a t init_task argl : ℕ)
      → Option (List ℕ)
      → Machine Ops World
      → Option (Machine Ops World)
  unfolding initialize_processes initialize_rest sys_exec
  boot_tinyos_kernel serial_ports a t init_task argl args m = elim (initialize_processes m.kernel) [
    | none ↦ none
    | some k ↦
        let ready = initialize_rest serial_ports m.devices k in
        let (o, r) = sys_exec 0 a t (some init_task) argl args ready.kernel in
        elim o [
          | none ↦ none
          | some p ↦ if p == 1 then some (record ready { kernel = r }) else none
        ]
  ]
