-- ===== src/Init/Tests.antt =====
-- The boot of a machine with two serial ports, whose table of processes holds no process yet.
use tinyos.Base.{◌≡◌, some, none, refl}
use tinyos.Cc.Tests.{no_waiters}
use tinyos.Proc.Tests.{system, pcb}
use tinyos.Dev.{initialize_devices}
use tinyos.Init.{Machine, boot_tinyos_kernel}
use tinyos.Init.Booted.{IsBooted, boot_tinyos_kernel-IsBooted}

abbrev machine : Machine (Unit {0}) (Unit {0})
machine = record {
  devices = record {
    devnum = λ t. 0;
    serial_dcb = λ i. record { devno = 0; rx_ready = no_waiters };
  };
  kernel = record system { pt = λ x. pcb };
}

boot_tinyos_kernel-IsBooted_example :
    (g : Machine (Unit {0}) (Unit {0})) × (boot_tinyos_kernel 2 10 11 7 0 none machine ≡ some g)
    × IsBooted g.kernel
    × (g.devices ≡ initialize_devices 2 machine.devices)
boot_tinyos_kernel-IsBooted_example =
    boot_tinyos_kernel-IsBooted 2 10 11 7 0 none machine
      (λ x h. record { pstate = refl; children = refl; exited = refl })
