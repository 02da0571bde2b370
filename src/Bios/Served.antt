-- ===== src/Bios/Served.antt =====
-- The pending interrupts of a core of bios.c.
use tinyos.Base.{ℕ, ◌+◌, if◌then◌else◌}
use tinyos.Bios.{Core}

-- The number of a core's pending interrupts.
abbrev pub pending : {Handler : Type 0} → Core Handler → ℕ
pending k =
    (if k.int_pending 0 then 1 else 0)
    + (if k.int_pending 1 then 1 else 0)
    + (if k.int_pending 2 then 1 else 0)
    + (if k.int_pending 3 then 1 else 0)
