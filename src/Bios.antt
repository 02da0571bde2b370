-- ===== src/Bios.antt =====
-- The virtual machine of bios.c and bios.h: its cores, their interrupts, and the halting of cores. The
-- signals and the mutexes of the host are not part of it; `Signals` is what the code asks of the former.
pub mod Devices
pub mod Timer
pub mod Alarm
pub mod Halt
pub mod Dispatch
pub mod Machine
pub mod Served
pub mod Taken
pub mod Rounds
pub mod Reached
pub mod Poll
pub mod Round
pub mod Ports
mod Tests
use tinyos.Base.{
  ℕ, zero, suc, ◌+◌, List, [], ◌∷◌, Bool, true, false, ◌&&◌, Option, none, some, ◌==◌, ltb, leb,
  if◌then◌else◌, update, remove,
}

-- `Interrupt`, numbered as in the enumeration.
abbrev pub ici : ℕ
ici = 0

abbrev pub alarm : ℕ
alarm = 1

abbrev pub serial_rx_ready : ℕ
serial_rx_ready = 2

abbrev pub serial_tx_ready : ℕ
serial_tx_ready = 3

abbrev pub maximum_interrupt_no : ℕ
maximum_interrupt_no = 4

abbrev pub max_cores : ℕ
max_cores = 32

abbrev pub max_terminals : ℕ
max_terminals = 4

-- `Core`: the bit vector of the pending interrupts, bit by bit, the handlers, and whether it is halted.
pub record Core (Handler : Type 0) : Type 0 where
  pub int_pending : ℕ → Bool
  pub intvec : ℕ → Option Handler
  pub halted : Bool

-- `io_device`, less its direction: the core that gets its interrupts, its flag, and its last interrupt.
pub record IoDevice : Type 0 where
  pub fd : ℕ
  pub int_core : ℕ
  pub ready : Bool
  pub last_int : ℕ

-- The variables of bios.c, and the rest of the world.
pub record Vm (Handler World : Type 0) : Type 0 where
  pub core : ℕ → Core Handler
  pub ncores : ℕ
  pub halted_list : List ℕ
  pub con : ℕ → IoDevice
  pub kbd : ℕ → IoDevice
  pub nterm : ℕ
  pub system_clock : ℕ
  pub pic_usr1_queued : ℕ
  pub world : World

-- SIGUSR1 of the host: `pthread_sigqueue` with the number of the core, or to the PIC thread, and the delivery
-- of a signal to the thread of a core, which gives the number it carries.
pub record Signals (World : Type 0) : Type 0 where
  pub sigqueue : (core : ℕ) → World → World
  pub sigqueue_pic : World → World
  pub deliver : (core : ℕ) → World → Option (ℕ × World)

module _ {Handler World : Type 0} where
  unfoldable pub set_core : ℕ → Core Handler → Vm Handler World → Vm Handler World
  set_core c k v = record v { core = update v.core c k }

  unfoldable pub interrupt_set : (core intno : ℕ) → Vm Handler World → Vm Handler World
  unfolding set_core
  interrupt_set c intno v =
      let k = v.core c in set_core c (record k { int_pending = update k.int_pending intno true }) v

  unfoldable pub interrupt_clear : (core intno : ℕ) → Vm Handler World → Bool × Vm Handler World
  unfolding set_core
  interrupt_clear c intno v =
      let k = v.core c in
      (
        k.int_pending intno,
        set_core c (record k { int_pending = update k.int_pending intno false }) v,
      )

  unfoldable pub core_restart : (core : ℕ) → Vm Handler World → Vm Handler World
  unfolding set_core
  core_restart c v =
      let k = v.core c in
      let up = set_core c (record k { halted = false }) v in
      if k.halted then record up { halted_list = remove c v.halted_list } else v

  unfoldable pub cpu_core_restart : (core : ℕ) → Vm Handler World → Vm Handler World
  unfolding core_restart
  cpu_core_restart c v = core_restart c v

  -- Up to the wait of `cpu_core_halt`, which ends when the core is no longer halted.
  unfoldable pub cpu_core_halt : (core : ℕ) → Vm Handler World → Vm Handler World
  unfolding set_core
  cpu_core_halt c v =
      let k = v.core c in
      let down = set_core c (record k { halted = true }) v in
      record down { halted_list = c ∷ v.halted_list }

  -- The node is off the list when `core_restart` takes it off.
  unfoldable pub cpu_core_restart_one : Vm Handler World → Vm Handler World
  unfolding core_restart
  cpu_core_restart_one v = elim v.halted_list [
    | [] ↦ v
    | c ∷ rest ↦ core_restart c (record v { halted_list = rest })
  ]

  -- The loop of `cpu_core_restart_all`, from core `c` on.
  unfoldable pub restart_from : (rounds c : ℕ) → Vm Handler World → Vm Handler World
  restart_from zero c v = v
  restart_from (suc n) c v = restart_from n (c + 1) (core_restart c v)

  unfoldable pub cpu_core_restart_all : Vm Handler World → Vm Handler World
  unfolding restart_from
  cpu_core_restart_all v = restart_from v.ncores 0 v

  unfoldable pub cpu_interrupt_handler :
      (core interrupt : ℕ) → Option Handler → Vm Handler World → Vm Handler World
  unfolding set_core
  cpu_interrupt_handler c interrupt handler v =
      let k = v.core c in set_core c (record k { intvec = update k.intvec interrupt handler }) v

  unfoldable pub cpu_cores : Vm Handler World → ℕ
  cpu_cores v = v.ncores

  module _ (os : Signals World) where
    unfoldable pub interrupt_pic_thread : Vm Handler World → Vm Handler World
    interrupt_pic_thread v = record v {
      world = os.sigqueue_pic v.world;
      pic_usr1_queued = v.pic_usr1_queued + 1;
    }

    unfoldable pub interrupt_core : (core : ℕ) → Vm Handler World → Vm Handler World
    unfolding cpu_core_restart
    interrupt_core c v = cpu_core_restart c (record v { world = os.sigqueue c v.world })

    unfoldable pub raise_interrupt : (core intno : ℕ) → Vm Handler World → Vm Handler World
    unfolding interrupt_set interrupt_core
    raise_interrupt c intno v = interrupt_core c (interrupt_set c intno v)

    -- `none` is the failed assertion.
    unfoldable pub cpu_ici : (core : ℕ) → Vm Handler World → Option (Vm Handler World)
    unfolding raise_interrupt
    cpu_ici c v = if ltb c v.ncores then some (raise_interrupt c ici v) else none

  -- What a handler does to the machine.
  module _ (call : Handler → Vm Handler World → Vm Handler World) where
    unfoldable pub dispatch_irq : (core irq : ℕ) → Vm Handler World → Vm Handler World
    dispatch_irq c irq v = elim ((v.core c).intvec irq) [ none ↦ v | some h ↦ call h v ]

    -- The loop of `try_dispatch`, from `intno` on.
    unfoldable pub dispatch_from :
        (rounds intno core : ℕ) → Vm Handler World → Bool × Vm Handler World
    unfolding interrupt_clear dispatch_irq
    dispatch_from zero intno c v = (false, v)
    dispatch_from (suc n) intno c v =
        let (old, v') = interrupt_clear c intno v in
        let next = dispatch_from n (intno + 1) c v' in
        if old then (true, dispatch_irq c intno v') else next

    unfoldable pub try_dispatch : (core : ℕ) → Vm Handler World → Bool × Vm Handler World
    unfolding dispatch_from
    try_dispatch c v = dispatch_from maximum_interrupt_no 0 c v

    -- It returns before its loop, so that it dispatches one interrupt. `none` is the failed assertion.
    unfoldable pub dispatch_interrupts :
        (cpu_core_id core : ℕ) → Vm Handler World → Option (Vm Handler World)
    unfolding try_dispatch
    dispatch_interrupts cpu_core_id c v =
        if cpu_core_id == c then some (try_dispatch c v).1 else none

    unfoldable pub sigusr1_handler :
        (cpu_core_id sival : ℕ) → Vm Handler World → Option (Vm Handler World)
    unfolding dispatch_interrupts
    sigusr1_handler cpu_core_id sival v = dispatch_interrupts cpu_core_id sival v

    -- The host delivers a signal to the thread of a core, if one waits there, and the handler runs.
    unfoldable pub take_signal :
        Signals World → (core : ℕ) → Vm Handler World → Option (Vm Handler World)
    unfolding sigusr1_handler
    take_signal os c v = elim (os.deliver c v.world) [
      | none ↦ some v
      | some (sival, w) ↦ sigusr1_handler c sival (record v { world = w })
    ]

-- The loop of `vm_boot` over the cores, and `bootfunc_wrapper` of each up to the boot function.
abbrev pub booted_core : {Handler : Type 0} → Core Handler
booted_core = record { int_pending = λ i. false; intvec = λ i. none; halted = false }

unfoldable pub boot_cores :
    {Handler : Type 0} → (rounds c : ℕ) → (ℕ → Core Handler) → ℕ → Core Handler
boot_cores zero c f = f
boot_cores (suc n) c f = boot_cores n (c + 1) (update f c booted_core)

-- `vm_boot` up to the daemon, whose first line sets `nterm`; `none` is a failed check of the arguments.
unfoldable pub vm_boot :
    {Handler World : Type 0}
    → (cores serialno now : ℕ) → Vm Handler World
    → Option (Vm Handler World)
unfolding boot_cores
vm_boot cores serialno now v =
    if (ltb 0 cores && leb cores max_cores) && ((v.ncores == 0) && leb serialno max_terminals)
    then some (record v {
      system_clock = now;
      halted_list = [];
      ncores = cores;
      core = boot_cores cores 0 v.core;
      pic_usr1_queued = 0;
      nterm = serialno;
    })
    else none
