-- ===== src/Kernel.antt =====
-- The process table and the thread blocks that kernel_proc.c, kernel_proc.h and kernel_threads.c
-- share, with the file table, the scheduler and the kernel lock.
pub mod Family
use tinyos.Base.{◌==◌, ℕ, List, Bool, Option, none, some, ◌+◌, ◌-◌, ◌%◌, ◌^◌, update, true, false}
use tinyos.Base.Int.{ℤ, pos, minus_one}
use tinyos.Cc.{CondVar, KernelLock, kernel_broadcast}
use tinyos.Streams.{Files}

pub data PidState : Type 0 where
  free alive zombie : PidState

abbrev pub is_free : PidState → Bool
is_free free = true
is_free _ = false

abbrev pub is_alive : PidState → Bool
is_alive alive = true
is_alive _ = false

abbrev pub is_zombie : PidState → Bool
is_zombie zombie = true
is_zombie _ = false

abbrev pub max_proc : ℕ
max_proc = 65536

-- `PCB`: processes, threads, PTCBs and tasks are named by numbers, `none` is NULL. The lists are those
-- of their elements, and the table of file ids stands in `Files`. An `int` that counts is given by its
-- 32 bits.
pub record Pcb : Type 0 where
  pub pstate : PidState
  pub parent : Option ℕ
  pub exitval : ℤ
  pub main_thread : Option ℕ
  pub main_task : Option ℕ
  pub argl : ℕ
  pub args : Option (List ℕ)
  pub children_list : List ℕ
  pub exited_list : List ℕ
  pub child_exit : CondVar
  pub ptcb_list : List ℕ
  pub thread_count : ℕ

-- `PTCB`; `freed` records the call of `free`.
pub record Ptcb : Type 0 where
  pub tcb : Option ℕ
  pub task : Option ℕ
  pub argl : ℕ
  pub args : Option (List ℕ)
  pub exitval : ℤ
  pub exited : Bool
  pub detached : Bool
  pub exit_cv : CondVar
  pub refcount : ℕ
  pub freed : Bool

-- The globals; `thread_ptcb` is the field `ptcb` of the TCBs.
pub record Kernel (Ops World : Type 0) : Type 0 where
  pub pt : ℕ → Pcb
  pub pcb_freelist : Option ℕ
  pub process_count : ℕ
  pub ptcb : ℕ → Ptcb
  pub thread_ptcb : ℕ → Option ℕ
  pub files : Files Ops World
  pub lock : KernelLock

-- What a system call that may sleep comes to: it returns a value, it sleeps in `kernel_wait`, or an
-- assertion fails.
pub data Run (Ops World A : Type 0) : Type 0 where
  returns : A → Kernel Ops World → Run Ops World A
  waits : Kernel Ops World → Run Ops World A
  fails : Run Ops World A

abbrev pub incr : ℕ → ℕ
incr n = (n + 1) % 2 ^ 32

abbrev pub decr : ℕ → ℕ
decr n = (n + 2 ^ 32 - 1) % 2 ^ 32

-- `get_pid`, where NULL gives `NOPROC`.
unfoldable pub get_pid : Option ℕ → ℤ
get_pid none = minus_one
get_pid (some p) = pos p

-- The test of the parent in `wait_for_specific_child`.
unfoldable pub is_child : (p : ℕ) → Option ℕ → Bool
is_child p none = false
is_child p (some q) = q == p

module _ {Ops World : Type 0} where
  abbrev pub set_pcb : ℕ → Pcb → Kernel Ops World → Kernel Ops World
  set_pcb p c k = record k { pt = update k.pt p c }

  abbrev pub set_ptcb : ℕ → Ptcb → Kernel Ops World → Kernel Ops World
  set_ptcb a c k = record k { ptcb = update k.ptcb a c }

  -- `get_pcb`
  unfoldable pub get_pcb : ℕ → Kernel Ops World → Option ℕ
  get_pcb pid k = elim (k.pt pid).pstate [ free ↦ none | alive ↦ some pid | zombie ↦ some pid ]

  -- `kernel_broadcast` of the conditions of a process and of a thread.
  unfoldable pub broadcast_child_exit : ℕ → Kernel Ops World → Kernel Ops World
  broadcast_child_exit p k =
      let c = k.pt p in
      let (cv, l) = kernel_broadcast c.child_exit k.lock in
      set_pcb p (record c { child_exit = cv }) (record k { lock = l })

  unfoldable pub broadcast_exit : ℕ → Kernel Ops World → Kernel Ops World
  broadcast_exit a k =
      let c = k.ptcb a in
      let (cv, l) = kernel_broadcast c.exit_cv k.lock in
      set_ptcb a (record c { exit_cv = cv }) (record k { lock = l })
