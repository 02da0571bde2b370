-- ===== src/Proc/Exit.antt =====
-- `sys_Exit` of kernel_proc.c.
use tinyos.Base.{ℕ, zero, suc, ◌+◌, none, some, ◌==◌, if◌then◌else◌, length}
use tinyos.Base.Int.{ℤ, pos, negsuc}
use tinyos.Streams.{Driver}
use tinyos.Kernel.{Kernel, Run, returns, waits, fails, set_pcb}
use tinyos.Threads.{sys_thread_exit}
use tinyos.Proc.{wait_for_any_child}

module _ {Ops World : Type 0} where
  -- The loop of process 1 over `WaitChild(NOPROC, NULL)`, on fuel, until it has no child.
  unfoldable pub reap : (fuel core now p : ℕ) → Kernel Ops World → Run Ops World (Unit {0})
  unfolding wait_for_any_child
  reap zero core now p k = fails
  reap (suc fuel) core now p k = elim (wait_for_any_child core now p k) [
    | waits r ↦ waits r
    | fails ↦ fails
    | returns (pid, status) r ↦
        let more = reap fuel core now p r in elim pid [ pos c ↦ more | negsuc n ↦ returns tt r ]
  ]

  module _ (d : Driver Ops World) where
    -- `sys_Exit`. It never comes back: what it returns is the state in which the thread sleeps for ever.
    unfoldable pub sys_exit :
        (core now p self : ℕ) → (exitval : ℤ) → Kernel Ops World → Run Ops World (Unit {0})
    unfolding reap sys_thread_exit
    sys_exit core now p self exitval k =
        let c = k.pt p in
        let stored = set_pcb p (record c { exitval = exitval }) k in
        let children = (stored.pt p).children_list in
        elim (if p == 1 then reap (length children + 1) core now p stored else returns tt stored) [
          | waits r ↦ waits r
          | fails ↦ fails
          | returns u r ↦ elim (sys_thread_exit d core now p self exitval r) [
            | none ↦ fails
            | some g ↦ returns tt g
          ]
        ]
