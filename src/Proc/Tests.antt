-- ===== src/Proc/Tests.antt =====
-- Process tables on which the theorems of processes and of process exit are run.
use tinyos.Base.{
  ◌==◌, ℕ, ◌≡◌, ◌<◌, [], ◌∷◌, true, false, none, some, if◌then◌else◌, update, arith, refl, count,
  leb,
}
use tinyos.Base.Int.{pos}
use tinyos.Base.Sums.{total-change, total_ones}
use tinyos.Streams.{max_fileid}
use tinyos.Streams.Tests.{null_driver, before, quiet, few}
use tinyos.Cc.Tests.{unlocked, no_waiters}
use tinyos.Kernel.{Kernel, Pcb, Ptcb, alive, zombie, free, is_child, max_proc}
use tinyos.Kernel.Family.{IsFamily}
use tinyos.Threads.{exit_process}
use tinyos.Threads.Exit.{exit_process-IsFamily}
use tinyos.Streams.{Files, upto}
use tinyos.Streams.Refs.{refs, refs-update}
use tinyos.Streams.Calls.{IsSound}
use tinyos.Streams.Reserve.{count-upto}
use tinyos.Streams.Refs.{refs-zero}
use tinyos.Threads.{clean_up}
use tinyos.Proc.Fids.{clean_up-IsSound}
use tinyos.Proc.{sys_exec}
use tinyos.Proc.Family.{sys_exec-IsFamily}
use tinyos.Proc.Table.{IsTable, in_use}
use tinyos.Proc.Info.{ProcinfoCb}

abbrev pub pcb : Pcb
pcb = record {
  pstate = free;
  parent = none;
  exitval = pos 0;
  main_thread = none;
  main_task = none;
  argl = 0;
  args = none;
  children_list = [];
  exited_list = [];
  child_exit = no_waiters;
  ptcb_list = [];
  thread_count = 0;
}

abbrev ptcb : Ptcb
ptcb = record {
  tcb = none;
  task = none;
  argl = 0;
  args = none;
  exitval = pos 0;
  exited = false;
  detached = false;
  exit_cv = no_waiters;
  refcount = 0;
  freed = false;
}

-- Process 1 has the child 2, whose child 3 is a zombie.
abbrev pt : ℕ → Pcb
pt =
    update
      (update
        (update (update (λ x. pcb) 0 (record pcb { pstate = alive })) 1
          (record pcb { pstate = alive; children_list = 2 ∷ [] }))
        2
        (record pcb {
          pstate = alive;
          parent = some 1;
          children_list = 3 ∷ [];
          exited_list = 3 ∷ [];
        }))
      3 (record pcb { pstate = zombie; parent = some 2 })

abbrev pub system : Kernel (Unit {0}) (Unit {0})
system = record {
  pt = pt;
  pcb_freelist = some 4;
  process_count = 4;
  ptcb = λ a. ptcb;
  thread_ptcb = λ t. none;
  files = before;
  lock = unlocked;
}

pt-IsFamily : IsFamily pt
unfolding is_child
pt-IsFamily = record {
  children = λ p c. ground arith;
  exited = λ p c. ground arith;
  strict = λ p. ground arith;
  root = ground arith;
}

exit_process-IsFamily_example :
    (g : Kernel (Unit {0}) (Unit {0})) × (exit_process null_driver 2 system ≡ some g)
    × IsFamily g.pt
    × ((g.pt 2).pstate ≡ zombie)
    × ((i : ℕ) → i < max_fileid → g.files.fidt 2 i ≡ none)
    × ((c : ℕ) → 0 < count c (system.pt 2).children_list → (g.pt c).parent ≡ some 1)
exit_process-IsFamily_example =
    exit_process-IsFamily null_driver 2 1 system (omega arith) refl refl refl pt-IsFamily

sys_exec-IsFamily_example :
    let (o, r) = sys_exec 2 10 11 (some 7) 0 none system in
    (o ≡ some 4)
    × IsFamily r.pt
    × ((r.pt 4).pstate ≡ alive)
    × ((r.pt 4).parent ≡ (if leb 4 1 then none else some 2))
sys_exec-IsFamily_example =
    sys_exec-IsFamily 2 4 10 11 (some 7) 0 none system refl refl refl pt-IsFamily

-- A table that is full but for the entry 5.
abbrev crowded : ℕ → Pcb
crowded = update (λ x. record pcb { pstate = alive }) 5 pcb

abbrev busy : Kernel (Unit {0}) (Unit {0})
busy = record system { pt = crowded; pcb_freelist = some 5; process_count = 65535 }

busy-IsTable : IsTable (5 ∷ []) busy
busy-IsTable = record {
  chain = (refl, refl);
  members = λ p. ground arith;
  counted = omega (
    arith,
    total_ones max_proc,
    total-change max_proc (λ p. 1) (λ p. in_use (crowded p)) 5 (omega arith) (λ p ne. ground arith),
  );
}

-- A stream whose next entry is 2, in a table whose first four entries are in use.
abbrev stream : ProcinfoCb
stream = record {
  pt_cursor = 2;
  process_info = record {
    pid = pos 1;
    ppid = pos 0;
    alive = true;
    thread_count = 1;
    main_task = none;
    argl = 0;
    args = [];
  };
}

-- Process 0 with one open stream.
abbrev one_open : Files (Unit {0}) (Unit {0})
one_open = record {
  fcb = λ f. record { refcount = if f == 0 then 1 else 0; streamobj = none; streamfunc = tt };
  freelist = upto 65535 1;
  fidt = update (λ p i. none) 0 (update (λ i. none) 0 (some 0));
  world = tt;
}

one_open-refs : (f : ℕ) → refs 4 f one_open.fidt ≡ (if f == 0 then 1 else 0)
one_open-refs f = ground (
  arith,
  refs-zero 4 f (λ p i. none) (λ p i h. refl),
  refs-update 4 f 0 0 (some 0) (λ p i. none) (omega arith) (omega arith),
)

one_open-IsSound : IsSound 4 quiet one_open
one_open-IsSound = record {
  counted = λ f h. ground (arith, one_open-refs f);
  listed = λ f. ground (arith, one_open-refs f, count-upto f 65535 1);
  bounded = λ f h. ground (arith, one_open-refs f);
}

abbrev streaming : Kernel (Unit {0}) (Unit {0})
streaming = record system { files = one_open }

clean_up-IsSound_example : IsSound 4 quiet (clean_up null_driver 0 streaming).files
clean_up-IsSound_example =
    clean_up-IsSound 4 quiet few null_driver 0 streaming (omega arith) one_open-IsSound
