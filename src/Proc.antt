-- ===== src/Proc.antt =====
-- The process table and the calls on processes of kernel_proc.c. `p` is `CURPROC`, `self` the thread
-- that calls, and the blocks that `xmalloc` and `spawn_thread` return are arguments.
pub mod Exit
pub mod Info
pub mod Family
pub mod Table
pub mod Fids
pub mod Boot
pub mod Blank
pub mod Tests
use tinyos.Base.{
  ℕ, zero, suc, ◌+◌, ◌-◌, List, [], ◌∷◌, Bool, true, false, not, Option, none, some, ◌==◌, ltb, leb,
  if◌then◌else◌, update, remove, is_nil, take, length,
}
use tinyos.Base.Int.{ℤ, pos, negsuc, minus_one}
use tinyos.Cc.{kernel_wait_wchan}
use tinyos.Sched.{no_timeout}
use tinyos.Streams.{Files, Driver, fcb_incref, fcb_reserve, set_fid, max_fileid}
use tinyos.Kernel.{
  Kernel, Run, Pcb, PidState, free, alive, is_free, is_alive, is_zombie, max_proc, set_pcb, get_pcb,
  get_pid, is_child, incr, decr,
}
use tinyos.Threads.{new_ptcb, spawn, wake, add_thread, sys_thread_exit}

-- `sys_GetPid`
unfoldable pub sys_get_pid : (p : ℕ) → ℤ
unfolding get_pid
sys_get_pid p = get_pid (some p)

module _ {Ops World : Type 0} where
  -- `initialize_PCB`
  unfoldable pub initialize_pcb : ℕ → Kernel Ops World → Kernel Ops World
  initialize_pcb p k =
      let c = k.pt p in
      let s = k.files in
      set_pcb p
        (record c {
          pstate = free;
          argl = 0;
          args = none;
          children_list = [];
          exited_list = [];
          child_exit = record { waitset = []; signalled = λ t. false; removed = λ t. false };
        })
        (record k { files = record s { fidt = update s.fidt p (λ i. none) } })

  -- The two loops of `initialize_processes`; the second walks down the table.
  unfoldable pub initialize_pcbs : (rounds p : ℕ) → Kernel Ops World → Kernel Ops World
  unfolding initialize_pcb
  initialize_pcbs zero p k = k
  initialize_pcbs (suc n) p k = initialize_pcbs n (p + 1) (initialize_pcb p k)

  unfoldable pub link_free : ℕ → Kernel Ops World → Kernel Ops World
  link_free p k =
      let c = k.pt p in
      set_pcb p (record c { parent = k.pcb_freelist }) (record k { pcb_freelist = some p })

  unfoldable pub build_freelist : (p : ℕ) → Kernel Ops World → Kernel Ops World
  unfolding link_free
  build_freelist zero k = k
  build_freelist (suc p) k = build_freelist p (link_free p k)

  unfoldable pub acquire_pcb : Kernel Ops World → Option ℕ × Kernel Ops World
  acquire_pcb k = elim k.pcb_freelist [
    | none ↦ (none, k)
    | some p ↦
        let c = k.pt p in
        (
          some p,
          set_pcb p (record c { pstate = alive })
              (record k { pcb_freelist = c.parent; process_count = incr k.process_count }),
        )
  ]

  unfoldable pub release_pcb : ℕ → Kernel Ops World → Kernel Ops World
  release_pcb p k =
      let c = k.pt p in
      set_pcb p (record c { pstate = free; parent = k.pcb_freelist })
        (record k { pcb_freelist = some p; process_count = decr k.process_count })

  -- The loop of `sys_Exec` that inherits the file streams, from the file id `i` on.
  unfoldable pub inherit_fids : (rounds i p new : ℕ) → Files Ops World → Files Ops World
  unfolding fcb_incref
  inherit_fids zero i p new s = s
  inherit_fids (suc n) i p new s = inherit_fids n (i + 1) p new (elim (s.fidt p i) [
    | none ↦ set_fid new i none s
    | some f ↦ fcb_incref f (set_fid new i (some f) s)
  ])

  -- The new process in the family of `p`; the processes 0 and 1 have no parent.
  unfoldable pub join_family : (p new : ℕ) → Kernel Ops World → Kernel Ops World
  unfolding inherit_fids
  join_family p new k =
      let c = k.pt new in
      let orphan = set_pcb new (record c { parent = none }) k in
      let child = set_pcb new (record c { parent = some p }) k in
      let d = child.pt p in
      if leb new 1 then orphan else record child {
        pt = update child.pt p (record d { children_list = new ∷ d.children_list });
        files = inherit_fids max_fileid 0 p new k.files;
      }

  unfoldable pub set_main :
      (new : ℕ)
      → (call : Option ℕ) → (argl : ℕ) → Option (List ℕ)
      → Kernel Ops World
      → Kernel Ops World
  set_main new call argl args k =
      let c = k.pt new in
      set_pcb new
        (record c {
          main_task = call;
          argl = argl;
          args = elim args [ none ↦ none | some bytes ↦ some (take argl bytes) ];
        })
        k

  unfoldable pub set_main_thread : (new t : ℕ) → Kernel Ops World → Kernel Ops World
  set_main_thread new t k = let c = k.pt new in set_pcb new (record c { main_thread = some t }) k

  -- `thread_count = 0` and the empty list of PTCBs.
  unfoldable pub no_threads : (new : ℕ) → Kernel Ops World → Kernel Ops World
  no_threads new k =
      let c = k.pt new in set_pcb new (record c { thread_count = 0; ptcb_list = [] }) k

  -- `sys_Exec`; the result is the process, `none` for `NOPROC`.
  unfoldable pub sys_exec :
      (p a t : ℕ)
      → (call : Option ℕ) → (argl : ℕ) → Option (List ℕ)
      → Kernel Ops World
      → Option ℕ × Kernel Ops World
  unfolding acquire_pcb no_threads join_family set_main set_main_thread new_ptcb spawn wake
      add_thread
  sys_exec p a t call argl args k =
      let (o, r) = acquire_pcb k in
      elim o [
        | none ↦ (none, r)
        | some new ↦
            let ready = set_main new call argl args (join_family p new (no_threads new r)) in
            elim call [
              | none ↦ (some new, ready)
              | some f ↦ (
                some new,
                wake t (
                    spawn new t a (
                      add_thread new a
                        (new_ptcb a (some f) argl args (set_main_thread new t ready)))),
              )
            ]
      ]

  -- `initialize_processes` up to its call of `Exec`.
  unfoldable pub blank_table : Kernel Ops World → Kernel Ops World
  unfolding initialize_pcbs build_freelist
  blank_table k =
      let blank = initialize_pcbs max_proc 0 k in
      let listed = build_freelist max_proc (record blank { pcb_freelist = none }) in
      record listed { process_count = 0 }

  -- `initialize_processes`; `none` is the fatal error.
  unfoldable pub initialize_processes : Kernel Ops World → Option (Kernel Ops World)
  unfolding blank_table sys_exec
  initialize_processes k =
      let (o, r) = sys_exec 0 0 0 none 0 none (blank_table k) in
      elim o [ none ↦ none | some p ↦ if p == 0 then some r else none ]

  -- `sys_GetPPid`
  unfoldable pub sys_get_ppid : (p : ℕ) → Kernel Ops World → ℤ
  unfolding get_pid
  sys_get_ppid p k = get_pid (k.pt p).parent

  -- The removal of the two list nodes of `c`, which are in the lists of its parent.
  unfoldable pub unlink : (c : ℕ) → Kernel Ops World → Kernel Ops World
  unlink c k = elim (k.pt c).parent [
    | none ↦ k
    | some q ↦
        let d = k.pt q in
        set_pcb q
          (record d {
            children_list = remove c d.children_list;
            exited_list = remove c d.exited_list;
          })
          k
  ]

  -- `cleanup_zombie`, with the status that it gives.
  unfoldable pub cleanup_zombie : (c : ℕ) → Kernel Ops World → ℤ × Kernel Ops World
  unfolding unlink release_pcb
  cleanup_zombie c k = ((k.pt c).exitval, release_pcb c (unlink c k))

  -- `kernel_wait` on the condition of process `p`.
  unfoldable pub wait_child_exit : (core now p : ℕ) → Kernel Ops World → Kernel Ops World
  wait_child_exit core now p k =
      let c = k.pt p in
      let (cv, l) = kernel_wait_wchan core now no_timeout c.child_exit k.lock in
      set_pcb p (record c { child_exit = cv }) (record k { lock = l })

  -- One round of the loop of `wait_for_specific_child`. A value is the process and its status.
  unfoldable pub wait_round : (core now p c : ℕ) → Kernel Ops World → Run Ops World (ℤ × Option ℤ)
  unfolding cleanup_zombie wait_child_exit
  wait_round core now p c k =
      let (status, r) = cleanup_zombie c k in
      if is_alive (k.pt c).pstate
      then Run.waits (wait_child_exit core now p k)
      else Run.returns (pos c, some status) r

  unfoldable pub wait_for_specific_child :
      (core now p : ℕ) → (cpid : ℤ) → Kernel Ops World → Run Ops World (ℤ × Option ℤ)
  unfolding wait_round is_child get_pcb
  wait_for_specific_child core now p (negsuc n) k = Run.returns (minus_one, none) k
  wait_for_specific_child core now p (pos c) k =
      if ltb c max_proc
      then elim (get_pcb c k) [
        | none ↦ Run.returns (minus_one, none) k
        | some c' ↦
            let run = wait_round core now p c' k in
            if is_child p (k.pt c').parent then run else Run.returns (minus_one, none) k
      ]
      else Run.returns (minus_one, none) k

  -- One round of the loop of `wait_for_any_child`, and what stands behind it.
  unfoldable pub wait_for_any_child :
      (core now p : ℕ) → Kernel Ops World → Run Ops World (ℤ × Option ℤ)
  unfolding cleanup_zombie wait_child_exit
  wait_for_any_child core now p k = elim (k.pt p).children_list [
    | [] ↦ Run.returns (minus_one, none) k
    | _ ∷ _ ↦ elim (k.pt p).exited_list [
      | [] ↦ Run.waits (wait_child_exit core now p k)
      | c ∷ _ ↦
          let (status, r) = cleanup_zombie c k in
          if is_zombie (k.pt c).pstate then Run.returns (pos c, some status) r else Run.fails
    ]
  ]

  -- `sys_WaitChild`; `NOPROC` is -1.
  unfoldable pub sys_wait_child :
      (core now p : ℕ) → (cpid : ℤ) → Kernel Ops World → Run Ops World (ℤ × Option ℤ)
  unfolding wait_for_specific_child wait_for_any_child
  sys_wait_child core now p (negsuc zero) k = wait_for_any_child core now p k
  sys_wait_child core now p cpid k = wait_for_specific_child core now p cpid k
