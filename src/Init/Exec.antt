-- ===== src/Init/Exec.antt =====
-- `sys_Exec` of the first two processes, which have no parent.
use tinyos.Base.{
  ℕ, ◌≤◌, ◌≡◌, List, ◌∷◌, Option, none, some, if◌then◌else◌, arith, ◌==◌, subst, sym, ◌∙◌, ap,
}
use tinyos.Kernel.{Kernel, is_free, alive, max_proc}
use tinyos.Threads.{new_ptcb, spawn, wake, add_thread}
use tinyos.Proc.{acquire_pcb, no_threads, join_family, set_main, set_main_thread, sys_exec}
use tinyos.Proc.Table.{IsTable, Chain, Chain-same, in_use, acquire_pcb-Acquired}
use tinyos.Proc.Family.{sys_exec-none, sys_exec-some}
use tinyos.Base.Sums.{total-same}

module _ {Ops World : Type 0} where
  -- What a call leaves of the state `k` but for the blocks of threads and the parent of `new`.
  pub record Starts (new : ℕ) (k r : Kernel Ops World) : Type 0 where
    pub pstate : (x : ℕ) → (r.pt x).pstate ≡ (k.pt x).pstate
    pub parent : (x : ℕ) → (r.pt x).parent ≡ (if x == new then none else (k.pt x).parent)
    pub children : (x : ℕ) → (r.pt x).children_list ≡ (k.pt x).children_list
    pub exited : (x : ℕ) → (r.pt x).exited_list ≡ (k.pt x).exited_list
    pub freelist : r.pcb_freelist ≡ k.pcb_freelist
    pub process_count : r.process_count ≡ k.process_count
    pub files : r.files ≡ k.files

  -- The state before the thread of the process is made.
  abbrev prepared :
      (p new : ℕ)
      → (call : Option ℕ) → (argl : ℕ) → Option (List ℕ)
      → Kernel Ops World
      → Kernel Ops World
  prepared p new call argl args k =
      set_main new call argl args (join_family p new (no_threads new k))

  prepared-Starts :
      (p new : ℕ) (call : Option ℕ) (argl : ℕ) (args : Option (List ℕ)) (k : Kernel Ops World)
      → new ≤ 1
      → Starts new k (prepared p new call argl args k)
  unfolding set_main join_family no_threads
  prepared-Starts p new call argl args k h = record {
    pstate = λ x. ground (arith, h);
    parent = λ x. ground (arith, h);
    children = λ x. ground (arith, h);
    exited = λ x. ground (arith, h);
    freelist = ground (arith, h);
    process_count = ground (arith, h);
    files = ground (arith, h);
  }

  threaded-Starts :
      (new a t f argl : ℕ) (args : Option (List ℕ)) (k r : Kernel Ops World)
      → Starts new k r
      → Starts new k (
          wake t (
            spawn new t a
              (add_thread new a (new_ptcb a (some f) argl args (set_main_thread new t r)))))
  unfolding wake spawn add_thread new_ptcb set_main_thread
  threaded-Starts new a t f argl args k r s = record {
    pstate = λ x. ground (arith, s.pstate x);
    parent = λ x. ground (arith, s.parent x);
    children = λ x. ground (arith, s.children x);
    exited = λ x. ground (arith, s.exited x);
    freelist = s.freelist;
    process_count = s.process_count;
    files = s.files;
  }

  -- What `sys_Exec` with the entry `new` makes of the process table and the file tables.
  pub record Started (new : ℕ) (k r : Kernel Ops World) : Type 0 where
    pub pstate : (x : ℕ) → (r.pt x).pstate ≡ (if x == new then alive else (k.pt x).pstate)
    pub parent : (x : ℕ) → (r.pt x).parent ≡ (if x == new then none else (k.pt x).parent)
    pub children : (x : ℕ) → (r.pt x).children_list ≡ (k.pt x).children_list
    pub exited : (x : ℕ) → (r.pt x).exited_list ≡ (k.pt x).exited_list
    pub files : r.files ≡ k.files

  Starts-Started :
      (new : ℕ) (k r : Kernel Ops World)
      → k.pcb_freelist ≡ some new
      → Starts new (acquire_pcb k).1 r
      → Started new k r
  unfolding acquire_pcb
  Starts-Started new k r e s = record {
    pstate = λ x. ground (arith, e, s.pstate x);
    parent = λ x. ground (arith, e, s.parent x);
    children = λ x. ground (arith, e, s.children x);
    exited = λ x. ground (arith, e, s.exited x);
    files = ground (arith, e, s.files);
  }

  Starts-IsTable :
      (new : ℕ) (frees : List ℕ) (m r : Kernel Ops World)
      → (m.pt new).pstate ≡ alive
      → IsTable frees m
      → Starts new m r
      → IsTable frees r
  Starts-IsTable new frees m r e t s = record {
    chain =
        subst (λ o. Chain r.pt o frees) (sym s.freelist)
          (Chain-same m.pt r.pt m.pcb_freelist frees
            (λ x h. ground (arith, s.parent x, t.members x, ap is_free e)) t.chain);
    members = λ x. ground (arith, t.members x, s.pstate x);
    counted =
        s.process_count
        ∙ t.counted
        ∙ sym (
            total-same max_proc (λ x. in_use (m.pt x)) (λ x. in_use (r.pt x))
              (λ x h. ground (arith, s.pstate x)));
  }

  sys_exec-Starts :
      (p new a t : ℕ) (call : Option ℕ) (argl : ℕ) (args : Option (List ℕ)) (k : Kernel Ops World)
      → k.pcb_freelist ≡ some new
      → new ≤ 1
      → (r : Kernel Ops World) × (sys_exec p a t call argl args k ≡ (some new, r))
        × Starts new (acquire_pcb k).1 r
  sys_exec-Starts p new a t none argl args k e h = (
    prepared p new none argl args (acquire_pcb k).1,
    sys_exec-none p new a t argl args k e,
    prepared-Starts p new none argl args (acquire_pcb k).1 h,
  )
  sys_exec-Starts p new a t (some f) argl args k e h =
      let m = (acquire_pcb k).1 in
      let r = prepared p new (some f) argl args m in
      (
        wake t (
            spawn new t a
              (add_thread new a (new_ptcb a (some f) argl args (set_main_thread new t r)))),
        sys_exec-some p new a t f argl args k e,
        threaded-Starts new a t f argl args m r (prepared-Starts p new (some f) argl args m h),
      )

  -- `sys_Exec` takes the first entry of the free list, if that is 0 or 1.
  pub sys_exec-Started :
      (p new a t : ℕ) (call : Option ℕ) (argl : ℕ) (args : Option (List ℕ)) (frees : List ℕ)
      (k : Kernel Ops World)
      → IsTable (new ∷ frees) k
      → new ≤ 1
      → (r : Kernel Ops World) × (sys_exec p a t call argl args k ≡ (some new, r))
        × IsTable frees r
        × Started new k r
  sys_exec-Started p new a t call argl args frees k v h =
      let (r, e, s) = sys_exec-Starts p new a t call argl args k v.chain.0 h in
      let (_, _, _, up, table) = acquire_pcb-Acquired new frees k v in
      (
        r,
        e,
        Starts-IsTable new frees (acquire_pcb k).1 r up table s,
        Starts-Started new k r v.chain.0 s,
      )
