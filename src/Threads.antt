-- ===== src/Threads.antt =====
-- The threads of a process of kernel_threads.c. `p` is `CURPROC`, `self` the thread that calls, and
-- the blocks that `xmalloc` and `spawn_thread` return are arguments.
pub mod Family
pub mod Exit
use tinyos.Base.{
  ℕ, zero, suc, ◌+◌, ◌-◌, ◌%◌, ◌^◌, List, [], ◌∷◌, ◌++◌, Bool, true, false, not, ◌&&◌, ◌||◌, Option,
  none, some, ◌==◌, if◌then◌else◌, update, remove, is_nil, mem,
}
use tinyos.Base.Int.{ℤ, pos, minus_one}
use tinyos.Cc.{kernel_wait_wchan, kernel_sleep}
use tinyos.Sched.{spawn_thread, wakeup, no_timeout, exited}
use tinyos.Streams.{Files, Driver, fcb_decref, set_fid, max_fileid}
use tinyos.Kernel.{
  Kernel, Run, Pcb, Ptcb, zombie, set_pcb, set_ptcb, get_pcb, incr, decr, broadcast_child_exit,
  broadcast_exit,
}

module _ {Ops World : Type 0} where
  -- `new_ptcb`, at the address `a`; the fields `tcb` and `exitval` keep what stood there.
  unfoldable pub new_ptcb :
      (a : ℕ)
      → (task : Option ℕ) → (argl : ℕ) → Option (List ℕ)
      → Kernel Ops World
      → Kernel Ops World
  new_ptcb a task argl args k =
      let c = k.ptcb a in
      set_ptcb a
        (record c {
          task = task;
          argl = argl;
          args = args;
          exited = false;
          detached = false;
          exit_cv = record c.exit_cv { waitset = [] };
          refcount = 0;
          freed = false;
        })
        k

  -- `spawn_thread` for process `p` with the block `t`, and the links of `t` with the PTCB `a`.
  unfoldable pub spawn : (p t a : ℕ) → Kernel Ops World → Kernel Ops World
  spawn p t a k =
      let l = k.lock in
      let c = k.ptcb a in
      record k {
        lock = record l { sched = spawn_thread t p l.sched };
        ptcb = update k.ptcb a (record c { tcb = some t });
        thread_ptcb = update k.thread_ptcb t (some a);
      }

  unfoldable pub wake : ℕ → Kernel Ops World → Kernel Ops World
  wake t k = let l = k.lock in record k { lock = record l { sched = (wakeup t l.sched).1 } }

  -- The PTCB `a` at the end of the list of `p`, and one more thread.
  unfoldable pub add_thread : (p a : ℕ) → Kernel Ops World → Kernel Ops World
  add_thread p a k =
      let c = k.pt p in
      set_pcb p
        (record c { ptcb_list = c.ptcb_list ++ (a ∷ []); thread_count = incr c.thread_count }) k

  -- `sys_CreateThread`; `none` is `NOTHREAD`.
  unfoldable pub sys_create_thread :
      (p a t : ℕ)
      → (task : Option ℕ) → (argl : ℕ) → Option (List ℕ)
      → Kernel Ops World
      → Option ℕ × Kernel Ops World
  unfolding new_ptcb spawn wake add_thread
  sys_create_thread p a t none argl args k = (none, k)
  sys_create_thread p a t (some task) argl args k =
      (some a, wake t (spawn p t a (add_thread p a (new_ptcb a (some task) argl args k))))

  -- `sys_ThreadSelf`
  unfoldable pub sys_thread_self : (self : ℕ) → Kernel Ops World → Option ℕ
  sys_thread_self self k = k.thread_ptcb self

  -- The checks of `sys_ThreadJoin`.
  unfoldable pub can_join : (p self tid : ℕ) → Kernel Ops World → Bool
  unfolding sys_thread_self
  can_join p self tid k =
      mem tid (k.pt p).ptcb_list
      && elim (sys_thread_self self k) [ none ↦ true | some a ↦ not (tid == a) ]
      && not (k.ptcb tid).detached

  -- `sys_ThreadJoin` behind its wait: the value, and what is stored in `exitval`.
  unfoldable pub join_finish : (p tid : ℕ) → Kernel Ops World → (ℤ × Option ℤ) × Kernel Ops World
  join_finish p tid k =
      let c = k.ptcb tid in
      let q = k.pt p in
      let n = decr c.refcount in
      if c.detached
      then ((minus_one, none), set_ptcb tid (record c { refcount = n }) k)
      else if n == 0
      then (
        (pos 0, some c.exitval),
        set_pcb p (record q { ptcb_list = remove tid q.ptcb_list })
            (set_ptcb tid (record c { refcount = n; freed = true }) k),
      )
      else ((pos 0, some c.exitval), set_ptcb tid (record c { refcount = n }) k)

  -- One round of the loop of `sys_ThreadJoin`, which a sleeper runs again when it is woken.
  unfoldable pub join_round : (core now p tid : ℕ) → Kernel Ops World → Run Ops World (ℤ × Option ℤ)
  unfolding join_finish
  join_round core now p tid k =
      let c = k.ptcb tid in
      let (r, done) = join_finish p tid k in
      let (cv, l) = kernel_wait_wchan core now no_timeout c.exit_cv k.lock in
      if c.exited || c.detached
      then Run.returns r done
      else Run.waits (set_ptcb tid (record c { exit_cv = cv }) (record k { lock = l }))

  unfoldable pub sys_thread_join :
      (core now p self tid : ℕ) → Kernel Ops World → Run Ops World (ℤ × Option ℤ)
  unfolding can_join join_round
  sys_thread_join core now p self tid k =
      let c = k.ptcb tid in
      let counted = set_ptcb tid (record c { refcount = incr c.refcount }) k in
      if can_join p self tid k
      then join_round core now p tid counted
      else Run.returns (minus_one, none) k

  -- `sys_ThreadDetach`; `NOTHREAD` is `none`.
  unfoldable pub sys_thread_detach : (p : ℕ) → Option ℕ → Kernel Ops World → ℤ × Kernel Ops World
  unfolding broadcast_exit
  sys_thread_detach p none k = (minus_one, k)
  sys_thread_detach p (some tid) k =
      let c = k.ptcb tid in
      if mem tid (k.pt p).ptcb_list && not c.exited
      then (pos 0, broadcast_exit tid (set_ptcb tid (record c { detached = true }) k))
      else (minus_one, k)

  -- The loop that gives the children of `p`, still to come in the list, to process `i`.
  unfoldable pub adopt_child : (i p c : ℕ) → (rest : List ℕ) → Kernel Ops World → Kernel Ops World
  adopt_child i p c rest k =
      let a = k.pt p in
      let popped = update k.pt p (record a { children_list = rest }) in
      let b = popped c in
      let moved = update popped c (record b { parent = some i }) in
      let d = moved i in
      record k { pt = update moved i (record d { children_list = c ∷ d.children_list }) }

  unfoldable pub adopt_children : (i p : ℕ) → List ℕ → Kernel Ops World → Kernel Ops World
  unfolding adopt_child
  adopt_children i p [] k = k
  adopt_children i p (c ∷ cs) k = adopt_children i p cs (adopt_child i p c cs k)

  -- The exited children of `p` go to process `i`, which is woken.
  unfoldable pub move_exited : (i p : ℕ) → Kernel Ops World → Kernel Ops World
  move_exited i p k =
      let d = k.pt i in
      let joined =
        update k.pt i (record d { exited_list = d.exited_list ++ (k.pt p).exited_list }) in
      let c = joined p in record k { pt = update joined p (record c { exited_list = [] }) }

  unfoldable pub adopt_exited : (i p : ℕ) → Kernel Ops World → Kernel Ops World
  unfolding move_exited broadcast_child_exit
  adopt_exited i p k =
      if is_nil (k.pt p).exited_list then k else broadcast_child_exit i (move_exited i p k)

  -- `p` in front of the exited children of its parent `q`, which is woken.
  unfoldable pub put_exited : (q p : ℕ) → Kernel Ops World → Kernel Ops World
  unfolding broadcast_child_exit
  put_exited q p k =
      let d = k.pt q in
      broadcast_child_exit q (set_pcb q (record d { exited_list = p ∷ d.exited_list }) k)

  -- The family part of the exit of a process other than 1; `none` is a NULL that is followed.
  unfoldable pub leave_family : (p : ℕ) → Kernel Ops World → Option (Kernel Ops World)
  unfolding get_pcb adopt_children adopt_exited put_exited
  leave_family p k =
      let c = k.pt p in
      elim c.parent [
        | none ↦ none
        | some q ↦ elim (get_pcb 1 k) [
          | none ↦
              if is_nil c.children_list && is_nil c.exited_list
              then some (put_exited q p k)
              else none
          | some i ↦ some (put_exited q p (adopt_exited i p (adopt_children i p c.children_list k)))
        ]
      ]

  module _ (d : Driver Ops World) where
    -- The loop that cleans up the `FIDT`, from the file id `i` on.
    unfoldable pub close_fids : (rounds i p : ℕ) → Files Ops World → Files Ops World
    close_fids zero i p s = s
    close_fids (suc n) i p s =
        close_fids n (i + 1) p
          (elim (s.fidt p i) [ none ↦ s | some f ↦ set_fid p i none (fcb_decref d f s).1 ])

    -- The end of the exit of a process: its arguments, files and main thread go, and it is a zombie.
    unfoldable pub clean_up : (p : ℕ) → Kernel Ops World → Kernel Ops World
    unfolding close_fids
    clean_up p k =
        let c = k.pt p in
        set_pcb p (record c { args = none; main_thread = none; pstate = zombie })
          (record k { files = close_fids max_fileid 0 p k.files })

    -- What the last thread of a process does; `none` is a failed assertion.
    unfoldable pub exit_process : (p : ℕ) → Kernel Ops World → Option (Kernel Ops World)
    unfolding leave_family clean_up
    exit_process p k = elim (if p == 1 then some k else leave_family p k) [
      | none ↦ none
      | some g ↦
          if is_nil (g.pt p).children_list && is_nil (g.pt p).exited_list
          then some (clean_up p g)
          else none
    ]

    -- `sys_ThreadExit` until it sleeps for ever.
    unfoldable pub sys_thread_exit :
        (core now p self : ℕ) → (exitval : ℤ) → Kernel Ops World → Option (Kernel Ops World)
    unfolding exit_process broadcast_exit sys_thread_self
    sys_thread_exit core now p self exitval k = elim (sys_thread_self self k) [
      | none ↦ none
      | some a ↦
          let c = k.ptcb a in
          let told =
            broadcast_exit a (set_ptcb a (record c { exited = true; exitval = exitval }) k) in
          let q = told.pt p in
          let n = decr q.thread_count in
          let fewer = set_pcb p (record q { thread_count = n }) told in
          elim (if n == 0 then exit_process p fewer else some fewer) [
            | none ↦ none
            | some g ↦ some (record g { lock = kernel_sleep core now exited g.lock })
          ]
    ]
