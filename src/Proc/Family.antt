-- ===== src/Proc/Family.antt =====
-- Process creation and the end of a zombie keep the tree of processes.
use tinyos.Base.{
  ℕ, ◌≡◌, ◌≢◌, List, ◌∷◌, false, true, not, ◌&&◌, Option, none, some, if◌then◌else◌, count-remove,
  remove, arith, leb, ◌==◌, refl, subst, sym, ◌∙◌,
}
use tinyos.Kernel.{Kernel, is_free, is_zombie, is_child, alive, free}
use tinyos.Kernel.Family.{IsFamily, SameFamily}
use tinyos.Threads.{new_ptcb, spawn, wake, add_thread}
use tinyos.Proc.{
  acquire_pcb, no_threads, join_family, set_main, set_main_thread, sys_exec, cleanup_zombie, unlink,
  release_pcb,
}

module _ {Ops World : Type 0} where
  pub acquire_pcb-some :
      (new : ℕ) (k : Kernel Ops World) → k.pcb_freelist ≡ some new → (acquire_pcb k).0 ≡ some new
  unfolding acquire_pcb
  acquire_pcb-some new k e = ground (arith, e)

  -- The tree after the new process has joined it.
  join_family_lem :
      (p new : ℕ) (k : Kernel Ops World) (x : ℕ)
      → k.pcb_freelist ≡ some new
      → p ≢ new
      → let r = join_family p new (no_threads new (acquire_pcb k).1) in
        ((r.pt x).parent
          ≡ (if x == new then (if leb new 1 then none else some p) else (k.pt x).parent))
        × ((r.pt x).children_list ≡ (
            if (x == p) && not (leb new 1)
            then new ∷ (k.pt x).children_list
            else (k.pt x).children_list))
        × ((r.pt x).exited_list ≡ (k.pt x).exited_list)
        × ((r.pt x).pstate ≡ (if x == new then alive else (k.pt x).pstate))
  unfolding join_family no_threads acquire_pcb
  join_family_lem p new k x e ne = ground (arith, e)

  set_main-SameFamily :
      (new : ℕ) (call : Option ℕ) (argl : ℕ) (args : Option (List ℕ)) (k : Kernel Ops World) (x : ℕ)
      → SameFamily (k.pt x) ((set_main new call argl args k).pt x)
  unfolding set_main
  set_main-SameFamily new call argl args k x = ground arith

  start-SameFamily :
      (new a t f argl : ℕ) (args : Option (List ℕ)) (k : Kernel Ops World) (x : ℕ)
      → SameFamily (k.pt x) (
          (wake t (
              spawn new t a
                (add_thread new a (new_ptcb a (some f) argl args (set_main_thread new t k))))).pt
            x)
  unfolding wake spawn add_thread new_ptcb set_main_thread
  start-SameFamily new a t f argl args k x = ground arith

  pub sys_exec-none :
      (p new a t argl : ℕ) (args : Option (List ℕ)) (k : Kernel Ops World)
      → k.pcb_freelist ≡ some new
      → sys_exec p a t none argl args k ≡ (
        some new,
        set_main new none argl args (join_family p new (no_threads new (acquire_pcb k).1)),
      )
  unfolding sys_exec
  sys_exec-none p new a t argl args k e = rw (acquire_pcb-some new k e, sys_exec) refl

  pub sys_exec-some :
      (p new a t f argl : ℕ) (args : Option (List ℕ)) (k : Kernel Ops World)
      → k.pcb_freelist ≡ some new
      → sys_exec p a t (some f) argl args k ≡ (
        some new,
        wake t (
            spawn new t a (
              add_thread new a (
                new_ptcb a (some f) argl args (
                  set_main_thread new t (
                    set_main new
                      (some f)
                      argl
                      args
                      (join_family p new (no_threads new (acquire_pcb k).1))))))),
      )
  unfolding sys_exec
  sys_exec-some p new a t f argl args k e = rw (acquire_pcb-some new k e, sys_exec) refl

  -- What `sys_Exec` does to the tree with the entry `new` of the free list.
  abbrev Executed : (p new : ℕ) → Kernel Ops World → Option ℕ × Kernel Ops World → Type 0
  Executed p new k (o, r) =
      (o ≡ some new)
      × ((x : ℕ)
          → ((r.pt x).parent
              ≡ (if x == new then (if leb new 1 then none else some p) else (k.pt x).parent))
            × ((r.pt x).children_list ≡ (
                if (x == p) && not (leb new 1)
                then new ∷ (k.pt x).children_list
                else (k.pt x).children_list))
            × ((r.pt x).exited_list ≡ (k.pt x).exited_list)
            × ((r.pt x).pstate ≡ (if x == new then alive else (k.pt x).pstate)))

  sys_exec-Executed :
      (p new a t : ℕ) (call : Option ℕ) (argl : ℕ) (args : Option (List ℕ)) (k : Kernel Ops World)
      → k.pcb_freelist ≡ some new
      → p ≢ new
      → Executed p new k (sys_exec p a t call argl args k)
  sys_exec-Executed p new a t none argl args k e ne =
      let j = join_family p new (no_threads new (acquire_pcb k).1) in
      subst (Executed p new k) (sym (sys_exec-none p new a t argl args k e)) (
        refl,
        λ x.
            let f = join_family_lem p new k x e ne in
            let m = set_main-SameFamily new none argl args j x in
            (m.parent ∙ f.0, m.children ∙ f.1, m.exited ∙ f.2, m.pstate ∙ f.3),
      )
  sys_exec-Executed p new a t (some g) argl args k e ne =
      let j = join_family p new (no_threads new (acquire_pcb k).1) in
      subst (Executed p new k) (sym (sys_exec-some p new a t g argl args k e)) (
        refl,
        λ x.
            let f = join_family_lem p new k x e ne in
            let m = set_main-SameFamily new (some g) argl args j x in
            let n = start-SameFamily new a t g argl args (set_main new (some g) argl args j) x in
            (
              n.parent ∙ m.parent ∙ f.0,
              n.children ∙ m.children ∙ f.1,
              n.exited ∙ m.exited ∙ f.2,
              n.pstate ∙ m.pstate ∙ f.3,
            ),
      )

  -- A process in use that calls `sys_Exec` while an entry of the table is free gets that entry: the
  -- tree stays sound, and the new process is alive and, but for the processes 0 and 1, a child of the caller.
  pub sys_exec-IsFamily :
      (p new a t : ℕ) (call : Option ℕ) (argl : ℕ) (args : Option (List ℕ)) (k : Kernel Ops World)
      → k.pcb_freelist ≡ some new
      → is_free (k.pt new).pstate ≡ true
      → is_free (k.pt p).pstate ≡ false
      → IsFamily k.pt
      → let (o, r) = sys_exec p a t call argl args k in
        (o ≡ some new)
        × IsFamily r.pt
        × ((r.pt new).pstate ≡ alive)
        × ((r.pt new).parent ≡ (if leb new 1 then none else some p))
  unfolding is_child
  sys_exec-IsFamily p new a t call argl args k e fresh used f =
      let ne : p ≢ new = ground arith in
      let (o, l) = sys_exec-Executed p new a t call argl args k e ne in
      (
        o,
        record {
          children = λ r c. ground (arith, l r, l c, f.children r c);
          exited = λ r c. ground (arith, l r, l c, f.exited r c);
          strict = λ x. ground (arith, l x, f.strict x);
          root = ground (arith, l 1, f.root);
        },
        ground (arith, l new),
        ground (arith, l new),
      )

  cleanup_zombie_lem :
      (c q : ℕ) (k : Kernel Ops World) (x : ℕ)
      → (k.pt c).parent ≡ some q
      → q ≢ c
      → let r = (cleanup_zombie c k).1 in
        ((r.pt x).parent ≡ (if x == c then k.pcb_freelist else (k.pt x).parent))
        × ((r.pt x).children_list
            ≡ (if x == q then remove c (k.pt x).children_list else (k.pt x).children_list))
        × ((r.pt x).exited_list
            ≡ (if x == q then remove c (k.pt x).exited_list else (k.pt x).exited_list))
        × ((r.pt x).pstate ≡ (if x == c then free else (k.pt x).pstate))
  unfolding cleanup_zombie unlink release_pcb
  cleanup_zombie_lem c q k x e ne = ground arith

  -- Cleaning up a zombie with a parent keeps the tree sound; its entry is free then.
  pub cleanup_zombie-IsFamily :
      (c q : ℕ) (k : Kernel Ops World)
      → (k.pt c).parent ≡ some q
      → is_zombie (k.pt c).pstate ≡ true
      → IsFamily k.pt
      → let r = (cleanup_zombie c k).1 in IsFamily r.pt × ((r.pt c).pstate ≡ free)
  unfolding is_child
  cleanup_zombie-IsFamily c q k e dead f =
      let ne : q ≢ c = ground (arith, f.strict c) in
      let l = λ (x : ℕ). cleanup_zombie_lem c q k x e ne in
      (
        record {
          children = λ r x.
              ground (arith, l r, l x, f.children r x, count-remove c x (k.pt r).children_list);
          exited =
              λ r x. ground (arith, l r, l x, f.exited r x, count-remove c x (k.pt r).exited_list);
          strict = λ x. ground (arith, l x, f.strict x);
          root = ground (arith, l 1, f.root);
        },
        ground (arith, l c),
      )
