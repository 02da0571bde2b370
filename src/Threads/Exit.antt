-- ===== src/Threads/Exit.antt =====
-- The exit of a process keeps the tree of processes.
use tinyos.Base.{
  ℕ, ◌+◌, ◌<◌, ◌≡◌, ◌≢◌, [], false, true, none, some, if◌then◌else◌, count, arith, ◌==◌, refl, ap,
  zero, suc, ◌≤◌, Option-cases, inl, inr,
}
use tinyos.Kernel.{Kernel, Pcb, is_free, is_alive, is_child, zombie, get_pcb}
use tinyos.Kernel.Family.{IsFamily}
use tinyos.Streams.{Driver, Files, fcb_decref, set_fid, max_fileid}
use tinyos.Streams.Calls.{fidt-fcb_decref}
use tinyos.Threads.{
  adopt_children, adopt_exited, put_exited, leave_family, clean_up, exit_process, close_fids,
}
use tinyos.Threads.Family.{Left, leaves-Left}

-- `pt` with process `p` a zombie.
pub record Died (p : ℕ) (pt pt' : ℕ → Pcb) : Type 0 where
  pub parent : (x : ℕ) → (pt' x).parent ≡ (pt x).parent
  pub children : (x : ℕ) → (pt' x).children_list ≡ (pt x).children_list
  pub exited : (x : ℕ) → (pt' x).exited_list ≡ (pt x).exited_list
  pub pstate : (x : ℕ) → (pt' x).pstate ≡ (if x == p then zombie else (pt x).pstate)

-- The two parts together keep the tree.
IsFamily-Died :
    (q p : ℕ) (pt pt' pt'' : ℕ → Pcb)
    → 1 ≢ p
    → (pt p).parent ≡ some q
    → is_alive (pt p).pstate ≡ true
    → is_free (pt 1).pstate ≡ false
    → IsFamily pt
    → Left q p pt pt'
    → Died p pt' pt''
    → IsFamily pt''
unfolding is_child
IsFamily-Died q p pt pt' pt'' not_root e alive used f l d = record {
  children = λ r c. ground (
    arith,
    d.children r,
    d.pstate c,
    d.parent c,
    l.no_children,
    l.children r c,
    l.pstate c,
    l.parent c,
    f.children r c,
    f.children p c,
    f.strict p,
    f.strict c,
    f.root,
    f.children p p,
  );
  exited = λ r c. ground (
    arith,
    d.exited r,
    d.pstate c,
    d.parent c,
    l.no_exited,
    l.exited r c,
    l.pstate c,
    l.parent c,
    f.exited r c,
    f.exited p c,
    f.children p c,
    f.children p p,
    f.strict p,
    f.strict c,
  );
  strict = λ x.
      ground
        (arith, d.pstate x, d.parent x, l.pstate x, l.parent x, f.strict x, f.children p x, f.root);
  root = ground (arith, d.pstate 1, d.parent 1, l.pstate 1, l.parent 1, f.root, f.children p 1);
}

get_pcb-used :
    {Ops World : Type 0} (p : ℕ) (k : Kernel Ops World)
    → is_free (k.pt p).pstate ≡ false
    → get_pcb p k ≡ some p
unfolding get_pcb
get_pcb-used p k h = ground arith

close_fids-none :
    {Ops World : Type 0} (d : Driver Ops World) (n i p : ℕ) (s : Files Ops World) (j : ℕ)
    → let s' = close_fids d n i p s in
      (i ≤ j → j < i + n → s'.fidt p j ≡ none) × (s.fidt p j ≡ none → s'.fidt p j ≡ none)
unfolding close_fids
close_fids-none d zero i p s j = ground arith
close_fids-none d (suc n) i p s j = elim (Option-cases (s.fidt p i)) [
  | inl e ↦ rw (e, close_fids) (ground (arith, e, close_fids-none d n (i + 1) p s j))
  | inr (f, e) ↦
      let t = set_fid p i none (fcb_decref d f s).1 in
      rw (e, close_fids)
        (ground (
          arith,
          e,
          fidt-fcb_decref d f s,
          ap (λ h. h p j) (fidt-fcb_decref d f s),
          close_fids-none d n (i + 1) p t j,
        ))
]

module _ {Ops World : Type 0} (d : Driver Ops World) (p : ℕ) where
  clean_up-Died : (k : Kernel Ops World) → Died p k.pt (clean_up d p k).pt
  unfolding clean_up
  clean_up-Died k = record {
    parent = λ x. ground arith;
    children = λ x. ground arith;
    exited = λ x. ground arith;
    pstate = λ x. ground arith;
  }

  leave_family-some :
      (q : ℕ) (k : Kernel Ops World)
      → (k.pt p).parent ≡ some q
      → is_free (k.pt 1).pstate ≡ false
      → leave_family p k
        ≡ some (put_exited q p (adopt_exited 1 p (adopt_children 1 p (k.pt p).children_list k)))
  unfolding leave_family
  leave_family-some q k e used =
      rw (e, leave_family) (rw (get_pcb-used 1 k used, leave_family) refl)

  exit_process-clean_up :
      (k g : Kernel Ops World)
      → 1 ≢ p
      → leave_family p k ≡ some g
      → (g.pt p).children_list ≡ []
      → (g.pt p).exited_list ≡ []
      → exit_process d p k ≡ some (clean_up d p g)
  unfolding exit_process
  exit_process-clean_up k g not_root e a b =
      let off : (p == 1) ≡ false = ground arith in ground (arith, off, e, a, b)

  not_own :
      (k : Kernel Ops World) (q : ℕ)
      → (k.pt p).parent ≡ some q
      → is_alive (k.pt p).pstate ≡ true
      → IsFamily k.pt
      → q ≢ p
  unfolding is_child
  not_own k q e alive f = ground (arith, f.strict p)

  clean_up-none :
      (k : Kernel Ops World) (i : ℕ) → i < max_fileid → (clean_up d p k).files.fidt p i ≡ none
  unfolding clean_up
  clean_up-none k i h = (close_fids-none d max_fileid 0 p k.files i).0 (omega arith) (omega arith)

  -- When the last thread of a living process other than 1 exits, no assertion fails and no NULL is followed, if
  -- the tree of processes is sound, the process has a parent and process 1 is in use. Then the tree is sound
  -- again, the process is a zombie without file ids, and its children belong to process 1.
  pub exit_process-IsFamily :
      (q : ℕ) (k : Kernel Ops World)
      → 1 ≢ p
      → (k.pt p).parent ≡ some q
      → is_alive (k.pt p).pstate ≡ true
      → is_free (k.pt 1).pstate ≡ false
      → IsFamily k.pt
      → (g : Kernel Ops World) × (exit_process d p k ≡ some g)
        × IsFamily g.pt
        × ((g.pt p).pstate ≡ zombie)
        × ((i : ℕ) → i < max_fileid → g.files.fidt p i ≡ none)
        × ((c : ℕ) → 0 < count c (k.pt p).children_list → (g.pt c).parent ≡ some 1)
  exit_process-IsFamily q k not_root e alive used f =
      let own : q ≢ p = not_own k q e alive f in
      let l = leaves-Left q p k not_root own in
      let g = put_exited q p (adopt_exited 1 p (adopt_children 1 p (k.pt p).children_list k)) in
      let died = clean_up-Died g in
      (
        clean_up d p g,
        exit_process-clean_up k g not_root (leave_family-some q k e used) l.no_children l.no_exited,
        IsFamily-Died q p k.pt g.pt (clean_up d p g).pt not_root e alive used f l died,
        ground (arith, died.pstate p),
        (λ i h. clean_up-none g i h),
        λ c h. ground (arith, died.parent c, l.parent c),
      )
