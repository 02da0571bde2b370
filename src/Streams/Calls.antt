-- ===== src/Streams/Calls.antt =====
-- `sys_Close`, `sys_Dup2`, `sys_Read` and `sys_Write` keep the references sound.
use tinyos.Base.{
  ℕ, ◌+◌, ◌-◌, ◌^◌, ◌≤◌, ◌<◌, ◌≡◌, inl, inr, Option, none, some, ◌==◌, if◌then◌else◌, arith, count,
  refl, Bool-cases, Option-cases, ap,
}
use tinyos.Base.Int.{ℤ, pos, negsuc}
use tinyos.Streams.{
  Files, Driver, max_fileid, fcb_incref, fcb_decref, legal_fid, get_fcb, close_fid, sys_close,
  dup_fid, read_stream, replace_fid, sys_dup2, sys_read, set_fid,
}
use tinyos.Streams.Refs.{
  refs, refs-update, refs-le, IsCounted, fcb_incref-IsCounted, fcb_decref-IsCounted,
}

-- The reference count of every FCB in use is the number of file ids of the first `n` processes that
-- refer to it and of the calls in flight that hold it, and exactly the unused FCBs are on the
-- free list, once each.
abbrev pub IsSound : {Ops World : Type 0} → (n : ℕ) → (held : ℕ → ℕ) → Files Ops World → Type 0
IsSound n held s = IsCounted (λ f. refs n f s.fidt + held f) (λ f. 0) s

-- At most `MAX_PROC` processes, and fewer calls in flight than a reference count could not bear.
pub record IsFew (n : ℕ) (held : ℕ → ℕ) : Type 0 where
  pub procs : n ≤ 65536
  pub calls : (f : ℕ) → held f ≤ 2 ^ 30

module _ {Ops World : Type 0} where
  pub fidt-fcb_decref :
      (d : Driver Ops World) (f : ℕ) (s : Files Ops World) → (fcb_decref d f s).1.fidt ≡ s.fidt
  unfolding fcb_decref
  fidt-fcb_decref d f s = ground arith

  pub fidt-fcb_incref : (f : ℕ) (s : Files Ops World) → (fcb_incref f s).fidt ≡ s.fidt
  unfolding fcb_incref
  fidt-fcb_incref f s = refl

  -- Moving references between the tables and the calls does not matter while their sums stay.
  pub IsCounted-same :
      (uses uses' : ℕ → ℕ) (s t : Files Ops World)
      → s.fcb ≡ t.fcb
      → s.freelist ≡ t.freelist
      → ((g : ℕ) → uses' g ≡ uses g)
      → IsCounted uses (λ g. 0) s
      → IsCounted uses' (λ g. 0) t
  IsCounted-same uses uses' s t e e' same c = record {
    counted = λ g q. ground (arith, same g, c.counted g, ap (λ k. (k g).refcount) e);
    listed = λ g. ground (arith, same g, c.listed g, ap (count g) e');
    bounded = λ g q. ground (arith, same g, c.bounded g);
  }

pub small :
    (n : ℕ) (held : ℕ → ℕ)
    → IsFew n held
    → (f : ℕ) (fidt : ℕ → ℕ → Option ℕ) → refs n f fidt + held f + 1 < 2 ^ 32
small n held few f fidt = omega (arith, refs-le n f fidt, few.calls f, few.procs)

-- A stream to which a file id refers.
pub used :
    (n p i f : ℕ) (fidt : ℕ → ℕ → Option ℕ)
    → p < n
    → i < max_fileid
    → fidt p i ≡ some f
    → 0 < refs n f fidt
used n p i f fidt hp hi e = ground (arith, refs-update n f p i none fidt hp hi)

legal_lt : (fd : ℤ) (i : ℕ) → legal_fid fd ≡ some i → i < max_fileid
unfolding legal_fid
legal_lt (pos k) i e = ground arith
legal_lt (negsuc k) i e = cc

module _ {Ops World : Type 0} (n : ℕ) (held : ℕ → ℕ) (few : IsFew n held) where
  -- One file id gives up its reference.
  pub drop_fid-IsSound :
      (d : Driver Ops World) (p i f : ℕ) (s : Files Ops World)
      → p < n
      → i < max_fileid
      → s.fidt p i ≡ some f
      → IsSound n held s
      → IsSound n held (fcb_decref d f (set_fid p i none s)).1
  drop_fid-IsSound d p i f s hp hi e v =
      fcb_decref-IsCounted d (λ g. refs n g s.fidt + held g) _ f (set_fid p i none s)
        (IsCounted-same _ _ s (set_fid p i none s) refl refl (λ g. refl) v)
        (ground (arith, refs-update n f p i none s.fidt hp hi))
        (omega (arith, small n held few f s.fidt))
        (λ g.
          rw (fidt-fcb_decref d f (set_fid p i none s))
            (ground (arith, refs-update n g p i none s.fidt hp hi)))

  -- An empty file id takes a reference.
  pub take_fid-IsSound :
      (p i f : ℕ) (s : Files Ops World)
      → p < n
      → i < max_fileid
      → s.fidt p i ≡ none
      → 0 < refs n f s.fidt + held f
      → IsSound n held s
      → IsSound n held (set_fid p i (some f) (fcb_incref f s))
  take_fid-IsSound p i f s hp hi e h v =
      let t = fcb_incref f s in
      let r = set_fid p i (some f) t in
      IsCounted-same (λ g. refs n g r.fidt + held g) _ t r refl refl (λ g. refl)
        (fcb_incref-IsCounted (λ g. refs n g s.fidt + held g) (λ g. refs n g r.fidt + held g)
          (λ g. 0) (λ g. 0) f s v (omega arith) (small n held few f s.fidt)
          (λ g.
            rw (fidt-fcb_incref f s) (ground (arith, refs-update n g p i (some f) s.fidt hp hi)))
          (λ g. ground arith))

  close_fid-IsSound :
      (d : Driver Ops World) (p i : ℕ) (o : Option ℕ) (s : Files Ops World)
      → p < n
      → i < max_fileid
      → s.fidt p i ≡ o
      → IsSound n held s
      → IsSound n held (close_fid d p i o s).1
  unfolding close_fid
  close_fid-IsSound d p i none s hp hi e v = v
  close_fid-IsSound d p i (some f) s hp hi e v = drop_fid-IsSound d p i f s hp hi e v

  -- `sys_Close` keeps counts, tables and free list in agreement, whatever the file id: for a process
  -- among the first `n`, with at most `MAX_PROC` processes and 2 ^ 30 calls in flight on an FCB.
  pub sys_close-IsSound :
      (d : Driver Ops World) (p : ℕ) (fd : ℤ) (s : Files Ops World)
      → p < n
      → IsSound n held s
      → IsSound n held (sys_close d p fd s).1
  unfolding sys_close
  sys_close-IsSound d p fd s hp v = elim (Option-cases (legal_fid fd)) [
    | inl e ↦ rw (e, sys_close) v
    | inr (i, e) ↦
        rw (e, sys_close) (close_fid-IsSound d p i (s.fidt p i) s hp (legal_lt fd i e) refl v)
  ]

  -- The new id of `sys_Dup2` gives up its stream and takes the other.
  replace_fid-IsSound :
      (d : Driver Ops World) (p j old : ℕ) (o : Option ℕ) (s : Files Ops World)
      → p < n
      → j < max_fileid
      → s.fidt p j ≡ o
      → 0 < refs n old s.fidt + held old
      → IsSound n held s
      → IsSound n held (replace_fid d p j old o s)
  unfolding replace_fid
  replace_fid-IsSound d p j old none s hp hj e h v = take_fid-IsSound p j old s hp hj e h v
  replace_fid-IsSound d p j old (some f) s hp hj e h v = elim (Bool-cases (f == old)) [
    | inl same ↦ rw same v
    | inr differ ↦
        let uses = λ (g : ℕ). refs n g s.fidt + held g in
        let uses' = λ (g : ℕ). uses g - (if g == f then 1 else 0) in
        let uses'' = λ (g : ℕ). uses' g + (if g == old then 1 else 0) in
        let t = (fcb_decref d f s).1 in
        let u = fcb_incref old t in
        let r = set_fid p j (some old) u in
        let entry = refs-update n f p j (some old) s.fidt hp hj in
        let dropped =
          fcb_decref-IsCounted d uses uses' f s v (ground (arith, entry))
            (omega (arith, small n held few f s.fidt)) (λ g. refl) in
        let taken =
          fcb_incref-IsCounted uses' uses'' (λ g. 0) (λ g. 0) old t dropped (ground arith)
            (ground (arith, small n held few old s.fidt)) (λ g. refl) (λ g. ground arith) in
        rw differ (
          IsCounted-same uses'' (λ g. refs n g r.fidt + held g) u r refl refl
            (λ g.
              rw (fidt-fcb_incref old t, fidt-fcb_decref d f s)
                (ground (arith, refs-update n g p j (some old) s.fidt hp hj, entry)))
            taken)
  ]

  dup_fid-IsSound :
      (d : Driver Ops World) (p i j : ℕ) (o : Option ℕ) (s : Files Ops World)
      → p < n
      → i < max_fileid
      → j < max_fileid
      → s.fidt p i ≡ o
      → IsSound n held s
      → IsSound n held (dup_fid d p j o s).1
  unfolding dup_fid
  dup_fid-IsSound d p i j none s hp hi hj e v = v
  dup_fid-IsSound d p i j (some old) s hp hi hj e v =
      replace_fid-IsSound d p j old (s.fidt p j) s hp hj refl
        (omega (arith, used n p i old s.fidt hp hi e)) v

  -- `sys_Dup2` keeps counts, tables and free list in agreement, whatever the two file ids: for a
  -- process among the first `n`, with at most `MAX_PROC` processes and 2 ^ 30 calls in flight on an FCB.
  pub sys_dup2-IsSound :
      (d : Driver Ops World) (p : ℕ) (oldfd newfd : ℤ) (s : Files Ops World)
      → p < n
      → IsSound n held s
      → IsSound n held (sys_dup2 d p oldfd newfd s).1
  unfolding sys_dup2
  sys_dup2-IsSound d p oldfd newfd s hp v = elim (Option-cases (legal_fid oldfd)) [
    | inl e ↦ rw (e, sys_dup2) v
    | inr (i, e) ↦ elim (Option-cases (legal_fid newfd)) [
      | inl e' ↦ rw (e, sys_dup2) (rw (e', sys_dup2) v)
      | inr (j, e') ↦
          rw (e, sys_dup2)
            (rw (e', sys_dup2)
              (dup_fid-IsSound d p i j (s.fidt p i) s hp (legal_lt oldfd i e) (legal_lt newfd j e')
                refl v))
    ]
  ]

get_fcb-used :
    {Ops World : Type 0} (n p : ℕ) (fd : ℤ) (s : Files Ops World)
    → p < n
    → (f : ℕ) → get_fcb p fd s ≡ some f
    → 0 < refs n f s.fidt
unfolding get_fcb
get_fcb-used n p fd s hp f h = elim (Option-cases (legal_fid fd)) [
  | inl e ↦ absurd (ground arith)
  | inr (i, e) ↦ used n p i f s.fidt hp (legal_lt fd i e) (ground arith)
]

-- The calls in flight, with one more that holds `f`.
abbrev pub hold : ℕ → (ℕ → ℕ) → ℕ → ℕ
hold f held g = held g + (if g == f then 1 else 0)

module _ {Ops World : Type 0} (n : ℕ) (held : ℕ → ℕ) (few : IsFew n held)
    (d : Driver Ops World) where
  -- The end of a call that held `f`.
  release-IsSound :
      (f : ℕ) (s : Files Ops World)
      → IsSound n (hold f held) s
      → IsSound n held (fcb_decref d f s).1
  release-IsSound f s v =
      fcb_decref-IsCounted d (λ g. refs n g s.fidt + hold f held g) _ f s v (ground arith)
        (ground (arith, small n held few f s.fidt)) (λ g. rw (fidt-fcb_decref d f s) (ground arith))

  hold-IsSound :
      (f : ℕ) (s : Files Ops World)
      → 0 < refs n f s.fidt
      → IsSound n held s
      → IsSound n (hold f held) (fcb_incref f s)
  hold-IsSound f s h v =
      fcb_incref-IsCounted (λ g. refs n g s.fidt + held g) _ (λ g. 0) (λ g. 0) f s v (omega arith)
        (small n held few f s.fidt) (λ g. rw (fidt-fcb_incref f s) (omega arith))
        (λ g. ground arith)

  read_stream-IsSound :
      (o : Option ℕ) (size : ℕ) (s : Files Ops World)
      → ((f : ℕ) → o ≡ some f → 0 < refs n f s.fidt)
      → ((f : ℕ) (ops : Ops) (obj : Option ℕ) (t : Files Ops World)
          → IsSound n (hold f held) t
          → IsSound n (hold f held) (d.read ops obj size t).1)
      → IsSound n held s
      → IsSound n held (read_stream d o size s).1
  unfolding read_stream
  read_stream-IsSound none size s u keep v = v
  read_stream-IsSound (some f) size s u keep v =
      let c = s.fcb f in
      let h = hold-IsSound f s (u f refl) v in
      elim (Bool-cases (d.can_read c.streamfunc)) [
        | inl can ↦
            rw can (release-IsSound f _ (keep f c.streamfunc c.streamobj (fcb_incref f s) h))
        | inr not_can ↦ rw not_can (release-IsSound f (fcb_incref f s) h)
      ]

  -- `sys_Read` of one of the first `n` processes keeps counts, tables and free list in agreement, if the
  -- driver's `Read` does while the stream is held (few processes and calls as for `sys_Close`).
  -- It may sleep and let others run, who may even close the file id: the stream stays until the call
  -- returns.
  pub sys_read-IsSound :
      (p : ℕ) (fd : ℤ) (size : ℕ) (s : Files Ops World)
      → p < n
      → ((f : ℕ) (ops : Ops) (obj : Option ℕ) (t : Files Ops World)
          → IsSound n (hold f held) t
          → IsSound n (hold f held) (d.read ops obj size t).1)
      → IsSound n held s
      → IsSound n held (sys_read d p fd size s).1
  unfolding sys_read
  sys_read-IsSound p fd size s hp keep v =
      read_stream-IsSound (get_fcb p fd s) size s (get_fcb-used n p fd s hp) keep v
