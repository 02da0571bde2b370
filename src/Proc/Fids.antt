-- ===== src/Proc/Fids.antt =====
-- The file ids of a process from its creation to its exit: the reference counts of the streams stay right.
use tinyos.Base.{
  ℕ, zero, suc, ◌+◌, ◌≤◌, ◌<◌, ◌≡◌, ◌≢◌, none, some, Bool-cases, Option-cases, inl, inr, false,
  arith, refl, ◌==◌, subst, ◌%◌, ◌^◌, ◌-◌, leb,
}
use tinyos.Kernel.{Kernel}
use tinyos.Streams.{Files, Driver, fcb_incref, fcb_decref, set_fid, max_fileid}
use tinyos.Streams.Refs.{refs, refs-update}
use tinyos.Streams.Calls.{IsSound, IsFew, IsCounted-same, used, take_fid-IsSound, drop_fid-IsSound}
use tinyos.Threads.{close_fids, clean_up}
use tinyos.Proc.{inherit_fids, join_family}

module _ {Ops World : Type 0} (n : ℕ) (held : ℕ → ℕ) (few : IsFew n held) where
  -- Copying an empty file id to an empty one.
  keep_empty-IsSound :
      (new i : ℕ) (s : Files Ops World)
      → new < n
      → i < max_fileid
      → s.fidt new i ≡ none
      → IsSound n held s
      → IsSound n held (set_fid new i none s)
  keep_empty-IsSound new i s h hi e v =
      IsCounted-same (λ g. refs n g s.fidt + held g)
        (λ g. refs n g (set_fid new i none s).fidt + held g) s (set_fid new i none s) refl refl
        (λ g. ground (arith, e, refs-update n g new i none s.fidt h hi)) v

  commuted :
      (new i f : ℕ) (s : Files Ops World)
      → IsSound n held (set_fid new i (some f) (fcb_incref f s))
      → IsSound n held (fcb_incref f (set_fid new i (some f) s))
  unfolding fcb_incref
  commuted new i f s v = v

  still_empty :
      (new i f j : ℕ) (s : Files Ops World)
      → (j == i) ≡ false
      → s.fidt new j ≡ none
      → (fcb_incref f (set_fid new i (some f) s)).fidt new j ≡ none
  unfolding fcb_incref
  still_empty new i f j s ne e = ground (arith, ne, e)

  inherit_fids-IsSound :
      (rounds i p new : ℕ) (s : Files Ops World)
      → p < n
      → new < n
      → p ≢ new
      → i + rounds ≤ max_fileid
      → ((j : ℕ) → i ≤ j → s.fidt new j ≡ none)
      → IsSound n held s
      → IsSound n held (inherit_fids rounds i p new s)
  unfolding inherit_fids
  inherit_fids-IsSound zero i p new s hp hn ne room empty v = v
  inherit_fids-IsSound (suc m) i p new s hp hn ne room empty v = elim (Option-cases (s.fidt p i)) [
    | inl e ↦
        rw (e, inherit_fids)
          (inherit_fids-IsSound m (i + 1) p new (set_fid new i none s) hp hn ne (omega arith)
            (λ j h. ground (arith, empty j))
            (keep_empty-IsSound new i s hn (omega arith) (empty i (omega arith)) v))
    | inr (f, e) ↦
        rw (e, inherit_fids)
          (inherit_fids-IsSound m (i + 1) p new (fcb_incref f (set_fid new i (some f) s)) hp hn ne
            (omega arith) (λ j h. still_empty new i f j s (ground arith) (empty j (omega arith)))
            (commuted new i f s (
              take_fid-IsSound n held few new i f s hn (omega arith) (empty i (omega arith))
                (omega (arith, used n p i f s.fidt hp (omega arith) e)) v)))
  ]

  decref_set_fid :
      (d : Driver Ops World) (p i f : ℕ) (s : Files Ops World)
      → (fcb_decref d f (set_fid p i none s)).1 ≡ set_fid p i none (fcb_decref d f s).1
  unfolding fcb_decref
  decref_set_fid d p i f s = elim (Bool-cases (((s.fcb f).refcount + 2 ^ 32 - 1) % 2 ^ 32 == 0)) [
    | inl b ↦ rw b refl
    | inr b ↦ rw b refl
  ]

  close_fids-IsSound :
      (d : Driver Ops World) (rounds i p : ℕ) (s : Files Ops World)
      → p < n
      → i + rounds ≤ max_fileid
      → IsSound n held s
      → IsSound n held (close_fids d rounds i p s)
  unfolding close_fids
  close_fids-IsSound d zero i p s hp room v = v
  close_fids-IsSound d (suc m) i p s hp room v = elim (Option-cases (s.fidt p i)) [
    | inl e ↦ rw (e, close_fids) (close_fids-IsSound d m (i + 1) p s hp (omega arith) v)
    | inr (f, e) ↦
        rw (e, close_fids)
          (close_fids-IsSound d m (i + 1) p (set_fid p i none (fcb_decref d f s).1) hp (omega arith)
            (subst (IsSound n held) (decref_set_fid d p i f s)
              (drop_fid-IsSound n held few d p i f s hp (omega arith) e v)))
  ]

  -- A new process with an empty table gets the file ids of its parent, and counts, tables and free
  -- list still agree (a parentless one changes nothing): for two of the first `n` processes, with at
  -- most `MAX_PROC` processes and 2 ^ 30 calls in flight on an FCB.
  pub join_family-IsSound :
      (p new : ℕ) (k : Kernel Ops World)
      → p < n
      → new < n
      → p ≢ new
      → ((j : ℕ) → k.files.fidt new j ≡ none)
      → IsSound n held k.files
      → IsSound n held (join_family p new k).files
  unfolding join_family
  join_family-IsSound p new k hp hn ne empty v = elim (Bool-cases (leb new 1)) [
    | inl b ↦ rw b v
    | inr b ↦
        rw b (
          inherit_fids-IsSound max_fileid 0 p new k.files hp hn ne (omega arith) (λ j h. empty j) v)
  ]

  -- When a process exits and closes its file ids, counts, tables and free list still agree: for one of
  -- the first `n` processes, with at most `MAX_PROC` processes and 2 ^ 30 calls in flight on an FCB.
  pub clean_up-IsSound :
      (d : Driver Ops World) (p : ℕ) (k : Kernel Ops World)
      → p < n
      → IsSound n held k.files
      → IsSound n held (clean_up d p k).files
  unfolding clean_up
  clean_up-IsSound d p k hp v = close_fids-IsSound d max_fileid 0 p k.files hp (omega arith) v
