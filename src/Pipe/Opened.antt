-- ===== src/Pipe/Opened.antt =====
-- What `sys_Pipe` gives: two file ids with a pipe between them.
use tinyos.Base.{
  ℕ, ◌≤◌, ◌<◌, ◌≡◌, ◌≢◌, List, [], ◌∷◌, true, Option, none, some, arith, ap, length, is_none, refl,
  sym, subst,
}
use tinyos.Base.Int.{pos}
use tinyos.Pipe.{Pipe, WriteRun, pipe_init, pipe_write, pipe_read}
use tinyos.Pipe.Inv.{IsValid, slots}
use tinyos.Pipe.Fifo.{done}
use tinyos.Pipe.Refine.{view, pipe_read-pipe_write}
use tinyos.Pipe.Open.{Pipes, connect_pipe, pipe_reserved, sys_pipe}
use tinyos.Streams.{Files, fcb_reserve, get_fcb, legal_fid}
use tinyos.Streams.Calls.{IsSound, IsFew}
use tinyos.Streams.Reserve.{AreFree, Reserved, fcb_reserve-Reserved}
use tinyos.Streams.Pair.{Leads, Pair, fcb_reserve-Pair}

-- What is written to the pipe, from one byte to its capacity, comes out of one read.
abbrev pub Carries : Pipe → Type 0
Carries c =
    (self other : ℕ) (bs : List ℕ)
    → 0 < length bs
    → length bs ≤ slots
    → (d : Pipe) × (pipe_write self (some bs) c ≡ WriteRun.returned (pos (length bs)) d)
      × (view (pipe_read other true (length bs) d) ≡ done (pos (length bs)) bs [])

module _ {Ops World : Type 0} where
  -- The file id `i` of the process `p` is a stream with the operations `ops` on the pipe `q`, by the FCB `f`.
  abbrev pub IsStream : (p : ℕ) → (i : ℕ) → (ops : Ops) → (f q : ℕ) → Files Ops World → Type 0
  IsStream p i ops f q t =
      (get_fcb p (pos i) t ≡ some f) × ((t.fcb f).streamobj ≡ some q) × ((t.fcb f).streamfunc ≡ ops)

  -- The two file ids are the ends of the pipe `q`, which is empty and open.
  pub record AreEnds (reads writes : Ops) (p i0 i1 q : ℕ) (s : Pipes Ops World) : Type 0 where
    pub f0 : ℕ
    pub f1 : ℕ
    pub apart : (i0 ≢ i1) × (f0 ≢ f1)
    pub source : IsStream p i0 reads f0 q s.files
    pub sink : IsStream p i1 writes f1 q s.files
    pub reader : (s.pipe q).reader ≡ some f0
    pub writer : (s.pipe q).writer ≡ some f1
    pub valid : IsValid (s.pipe q)
    pub empty : (s.pipe q).word_length ≡ 0

  AreEnds-Carries :
      (reads writes : Ops) (p i0 i1 q : ℕ) (s : Pipes Ops World)
      → AreEnds reads writes p i0 i1 q s
      → Carries (s.pipe q)
  AreEnds-Carries reads writes p i0 i1 q s e self other bs h room =
      pipe_read-pipe_write self other bs e.valid e.empty (ap is_none e.writer) (ap is_none e.reader)
        h room

  connect_pipe-AreEnds :
      (reads writes : Ops) (p q : ℕ) (memory : ℕ → ℕ) (i0 i1 f0 f1 : ℕ) (s : Pipes Ops World)
      → Leads p i0 i1 f0 f1 s.files
      → AreEnds reads writes p i0 i1 q (connect_pipe reads writes q memory f0 f1 s)
  unfolding connect_pipe pipe_init get_fcb legal_fid
  connect_pipe-AreEnds reads writes p q memory i0 i1 f0 f1 s l = record {
    f0 = f0;
    f1 = f1;
    apart = (l.legal.2, l.apart);
    source = (ground (arith, l.legal, l.first), ground arith, ground (arith, l.apart));
    sink = (ground (arith, l.legal, l.second), ground arith, ground arith);
    reader = ground arith;
    writer = ground arith;
    valid = ground arith;
    empty = ground arith;
  }

  connect_pipe-other :
      (reads writes : Ops) (q : ℕ) (memory : ℕ → ℕ) (f0 f1 : ℕ) (s : Pipes Ops World) (r : ℕ)
      → r ≢ q
      → (connect_pipe reads writes q memory f0 f1 s).pipe r ≡ s.pipe r
  unfolding connect_pipe
  connect_pipe-other reads writes q memory f0 f1 s r ne = ground (arith, ne)

  module _ (n : ℕ) (held : ℕ → ℕ) (few : IsFew n held) where
    connect_pipe-IsSound :
        (reads writes : Ops) (q : ℕ) (memory : ℕ → ℕ) (f0 f1 : ℕ) (s : Pipes Ops World)
        → IsSound n held s.files
        → IsSound n held (connect_pipe reads writes q memory f0 f1 s).files
    unfolding connect_pipe
    connect_pipe-IsSound reads writes q memory f0 f1 s v = record {
      counted = λ f h. ground (arith, v.counted f h);
      listed = v.listed;
      bounded = v.bounded;
    }

    -- What `sys_Pipe` comes to from the pipes `s`.
    abbrev pub Opens :
        (reads writes : Ops)
        → (p q : ℕ) → Pipes Ops World
        → Option (ℕ × ℕ) × Pipes Ops World
        → Type 0
    Opens reads writes p q s (none, t) =
        IsSound n held t.files × (t.pipe ≡ s.pipe) × (t.files.fidt ≡ s.files.fidt)
    Opens reads writes p q s (some (i0, i1), t) =
        IsSound n held t.files
        × AreEnds reads writes p i0 i1 q t
        × Carries (t.pipe q)
        × (s.files.fidt p i0 ≡ none)
        × (s.files.fidt p i1 ≡ none)
        × ((r : ℕ) → r ≢ q → t.pipe r ≡ s.pipe r)

    module _ (reads writes : Ops) (p q : ℕ) (memory : ℕ → ℕ) (s : Pipes Ops World) where
      pipe_reserved-two :
          (i0 i1 f0 f1 : ℕ) (t : Files Ops World)
          → IsSound n held t
          → (s.files.fidt p i0 ≡ none) × (s.files.fidt p i1 ≡ none)
          → Leads p i0 i1 f0 f1 t
          → Opens reads writes p q s
              (pipe_reserved reads writes q memory s.pipe (some (i0 ∷ i1 ∷ [], f0 ∷ f1 ∷ []), t))
      unfolding pipe_reserved
      pipe_reserved-two i0 i1 f0 f1 t v free l =
          let r : Pipes Ops World = record { pipe = s.pipe; files = t } in
          let e = connect_pipe-AreEnds reads writes p q memory i0 i1 f0 f1 r l in
          (
            connect_pipe-IsSound reads writes q memory f0 f1 r v,
            e,
            AreEnds-Carries reads writes p i0 i1 q (connect_pipe reads writes q memory f0 f1 r) e,
            free.0,
            free.1,
            connect_pipe-other reads writes q memory f0 f1 r,
          )

      pipe_reserved-Opens :
          (r : Option (List ℕ × List ℕ) × Files Ops World)
          → Reserved n held few p 2 s.files r
          → Pair p r
          → Opens reads writes p q s (pipe_reserved reads writes q memory s.pipe r)
      unfolding pipe_reserved
      pipe_reserved-Opens (none, t) e l = (e.0, refl, e.1)
      pipe_reserved-Opens (some (fids, fcbs), t) (v, free, _, _) (i0, i1, f0, f1, ids, blocks, l) =
          let empty = subst (AreFree (s.files.fidt p) 0) ids free in
          subst
            (λ x.
              Opens reads writes p q s
                (pipe_reserved reads writes q memory s.pipe (some (x, fcbs), t)))
            (sym ids)
            (subst
              (λ x.
                Opens reads writes p q s
                  (pipe_reserved reads writes q memory s.pipe (some (i0 ∷ i1 ∷ [], x), t)))
              (sym blocks) (pipe_reserved-two i0 i1 f0 f1 t v (empty.2, empty.3.2) l))

      -- From sound file tables `sys_Pipe` of one of the first `n` processes keeps counts, tables and
      -- free list in agreement, whether it fails or succeeds. If it fails no pipe and no table has
      -- changed. If it succeeds it gives two file ids that were empty and now lead, by two FCBs, to
      -- the read and the write end of the new pipe; what is then written to the pipe, from one byte to
      -- its capacity, comes out of one read.
      pub sys_pipe-Opens :
          p < n
          → IsSound n held s.files
          → Opens reads writes p q s (sys_pipe reads writes p q memory s)
      unfolding sys_pipe
      sys_pipe-Opens h v =
          pipe_reserved-Opens (fcb_reserve p 2 s.files)
            (fcb_reserve-Reserved n held few p 2 s.files h v)
            (fcb_reserve-Pair n held few p s.files v)
