-- ===== src/Streams.antt =====
-- File control blocks, file id tables and the stream calls of kernel_streams.c and
-- kernel_streams.h.
pub mod Reserve
pub mod Pair
pub mod Refs
pub mod Calls
pub mod Tests
use tinyos.Base.{
  ℕ, zero, suc, ◌+◌, ◌-◌, ◌%◌, ◌^◌, List, [], ◌∷◌, ◌++◌, Bool, true, false, ◌&&◌, ◌||◌, Option,
  none, some, ◌==◌, ltb, if◌then◌else◌, update, is_none, is_some, arith, ◌≡◌,
}
use mathlib.Core.List.{reverse}
use tinyos.Base.Int.{ℤ, pos, negsuc, minus_one, is_zero}

-- `MAX_FILEID`, and `MAX_FILES`, which is `MAX_PROC`.
abbrev pub max_fileid : ℕ
max_fileid = 16

abbrev pub max_files : ℕ
max_files = 65536

-- `FCB`: the stream object is named by a number (`none` is NULL), and `Ops` stands for the
-- address of a `file_ops`. The list node is the position in the free list.
pub record Fcb (Ops : Type 0) : Type 0 where
  pub refcount : ℕ
  pub streamobj : Option ℕ
  pub streamfunc : Ops

-- The file table, its free list, and the `FIDT` of each process; `world` is what lies behind the
-- stream objects.
pub record Files (Ops World : Type 0) : Type 0 where
  pub fcb : ℕ → Fcb Ops
  pub freelist : List ℕ
  pub fidt : ℕ → ℕ → Option ℕ
  pub world : World

-- What a `file_ops` offers: `Read` and `Write` may be NULL; a call of one may sleep, so it sees and changes
-- the whole state; `Close` changes the stream object only.
pub record Driver (Ops World : Type 0) : Type 0 where
  pub can_read : Ops → Bool
  pub can_write : Ops → Bool
  pub read : Ops → Option ℕ → (size : ℕ) → Files Ops World → ℤ × Files Ops World
  pub write : Ops → Option ℕ → List ℕ → Files Ops World → ℤ × Files Ops World
  pub close : Ops → Option ℕ → World → ℤ × World

-- `fid < 0 || fid >= MAX_FILEID`, as the number of a legal file id.
unfoldable pub legal_fid : ℤ → Option ℕ
legal_fid (pos n) = if ltb n max_fileid then some n else none
legal_fid (negsuc n) = none

-- The numbers from `i` on, in order.
unfoldable pub upto : (rounds i : ℕ) → List ℕ
upto zero i = []
upto (suc n) i = i ∷ upto n (i + 1)

-- The search for `need` free file ids from `f` on.
unfoldable pub find_fids : (rounds need f : ℕ) → (ℕ → Option ℕ) → Option (List ℕ)
find_fids rounds zero f table = some []
find_fids zero (suc need) f table = none
find_fids (suc rounds) (suc need) f table = elim (table f) [
  | some _ ↦ find_fids rounds (suc need) (f + 1) table
  | none ↦ elim (find_fids rounds need (f + 1) table) [ none ↦ none | some fids ↦ some (f ∷ fids) ]
]

module _ {Ops World : Type 0} where
  abbrev pub set_fid : (p fid : ℕ) → Option ℕ → Files Ops World → Files Ops World
  set_fid p fid v s = record s { fidt = update s.fidt p (update (s.fidt p) fid v) }

  -- `initialize_files`
  unfoldable pub initialize_files : Files Ops World → Files Ops World
  initialize_files s = record s {
    fcb = λ f. let c = s.fcb f in if ltb f max_files then record c { refcount = 0 } else c;
    freelist = upto max_files 0;
  }

  unfoldable pub acquire_fcb : Files Ops World → Option ℕ × Files Ops World
  acquire_fcb s = elim s.freelist [
    | [] ↦ (none, s)
    | f ∷ fs ↦
        let c = s.fcb f in
        (some f, record s { fcb = update s.fcb f (record c { refcount = 0 }); freelist = fs })
  ]

  unfoldable pub release_fcb : ℕ → Files Ops World → Files Ops World
  release_fcb f s = record s { freelist = s.freelist ++ (f ∷ []) }

  -- A `uint`, which wraps.
  unfoldable pub fcb_incref : ℕ → Files Ops World → Files Ops World
  fcb_incref f s =
      let c = s.fcb f in
      record s { fcb = update s.fcb f (record c { refcount = (c.refcount + 1) % 2 ^ 32 }) }

  -- The allocation of `need` FCBs; `got` holds those acquired so far, the last one first. When the
  -- list runs out they are released again, the last one first.
  unfoldable pub release_all : List ℕ → Files Ops World → Files Ops World
  unfolding release_fcb
  release_all [] s = s
  release_all (f ∷ fs) s = release_all fs (release_fcb f s)

  unfoldable pub acquire_all :
      (need : ℕ) → (got : List ℕ) → Files Ops World → Option (List ℕ) × Files Ops World
  unfolding acquire_fcb release_all
  acquire_all zero got s = (some (reverse got), s)
  acquire_all (suc need) got s =
      let (o, s') = acquire_fcb s in
      elim o [ none ↦ (none, release_all got s') | some f ↦ acquire_all need (f ∷ got) s' ]

  -- The last loop of `FCB_reserve`.
  unfoldable pub connect : (p : ℕ) → (fids fcbs : List ℕ) → Files Ops World → Files Ops World
  unfolding fcb_incref
  connect p (i ∷ fids) (f ∷ fcbs) s = connect p fids fcbs (fcb_incref f (set_fid p i (some f) s))
  connect p _ _ s = s

  -- `FCB_reserve` for process `p`: the file ids and FCBs, or `none` where it returns 0.
  unfoldable pub fcb_reserve :
      (p num : ℕ) → Files Ops World → Option (List ℕ × List ℕ) × Files Ops World
  unfolding find_fids acquire_all connect
  fcb_reserve p num s = elim (find_fids max_fileid num 0 (s.fidt p)) [
    | none ↦ (none, s)
    | some fids ↦
        let (o, s') = acquire_all num [] s in
        elim o [ none ↦ (none, s') | some fcbs ↦ (some (fids, fcbs), connect p fids fcbs s') ]
  ]

  -- `FCB_unreserve`; `none` is its failed assertion, that the entry names the FCB.
  unfoldable pub fcb_unreserve :
      (p : ℕ) → (fids fcbs : List ℕ) → Files Ops World → Option (Files Ops World)
  unfolding release_fcb
  fcb_unreserve p (i ∷ fids) (f ∷ fcbs) s =
      let rest = fcb_unreserve p fids fcbs (release_fcb f (set_fid p i none s)) in
      elim (s.fidt p i) [ none ↦ none | some g ↦ if g == f then rest else none ]
  fcb_unreserve p _ _ s = some s

  unfoldable pub get_fcb : (p : ℕ) → (fid : ℤ) → Files Ops World → Option ℕ
  unfolding legal_fid
  get_fcb p fid s = elim (legal_fid fid) [ none ↦ none | some i ↦ s.fidt p i ]

  -- `open_stream`: `device_open` gives the stream object and its operations, or fails; `none` is the failed assertion
  -- of `FCB_unreserve`.
  unfoldable pub open_stream :
      (device_open : Option (Option ℕ × Ops))
      → (p : ℕ) → Files Ops World
      → Option (ℤ × Files Ops World)
  unfolding fcb_reserve fcb_unreserve
  open_stream device_open p s =
      let (o, r) = fcb_reserve p 1 s in
      elim o [
        | some (i ∷ is, f ∷ fs) ↦ elim device_open [
          | none ↦ elim (fcb_unreserve p (i ∷ is) (f ∷ fs) r) [
            | none ↦ none
            | some freed ↦ some (minus_one, freed)
          ]
          | some (obj, ops) ↦
              let c = r.fcb f in
              some (
                pos i,
                record r { fcb = update r.fcb f (record c { streamobj = obj; streamfunc = ops }) },
              )
        ]
        | _ ↦ some (minus_one, r)
      ]

  module _ (d : Driver Ops World) where
    -- `FCB_decref`
    unfoldable pub fcb_decref : ℕ → Files Ops World → ℤ × Files Ops World
    unfolding release_fcb
    fcb_decref f s =
        let c = s.fcb f in
        let n = (c.refcount + 2 ^ 32 - 1) % 2 ^ 32 in
        let t = record s { fcb = update s.fcb f (record c { refcount = n }) } in
        let (retval, w) = d.close c.streamfunc c.streamobj s.world in
        if n == 0 then (retval, release_fcb f (record t { world = w })) else (pos 0, t)

    -- `sys_Read` and `sys_Write` behind the look-up: the stream is held by a reference while the
    -- driver works.
    unfoldable pub read_stream : Option ℕ → (size : ℕ) → Files Ops World → ℤ × Files Ops World
    unfolding fcb_incref fcb_decref
    read_stream none size s = (minus_one, s)
    read_stream (some f) size s =
        let c = s.fcb f in
        let held = fcb_incref f s in
        let (retcode, r) =
          if d.can_read c.streamfunc
          then d.read c.streamfunc c.streamobj size held
          else (minus_one, held) in
        (retcode, (fcb_decref f r).1)

    unfoldable pub sys_read :
        (p : ℕ) → (fd : ℤ) → (size : ℕ) → Files Ops World → ℤ × Files Ops World
    unfolding get_fcb read_stream
    sys_read p fd size s = read_stream (get_fcb p fd s) size s

    unfoldable pub write_stream : Option ℕ → List ℕ → Files Ops World → ℤ × Files Ops World
    unfolding fcb_incref fcb_decref
    write_stream none buf s = (minus_one, s)
    write_stream (some f) buf s =
        let c = s.fcb f in
        let held = fcb_incref f s in
        let (retcode, r) =
          if d.can_write c.streamfunc
          then d.write c.streamfunc c.streamobj buf held
          else (minus_one, held) in
        (retcode, (fcb_decref f r).1)

    unfoldable pub sys_write : (p : ℕ) → (fd : ℤ) → List ℕ → Files Ops World → ℤ × Files Ops World
    unfolding get_fcb write_stream
    sys_write p fd buf s = write_stream (get_fcb p fd s) buf s

    -- `sys_Close`, with what stands at the file id. Closing a closed fd is legal.
    unfoldable pub close_fid : (p i : ℕ) → Option ℕ → Files Ops World → ℤ × Files Ops World
    unfolding fcb_decref
    close_fid p i none s = (pos 0, s)
    close_fid p i (some f) s = fcb_decref f (set_fid p i none s)

    unfoldable pub sys_close : (p : ℕ) → (fd : ℤ) → Files Ops World → ℤ × Files Ops World
    unfolding legal_fid close_fid
    sys_close p fd s = elim (legal_fid fd) [
      | none ↦ (minus_one, s)
      | some i ↦ close_fid p i (s.fidt p i) s
    ]

    -- The update of `newfd` in `sys_Dup2`, with what stands there.
    unfoldable pub replace_fid : (p new_fd old : ℕ) → Option ℕ → Files Ops World → Files Ops World
    unfolding fcb_incref fcb_decref
    replace_fid p new_fd old none s = set_fid p new_fd (some old) (fcb_incref old s)
    replace_fid p new_fd old (some f) s =
        if f == old then s else set_fid p new_fd (some old) (fcb_incref old (fcb_decref f s).1)

    -- `sys_Dup2` for legal ids, with what stands at the old one.
    unfoldable pub dup_fid : (p new_fd : ℕ) → Option ℕ → Files Ops World → ℤ × Files Ops World
    unfolding replace_fid
    dup_fid p new_fd none s = (minus_one, s)
    dup_fid p new_fd (some old) s = (pos 0, replace_fid p new_fd old (s.fidt p new_fd) s)

    unfoldable pub sys_dup2 : (p : ℕ) → (oldfd newfd : ℤ) → Files Ops World → ℤ × Files Ops World
    unfolding legal_fid dup_fid
    sys_dup2 p oldfd newfd s = elim (legal_fid oldfd) [
      | none ↦ (minus_one, s)
      | some i ↦ elim (legal_fid newfd) [
        | none ↦ (minus_one, s)
        | some j ↦ dup_fid p j (s.fidt p i) s
      ]
    ]
