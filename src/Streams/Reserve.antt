-- ===== src/Streams/Reserve.antt =====
-- `FCB_reserve` and its rollback.
use tinyos.Base.{
  ℕ, zero, suc, ◌+◌, ◌≤◌, ◌<◌, ◌≡◌, inl, inr, List, [], ◌∷◌, Option, none, some, ltb, if◌then◌else◌,
  arith, count, count-append, refl, Option-cases, List-cases, length, count-reverse, length-reverse,
  ap, sym, ◌∙◌, subst,
}
use tinyos.Streams.{
  Files, max_fileid, max_files, fcb_incref, acquire_fcb, release_fcb, find_fids, acquire_all,
  release_all, connect, fcb_reserve, set_fid, upto, initialize_files,
}
use tinyos.Streams.Refs.{
  refs, refs-update, refs-zero, IsCounted, fcb_incref-IsCounted, acquire_fcb-IsCounted,
}
use tinyos.Streams.Calls.{IsSound, IsFew, small, fidt-fcb_incref, IsCounted-same}

-- File ids in rising order from `b` on, legal and empty in the table.
abbrev pub AreFree : (ℕ → Option ℕ) → ℕ → List ℕ → Type 0
AreFree table b [] = Unit
AreFree table b (i ∷ is) = (b ≤ i) × (i < max_fileid) × (table i ≡ none) × AreFree table (i + 1) is

AreFree-le :
    (table : ℕ → Option ℕ) (a b : ℕ) (is : List ℕ) → a ≤ b → AreFree table b is → AreFree table a is
AreFree-le table a b [] h v = tt
AreFree-le table a b (i ∷ is) h v = (omega arith, v.1, v.2, v.3)

pub find_fids-AreFree :
    (rounds need f : ℕ) (table : ℕ → Option ℕ) (is : List ℕ)
    → f + rounds ≤ max_fileid
    → find_fids rounds need f table ≡ some is
    → AreFree table f is × (length is ≡ need)
unfolding find_fids
find_fids-AreFree rounds zero f table is h e = ground arith
find_fids-AreFree zero (suc need) f table is h e = cc
find_fids-AreFree (suc rounds) (suc need) f table is h e = elim (Option-cases (table f)) [
  | inr (g, t) ↦
      let (free, len) =
        find_fids-AreFree rounds (suc need) (f + 1) table is (omega arith) (ground arith) in
      (AreFree-le table f (f + 1) is (omega arith) free, len)
  | inl t ↦ elim (Option-cases (find_fids rounds need (f + 1) table)) [
    | inl e' ↦ absurd (ground arith)
    | inr (fids, e') ↦
        let (free, len) = find_fids-AreFree rounds need (f + 1) table fids (omega arith) e' in
        let both : is ≡ f ∷ fids = ground arith in
        rw both ((omega arith, omega arith, t, free), omega arith)
  ]
]

-- The later file ids do not see a change at an earlier one.
AreFree-same :
    (table table' : ℕ → Option ℕ) (b : ℕ) (is : List ℕ)
    → ((j : ℕ) → b ≤ j → table' j ≡ table j)
    → AreFree table b is
    → AreFree table' b is
AreFree-same table table' b [] e v = tt
AreFree-same table table' b (i ∷ is) e v = (
  v.0,
  v.1,
  e i v.0 ∙ v.2,
  AreFree-same table table' (i + 1) is (λ j h. e j (omega (arith, v.0))) v.3,
)

module _ {Ops World : Type 0} where
  acquire_all-nil :
      (need : ℕ) (got : List ℕ) (s : Files Ops World)
      → s.freelist ≡ []
      → acquire_all (suc need) got s ≡ (none, release_all got s)
  unfolding acquire_all acquire_fcb
  acquire_all-nil need got s e = ground arith

  acquire_all-cons :
      (need : ℕ) (got : List ℕ) (s : Files Ops World) (f : ℕ)
      → (acquire_fcb s).0 ≡ some f
      → acquire_all (suc need) got s ≡ acquire_all need (f ∷ got) (acquire_fcb s).1
  unfolding acquire_all
  acquire_all-cons need got s f e = ground arith

  -- What the acquisition loop keeps: the FCBs in `got` are off the free list.
  abbrev pub IsTaken : (uses : ℕ → ℕ) → List ℕ → Files Ops World → Type 0
  IsTaken uses got s = IsCounted uses (λ g. count g got) s

  release_all-IsCounted :
      (uses : ℕ → ℕ) (got : List ℕ) (s : Files Ops World)
      → IsTaken uses got s
      → IsCounted uses (λ g. 0) (release_all got s)
  unfolding release_all release_fcb
  release_all-IsCounted uses [] s c = c
  release_all-IsCounted uses (f ∷ fs) s c =
      release_all-IsCounted uses fs (release_fcb f s) (record {
        counted = λ g q. c.counted g (ground arith);
        listed = λ g. ground (arith, c.listed g, count-append g s.freelist (f ∷ []));
        bounded = c.bounded;
      })

  -- What `acquire_all` comes to.
  abbrev pub Acquired : (uses : ℕ → ℕ) → (need : ℕ) → Option (List ℕ) × Files Ops World → Type 0
  Acquired uses num (none, t) = IsCounted uses (λ g. 0) t
  Acquired uses num (some fcbs, t) = IsTaken uses fcbs t × (length fcbs ≡ num)

  pub acquire_all-Acquired :
      (uses : ℕ → ℕ) (need num : ℕ) (got : List ℕ) (s : Files Ops World)
      → need + length got ≡ num
      → IsTaken uses got s
      → Acquired uses num (acquire_all need got s)
  unfolding acquire_all
  acquire_all-Acquired uses zero num got s e c = (
    record {
      counted = λ g q. c.counted g (omega (arith, count-reverse g got));
      listed = λ g. rw (count-reverse g got) (c.listed g);
      bounded = c.bounded;
    },
    omega (arith, length-reverse got),
  )
  acquire_all-Acquired uses (suc need) num got s e c = elim (List-cases s.freelist) [
    | inl none_left ↦
        subst (Acquired uses num) (sym (acquire_all-nil need got s none_left))
          (release_all-IsCounted uses got s c)
    | inr (f, fs, some_left) ↦
        let a =
          acquire_fcb-IsCounted uses (λ g. count g got) (λ g. count g (f ∷ got)) f fs s c some_left
            (λ g. ground arith) in
        subst (Acquired uses num) (sym (acquire_all-cons need got s f a.1))
          (acquire_all-Acquired uses need num (f ∷ got) (acquire_fcb s).1 (omega arith) a.2)
  ]

module _ {Ops World : Type 0} (n : ℕ) (held : ℕ → ℕ) (few : IsFew n held) where
  connect-IsSound :
      (p b : ℕ) (fids fcbs : List ℕ) (s : Files Ops World)
      → p < n
      → AreFree (s.fidt p) b fids
      → length fids ≡ length fcbs
      → IsTaken (λ g. refs n g s.fidt + held g) fcbs s
      → IsSound n held (connect p fids fcbs s)
  unfolding connect
  connect-IsSound p b [] [] s hp free e c = c
  connect-IsSound p b [] (f ∷ fs) s hp free e c = absurd (omega arith)
  connect-IsSound p b (i ∷ is) [] s hp free e c = absurd (omega arith)
  connect-IsSound p b (i ∷ is) (f ∷ fs) s hp free e c =
      let t = set_fid p i (some f) s in
      let s' = fcb_incref f t in
      let uses' = λ (g : ℕ). refs n g s'.fidt + held g in
      let same : s'.fidt ≡ t.fidt = fidt-fcb_incref f t in
      let grown = λ (g : ℕ). refs-update n g p i (some f) s.fidt hp free.1 in
      let next : IsTaken uses' fs s' =
        fcb_incref-IsCounted (λ g. refs n g s.fidt + held g) uses' (λ g. count g (f ∷ fs))
          (λ g. count g fs) f t
          (record { counted = c.counted; listed = c.listed; bounded = c.bounded }) (ground arith)
          (small n held few f s.fidt) (λ g. rw same (ground (arith, grown g, free.2)))
          (λ g. ground (arith, c.listed f)) in
      connect-IsSound p (i + 1) is fs s' hp
        (AreFree-same (s.fidt p) (s'.fidt p) (i + 1) is (λ j h. ap (λ k. k p j) same ∙ ground arith)
          free.3)
        (omega arith) next

  -- What a reservation gives: it takes the lowest empty file ids.
  abbrev pub Reserved :
      (p num : ℕ) → Files Ops World → Option (List ℕ × List ℕ) × Files Ops World → Type 0
  Reserved p num s (none, t) = IsSound n held t × (t.fidt ≡ s.fidt)
  Reserved p num s (some (fids, fcbs), t) =
      IsSound n held t × AreFree (s.fidt p) 0 fids × (length fids ≡ num) × (length fcbs ≡ num)

  reserve_from :
      (p num : ℕ) (fids : List ℕ) (s : Files Ops World) (r : Option (List ℕ) × Files Ops World)
      → p < n
      → AreFree (s.fidt p) 0 fids
      → length fids ≡ num
      → r.1.fidt ≡ s.fidt
      → Acquired (λ g. refs n g s.fidt + held g) num r
      → Reserved p num s (
          let (o, s') = r in
          elim o [ none ↦ (none, s') | some fcbs ↦ (some (fids, fcbs), connect p fids fcbs s') ])
  reserve_from p num fids s (none, t) hp free e same a =
      (IsCounted-same _ _ t t refl refl (λ g. ap (λ k. refs n g k + held g) same) a, same)
  reserve_from p num fids s (some fcbs, t) hp free e same a = (
    connect-IsSound p 0 fids fcbs t hp (subst (λ k. AreFree (k p) 0 fids) (sym same) free)
        (omega (arith, a.1))
        (subst (λ k. IsTaken (λ g. refs n g k + held g) fcbs t) (sym same) a.0),
    free,
    e,
    a.1,
  )

  fidt-acquire_fcb : (s : Files Ops World) → (acquire_fcb s).1.fidt ≡ s.fidt
  unfolding acquire_fcb
  fidt-acquire_fcb s = ground arith

  fidt-release_all : (got : List ℕ) (s : Files Ops World) → (release_all got s).fidt ≡ s.fidt
  unfolding release_all release_fcb
  fidt-release_all [] s = refl
  fidt-release_all (f ∷ fs) s = fidt-release_all fs (release_fcb f s)

  pub fidt-acquire_all :
      (need : ℕ) (got : List ℕ) (s : Files Ops World) → (acquire_all need got s).1.fidt ≡ s.fidt
  unfolding acquire_all
  fidt-acquire_all zero got s = refl
  fidt-acquire_all (suc need) got s = elim (Option-cases (acquire_fcb s).0) [
    | inl e ↦ ground (arith, fidt-release_all got (acquire_fcb s).1, fidt-acquire_fcb s)
    | inr (f, e) ↦
        rw (acquire_all-cons need got s f e)
          (fidt-acquire_all need (f ∷ got) (acquire_fcb s).1 ∙ fidt-acquire_fcb s)
  ]

  -- A reservation for one of the first `n` processes keeps counts, tables and free list in agreement.
  -- If it succeeds it has taken as many FCBs as were asked for, and as many legal file ids, which were
  -- empty, in rising order; if it fails, for want of file ids or of FCBs, every FCB is back on the
  -- free list and no file id has changed.
  pub fcb_reserve-Reserved :
      (p num : ℕ) (s : Files Ops World)
      → p < n
      → IsSound n held s
      → Reserved p num s (fcb_reserve p num s)
  unfolding fcb_reserve
  fcb_reserve-Reserved p num s hp v = elim (Option-cases (find_fids max_fileid num 0 (s.fidt p))) [
    | inl e ↦ rw (e, fcb_reserve) (v, refl)
    | inr (fids, e) ↦
        let (free, len) = find_fids-AreFree max_fileid num 0 (s.fidt p) fids (omega arith) e in
        rw (e, fcb_reserve)
          (reserve_from p num fids s (acquire_all num [] s) hp free len (fidt-acquire_all num [] s)
            (acquire_all-Acquired (λ g. refs n g s.fidt + held g) num num [] s (omega arith) v))
  ]

  -- So the state behind a reservation is sound on every branch.
  pub fcb_reserve-IsSound :
      (p num : ℕ) (s : Files Ops World)
      → p < n
      → IsSound n held s
      → IsSound n held (fcb_reserve p num s).1
  fcb_reserve-IsSound p num s hp v = go (fcb_reserve p num s) (fcb_reserve-Reserved p num s hp v)
    where
      go :
          (r : Option (List ℕ × List ℕ) × Files Ops World) → Reserved p num s r → IsSound n held r.1
      go (none, t) e = e.0
      go (some fids, t) e = e.0

pub count-upto :
    (f k i : ℕ) → count f (upto k i) ≡ (if ltb f i then 0 else (if ltb f (i + k) then 1 else 0))
unfolding upto
count-upto f zero i = ground arith
count-upto f (suc k) i = ground (arith, count-upto f k (i + 1))

-- After `initialize_files`, with the tables of the first `n` processes empty and no call in flight,
-- counts, tables and free list agree: every FCB is free.
pub initialize_files-IsSound :
    {Ops World : Type 0} (n : ℕ) (s : Files Ops World)
    → ((p i : ℕ) → p < n → s.fidt p i ≡ none)
    → IsSound n (λ f. 0) (initialize_files s)
unfolding initialize_files
initialize_files-IsSound n s e = record {
  counted = λ f q. absurd (omega (arith, unused f));
  listed = λ f. ground (arith, unused f, count-upto f max_files 0);
  bounded = λ f q. absurd (omega (arith, unused f));
}
  where
    unused : (f : ℕ) → refs n f s.fidt ≡ 0
    unused f = refs-zero n f s.fidt e
