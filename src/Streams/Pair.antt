-- ===== src/Streams/Pair.antt =====
-- A reservation of two streams.
use tinyos.Base.{
  ℕ, ◌+◌, ◌<◌, ◌≡◌, ◌≢◌, inl, inr, List, [], ◌∷◌, Option, none, some, arith, refl, Option-cases,
  length, sym, subst,
}
use tinyos.Streams.{Files, max_fileid, fcb_incref, find_fids, acquire_all, connect, fcb_reserve}
use tinyos.Streams.Refs.{refs}
use tinyos.Streams.Calls.{IsSound, IsFew}
use tinyos.Streams.Reserve.{
  AreFree, IsTaken, Acquired, find_fids-AreFree, fidt-acquire_all, acquire_all-Acquired,
}

list_of_two : (xs : List ℕ) → length xs ≡ 2 → (x : ℕ) × (y : ℕ) × (xs ≡ x ∷ y ∷ [])
list_of_two [] e = absurd (omega (arith, e))
list_of_two (x ∷ []) e = absurd (omega (arith, e))
list_of_two (x ∷ y ∷ []) e = (x, y, refl)
list_of_two (x ∷ y ∷ z ∷ zs) e = absurd (omega (arith, e))

module _ {Ops World : Type 0} where
  -- Two different file ids lead to two different FCBs.
  pub record Leads (p i0 i1 f0 f1 : ℕ) (t : Files Ops World) : Type 0 where
    pub legal : (i0 < max_fileid) × (i1 < max_fileid) × (i0 ≢ i1)
    pub apart : f0 ≢ f1
    pub first : t.fidt p i0 ≡ some f0
    pub second : t.fidt p i1 ≡ some f1

  connect-Leads :
      (p i0 i1 f0 f1 : ℕ) (s : Files Ops World)
      → AreFree (s.fidt p) 0 (i0 ∷ i1 ∷ [])
      → f0 ≢ f1
      → Leads p i0 i1 f0 f1 (connect p (i0 ∷ i1 ∷ []) (f0 ∷ f1 ∷ []) s)
  unfolding connect fcb_incref
  connect-Leads p i0 i1 f0 f1 s free ne = record {
    legal = (free.1, free.3.1, λ e. absurd (omega (arith, e, free.3.0)));
    apart = ne;
    first = ground (arith, free.3.0);
    second = ground arith;
  }

  -- What a reservation of two streams gives, but for the counts.
  abbrev pub Pair : (p : ℕ) → Option (List ℕ × List ℕ) × Files Ops World → Type 0
  Pair p (none, t) = Unit
  Pair p (some (fids, fcbs), t) =
      (i0 i1 f0 f1 : ℕ) × (fids ≡ i0 ∷ i1 ∷ []) × (fcbs ≡ f0 ∷ f1 ∷ []) × Leads p i0 i1 f0 f1 t

module _ {Ops World : Type 0} (n : ℕ) (held : ℕ → ℕ) (few : IsFew n held) where
  fcbs-apart :
      (f0 f1 : ℕ) (uses : ℕ → ℕ) (t : Files Ops World) → IsTaken uses (f0 ∷ f1 ∷ []) t → f0 ≢ f1
  fcbs-apart f0 f1 uses t c e = absurd (ground (arith, c.listed f0, e))

  reserve_from-Pair :
      (p : ℕ) (fids : List ℕ) (s : Files Ops World) (r : Option (List ℕ) × Files Ops World)
      → AreFree (s.fidt p) 0 fids
      → length fids ≡ 2
      → r.1.fidt ≡ s.fidt
      → Acquired (λ g. refs n g s.fidt + held g) 2 r
      → Pair {Ops = Ops} {World = World} p (
          let (o, s') = r in
          elim o [ none ↦ (none, s') | some fcbs ↦ (some (fids, fcbs), connect p fids fcbs s') ])
  reserve_from-Pair p fids s (none, t) free e same a = tt
  reserve_from-Pair p fids s (some fcbs, t) free e same a =
      let (i0, i1, ids) = list_of_two fids e in
      let (f0, f1, blocks) = list_of_two fcbs a.1 in
      let uses : ℕ → ℕ = λ g. refs n g s.fidt + held g in
      let ne = fcbs-apart f0 f1 uses t (subst (λ l. IsTaken uses l t) blocks a.0) in
      let there : AreFree (t.fidt p) 0 (i0 ∷ i1 ∷ []) =
        subst (AreFree (t.fidt p) 0) ids (subst (λ k. AreFree (k p) 0 fids) (sym same) free) in
      (
        i0,
        i1,
        f0,
        f1,
        ids,
        blocks,
        subst (λ l. Leads p i0 i1 f0 f1 (connect p l fcbs t)) (sym ids)
            (subst (λ l. Leads p i0 i1 f0 f1 (connect p (i0 ∷ i1 ∷ []) l t)) (sym blocks)
              (connect-Leads p i0 i1 f0 f1 t there ne)),
      )

  -- A successful reservation of two streams by one of the first `n` processes gives two file ids that
  -- lead to two different FCBs.
  pub fcb_reserve-Pair :
      (p : ℕ) (s : Files Ops World) → IsSound n held s → Pair p (fcb_reserve p 2 s)
  unfolding fcb_reserve
  fcb_reserve-Pair p s v = elim (Option-cases (find_fids max_fileid 2 0 (s.fidt p))) [
    | inl e ↦ rw (e, fcb_reserve) tt
    | inr (fids, e) ↦
        let (free, len) = find_fids-AreFree max_fileid 2 0 (s.fidt p) fids (omega arith) e in
        rw (e, fcb_reserve)
          (reserve_from-Pair p fids s (acquire_all 2 [] s) free len
            (fidt-acquire_all n held few 2 [] s)
            (acquire_all-Acquired (λ g. refs n g s.fidt + held g) 2 2 [] s (omega arith) v))
  ]
