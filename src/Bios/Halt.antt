-- ===== src/Bios/Halt.antt =====
-- The list of halted cores of bios.c, through the calls that halt cores and restart them.
use tinyos.Base.{
  ℕ, zero, suc, ◌+◌, ◌<◌, ◌≤◌, ◌≡◌, ◌⊎◌, inl, inr, List, [], ◌∷◌, true, false, if◌then◌else◌, count,
  remove, ◌==◌, arith, refl, ap, sym, ◌∙◌, subst, List-cases, Bool-cases, count-remove,
}
use tinyos.Bios.{
  Vm, Signals, set_core, core_restart, cpu_core_restart, cpu_core_halt, cpu_core_restart_one,
  restart_from, cpu_core_restart_all, interrupt_set, interrupt_core, raise_interrupt,
}

remove-absent : (c : ℕ) (xs : List ℕ) → count c xs ≡ 0 → remove c xs ≡ xs
remove-absent c [] h = refl
remove-absent c (x ∷ xs) h = ground (arith, remove-absent c xs)

count-nil : (xs : List ℕ) → ((x : ℕ) → count x xs ≡ 0) → xs ≡ []
count-nil [] h = refl
count-nil (x ∷ xs) h = ground (arith, h x)

-- The halted cores, and no others, are on the list, each of them once.
pub record IsHalted {Handler World : Type 0} (v : Vm Handler World) : Type 0 where
  pub listed : (c : ℕ) → count c v.halted_list ≡ (if (v.core c).halted then 1 else 0)
  pub cores : (c : ℕ) → (v.core c).halted ≡ true → c < v.ncores

module _ {Handler World : Type 0} where
  pub core_restart-IsHalted :
      (c : ℕ) (v : Vm Handler World) → IsHalted v → IsHalted (core_restart c v)
  unfolding core_restart set_core
  core_restart-IsHalted c v h = record {
    listed = λ x. ground (arith, h.listed x, h.listed c, count-remove c x v.halted_list);
    cores = λ x. ground (arith, h.cores x);
  }

  -- Which cores are halted after a restart.
  pub core_restart-halted :
      (c x : ℕ) (v : Vm Handler World)
      → ((core_restart c v).core x).halted ≡ (if x == c then false else (v.core x).halted)
  unfolding core_restart set_core
  core_restart-halted c x v = ground arith

  pub cpu_core_halt-IsHalted :
      (c : ℕ) (v : Vm Handler World)
      → c < v.ncores
      → (v.core c).halted ≡ false
      → IsHalted v
      → IsHalted (cpu_core_halt c v)
  unfolding cpu_core_halt set_core
  cpu_core_halt-IsHalted c v known up h = record {
    listed = λ x. ground (arith, h.listed x, h.listed c, up);
    cores = λ x. ground (arith, h.cores x, known);
  }

  pub cpu_core_restart_one-nil :
      (v : Vm Handler World) → v.halted_list ≡ [] → cpu_core_restart_one v ≡ v
  unfolding cpu_core_restart_one
  cpu_core_restart_one-nil v e = simp (e, cpu_core_restart_one)

  pub cpu_core_restart_one-cons :
      (c : ℕ) (rest : List ℕ) (v : Vm Handler World)
      → v.halted_list ≡ c ∷ rest
      → cpu_core_restart_one v ≡ core_restart c (record v { halted_list = rest })
  unfolding cpu_core_restart_one
  cpu_core_restart_one-cons c rest v e = rw (e, cpu_core_restart_one) refl

  -- The restart of a core whose node is off the list.
  core_restart-absent :
      (c : ℕ) (v : Vm Handler World)
      → count c v.halted_list ≡ 0
      → (core_restart c v).halted_list ≡ v.halted_list
  unfolding core_restart
  core_restart-absent c v h = elim (Bool-cases (v.core c).halted) [
    | inl e ↦ rw (e, core_restart) (remove-absent c v.halted_list h)
    | inr e ↦ rw (e, core_restart) refl
  ]

  core_restart-ncores : (c : ℕ) (v : Vm Handler World) → (core_restart c v).ncores ≡ v.ncores
  unfolding core_restart set_core
  core_restart-ncores c v = ground arith

  first-IsHalted :
      (c : ℕ) (rest : List ℕ) (v : Vm Handler World)
      → v.halted_list ≡ c ∷ rest
      → IsHalted v
      → ((v.core c).halted ≡ true) × (count c rest ≡ 0)
  first-IsHalted c rest v e h = ground (arith, ap (count c) e, h.listed c)

  popped-IsHalted :
      (c : ℕ) (rest : List ℕ) (v : Vm Handler World)
      → v.halted_list ≡ c ∷ rest
      → IsHalted v
      → IsHalted (core_restart c (record v { halted_list = rest }))
  popped-IsHalted c rest v e h =
      let popped = record v { halted_list = rest } in
      let absent = core_restart-absent c popped (first-IsHalted c rest v e h).1 in
      record {
        listed = λ x. ground (
          arith,
          ap (count x) absent,
          ap (count x) e,
          h.listed x,
          core_restart-halted c x popped,
          first-IsHalted c rest v e h,
        );
        cores = λ x.
            ground (arith, h.cores x, core_restart-halted c x popped, core_restart-ncores c popped);
      }

  -- What `cpu_core_restart_one` comes to, from `v` to `w`.
  abbrev pub RestartsOne : (v w : Vm Handler World) → Type 0
  RestartsOne v w =
      ((v.halted_list ≡ []) × (w ≡ v))
      ⊎ ((c : ℕ) × (v.halted_list ≡ c ∷ w.halted_list)
          × ((v.core c).halted ≡ true)
          × ((w.core c).halted ≡ false))

  pub cpu_core_restart_one-RestartsOne :
      (v : Vm Handler World)
      → IsHalted v
      → IsHalted (cpu_core_restart_one v) × RestartsOne v (cpu_core_restart_one v)
  cpu_core_restart_one-RestartsOne v h = elim (List-cases v.halted_list) [
    | inl e ↦
        let same = cpu_core_restart_one-nil v e in (subst IsHalted (sym same) h, inl (e, same))
    | inr (c, rest, e) ↦
        let popped = record v { halted_list = rest } in
        let (halted, absent) = first-IsHalted c rest v e h in
        subst (λ w. IsHalted w × RestartsOne v w) (sym (cpu_core_restart_one-cons c rest v e))
          (
            popped-IsHalted c rest v e h,
            inr (
              c,
              e ∙ ap (λ l. c ∷ l) (sym (core_restart-absent c popped absent)),
              halted,
              ground (arith, core_restart-halted c c popped),
            ),
          )
  ]

  pub restart_from-IsHalted :
      (n i : ℕ) (v : Vm Handler World) → IsHalted v → IsHalted (restart_from n i v)
  unfolding restart_from
  restart_from-IsHalted zero i v h = h
  restart_from-IsHalted (suc n) i v h =
      restart_from-IsHalted n (i + 1) (core_restart i v) (core_restart-IsHalted i v h)

  -- None of the cores from `i` up to `i + n` is halted after the loop, and no other core becomes so.
  restart_from-halted :
      (n i x : ℕ) (v : Vm Handler World)
      → let w = restart_from n i v in
        (i ≤ x → x < i + n → (w.core x).halted ≡ false)
        × ((v.core x).halted ≡ false → (w.core x).halted ≡ false)
        × (w.ncores ≡ v.ncores)
  unfolding restart_from core_restart set_core
  restart_from-halted zero i x v = ground arith
  restart_from-halted (suc n) i x v =
      ground (arith, restart_from-halted n (i + 1) x (core_restart i v), core_restart-halted i x v)

  restart_all-halted :
      (v : Vm Handler World)
      → IsHalted v
      → (c : ℕ) → ((restart_from v.ncores 0 v).core c).halted ≡ false
  restart_all-halted v h c = ground (arith, restart_from-halted v.ncores 0 c v, h.cores c)

  pub cpu_core_restart_all-running :
      (v : Vm Handler World)
      → IsHalted v
      → let w = cpu_core_restart_all v in
        IsHalted w × (w.halted_list ≡ []) × ((c : ℕ) → (w.core c).halted ≡ false)
  unfolding cpu_core_restart_all
  cpu_core_restart_all-running v h =
      let w = restart_from v.ncores 0 v in
      let after = restart_from-IsHalted v.ncores 0 v h in
      let running = restart_all-halted v h in
      (after, count-nil w.halted_list (λ c. ground (arith, after.listed c, running c)), running)

  module _ (os : Signals World) where
    -- The core of the interrupt runs, with the interrupt pending, and the others are as they were.
    pub raise_interrupt-IsHalted :
        (c i : ℕ) (v : Vm Handler World) → IsHalted v → IsHalted (raise_interrupt os c i v)
    unfolding raise_interrupt interrupt_core cpu_core_restart interrupt_set set_core
    raise_interrupt-IsHalted c i v h =
        core_restart-IsHalted c (record (interrupt_set c i v) { world = os.sigqueue c v.world })
          (record {
            listed = λ x. ground (arith, h.listed x);
            cores = λ x. ground (arith, h.cores x);
          })

    pub raise_interrupt-core :
        (c i x j : ℕ) (v : Vm Handler World)
        → let w = raise_interrupt os c i v in
          ((w.core x).halted ≡ (if x == c then false else (v.core x).halted))
          × ((w.core x).int_pending j ≡ (
              if x == c
              then if j == i then true else (v.core x).int_pending j
              else (v.core x).int_pending j))
          × (w.world ≡ os.sigqueue c v.world)
    unfolding raise_interrupt interrupt_core cpu_core_restart interrupt_set set_core core_restart
    raise_interrupt-core c i x j v = ground arith
