-- ===== src/Proc/Table.antt =====
-- The process table: its free list, built through the `parent` fields, holds exactly the free entries.
use tinyos.Base.{
  ℕ, ◌≤◌, ◌<◌, ◌≡◌, List, [], ◌∷◌, false, true, ◌&&◌, Option, none, some, if◌then◌else◌, count,
  arith, ltb, refl, subst, sym, update,
}
use tinyos.Base.Sums.{total, total-change, total-le}
use tinyos.Kernel.{Kernel, Pcb, is_free, max_proc, alive, incr}
use tinyos.Proc.{acquire_pcb, release_pcb}

-- The entries on the way from `o` through the parents.
abbrev pub Chain : (ℕ → Pcb) → Option ℕ → List ℕ → Type 0
Chain pt o [] = o ≡ none
Chain pt o (p ∷ ps) = (o ≡ some p) × Chain pt (pt p).parent ps

abbrev pub in_use : Pcb → ℕ
in_use c = if is_free c.pstate then 0 else 1

-- The free list holds exactly the free entries of the table, once each, and `process_count` counts the others.
pub record IsTable {Ops World : Type 0} (frees : List ℕ) (k : Kernel Ops World) : Type 0 where
  pub chain : Chain k.pt k.pcb_freelist frees
  pub members :
      (p : ℕ) → count p frees ≡ (if ltb p max_proc && is_free (k.pt p).pstate then 1 else 0)
  pub counted : k.process_count ≡ total max_proc (λ p. in_use (k.pt p))

pub Chain-same :
    (pt pt' : ℕ → Pcb) (o : Option ℕ) (ps : List ℕ)
    → ((p : ℕ) → 0 < count p ps → (pt' p).parent ≡ (pt p).parent)
    → Chain pt o ps
    → Chain pt' o ps
Chain-same pt pt' o [] e c = c
Chain-same pt pt' o (p ∷ ps) e c = (
  c.0,
  rw (e p (ground arith)) (Chain-same pt pt' (pt p).parent ps (λ q h. e q (ground arith)) c.1),
)

module _ {Ops World : Type 0} where
  -- What `acquire_PCB` does with the free entry `p`.
  abbrev acquired : ℕ → Kernel Ops World → Kernel Ops World
  acquired p k =
      let c = k.pt p in
      record k {
        pt = update k.pt p (record c { pstate = alive });
        pcb_freelist = c.parent;
        process_count = incr k.process_count;
      }

  acquire_pcb-acquired :
      (p : ℕ) (k : Kernel Ops World)
      → k.pcb_freelist ≡ some p
      → acquire_pcb k ≡ (some p, acquired p k)
  unfolding acquire_pcb
  acquire_pcb-acquired p k e = ground (arith, e)

  pub process_count-le :
      (frees : List ℕ) (k : Kernel Ops World) → IsTable frees k → k.process_count ≤ max_proc
  process_count-le frees k t =
      omega (arith, t.counted, total-le max_proc 1 (λ p. in_use (k.pt p)) (λ p h. ground arith))

  acquired-IsTable :
      (p : ℕ) (frees : List ℕ) (k : Kernel Ops World)
      → IsTable (p ∷ frees) k
      → p < max_proc
      → is_free (k.pt p).pstate ≡ true
      → IsTable frees (acquired p k)
  acquired-IsTable p frees k t h fresh =
      let r = acquired p k in
      record {
        chain =
            Chain-same k.pt r.pt (k.pt p).parent frees (λ q h. ground (arith, t.members q))
              t.chain.1;
        members = λ q. ground (arith, t.members q);
        counted = ground (
          arith,
          t.counted,
          process_count-le (p ∷ frees) k t,
          total-change max_proc (λ q. in_use (k.pt q)) (λ q. in_use (r.pt q)) p h
              (λ q ne. ground arith),
        );
      }

  abbrev pub Acquired :
      (p : ℕ) → (frees : List ℕ) → Kernel Ops World → Option ℕ × Kernel Ops World → Type 0
  Acquired p frees k (o, r) =
      (o ≡ some p)
      × (p < max_proc)
      × (is_free (k.pt p).pstate ≡ true)
      × ((r.pt p).pstate ≡ alive)
      × IsTable frees r

  -- With a free entry left, `acquire_PCB` takes the first one of the free list, a free entry of the
  -- table, which becomes alive; free list and count agree with the table again.
  pub acquire_pcb-Acquired :
      (p : ℕ) (frees : List ℕ) (k : Kernel Ops World)
      → IsTable (p ∷ frees) k
      → Acquired p frees k (acquire_pcb k)
  acquire_pcb-Acquired p frees k t =
      let h : p < max_proc = ground (arith, t.members p) in
      let fresh : is_free (k.pt p).pstate ≡ true = ground (arith, t.members p) in
      subst (Acquired p frees k) (sym (acquire_pcb-acquired p k t.chain.0))
        (refl, h, fresh, ground arith, acquired-IsTable p frees k t h fresh)

  -- With no free entry left `acquire_PCB` fails and changes nothing.
  pub acquire_pcb-none : (k : Kernel Ops World) → IsTable [] k → acquire_pcb k ≡ (none, k)
  unfolding acquire_pcb
  acquire_pcb-none k t = ground (arith, t.chain)

  -- An entry in use that `release_PCB` gets is at the front of the free list then, and the next
  -- `acquire_PCB` takes it; free list and count agree with the table in between.
  pub release_pcb-IsTable :
      (p : ℕ) (frees : List ℕ) (k : Kernel Ops World)
      → p < max_proc
      → is_free (k.pt p).pstate ≡ false
      → IsTable frees k
      → IsTable (p ∷ frees) (release_pcb p k) × ((acquire_pcb (release_pcb p k)).0 ≡ some p)
  unfolding release_pcb
  release_pcb-IsTable p frees k h used t =
      let r = release_pcb p k in
      let table : IsTable (p ∷ frees) r = record {
        chain = (
          refl,
          subst (λ o. Chain r.pt o frees) (sym (update_same p k))
              (Chain-same k.pt r.pt k.pcb_freelist frees (λ q g. ground (arith, t.members q))
                t.chain),
        );
        members = λ q. ground (arith, t.members q);
        counted = ground (
          arith,
          t.counted,
          process_count-le frees k t,
          total-change max_proc (λ q. in_use (k.pt q)) (λ q. in_use (r.pt q)) p h
              (λ q ne. ground arith),
        );
      } in
      (table, (acquire_pcb-Acquired p frees r table).0)
    where
      update_same :
          (p : ℕ) (k : Kernel Ops World) → ((release_pcb p k).pt p).parent ≡ k.pcb_freelist
      update_same p k = ground arith
