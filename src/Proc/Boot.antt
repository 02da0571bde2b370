-- ===== src/Proc/Boot.antt =====
-- The process table after the loops of `initialize_processes`.
use tinyos.Base.{
  ℕ, zero, suc, ◌+◌, ◌≤◌, ◌<◌, ◌≡◌, List, [], ◌∷◌, none, if◌then◌else◌, count, arith, ltb, refl,
  true, ap, sym, ◌∙◌, subst,
}
use tinyos.Base.Sums.{total-le}
use tinyos.Kernel.{Kernel, is_free, max_proc}
use tinyos.Proc.{initialize_pcb, initialize_pcbs, link_free, build_freelist, blank_table}
use tinyos.Proc.Table.{Chain, Chain-same, IsTable, in_use}

-- The entries below `p`, in order, before a list.
pub below : ℕ → List ℕ → List ℕ
below zero ps = ps
below (suc p) ps = below p (p ∷ ps)

count-below :
    (x p : ℕ) (ps : List ℕ) → count x (below p ps) ≡ count x ps + (if ltb x p then 1 else 0)
unfolding below
count-below x zero ps = ground arith
count-below x (suc p) ps = ground (arith, count-below x p (p ∷ ps))

-- The first two entries are the first of the free list.
pub below-two : (p : ℕ) (ps : List ℕ) → (qs : List ℕ) × (below (suc (suc p)) ps ≡ 0 ∷ 1 ∷ qs)
unfolding below
below-two zero ps = (ps, refl)
below-two (suc p) ps = below-two p (suc (suc p) ∷ ps)

module _ {Ops World : Type 0} where
  initialize_pcbs-free :
      (n p : ℕ) (k : Kernel Ops World) (x : ℕ)
      → let r = initialize_pcbs n p k in
        (p ≤ x → x < p + n → is_free (r.pt x).pstate ≡ true)
        × (is_free (k.pt x).pstate ≡ true → is_free (r.pt x).pstate ≡ true)
  unfolding initialize_pcbs initialize_pcb
  initialize_pcbs-free zero p k x = ground arith
  initialize_pcbs-free (suc n) p k x =
      ground (arith, initialize_pcbs-free n (p + 1) (initialize_pcb p k) x)

  pstate-build_freelist :
      (p : ℕ) (k : Kernel Ops World) (x : ℕ) → ((build_freelist p k).pt x).pstate ≡ (k.pt x).pstate
  unfolding build_freelist link_free
  pstate-build_freelist zero k x = refl
  pstate-build_freelist (suc p) k x = ground (arith, pstate-build_freelist p (link_free p k) x)

  Chain-link_free :
      (p : ℕ) (ps : List ℕ) (k : Kernel Ops World)
      → ((x : ℕ) → 0 < count x ps → p + 1 ≤ x)
      → Chain k.pt k.pcb_freelist ps
      → Chain (link_free p k).pt (link_free p k).pcb_freelist (p ∷ ps)
  unfolding link_free
  Chain-link_free p ps k h c =
      let r = link_free p k in
      (
        refl,
        subst (λ o. Chain r.pt o ps) (sym (own_parent p k))
            (Chain-same k.pt r.pt k.pcb_freelist ps (λ x m. ground (arith, h x)) c),
      )
    where
      own_parent : (p : ℕ) (k : Kernel Ops World) → ((link_free p k).pt p).parent ≡ k.pcb_freelist
      own_parent p k = ground arith

  Chain-build_freelist :
      (p : ℕ) (ps : List ℕ) (k : Kernel Ops World)
      → ((x : ℕ) → 0 < count x ps → p ≤ x)
      → Chain k.pt k.pcb_freelist ps
      → let r = build_freelist p k in Chain r.pt r.pcb_freelist (below p ps)
  unfolding build_freelist below
  Chain-build_freelist zero ps k h c = c
  Chain-build_freelist (suc p) ps k h c =
      Chain-build_freelist p (p ∷ ps) (link_free p k) (λ x m. ground (arith, h x))
        (Chain-link_free p ps k (λ x m. omega (arith, h x m)) c)

  blank_table-free :
      (k : Kernel Ops World) (x : ℕ) → x < max_proc → is_free ((blank_table k).pt x).pstate ≡ true
  unfolding blank_table
  blank_table-free k x h =
      let blank = record (initialize_pcbs max_proc 0 k) { pcb_freelist = none } in
      ap is_free (pstate-build_freelist max_proc blank x)
      ∙ (initialize_pcbs-free max_proc 0 k x).0 (omega arith) (omega (arith, h))

  all_free-IsTable :
      (k : Kernel Ops World)
      → Chain k.pt k.pcb_freelist (below max_proc [])
      → k.process_count ≡ 0
      → ((x : ℕ) → x < max_proc → is_free (k.pt x).pstate ≡ true)
      → IsTable (below max_proc []) k
  all_free-IsTable k chain zero_count all_free = record {
    chain = chain;
    members = λ x. ground (arith, count-below x max_proc [], all_free x);
    counted = omega (
      arith,
      zero_count,
      total-le max_proc 0 (λ x. in_use (k.pt x)) (λ x h. ground (arith, all_free x h)),
    );
  }

  -- Before its call of `Exec`, `initialize_processes` has made every entry free, counted no process,
  -- and built a free list of all entries in their order.
  pub blank_table-IsTable : (k : Kernel Ops World) → IsTable (below max_proc []) (blank_table k)
  unfolding blank_table
  blank_table-IsTable k =
      let blank = record (initialize_pcbs max_proc 0 k) { pcb_freelist = none } in
      all_free-IsTable (blank_table k)
        (Chain-build_freelist max_proc [] blank (λ x h. absurd (omega arith)) refl) refl
        (blank_table-free k)
