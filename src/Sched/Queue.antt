-- ===== src/Sched/Queue.antt =====
-- The levels of the feedback queue: which thread `sched_queue_select` takes.
use tinyos.Base.{
  ℕ, zero, suc, ◌+◌, ◌-◌, ◌≤◌, ◌<◌, ◌≡◌, ◌≢◌, inl, inr, List, [], ◌∷◌, arith, refl, is_nil, true,
  false, Bool, if◌then◌else◌, ltb, ltb→lt, Bool-cases,
}
use tinyos.Sched.{
  SchedCause, Sched, queues, next_level, select_level, select_from, sched_queue_select, is_ready,
}

-- From a level, every cause leads to a level.
pub next_level_below :
    (cause : SchedCause) (level : ℕ) → level < queues → next_level cause level < queues
unfolding next_level
next_level_below cause level h = ground arith

select_level_lem :
    (rounds i : ℕ) (queue : ℕ → List ℕ)
    → let l = select_level rounds i queue in
      (i ≤ l)
      × (l ≤ i + rounds)
      × (l < i + rounds → is_nil (queue l) ≡ false)
      × ((j : ℕ) → i ≤ j → j < l → is_nil (queue j) ≡ true)
unfolding select_level
select_level_lem zero i queue =
    (omega arith, omega arith, λ h. absurd (omega arith), λ j p q. absurd (omega arith))
select_level_lem (suc n) i queue =
    let ih = select_level_lem n (i + 1) queue in
    (
      ground (arith, ih.0),
      ground (arith, ih.1),
      (λ h. ground (arith, ih.2)),
      λ j p q. ground (arith, ih.3 j),
    )

nil_of_is_nil : (xs : List ℕ) → is_nil xs ≡ true → xs ≡ []
nil_of_is_nil [] h = refl
nil_of_is_nil (x ∷ xs) h = absurd (ground arith)

-- What may be chosen, from the state before.
abbrev pub Chosen : (core current : ℕ) → Sched → ℕ × Bool × Sched → Type 0
Chosen core current s (next, taken, r) =
    (taken ≡ true
      → (level : ℕ) × (level < queues)
        × (s.queue level ≡ next ∷ r.queue level)
        × ((j : ℕ) → j < level → s.queue j ≡ [])
        × ((j : ℕ) → j ≢ level → r.queue j ≡ s.queue j))
    × (taken ≡ false
        → ((j : ℕ) → j < queues → s.queue j ≡ [])
          × ((j : ℕ) → r.queue j ≡ s.queue j)
          × (next ≡ (if is_ready (s.tcb current).state then current else s.idle_of core)))

select_from-Chosen :
    (core current level : ℕ) (l : List ℕ) (s : Sched)
    → s.queue level ≡ l
    → level < queues
    → (level < queues - 1 → is_nil (s.queue level) ≡ false)
    → ((j : ℕ) → j < level → is_nil (s.queue j) ≡ true)
    → Chosen core current s (select_from core current level l s)
unfolding select_from
select_from-Chosen core current level [] s e top full above = (
  (λ p. cc),
  λ _. (
    (λ j p. elim (Bool-cases (ltb j level)) [
      | inl q ↦ nil_of_is_nil (s.queue j) (above j (ltb→lt j level q))
      | inr q ↦ ground (arith)
    ]),
    (λ j. refl),
    refl,
  ),
)
select_from-Chosen core current level (t ∷ ts) s e top full above = (
  (λ _. (
    level,
    top,
    ground arith,
    (λ j p. nil_of_is_nil (s.queue j) (above j p)),
    λ j p. ground arith,
  )),
  λ p. cc,
)

-- If some queue is not empty, the thread chosen is the head of the first such queue, it leaves that queue
-- and no other queue changes. If all are empty it is the current thread when that is ready, else the
-- idle thread of the core, and no queue changes.
pub sched_queue_select-Chosen :
    (core current : ℕ) (s : Sched) → Chosen core current s (sched_queue_select core current s)
unfolding sched_queue_select
sched_queue_select-Chosen core current s =
    let l = select_level_lem (queues - 1) 0 s.queue in
    select_from-Chosen core current (select_level (queues - 1) 0 s.queue) _ s refl
      (omega (arith, l.1)) (λ h. l.2 (omega (arith, h))) λ j p. l.3 j (omega arith) p
