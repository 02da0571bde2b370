-- ===== src/Sched/Waiting.antt =====
-- Which threads are in the queues of the scheduler: the normal threads that are ready, with a clean context, and
-- that no core has taken.
use tinyos.Base.{
  ℕ, zero, suc, ◌+◌, ◌-◌, ◌≤◌, ◌<◌, ◌≡◌, inl, inr, List, [], ◌∷◌, ◌++◌, Bool, not, ◌&&◌, ◌==◌,
  if◌then◌else◌, update, count, count-append, append_assoc, arith, sym, ◌∙◌, ap, subst, Bool-cases,
  ==_iff, ==_refl, ℕ-cases,
}
use tinyos.Sched.{
  Sched, Tcb, queues, boost_threshold, enqueue, boost, boost_from, boost_level, sched_queue_add,
  next_level, is_ready, is_clean, is_normal,
}
use tinyos.Sched.Boost.{set_levels_lem}
use tinyos.Sched.Queue.{next_level_below}
use tinyos.Sched.Order.{waiting, waiting-same}

-- A thread behind a queue.
count-update :
    (n i level t x : ℕ) (q : ℕ → List ℕ)
    → i ≤ level
    → level < i + n
    → count x (waiting n i (update q level (q level ++ (t ∷ []))))
      ≡ count x (waiting n i q) + (if t == x then 1 else 0)
unfolding waiting
count-update zero i level t x q h b = absurd (omega (arith, h, b))
count-update (suc n) i level t x q h b =
    let q' = update q level (q level ++ (t ∷ [])) in
    elim (Bool-cases (i == level)) [
      | inl e ↦
          let at_level = (==_iff i level).0 e in
          let rest = waiting-same n (i + 1) q q' (λ j p. ground (arith, at_level, p)) in
          let head : count x (q' i) ≡ count x (q i) + (if t == x then 1 else 0) =
            subst
              (λ l.
                count x (update q l (q l ++ (t ∷ [])) i)
                ≡ count x (q i) + (if t == x then 1 else 0))
              at_level (ground (arith, ==_refl i, count-append x (q i) (t ∷ []))) in
          omega (
            arith,
            head,
            ap (count x) rest,
            count-append x (q' i) (waiting n (i + 1) q'),
            count-append x (q i) (waiting n (i + 1) q),
          )
      | inr e ↦
          let same : q' i ≡ q i = ground (arith, e) in
          omega (
            arith,
            ap (count x) same,
            count-update n (i + 1) level t x q (ground (arith, h, e)) (omega (arith, b)),
            count-append x (q' i) (waiting n (i + 1) q'),
            count-append x (q i) (waiting n (i + 1) q),
          )
    ]

-- A boost neither loses threads nor adds any, and keeps the order of all of them.
waiting-boost : (s : Sched) → waiting queues 0 (boost s).queue ≡ waiting queues 0 s.queue
unfolding waiting boost boost_from boost_level
waiting-boost s =
    append_assoc (s.queue 0) (s.queue 1) (s.queue 2 ++ (s.queue 3 ++ (s.queue 4 ++ [])))

-- A thread that may wait for a core.
abbrev pub is_waiting : Tcb → Bool
is_waiting c = is_normal c.type && (is_ready c.state && is_clean c.phase)

-- The queues hold each thread that waits and that no core has taken, once, and no other. `busy` tells the
-- threads that a core has taken.
pub record IsQueued (busy : ℕ → Bool) (s : Sched) : Type 0 where
  pub once :
      (x : ℕ)
      → count x (waiting queues 0 s.queue) ≡ (if is_waiting (s.tcb x) && not (busy x) then 1 else 0)
  pub levels : (x : ℕ) → (s.tcb x).priority_level < queues

boost_level-levels :
    (i : ℕ) (s : Sched) (x : ℕ)
    → i < queues
    → (s.tcb x).priority_level < queues
    → ((boost_level i s).tcb x).priority_level < queues
unfolding boost_level
boost_level-levels i s x h l =
    let merged = s.queue i ++ s.queue (i + 1) in
    let p = set_levels_lem i merged s.tcb x in
    elim (ℕ-cases (count x merged)) [
      | inl e ↦ omega (arith, p.6 e, l)
      | inr (n, e) ↦ omega (arith, p.5 (omega (arith, e)), h)
    ]

boost_from-levels :
    (n i : ℕ) (s : Sched) (x : ℕ)
    → i + n ≤ queues
    → (s.tcb x).priority_level < queues
    → ((boost_from n i s).tcb x).priority_level < queues
unfolding boost_from
boost_from-levels zero i s x h l = l
boost_from-levels (suc n) i s x h l =
    boost_from-levels n (i + 1) (boost_level i s) x (omega (arith, h))
      (boost_level-levels i s x (omega (arith, h)) l)

-- One more thread in the queues, and levels that are levels.
pub sched_queue_add-waiting :
    (t : ℕ) (s : Sched)
    → ((x : ℕ) → (s.tcb x).priority_level < queues)
    → let r = sched_queue_add t s in
      ((x : ℕ)
        → count x (waiting queues 0 r.queue)
          ≡ count x (waiting queues 0 s.queue) + (if t == x then 1 else 0))
      × ((x : ℕ) → (r.tcb x).priority_level < queues)
unfolding sched_queue_add enqueue boost
sched_queue_add-waiting t s levels =
    let c = s.tcb t in
    let q = enqueue t s in
    let level : next_level c.curr_cause c.priority_level < queues =
      (next_level_below c.curr_cause c.priority_level (levels t)) in
    let added : (x : ℕ)
        → count x (waiting queues 0 q.queue)
          ≡ count x (waiting queues 0 s.queue) + (if t == x then 1 else 0) =
      λ x.
        count-update queues 0 (next_level c.curr_cause c.priority_level) t x s.queue (omega arith)
          level in
    let kept : (x : ℕ) → (q.tcb x).priority_level < queues = λ x. ground (arith, levels x, level) in
    elim (Bool-cases (q.operations == boost_threshold)) [
      | inl e ↦
          subst
            (λ r.
              ((x : ℕ)
                → count x (waiting queues 0 r.queue)
                  ≡ count x (waiting queues 0 s.queue) + (if t == x then 1 else 0))
              × ((x : ℕ) → (r.tcb x).priority_level < queues))
            (sym (ap (λ b. if b then boost q else q) e))
            (
              (λ x. ap (count x) (waiting-boost q) ∙ added x),
              (λ x. boost_from-levels (queues - 1) 0 q x (omega arith) (kept x)),
            )
      | inr e ↦
          subst
            (λ r.
              ((x : ℕ)
                → count x (waiting queues 0 r.queue)
                  ≡ count x (waiting queues 0 s.queue) + (if t == x then 1 else 0))
              × ((x : ℕ) → (r.tcb x).priority_level < queues))
            (sym (ap (λ b. if b then boost q else q) e)) (added, kept)
    ]
