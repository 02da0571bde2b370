-- ===== src/Sched/Boost.antt =====
-- The priority boost of `sched_queue_add`.
use tinyos.Base.{
  ℕ, zero, suc, ◌+◌, ◌-◌, ◌<◌, ◌≡◌, List, [], ◌∷◌, ◌++◌, arith, refl, update, count, ◌∙◌,
}
use tinyos.Sched.{
  Sched, Tcb, queues, set_levels, boost_level, boost_from, boost, enqueue, sched_queue_add,
}

-- What the walk does to one thread.
pub set_levels_lem :
    (i : ℕ) (ts : List ℕ) (tcb : ℕ → Tcb) (t : ℕ)
    → let c = set_levels i ts tcb t in
      (c.owner_pcb ≡ (tcb t).owner_pcb)
      × (c.type ≡ (tcb t).type)
      × (c.state ≡ (tcb t).state)
      × (c.phase ≡ (tcb t).phase)
      × (c.wakeup_time ≡ (tcb t).wakeup_time)
      × (0 < count t ts → c.priority_level ≡ i)
      × (count t ts ≡ 0 → c.priority_level ≡ (tcb t).priority_level)
unfolding set_levels
set_levels_lem i [] tcb t = ground arith
set_levels_lem i (u ∷ ts) tcb t =
    let c = tcb u in
    ground (arith, set_levels_lem i ts (update tcb u (record c { priority_level = i })) t)

-- A boost moves each queue up by one level, the top two being joined in order, and empties the last;
-- so the threads of the lower levels are not all brought to the top.
pub queue-boost :
    (s : Sched)
    → let q = (boost s).queue in
      (q 0 ≡ s.queue 0 ++ s.queue 1)
      × (q 1 ≡ s.queue 2)
      × (q 2 ≡ s.queue 3)
      × (q 3 ≡ s.queue 4)
      × (q 4 ≡ [])
      × ((boost s).operations ≡ 0)
unfolding boost boost_from boost_level
queue-boost s = (refl, refl, refl, refl, refl, refl)

-- A TCB that differs at most in its time slices, its causes and its level.
pub record Keeps (c d : Tcb) : Type 0 where
  pub owner : d.owner_pcb ≡ c.owner_pcb
  pub type : d.type ≡ c.type
  pub state : d.state ≡ c.state
  pub phase : d.phase ≡ c.phase
  pub wakeup : d.wakeup_time ≡ c.wakeup_time

boost_level-Keeps : (i : ℕ) (s : Sched) (t : ℕ) → Keeps (s.tcb t) ((boost_level i s).tcb t)
unfolding boost_level
boost_level-Keeps i s t =
    let l = set_levels_lem i (s.queue i ++ s.queue (i + 1)) s.tcb t in
    record { owner = l.0; type = l.1; state = l.2; phase = l.3; wakeup = l.4 }

boost_from-Keeps : (n i : ℕ) (s : Sched) (t : ℕ) → Keeps (s.tcb t) ((boost_from n i s).tcb t)
unfolding boost_from
boost_from-Keeps zero i s t = record {
  owner = refl;
  type = refl;
  state = refl;
  phase = refl;
  wakeup = refl;
}
boost_from-Keeps (suc n) i s t =
    let l = boost_level-Keeps i s t in
    let m = boost_from-Keeps n (i + 1) (boost_level i s) t in
    record {
      owner = m.owner ∙ l.owner;
      type = m.type ∙ l.type;
      state = m.state ∙ l.state;
      phase = m.phase ∙ l.phase;
      wakeup = m.wakeup ∙ l.wakeup;
    }

pub sched_queue_add-Keeps :
    (t : ℕ) (s : Sched) (u : ℕ) → Keeps (s.tcb u) ((sched_queue_add t s).tcb u)
unfolding sched_queue_add enqueue boost
sched_queue_add-Keeps t s u = ground (arith, boost_from-Keeps (queues - 1) 0 (enqueue t s) u)

boost_from-rest :
    (n i : ℕ) (s : Sched)
    → let b = boost_from n i s in
      (b.timeout_list ≡ s.timeout_list)
      × (b.current ≡ s.current)
      × (b.previous ≡ s.previous)
      × (b.idle_of ≡ s.idle_of)
unfolding boost_from boost_level
boost_from-rest zero i s = (refl, refl, refl, refl)
boost_from-rest (suc n) i s = boost_from-rest n (i + 1) (boost_level i s)

-- The globals that `sched_queue_add` leaves alone.
pub sched_queue_add-rest :
    (t : ℕ) (s : Sched)
    → let b = sched_queue_add t s in
      (b.timeout_list ≡ s.timeout_list)
      × (b.current ≡ s.current)
      × (b.previous ≡ s.previous)
      × (b.idle_of ≡ s.idle_of)
unfolding sched_queue_add enqueue boost
sched_queue_add-rest t s = ground (arith, boost_from-rest (queues - 1) 0 (enqueue t s))
