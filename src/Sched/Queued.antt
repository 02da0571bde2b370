-- ===== src/Sched/Queued.antt =====
-- The queues of the scheduler through wakeups, selections, and what `gain` does with the thread before.
use tinyos.Base.{
  ℕ, ◌+◌, ◌-◌, ◌<◌, ◌≡◌, inl, inr, List, [], ◌∷◌, Bool, true, false, not, ◌&&◌, ◌||◌, Option, none,
  some, ◌==◌, if◌then◌else◌, update, count, arith, refl, sym, ◌∙◌, ap, subst, Bool-cases, ==_iff,
  ==_refl,
}
use tinyos.Sched.{
  Sched, ThreadState, ThreadPhase, queues, sched_queue_add, is_ready, is_clean, is_normal,
  is_blocked, wakeup, make_ready, set_ready, cancel_timeout, sched_queue_select, select_from,
  select_level, dispose, release_tcb, no_timeout,
}
use tinyos.Sched.Boost.{sched_queue_add-Keeps}
use tinyos.Sched.Queue.{sched_queue_select-Chosen}
use tinyos.Sched.Order.{waiting, Chosen-waiting}
use tinyos.Sched.Timeout.{make_ready_lem}
use tinyos.Sched.Waiting.{is_waiting, IsQueued, sched_queue_add-waiting}

prepared :
    (t : ℕ) (s : Sched)
    → let m = set_ready t (cancel_timeout t s) in
      (m.queue ≡ s.queue)
      × ((m.tcb t).phase ≡ (s.tcb t).phase)
      × ((x : ℕ) → (m.tcb x).priority_level ≡ (s.tcb x).priority_level)
unfolding set_ready cancel_timeout
prepared t s = elim (Bool-cases ((s.tcb t).wakeup_time == no_timeout)) [
  | inl e ↦ rw (e, cancel_timeout) (refl, ground (arith, ==_refl t), (λ x. ground arith))
  | inr e ↦ rw (e, cancel_timeout) (refl, ground (arith, ==_refl t), (λ x. ground arith))
]

abbrev Added : (t : ℕ) → (joins : Bool) → (s r : Sched) → Type 0
Added t joins s r =
    ((x : ℕ)
      → count x (waiting queues 0 r.queue)
        ≡ count x (waiting queues 0 s.queue) + (if joins then if t == x then 1 else 0 else 0))
    × ((x : ℕ) → (r.tcb x).priority_level < queues)

make_ready-Added :
    (t : ℕ) (s : Sched)
    → ((x : ℕ) → (s.tcb x).priority_level < queues)
    → Added t (is_clean (s.tcb t).phase) s (make_ready t s)
unfolding make_ready
make_ready-Added t s levels =
    let m = set_ready t (cancel_timeout t s) in
    let (queue, phase, level) = prepared t s in
    let low : (x : ℕ) → (m.tcb x).priority_level < queues = λ x. omega (arith, level x, levels x) in
    let clean = ap is_clean phase in
    let add = sched_queue_add-waiting t m low in
    let same = ap (waiting queues 0) queue in
    elim (Bool-cases (is_clean (s.tcb t).phase)) [
      | inl e ↦
          subst (Added t (is_clean (s.tcb t).phase) s)
            (sym (ap (λ b. if b then sched_queue_add t m else m) (clean ∙ e)))
            ((λ x. ground (arith, add.0 x, ap (count x) same, e)), add.1)
      | inr e ↦
          subst (Added t (is_clean (s.tcb t).phase) s)
            (sym (ap (λ b. if b then sched_queue_add t m else m) (clean ∙ e)))
            ((λ x. ground (arith, ap (count x) same, e)), low)
    ]

blocked_not_ready : (st : ThreadState) → is_blocked st ≡ true → is_ready st ≡ false
blocked_not_ready ThreadState.init h = refl
blocked_not_ready ThreadState.stopped h = refl
blocked_not_ready ThreadState.ready h = sym h
blocked_not_ready ThreadState.running h = refl
blocked_not_ready ThreadState.exited h = refl

made_ready-IsQueued :
    (busy : ℕ → Bool) (t : ℕ) (s : Sched)
    → is_blocked (s.tcb t).state ≡ true
    → is_normal (s.tcb t).type ≡ true
    → (is_clean (s.tcb t).phase ≡ true → busy t ≡ false)
    → IsQueued busy s
    → IsQueued busy (make_ready t s)
made_ready-IsQueued busy t s blocked normal free q =
    let r = make_ready t s in
    let (added, levels) = make_ready-Added t s q.levels in
    record {
      once = λ x.
          let p = make_ready_lem t s x in
          let state = ap is_ready p.2 in
          let type = ap is_normal p.3 in
          let phase = ap is_clean p.4 in
          elim (Bool-cases (x == t)) [
            | inl here ↦
                let at_t = (==_iff x t).0 here in
                let normal_x = ap (λ y. is_normal (s.tcb y).type) at_t ∙ normal in
                let idle_x =
                  ap (λ y. is_ready (s.tcb y).state) at_t
                  ∙ blocked_not_ready (s.tcb t).state blocked in
                let clean_x = ap (λ y. is_clean (s.tcb y).phase) at_t in
                let busy_x = ap busy at_t in
                let ready_x : is_ready (r.tcb x).state ≡ true = ground (arith, state, here) in
                ground (
                  arith,
                  added x,
                  q.once x,
                  normal_x,
                  idle_x,
                  clean_x,
                  busy_x,
                  free,
                  ready_x,
                  type,
                  phase,
                  at_t,
                )
            | inr other ↦
                let same : is_ready (r.tcb x).state ≡ is_ready (s.tcb x).state =
                  ground (arith, state, other) in
                ground (arith, added x, q.once x, same, type, phase, other)
          ];
      levels = levels;
    }

wakeup-IsQueued :
    (busy : ℕ → Bool) (t : ℕ) (s : Sched)
    → is_normal (s.tcb t).type ≡ true
    → (is_clean (s.tcb t).phase ≡ true → busy t ≡ false)
    → IsQueued busy s
    → IsQueued busy (wakeup t s).1
unfolding wakeup
wakeup-IsQueued busy t s normal free q =
    let pick : Bool → Bool × Sched = λ b. if b then (true, make_ready t s) else (false, s) in
    elim (Bool-cases (is_blocked (s.tcb t).state)) [
      | inr e ↦ subst (λ b. IsQueued busy (pick b).1) (sym e) q
      | inl e ↦
          subst (λ b. IsQueued busy (pick b).1) (sym e)
            (made_ready-IsQueued busy t s e normal free q)
    ]

select_from-same :
    (core current level : ℕ) (ts : List ℕ) (s : Sched) (x : ℕ)
    → let (next, found, r) = select_from core current level ts s in
      (is_waiting (r.tcb x) ≡ is_waiting (s.tcb x))
      × ((r.tcb x).priority_level ≡ (s.tcb x).priority_level)
      × (found ≡ false → r.queue ≡ s.queue)
unfolding select_from
select_from-same core current level [] s x = (ground arith, ground arith, (λ h. refl))
select_from-same core current level (t ∷ ts) s x =
    (ground arith, ground arith, (λ h. absurd (ground (arith, h))))

selected-IsQueued :
    (busy : ℕ → Bool) (next : ℕ) (found : Bool) (s r : Sched)
    → waiting queues 0 s.queue ≡ (if found then next ∷ waiting queues 0 r.queue else [])
    → ((x : ℕ)
        → (is_waiting (r.tcb x) ≡ is_waiting (s.tcb x))
          × ((r.tcb x).priority_level ≡ (s.tcb x).priority_level)
          × (found ≡ false → r.queue ≡ s.queue))
    → IsQueued busy s
    → IsQueued (λ x. busy x || (x == next)) r
selected-IsQueued busy next true s r e same q = record {
  once = λ x. ground (arith, ap (count x) e, (same x).0, q.once x);
  levels = λ x. omega (arith, (same x).1, q.levels x);
}
selected-IsQueued busy next false s r e same q = record {
  once = λ x.
      let none_left = ap (λ f. count x (waiting queues 0 f)) ((same x).2 refl) in
      ground (arith, ap (count x) e, none_left, (same x).0, q.once x);
  levels = λ x. omega (arith, (same x).1, q.levels x);
}

sched_queue_select-IsQueued :
    (busy : ℕ → Bool) (core current : ℕ) (s : Sched)
    → IsQueued busy s
    → let c = sched_queue_select core current s in IsQueued (λ x. busy x || (x == c.0)) c.2
unfolding sched_queue_select
sched_queue_select-IsQueued busy core current s q =
    let level = select_level (queues - 1) 0 s.queue in
    let c = sched_queue_select core current s in
    selected-IsQueued busy c.0 c.1 s c.2
      (Chosen-waiting core current s c (sched_queue_select-Chosen core current s))
      (select_from-same core current level (s.queue level) s) q

abbrev OnSome : {A : Type 0} → (A → Type 0) → Option A → Type 0
OnSome P none = Unit
OnSome P (some a) = P a

-- `dispose` of a thread in the given state.
abbrev disposed : (prev : ℕ) → (normal : Bool) → Sched → ThreadState → Option Sched
disposed prev normal s ThreadState.ready = some (if normal then sched_queue_add prev s else s)
disposed prev normal s ThreadState.exited = some (release_tcb prev s)
disposed prev normal s ThreadState.stopped = some s
disposed prev normal s ThreadState.init = none
disposed prev normal s ThreadState.running = none

abbrev cleaned : (prev : ℕ) → Sched → Sched
cleaned prev s =
    let c = s.tcb prev in
    record s { tcb = update s.tcb prev (record c { phase = ThreadPhase.ctx_clean }) }

-- The thread that gets a clean context, and how often it has to be in the queues then.
cleaned-once :
    (busy : ℕ → Bool) (prev : ℕ) (s : Sched) (x : ℕ)
    → is_clean (s.tcb prev).phase ≡ false
    → busy prev ≡ false
    → IsQueued busy s
    → (if is_waiting ((cleaned prev s).tcb x) && not (busy x) then 1 else 0)
      ≡ count x (waiting queues 0 s.queue)
        + (if prev == x
            then if is_normal (s.tcb prev).type && is_ready (s.tcb prev).state then 1 else 0
            else 0)
cleaned-once busy prev s x dirty idle q = elim (Bool-cases (x == prev)) [
  | inl here ↦
      let at_prev = (==_iff x prev).0 here in
      let dirty_x = ap (λ y. is_clean (s.tcb y).phase) at_prev ∙ dirty in
      let idle_x = ap busy at_prev ∙ idle in
      ground (arith, q.once x, dirty_x, idle_x, at_prev, here)
  | inr other ↦ ground (arith, q.once x, other)
]

disposed-IsQueued :
    (busy : ℕ → Bool) (prev : ℕ) (s : Sched) (st : ThreadState)
    → (s.tcb prev).state ≡ st
    → is_clean (s.tcb prev).phase ≡ false
    → busy prev ≡ false
    → IsQueued busy s
    → OnSome (IsQueued busy) (disposed prev (is_normal (s.tcb prev).type) (cleaned prev s) st)
unfolding release_tcb
disposed-IsQueued busy prev s ThreadState.init e dirty idle q = tt
disposed-IsQueued busy prev s ThreadState.running e dirty idle q = tt
disposed-IsQueued busy prev s ThreadState.stopped e dirty idle q = record {
  once = λ x. ground (arith, cleaned-once busy prev s x dirty idle q, ap is_ready e);
  levels = λ x. ground (arith, q.levels x);
}
disposed-IsQueued busy prev s ThreadState.exited e dirty idle q = record {
  once = λ x. ground (arith, cleaned-once busy prev s x dirty idle q, ap is_ready e);
  levels = λ x. ground (arith, q.levels x);
}
disposed-IsQueued busy prev s ThreadState.ready e dirty idle q =
    let u = cleaned prev s in
    let levels : (x : ℕ) → (u.tcb x).priority_level < queues = λ x. ground (arith, q.levels x) in
    let added = sched_queue_add-waiting prev u levels in
    let keeps = sched_queue_add-Keeps prev u in
    elim (Bool-cases (is_normal (s.tcb prev).type)) [
      | inl normal ↦
          subst (λ b. IsQueued busy (if b then sched_queue_add prev u else u)) (sym normal)
            (record {
              once = λ x. ground (
                arith,
                cleaned-once busy prev s x dirty idle q,
                added.0 x,
                normal,
                ap is_ready e,
                ap is_normal (keeps x).type,
                ap is_ready (keeps x).state,
                ap is_clean (keeps x).phase,
              );
              levels = added.1;
            })
      | inr idle_type ↦
          subst (λ b. IsQueued busy (if b then sched_queue_add prev u else u)) (sym idle_type)
            (record {
              once = λ x. ground (arith, cleaned-once busy prev s x dirty idle q, idle_type);
              levels = levels;
            })
    ]

dispose-IsQueued :
    (busy : ℕ → Bool) (prev : ℕ) (s : Sched)
    → is_clean (s.tcb prev).phase ≡ false
    → busy prev ≡ false
    → IsQueued busy s
    → OnSome (IsQueued busy) (dispose prev s)
unfolding dispose
dispose-IsQueued busy prev s dirty idle q =
    disposed-IsQueued busy prev s (s.tcb prev).state refl dirty idle q

-- If the queues hold each thread that is normal, ready, with a clean context, and not taken by a core, once, and
-- no other thread, then they still do so: after the wakeup of a normal thread that no core has taken if its
-- context is clean; after a selection, with the thread that it takes; and after `gain` has cleaned the context
-- of a thread that no core has taken, whose context was not clean. No boost loses a thread.
pub wakeup-sched_queue_select-dispose :
    (busy : ℕ → Bool) (t core current prev : ℕ) (s : Sched)
    → is_normal (s.tcb t).type ≡ true
    → (is_clean (s.tcb t).phase ≡ true → busy t ≡ false)
    → is_clean (s.tcb prev).phase ≡ false
    → busy prev ≡ false
    → IsQueued busy s
    → let (next, found, r) = sched_queue_select core current s in
      IsQueued busy (wakeup t s).1
      × IsQueued (λ x. busy x || (x == next)) r
      × ((u : Sched) → dispose prev s ≡ some u → IsQueued busy u)
wakeup-sched_queue_select-dispose busy t core current prev s normal free dirty idle q = (
  wakeup-IsQueued busy t s normal free q,
  sched_queue_select-IsQueued busy core current s q,
  (λ u e. subst (OnSome (IsQueued busy)) e (dispose-IsQueued busy prev s dirty idle q)),
)
