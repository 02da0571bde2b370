-- ===== src/Sched/Timed.antt =====
-- What the timeout list is, through sleeps, wakeups and scans.
use tinyos.Base.{
  ℕ, zero, suc, ◌+◌, ◌%◌, ◌^◌, ◌<◌, ◌≡◌, ◌≢◌, List, [], ◌∷◌, arith, refl, ◌==◌, if◌then◌else◌,
  update, ap, count, count-remove, ◌∙◌, ltb, remove, length, Bool-cases, inl, inr, true, false,
  some, subst, sym,
}
use tinyos.Sched.{
  Sched, running, no_timeout, sched_register_timeout, make_ready, sched_make_ready, is_blocked,
  stopped, wakeup, sleep_releasing, wakeup_expired, sched_wakeup_expired_timeouts,
}
use tinyos.Sched.Timeout.{
  IsSorted, IsSorted-same, IsSorted-remove, sched_register_timeout-IsSorted, make_ready_lem,
  wakeup_expired-nil, wakeup_expired-cons, wakeup-sched_make_ready,
}

-- The threads with a timeout, and no others, are in the list, each once, in the order of their times, and are
-- stopped.
pub record IsTimed (s : Sched) : Type 0 where
  pub sorted : IsSorted s.tcb s.timeout_list
  pub once :
      (u : ℕ) → count u s.timeout_list ≡ (if (s.tcb u).wakeup_time == no_timeout then 0 else 1)
  pub sleeping : (u : ℕ) → 0 < count u s.timeout_list → (s.tcb u).state ≡ stopped

remove-absent : (t : ℕ) (ts : List ℕ) → count t ts ≡ 0 → remove t ts ≡ ts
remove-absent t [] h = refl
remove-absent t (u ∷ ts) h = ground (arith, remove-absent t ts)

-- A thread that is made ready leaves the list.
make_ready-list :
    (t : ℕ) (s : Sched) → IsTimed s → (make_ready t s).timeout_list ≡ remove t s.timeout_list
make_ready-list t s v =
    ground (arith, (make_ready_lem t s t).0, v.once t, remove-absent t s.timeout_list)

count-make_ready :
    (t u : ℕ) (s : Sched)
    → IsTimed s
    → count u (make_ready t s).timeout_list ≡ (if u == t then 0 else count u s.timeout_list)
count-make_ready t u s v =
    ap (count u) (make_ready-list t s v)
    ∙ ground (arith, count-remove t u s.timeout_list, v.once u, v.once t)

pub make_ready-IsTimed : (t : ℕ) (s : Sched) → IsTimed s → IsTimed (make_ready t s)
make_ready-IsTimed t s v =
    let r = make_ready t s in
    record {
      sorted = subst (IsSorted r.tcb) (sym (make_ready-list t s v)) (
          IsSorted-same s.tcb r.tcb (remove t s.timeout_list)
            (λ u h. ground (
              arith,
              (make_ready_lem t s u).1,
              ap (count u) (make_ready-list t s v),
              count-make_ready t u s v,
              h,
            ))
            (IsSorted-remove s.tcb t s.timeout_list v.sorted));
      once = λ u. ground (arith, count-make_ready t u s v, (make_ready_lem t s u).1, v.once u);
      sleeping = λ u h.
          ground (arith, count-make_ready t u s v, (make_ready_lem t s u).2, v.sleeping u, h);
    }

wakeup-IsTimed : (t : ℕ) (s : Sched) → IsTimed s → IsTimed (wakeup t s).1
unfolding wakeup
wakeup-IsTimed t s v = elim (Bool-cases (is_blocked (s.tcb t).state)) [
  | inl e ↦ rw e (make_ready-IsTimed t s v)
  | inr e ↦ rw e v
]

wakeup_expired-IsTimed :
    (fuel now : ℕ) (ts : List ℕ) (s : Sched)
    → s.timeout_list ≡ ts
    → length ts < fuel
    → IsTimed s
    → (r : Sched) × (wakeup_expired fuel now s ≡ some r) × IsTimed r
wakeup_expired-IsTimed zero now ts s e f v = absurd (omega arith)
wakeup_expired-IsTimed (suc fuel) now [] s e f v = (s, wakeup_expired-nil fuel now s e, v)
wakeup_expired-IsTimed (suc fuel) now (t ∷ ts) s e f v =
    let round = wakeup_expired-cons fuel now t ts s e (v.sleeping t (ground (arith, e))) in
    elim (Bool-cases (ltb now (s.tcb t).wakeup_time)) [
      | inl p ↦ (s, rw p at round, v)
      | inr p ↦
          let gone : count t ts ≡ 0 = ground (arith, v.once t, ap (count t) e) in
          let rest : (make_ready t s).timeout_list ≡ ts =
            make_ready-list t s v ∙ (ap (remove t) e ∙ ground arith) in
          let (r, ends, after) =
            wakeup_expired-IsTimed fuel now ts (make_ready t s) rest (omega arith)
              (make_ready-IsTimed t s v) in
          (r, (rw p at round) ∙ ends, after)
    ]

-- The current thread as it goes to sleep.
abbrev slept : (t : ℕ) → Sched → Sched
slept t s = let c = s.tcb t in record s { tcb = update s.tcb t (record c { state = stopped }) }

slept-IsTimed : (t : ℕ) (s : Sched) → IsTimed s → IsTimed (slept t s)
slept-IsTimed t s v = record {
  sorted = IsSorted-same s.tcb (slept t s).tcb s.timeout_list (λ u h. ground arith) v.sorted;
  once = λ u. ground (arith, v.once u);
  sleeping = λ u h. ground (arith, v.sleeping u, h);
}

-- What registering a timeout does to each thread.
register-tcb :
    (now t timeout : ℕ) (s : Sched) (u : ℕ)
    → (timeout == no_timeout) ≡ false
    → let r = sched_register_timeout now t timeout s in
      ((r.tcb u).state ≡ (s.tcb u).state)
      × ((r.tcb u).wakeup_time
          ≡ (if u == t then (now + timeout) % 2 ^ 64 else (s.tcb u).wakeup_time))
unfolding sched_register_timeout
register-tcb now t timeout s u e = rw (e, sched_register_timeout) (ground arith)

sched_register_timeout-off :
    (now t timeout : ℕ) (s : Sched)
    → (timeout == no_timeout) ≡ true
    → sched_register_timeout now t timeout s ≡ s
unfolding sched_register_timeout
sched_register_timeout-off now t timeout s e = rw (e, sched_register_timeout) refl

sched_register_timeout-IsTimed :
    (now t timeout : ℕ) (s : Sched)
    → (s.tcb t).state ≡ stopped
    → count t s.timeout_list ≡ 0
    → (now + timeout) % 2 ^ 64 ≢ no_timeout
    → IsTimed s
    → IsTimed (sched_register_timeout now t timeout s)
sched_register_timeout-IsTimed now t timeout s e fresh early v =
    elim (Bool-cases (timeout == no_timeout)) [
      | inl off ↦ subst IsTimed (sym (sched_register_timeout-off now t timeout s off)) v
      | inr on ↦
          let (sorted, time, counts) =
            sched_register_timeout-IsSorted now t timeout s fresh (ground (arith, on)) v.sorted in
          record {
            sorted = sorted;
            once = λ u.
                ground
                  (arith, counts u, v.once u, fresh, early, (register-tcb now t timeout s u on).1);
            sleeping = λ u h.
                ground (arith, counts u, v.sleeping u, h, e, (register-tcb now t timeout s u on).0);
          }
    ]

sleep_releasing-IsTimed :
    (core now timeout : ℕ) (s : Sched)
    → (s.tcb (s.current core)).state ≡ running
    → (now + timeout) % 2 ^ 64 ≢ no_timeout
    → IsTimed s
    → IsTimed (sleep_releasing core now stopped timeout s)
unfolding sleep_releasing
sleep_releasing-IsTimed core now timeout s e early v =
    let t = s.current core in
    sched_register_timeout-IsTimed now t timeout (slept t s) (ground arith)
      (ground (arith, v.once t, v.sleeping t, e)) early (slept-IsTimed t s v)

-- If the threads with a timeout, and no others, are in the timeout list, each once, in the order of their times, and
-- are stopped, this stays so: when the running thread of a core goes to sleep, if the time of its timeout is
-- not the largest one; after a wakeup of any thread, in which no assertion fails; and after a scan at any
-- time, which ends with no failed assertion.
pub sleep_releasing-wakeup-IsTimed :
    (core now timeout t : ℕ) (s : Sched)
    → (s.tcb (s.current core)).state ≡ running
    → (now + timeout) % 2 ^ 64 ≢ no_timeout
    → IsTimed s
    → IsTimed (sleep_releasing core now stopped timeout s)
      × IsTimed (wakeup t s).1
      × (is_blocked (s.tcb t).state ≡ true → sched_make_ready t s ≡ some (wakeup t s).1)
      × ((r : Sched) × (sched_wakeup_expired_timeouts now s ≡ some r) × IsTimed r)
unfolding sched_wakeup_expired_timeouts
sleep_releasing-wakeup-IsTimed core now timeout t s e early v = (
  sleep_releasing-IsTimed core now timeout s e early v,
  wakeup-IsTimed t s v,
  (λ b. wakeup-sched_make_ready t s b (λ ne.
      let one : 0 < count t s.timeout_list = ground (arith, v.once t, ne) in
      (v.sleeping t one, one))),
  wakeup_expired-IsTimed (length s.timeout_list + 1) now s.timeout_list s refl (omega arith) v,
)
