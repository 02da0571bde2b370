-- ===== src/Sched/Timeout.antt =====
-- The timeout list: `sched_register_timeout`, `sched_make_ready` and
-- `sched_wakeup_expired_timeouts`.
use tinyos.Base.{
  ℕ, zero, suc, ◌+◌, ◌%◌, ◌^◌, ◌≤◌, ◌<◌, ◌≡◌, ◌≢◌, List, [], ◌∷◌, ◌++◌, arith, refl, ◌==◌,
  if◌then◌else◌, update, ap, count, count-append, ◌∙◌, ltb, remove, length, Bool-cases, inl, inr,
  false, true, Bool, Option, none, some, subst, sym,
}
use tinyos.Sched.{
  Sched, Tcb, ready, no_timeout, insert_timeout, sched_register_timeout, cancel_timeout, set_ready,
  make_ready, can_make_ready, sched_make_ready, is_blocked, stopped, wakeup, wakeup_expired,
  sched_wakeup_expired_timeouts,
}
use tinyos.Sched.Boost.{sched_queue_add-Keeps, sched_queue_add-rest}

-- No thread of the list has a wakeup time before `b`.
abbrev pub From : (ℕ → Tcb) → ℕ → List ℕ → Type 0
From tcb b [] = Unit
From tcb b (t ∷ ts) = (b ≤ (tcb t).wakeup_time) × From tcb b ts

abbrev pub IsSorted : (ℕ → Tcb) → List ℕ → Type 0
IsSorted tcb [] = Unit
IsSorted tcb (t ∷ ts) = From tcb (tcb t).wakeup_time ts × IsSorted tcb ts

From-le : (tcb : ℕ → Tcb) (a b : ℕ) (ts : List ℕ) → a ≤ b → From tcb b ts → From tcb a ts
From-le tcb a b [] h f = tt
From-le tcb a b (t ∷ ts) h f = (omega arith, From-le tcb a b ts h f.1)

-- Only the times of the listed threads matter.
From-same :
    (tcb tcb' : ℕ → Tcb) (b : ℕ) (ts : List ℕ)
    → ((u : ℕ) → 0 < count u ts → (tcb' u).wakeup_time ≡ (tcb u).wakeup_time)
    → From tcb b ts
    → From tcb' b ts
From-same tcb tcb' b [] e f = tt
From-same tcb tcb' b (t ∷ ts) e f =
    (ground (arith, e t), From-same tcb tcb' b ts (λ u h. e u (omega arith)) f.1)

pub IsSorted-same :
    (tcb tcb' : ℕ → Tcb) (ts : List ℕ)
    → ((u : ℕ) → 0 < count u ts → (tcb' u).wakeup_time ≡ (tcb u).wakeup_time)
    → IsSorted tcb ts
    → IsSorted tcb' ts
IsSorted-same tcb tcb' [] e f = tt
IsSorted-same tcb tcb' (t ∷ ts) e f = (
  rw (e t (ground arith)) (From-same tcb tcb' _ ts (λ u h. e u (omega arith)) f.0),
  IsSorted-same tcb tcb' ts (λ u h. e u (omega arith)) f.1,
)

From-remove : (tcb : ℕ → Tcb) (b t : ℕ) (ts : List ℕ) → From tcb b ts → From tcb b (remove t ts)
From-remove tcb b t [] f = tt
From-remove tcb b t (u ∷ ts) f = elim (Bool-cases (u == t)) [
  | inl e ↦ rw e f.1
  | inr e ↦ rw e (f.0, From-remove tcb b t ts f.1)
]

pub IsSorted-remove :
    (tcb : ℕ → Tcb) (t : ℕ) (ts : List ℕ) → IsSorted tcb ts → IsSorted tcb (remove t ts)
IsSorted-remove tcb t [] o = tt
IsSorted-remove tcb t (u ∷ ts) o = elim (Bool-cases (u == t)) [
  | inl e ↦ rw e o.1
  | inr e ↦ rw e (From-remove tcb (tcb u).wakeup_time t ts o.0, IsSorted-remove tcb t ts o.1)
]

module _ (tcb : ℕ → Tcb) (t time : ℕ) where
  From-insert_timeout :
      (b : ℕ) (ts : List ℕ)
      → b ≤ time
      → (tcb t).wakeup_time ≡ time
      → From tcb b ts
      → From tcb b (insert_timeout tcb t time ts)
  unfolding insert_timeout
  From-insert_timeout b [] h e f = (omega arith, tt)
  From-insert_timeout b (u ∷ ts) h e f = elim (Bool-cases (ltb time (tcb u).wakeup_time)) [
    | inl p ↦ rw p (omega arith, f)
    | inr p ↦ rw p (f.0, From-insert_timeout b ts h e f.1)
  ]

  IsSorted-insert_timeout :
      (ts : List ℕ)
      → (tcb t).wakeup_time ≡ time
      → IsSorted tcb ts
      → IsSorted tcb (insert_timeout tcb t time ts)
  unfolding insert_timeout
  IsSorted-insert_timeout [] e f = (tt, tt)
  IsSorted-insert_timeout (u ∷ ts) e f = elim (Bool-cases (ltb time (tcb u).wakeup_time)) [
    | inl p ↦ rw p ((ground arith, From-le tcb _ (tcb u).wakeup_time ts (ground arith) f.0), f)
    | inr p ↦ rw p (
      From-insert_timeout (tcb u).wakeup_time ts (ground arith) e f.0,
      IsSorted-insert_timeout ts e f.1,
    )
  ]

  count-insert_timeout :
      (u : ℕ) (ts : List ℕ)
      → count u (insert_timeout tcb t time ts) ≡ count u ts + (if t == u then 1 else 0)
  unfolding insert_timeout
  count-insert_timeout u [] = ground arith
  count-insert_timeout u (v ∷ ts) = ground (arith, count-insert_timeout u ts)

-- The walk reads the times of the listed threads only.
insert_timeout-same :
    (tcb tcb' : ℕ → Tcb) (t time : ℕ) (ts : List ℕ)
    → ((u : ℕ) → 0 < count u ts → (tcb' u).wakeup_time ≡ (tcb u).wakeup_time)
    → insert_timeout tcb' t time ts ≡ insert_timeout tcb t time ts
unfolding insert_timeout
insert_timeout-same tcb tcb' t time [] e = refl
insert_timeout-same tcb tcb' t time (u ∷ ts) e =
    ground (arith, e u, insert_timeout-same tcb tcb' t time ts (λ v h. e v (omega arith)))

-- Registering a timeout keeps the list in the order of its wakeup times, and adds the thread once. The time is
-- the clock's plus the timeout, modulo 2 ^ 64.
pub sched_register_timeout-IsSorted :
    (now t timeout : ℕ) (s : Sched)
    → count t s.timeout_list ≡ 0
    → timeout ≢ no_timeout
    → IsSorted s.tcb s.timeout_list
    → let r = sched_register_timeout now t timeout s in
      IsSorted r.tcb r.timeout_list
      × ((r.tcb t).wakeup_time ≡ (now + timeout) % 2 ^ 64)
      × ((u : ℕ) → count u r.timeout_list ≡ count u s.timeout_list + (if t == u then 1 else 0))
unfolding sched_register_timeout
sched_register_timeout-IsSorted now t timeout s fresh timed sorted = rw off (
  rw (← insert_timeout-same s.tcb tcb' t time s.timeout_list same) (
      IsSorted-insert_timeout tcb' t time s.timeout_list (ground arith)
        (IsSorted-same s.tcb tcb' s.timeout_list same sorted)),
  ground arith,
  λ u. count-insert_timeout s.tcb t time u s.timeout_list,
)
  where
    time : ℕ
    time = (now + timeout) % 2 ^ 64

    c : Tcb
    c = s.tcb t

    tcb' : ℕ → Tcb
    tcb' = update s.tcb t (record c { wakeup_time = time })

    off : (timeout == no_timeout) ≡ false
    off = ground arith

    same : (u : ℕ) → 0 < count u s.timeout_list → (tcb' u).wakeup_time ≡ (s.tcb u).wakeup_time
    same u h = ground arith

-- What `sched_make_ready` does to the timeout list and to each thread.
pub make_ready_lem :
    (t : ℕ) (s : Sched) (u : ℕ)
    → let r = make_ready t s in
      (r.timeout_list
        ≡ (if (s.tcb t).wakeup_time == no_timeout then s.timeout_list else remove t s.timeout_list))
      × ((r.tcb u).wakeup_time ≡ (if u == t then no_timeout else (s.tcb u).wakeup_time))
      × ((r.tcb u).state ≡ (if u == t then ready else (s.tcb u).state))
      × ((r.tcb u).type ≡ (s.tcb u).type)
      × ((r.tcb u).phase ≡ (s.tcb u).phase)
      × ((r.tcb u).owner_pcb ≡ (s.tcb u).owner_pcb)
unfolding make_ready set_ready cancel_timeout
make_ready_lem t s u =
    let m = set_ready t (cancel_timeout t s) in
    let k = sched_queue_add-Keeps t m u in
    ground (arith, sched_queue_add-rest t m, k.owner, k.type, k.state, k.phase, k.wakeup)

-- What a scan at the time `now` comes to: the expired threads are a front part of the list, they are made
-- ready and lose their timeouts, all other threads keep theirs and their states, and what is left
-- is later than `now`.
pub record Woken (now : ℕ) (s r : Sched) (woken : List ℕ) : Type 0 where
  pub split : s.timeout_list ≡ woken ++ r.timeout_list
  pub later : From r.tcb (now + 1) r.timeout_list
  pub readied :
      (u : ℕ)
      → 0 < count u woken
      → ((s.tcb u).wakeup_time ≤ now)
        × ((r.tcb u).state ≡ ready)
        × ((r.tcb u).wakeup_time ≡ no_timeout)
  pub others :
      (u : ℕ)
      → count u woken ≡ 0
      → ((r.tcb u).state ≡ (s.tcb u).state) × ((r.tcb u).wakeup_time ≡ (s.tcb u).wakeup_time)

none-Woken : (now : ℕ) (s : Sched) → From s.tcb (now + 1) s.timeout_list → Woken now s s []
none-Woken now s f = record {
  split = refl;
  later = f;
  readied = λ u h. absurd (omega arith);
  others = λ u h. (refl, refl);
}

remove_head : (t : ℕ) (ts : List ℕ) → remove t (t ∷ ts) ≡ ts
remove_head t ts = ground arith

pub wakeup_expired-nil :
    (fuel now : ℕ) (s : Sched) → s.timeout_list ≡ [] → wakeup_expired (suc fuel) now s ≡ some s
unfolding wakeup_expired
wakeup_expired-nil fuel now s e = ground arith

-- The assertions hold for the thread in front, if it is stopped.
sched_make_ready-some :
    (t : ℕ) (s : Sched)
    → (s.tcb t).state ≡ stopped
    → 0 < count t s.timeout_list
    → sched_make_ready t s ≡ some (make_ready t s)
unfolding sched_make_ready can_make_ready
sched_make_ready-some t s e h =
    let holds : can_make_ready t s ≡ true = ground (arith, e, h) in
    ap (λ b. if b then some (make_ready t s) else none) holds

pub wakeup_expired-cons :
    (fuel now t : ℕ) (ts : List ℕ) (s : Sched)
    → s.timeout_list ≡ t ∷ ts
    → (s.tcb t).state ≡ stopped
    → wakeup_expired (suc fuel) now s
      ≡ (if ltb now (s.tcb t).wakeup_time then some s else wakeup_expired fuel now (make_ready t s))
unfolding wakeup_expired
wakeup_expired-cons fuel now t ts s e h =
    let readied = sched_make_ready-some t s h (ground (arith, e)) in
    ap scan e ∙ ap (λ o. if ltb now (s.tcb t).wakeup_time then some s else after o) readied
  where
    after : Option Sched → Option Sched
    after none = none
    after (some r) = wakeup_expired fuel now r

    scan : List ℕ → Option Sched
    scan [] = some s
    scan (u ∷ us) = if ltb now (s.tcb u).wakeup_time then some s else after (sched_make_ready u s)

-- One expired thread in front of what a scan wakes.
Woken-cons :
    (now t : ℕ) (ts : List ℕ) (s r : Sched) (woken : List ℕ)
    → s.timeout_list ≡ t ∷ ts
    → (s.tcb t).wakeup_time ≤ now
    → now < no_timeout
    → count t ts ≡ 0
    → Woken now (make_ready t s) r woken
    → Woken now s r (t ∷ woken)
Woken-cons now t ts s r woken e p n d w =
    let m = make_ready_lem t s in
    let rest : (make_ready t s).timeout_list ≡ ts = ground (arith, m t, remove_head t ts) in
    let front : ts ≡ woken ++ r.timeout_list = sym rest ∙ w.split in
    record {
      split = e ∙ ap (λ l. t ∷ l) front;
      later = w.later;
      readied = λ u h. ground (
        arith,
        m u,
        w.readied u,
        w.others u,
        ap (count u) front,
        count-append u woken r.timeout_list,
      );
      others = λ u h. ground (arith, m u, w.others u);
    }

make_ready_others :
    (t u : ℕ) (s : Sched) → u ≢ t → ((make_ready t s).tcb u).wakeup_time ≡ (s.tcb u).wakeup_time
make_ready_others t u s ne = ground (arith, (make_ready_lem t s u).1)

not_in : (t u : ℕ) (ts : List ℕ) → count t ts ≡ 0 → 0 < count u ts → u ≢ t
not_in t u ts e h p = absurd (omega (arith, ap (λ v. count v ts) p))

-- A scan that ends.
abbrev pub Scans : (now : ℕ) → Sched → Option Sched → Type 0
Scans now s o = (r : Sched) × (o ≡ some r) × (woken : List ℕ) × Woken now s r woken

wakeup_expired-Scans :
    (fuel now : ℕ) (ts : List ℕ) (s : Sched)
    → s.timeout_list ≡ ts
    → length ts < fuel
    → now < no_timeout
    → IsSorted s.tcb ts
    → ((u : ℕ) → count u ts ≤ 1)
    → ((u : ℕ) → 0 < count u ts → (s.tcb u).state ≡ stopped)
    → Scans now s (wakeup_expired fuel now s)
wakeup_expired-Scans zero now ts s e f n o d h = absurd (omega arith)
wakeup_expired-Scans (suc fuel) now [] s e f n o d h = (
  s,
  wakeup_expired-nil fuel now s e,
  [],
  none-Woken now s (subst (From s.tcb (now + 1)) (sym e) tt),
)
wakeup_expired-Scans (suc fuel) now (t ∷ ts) s e f n o d h =
    let round = wakeup_expired-cons fuel now t ts s e (h t (ground arith)) in
    elim (Bool-cases (ltb now (s.tcb t).wakeup_time)) [
      | inl p ↦ (
        s,
        rw p at round,
        [],
        none-Woken now s (
            subst (From s.tcb (now + 1)) (sym e)
              (ground arith, From-le s.tcb (now + 1) (s.tcb t).wakeup_time ts (ground arith) o.0)),
      )
      | inr p ↦
          let m = make_ready_lem t s in
          let gone : count t ts ≡ 0 = ground (arith, d t) in
          let rest : (make_ready t s).timeout_list ≡ ts = ground (arith, m t, remove_head t ts) in
          let (r, ends, woken, w) =
            wakeup_expired-Scans fuel now ts (make_ready t s) rest (omega arith) n
              (IsSorted-same s.tcb (make_ready t s).tcb ts
                (λ u h. make_ready_others t u s (not_in t u ts gone h)) o.1)
              (λ u. omega (arith, d u))
              (λ u k. ground (arith, (m u).2, h u, not_in t u ts gone k)) in
          (
            r,
            (rw p at round) ∙ ends,
            t ∷ woken,
            Woken-cons now t ts s r woken e (ground arith) n gone w,
          )
    ]

-- On a list in order that names no thread twice and only threads that are stopped, the scan ends with no failed
-- assertion, and wakes exactly the threads whose wakeup time has come.
pub sched_wakeup_expired_timeouts-Woken :
    (now : ℕ) (s : Sched)
    → now < no_timeout
    → IsSorted s.tcb s.timeout_list
    → ((u : ℕ) → count u s.timeout_list ≤ 1)
    → ((u : ℕ) → 0 < count u s.timeout_list → (s.tcb u).state ≡ stopped)
    → Scans now s (sched_wakeup_expired_timeouts now s)
unfolding sched_wakeup_expired_timeouts
sched_wakeup_expired_timeouts-Woken now s n o d h =
    wakeup_expired-Scans (length s.timeout_list + 1) now s.timeout_list s refl (omega arith) n o d h

-- `wakeup` does what `sched_make_ready` does, and no assertion of that fails, if a thread with a timeout is stopped
-- and in the timeout list.
pub wakeup-sched_make_ready :
    (t : ℕ) (s : Sched)
    → is_blocked (s.tcb t).state ≡ true
    → ((s.tcb t).wakeup_time ≢ no_timeout
        → ((s.tcb t).state ≡ stopped) × (0 < count t s.timeout_list))
    → sched_make_ready t s ≡ some (wakeup t s).1
unfolding sched_make_ready can_make_ready wakeup
wakeup-sched_make_ready t s b h =
    let woken : Bool → Bool × Sched = λ x. if x then (true, make_ready t s) else (false, s) in
    elim (Bool-cases ((s.tcb t).wakeup_time == no_timeout)) [
      | inl e ↦
          let holds : can_make_ready t s ≡ true = ground (arith, b, e) in
          ap (λ x. if x then some (make_ready t s) else none) holds
          ∙ ap (λ x. some (woken x).1) (sym b)
      | inr e ↦
          let timed = h (λ same. ground (arith, same, e)) in
          let holds : can_make_ready t s ≡ true = ground (arith, b, timed) in
          ap (λ x. if x then some (make_ready t s) else none) holds
          ∙ ap (λ x. some (woken x).1) (sym b)
    ]
