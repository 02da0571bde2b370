-- ===== src/Sched.antt =====
-- The scheduler of kernel_sched.c and kernel_sched.h: a multilevel feedback queue, the timeout list,
-- and the context switch. A `rlnode` list is the list of its elements (Rlist models the nodes and the
-- operations of util.h). Spinlocks, the alarm timer and the machine contexts are not part of the
-- state.
pub mod Queue
pub mod Boost
pub mod Timeout
pub mod Timed
pub mod Order
pub mod Waiting
pub mod Queued
pub mod Tests
use tinyos.Base.{
  ℕ, zero, suc, ◌+◌, ◌-◌, ◌%◌, ◌^◌, List, [], ◌∷◌, ◌++◌, Bool, true, false, ◌&&◌, ◌||◌, not, Option,
  none, some, ◌==◌, ltb, leb, if◌then◌else◌, update, is_nil, remove, length, count,
}

pub data ThreadState : Type 0 where
  init ready running stopped exited : ThreadState

pub data ThreadPhase : Type 0 where
  ctx_clean ctx_dirty : ThreadPhase

pub data ThreadType : Type 0 where
  idle_thread normal_thread : ThreadType

pub data SchedCause : Type 0 where
  quantum io mutex pipe poll idle user : SchedCause

abbrev pub is_ready : ThreadState → Bool
is_ready ready = true
is_ready _ = false

abbrev pub is_running : ThreadState → Bool
is_running running = true
is_running _ = false

-- `STOPPED || INIT`, the states that a wakeup changes.
abbrev pub is_blocked : ThreadState → Bool
is_blocked stopped = true
is_blocked init = true
is_blocked _ = false

abbrev pub is_stopped : ThreadState → Bool
is_stopped stopped = true
is_stopped _ = false

abbrev pub is_exited : ThreadState → Bool
is_exited exited = true
is_exited _ = false

abbrev pub is_clean : ThreadPhase → Bool
is_clean ctx_clean = true
is_clean ctx_dirty = false

abbrev pub is_normal : ThreadType → Bool
is_normal normal_thread = true
is_normal idle_thread = false

-- `QUEUES`, `BOOST_THRESHOLD`, `QUANTUM`, `NO_TIMEOUT` (the largest TimerDuration).
abbrev pub queues : ℕ
queues = 5

abbrev pub boost_threshold : ℕ
boost_threshold = 500

abbrev pub quantum_time : ℕ
quantum_time = 10000

abbrev pub no_timeout : ℕ
no_timeout = 2 ^ 64 - 1

-- `TCB`, without the context, the function and the list node. A free TCB has no owner.
pub record Tcb : Type 0 where
  pub owner_pcb : Option ℕ
  pub type : ThreadType
  pub state : ThreadState
  pub phase : ThreadPhase
  pub wakeup_time : ℕ
  pub its : ℕ
  pub rts : ℕ
  pub curr_cause : SchedCause
  pub last_cause : SchedCause
  pub priority_level : ℕ

-- The globals of the scheduler. TCBs are named by numbers; `current`, `previous` and `idle_of` are
-- the fields of the cores' `CCB`.
pub record Sched : Type 0 where
  pub tcb : ℕ → Tcb
  pub queue : ℕ → List ℕ
  pub timeout_list : List ℕ
  pub operations : ℕ
  pub active_threads : ℕ
  pub current : ℕ → ℕ
  pub previous : ℕ → ℕ
  pub idle_of : ℕ → ℕ

abbrev pub set_tcb : ℕ → Tcb → Sched → Sched
set_tcb t c s = record s { tcb = update s.tcb t c }

-- `spawn_thread`; `t` is the block that `allocate_thread` returns.
unfoldable pub spawn_thread : (t pcb : ℕ) → Sched → Sched
spawn_thread t pcb s = record s {
  tcb = update s.tcb t (record {
    owner_pcb = some pcb;
    type = normal_thread;
    state = init;
    phase = ctx_clean;
    wakeup_time = no_timeout;
    its = quantum_time;
    rts = quantum_time;
    curr_cause = idle;
    last_cause = idle;
    priority_level = 1;
  });
  active_threads = (s.active_threads + 1) % 2 ^ 32;
}

-- `release_TCB`: the block is given back.
unfoldable pub release_tcb : ℕ → Sched → Sched
release_tcb t s =
    let c = s.tcb t in
    record s {
      tcb = update s.tcb t (record c { owner_pcb = none });
      active_threads = (s.active_threads + 2 ^ 32 - 1) % 2 ^ 32;
    }

-- The level that the tests of `sched_queue_add` choose.
unfoldable pub next_level : SchedCause → ℕ → ℕ
next_level quantum level = if level == queues - 1 then level else level + 1
next_level io level = if level == 0 then level else level - 1
next_level mutex level = if level == queues - 1 then level else queues - 1
next_level _ level = level

-- The walk that gives every thread of a queue its level.
unfoldable pub set_levels : ℕ → List ℕ → (ℕ → Tcb) → ℕ → Tcb
set_levels i [] tcb = tcb
set_levels i (t ∷ ts) tcb =
    let c = tcb t in set_levels i ts (update tcb t (record c { priority_level = i }))

-- One round of the boost: `rlist_append` of the queue below, and the walk.
unfoldable pub boost_level : ℕ → Sched → Sched
boost_level i s =
    let merged = s.queue i ++ s.queue (i + 1) in
    record s {
      tcb = set_levels i merged s.tcb;
      queue = update (update s.queue i merged) (i + 1) [];
    }

unfoldable pub boost_from : (rounds i : ℕ) → Sched → Sched
boost_from zero i s = s
boost_from (suc n) i s = boost_from n (i + 1) (boost_level i s)

unfoldable pub boost : Sched → Sched
boost s = let b = boost_from (queues - 1) 0 s in record b { operations = 0 }

-- The part of `sched_queue_add` before the boost.
unfoldable pub enqueue : ℕ → Sched → Sched
unfolding next_level
enqueue t s =
    let c = s.tcb t in
    let level = next_level c.curr_cause c.priority_level in
    record s {
      tcb = update s.tcb t (record c { priority_level = level });
      queue = update s.queue level (s.queue level ++ (t ∷ []));
      operations = s.operations + 1;
    }

-- `sched_queue_add`
unfoldable pub sched_queue_add : ℕ → Sched → Sched
sched_queue_add t s = let q = enqueue t s in if q.operations == boost_threshold then boost q else q

-- `sched_register_timeout`: before the first entry that is later, at the bios clock `now`.
unfoldable pub insert_timeout : (ℕ → Tcb) → (t time : ℕ) → List ℕ → List ℕ
insert_timeout tcb t time [] = t ∷ []
insert_timeout tcb t time (n ∷ ns) =
    if ltb time (tcb n).wakeup_time then t ∷ n ∷ ns else n ∷ insert_timeout tcb t time ns

unfoldable pub sched_register_timeout : (now t timeout : ℕ) → Sched → Sched
sched_register_timeout now t timeout s =
    if timeout == no_timeout
    then s
    else (let c = s.tcb t in
        let time = (now + timeout) % 2 ^ 64 in
        record s {
          tcb = update s.tcb t (record c { wakeup_time = time });
          timeout_list = insert_timeout s.tcb t time s.timeout_list;
        })

-- `sched_make_ready` in its parts: the timeout, the state, and the queue.
unfoldable pub cancel_timeout : ℕ → Sched → Sched
cancel_timeout t s =
    let c = s.tcb t in
    if c.wakeup_time == no_timeout then s else record s {
      tcb = update s.tcb t (record c { wakeup_time = no_timeout });
      timeout_list = remove t s.timeout_list;
    }

unfoldable pub set_ready : ℕ → Sched → Sched
set_ready t s = let c = s.tcb t in record s { tcb = update s.tcb t (record c { state = ready }) }

unfoldable pub make_ready : ℕ → Sched → Sched
make_ready t s =
    let r = set_ready t (cancel_timeout t s) in
    if is_clean (r.tcb t).phase then sched_queue_add t r else r

-- The assertions of `sched_make_ready`: the thread is blocked, and if it has a timeout, it stands in the timeout
-- list and is stopped.
unfoldable pub can_make_ready : ℕ → Sched → Bool
can_make_ready t s =
    let c = s.tcb t in
    is_blocked c.state
    && ((c.wakeup_time == no_timeout) || (ltb 0 (count t s.timeout_list) && is_stopped c.state))

-- `sched_make_ready`; `none` is a failed assertion.
unfoldable pub sched_make_ready : ℕ → Sched → Option Sched
unfolding make_ready can_make_ready
sched_make_ready t s = if can_make_ready t s then some (make_ready t s) else none

-- The loop of `sched_wakeup_expired_timeouts`, on fuel. `none` is a failed assertion, or the end of the fuel.
unfoldable pub wakeup_expired : (fuel now : ℕ) → Sched → Option Sched
unfolding sched_make_ready
wakeup_expired zero now s = none
wakeup_expired (suc fuel) now s = elim s.timeout_list [
  | [] ↦ some s
  | t ∷ ts ↦
      let more : Option Sched = elim (sched_make_ready t s) [
        | none ↦ none
        | some r ↦ wakeup_expired fuel now r
      ] in
      if ltb now (s.tcb t).wakeup_time then some s else more
]

unfoldable pub sched_wakeup_expired_timeouts : ℕ → Sched → Option Sched
sched_wakeup_expired_timeouts now s = wakeup_expired (length s.timeout_list + 1) now s

-- The search of `sched_queue_select`: the first queue that is not empty, or else the last one.
unfoldable pub select_level : (rounds i : ℕ) → (ℕ → List ℕ) → ℕ
select_level zero i queue = i
select_level (suc n) i queue =
    let more = select_level n (i + 1) queue in if is_nil (queue i) then more else i

-- The pop of `sched_queue_select` on core `core` from the queue found, whose threads are given: its
-- head, or else the current thread if it is still ready, or the idle thread. The Boolean tells
-- whether a thread was taken from a queue.
unfoldable pub select_from : (core current level : ℕ) → List ℕ → Sched → ℕ × Bool × Sched
select_from core current level [] s =
    let next = if is_ready (s.tcb current).state then current else s.idle_of core in
    let c = s.tcb next in
    (next, false, record s { tcb = update s.tcb next (record c { its = quantum_time }) })
select_from core current level (t ∷ ts) s =
    let c = s.tcb t in
    (
      t,
      true,
      record s {
        tcb = update s.tcb t (record c { its = quantum_time });
        queue = update s.queue level ts;
      },
    )

unfoldable pub sched_queue_select : (core current : ℕ) → Sched → ℕ × Bool × Sched
sched_queue_select core current s =
    let level = select_level (queues - 1) 0 s.queue in
    select_from core current level (s.queue level) s

-- `wakeup`. Its test implies the first assertion of `sched_make_ready`; the second is not a failure here
-- (see `wakeup-sched_make_ready`).
unfoldable pub wakeup : ℕ → Sched → Bool × Sched
wakeup t s = if is_blocked (s.tcb t).state then (true, make_ready t s) else (false, s)

-- `sleep_releasing` up to its call of `yield`, for a state that its assertion admits, `stopped` or `exited`; the
-- mutex that it releases is the caller's.
unfoldable pub sleep_releasing : (core now : ℕ) → ThreadState → (timeout : ℕ) → Sched → Sched
sleep_releasing core now state timeout s =
    let t = s.current core in
    let c = s.tcb t in
    let slept = record s { tcb = update s.tcb t (record c { state = state }) } in
    if is_exited state then slept else sched_register_timeout now t timeout slept

-- The update of the current thread at the start of `yield`.
unfoldable pub end_slice : (t remaining : ℕ) → SchedCause → Sched → Sched
end_slice t remaining cause s =
    let c = s.tcb t in
    record s {
      tcb = update s.tcb t (record c {
        state = if is_running c.state then ready else c.state;
        rts = remaining;
        last_cause = c.curr_cause;
        curr_cause = cause;
      });
    }

-- `yield` up to the swap of contexts; the Boolean is that of `sched_queue_select`, and `none` is a failed
-- assertion.
unfoldable pub yield : (core now remaining : ℕ) → SchedCause → Sched → Option (Bool × Sched)
yield core now remaining cause s =
    let t = s.current core in
    elim (sched_wakeup_expired_timeouts now (end_slice t remaining cause s)) [
      | none ↦ none
      | some woken ↦
          let (next, taken, chosen) = sched_queue_select core t woken in
          some (
            taken,
            record chosen {
              previous = update chosen.previous core t;
              current = update chosen.current core next;
            },
          )
    ]

-- The first assignments of `gain`.
unfoldable pub start_slice : ℕ → Sched → Sched
start_slice t s =
    let c = s.tcb t in
    record s { tcb = update s.tcb t (record c { state = running; phase = ctx_dirty; rts = c.its }) }

-- What `gain` does with the thread that had the core before. `none` is the failed assertion.
unfoldable pub dispose : ℕ → Sched → Option Sched
dispose prev s =
    let c = s.tcb prev in
    let clean = record s { tcb = update s.tcb prev (record c { phase = ctx_clean }) } in
    elim c.state [
      | ready ↦ some (if is_normal c.type then sched_queue_add prev clean else clean)
      | exited ↦ some (release_tcb prev clean)
      | stopped ↦ some clean
      | _ ↦ none
    ]

unfoldable pub gain : ℕ → Sched → Option Sched
gain core s =
    let t = s.current core in
    let started = start_slice t s in
    if t == s.previous core then some started else dispose (s.previous core) started

-- `initialize_scheduler`
unfoldable pub initialize_scheduler : Sched → Sched
initialize_scheduler s = record s { queue = λ level. []; timeout_list = [] }

-- The initialisation of a core at the start of `run_scheduler`; process 0 owns the idle thread.
unfoldable pub run_scheduler : ℕ → Sched → Sched
run_scheduler core s =
    let i = s.idle_of core in
    let c = s.tcb i in
    record s {
      tcb = update s.tcb i (record c {
        owner_pcb = some 0;
        type = idle_thread;
        state = running;
        phase = ctx_dirty;
        wakeup_time = no_timeout;
        its = quantum_time;
        rts = quantum_time;
        curr_cause = idle;
        last_cause = idle;
      });
      current = update s.current core i;
    }
