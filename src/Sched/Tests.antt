-- ===== src/Sched/Tests.antt =====
-- Runs of the scheduler on four threads, of which the first is the idle thread.
use tinyos.Base.{
  ℕ, [], ◌∷◌, ◌≡◌, ◌<◌, arith, refl, ap, length, some, update, count, if◌then◌else◌, Bool, true,
  false, ◌||◌, ◌==◌,
}
use tinyos.Sched.{
  sched_make_ready, is_blocked, sleep_releasing, Tcb, Sched, idle_thread, normal_thread, ctx_clean,
  ctx_dirty, ready, running, stopped, idle, no_timeout, quantum_time, queues, wakeup,
  sched_queue_select, dispose, sched_wakeup_expired_timeouts,
}
use tinyos.Sched.Waiting.{IsQueued}
use tinyos.Sched.Queued.{wakeup-sched_queue_select-dispose}
use tinyos.Sched.Order.{waiting, taken, taken-waiting}
use tinyos.Sched.Timed.{IsTimed, sleep_releasing-wakeup-IsTimed}
use tinyos.Sched.Timeout.{IsSorted, sched_wakeup_expired_timeouts-Woken, Scans}

abbrev idle_tcb : Tcb
idle_tcb = record {
  owner_pcb = some 0;
  type = idle_thread;
  state = running;
  phase = ctx_dirty;
  wakeup_time = no_timeout;
  its = quantum_time;
  rts = quantum_time;
  curr_cause = idle;
  last_cause = idle;
  priority_level = 1;
}

abbrev ready_tcb : Tcb
ready_tcb = record idle_tcb { type = normal_thread; state = ready; phase = ctx_clean }

abbrev sleeping_tcb : ℕ → Tcb
sleeping_tcb time = record ready_tcb { state = stopped; wakeup_time = time }

-- Thread 1 is ready, threads 2 and 3 sleep until the times 20 and 50.
abbrev pub four : Sched
four = record {
  tcb =
      update (update (update (λ t. idle_tcb) 1 ready_tcb) 2 (sleeping_tcb 20)) 3 (sleeping_tcb 50);
  queue = update (λ l. []) 1 (1 ∷ []);
  timeout_list = 2 ∷ 3 ∷ [];
  operations = 0;
  active_threads = 3;
  current = λ c. 0;
  previous = λ c. 0;
  idle_of = λ c. 0;
}

four-IsSorted : IsSorted four.tcb four.timeout_list
four-IsSorted = ground arith

four-stopped : (u : ℕ) → 0 < count u four.timeout_list → (four.tcb u).state ≡ stopped
four-stopped u h = ground (arith, h)

sched_wakeup_expired_timeouts-Woken_example : Scans 30 four (sched_wakeup_expired_timeouts 30 four)
sched_wakeup_expired_timeouts-Woken_example =
    sched_wakeup_expired_timeouts-Woken 30 four (ground arith) four-IsSorted (λ u. ground arith)
      four-stopped

four-IsTimed : IsTimed four
four-IsTimed = record { sorted = four-IsSorted; once = λ u. ground arith; sleeping = four-stopped }

sleep_releasing-wakeup-IsTimed_example :
    IsTimed (sleep_releasing 0 30 stopped 15 four)
    × IsTimed (wakeup 2 four).1
    × (is_blocked (four.tcb 2).state ≡ true → sched_make_ready 2 four ≡ some (wakeup 2 four).1)
    × ((r : Sched) × (sched_wakeup_expired_timeouts 30 four ≡ some r) × IsTimed r)
sleep_releasing-wakeup-IsTimed_example =
    sleep_releasing-wakeup-IsTimed 0 30 15 2 four refl (ground arith) four-IsTimed

-- Three threads on two levels.
abbrev crowd : Sched
crowd = record four { queue = update (update (λ l. []) 1 (1 ∷ [])) 0 (3 ∷ 2 ∷ []) }

crowd_waiting : waiting queues 0 crowd.queue ≡ 3 ∷ 2 ∷ 1 ∷ []
unfolding waiting
crowd_waiting = refl

taken-waiting_example : taken 4 0 0 crowd ≡ waiting queues 0 crowd.queue
taken-waiting_example = taken-waiting 4 0 0 crowd (omega (arith, ap length crowd_waiting))

-- Thread 7 has just left its core, and all others sleep.
abbrev leaving : Sched
leaving = record {
  tcb = λ x. record {
    owner_pcb = some 1;
    type = normal_thread;
    state = if x == 7 then ready else stopped;
    phase = if x == 7 then ctx_dirty else ctx_clean;
    wakeup_time = no_timeout;
    its = quantum_time;
    rts = quantum_time;
    curr_cause = idle;
    last_cause = idle;
    priority_level = 1;
  };
  queue = λ level. [];
  timeout_list = [];
  operations = 0;
  active_threads = 9;
  current = λ core. 2;
  previous = λ core. 7;
  idle_of = λ core. 8;
}

abbrev none_busy : ℕ → Bool
none_busy x = false

leaving-IsQueued : IsQueued none_busy leaving
unfolding waiting
leaving-IsQueued = record { once = λ x. ground arith; levels = λ x. omega arith }

wakeup-sched_queue_select-dispose_example :
    IsQueued none_busy (wakeup 3 leaving).1
    × IsQueued
        (λ x. none_busy x || (x == (sched_queue_select 0 2 leaving).0))
        (sched_queue_select 0 2 leaving).2
    × ((u : Sched) → dispose 7 leaving ≡ some u → IsQueued none_busy u)
wakeup-sched_queue_select-dispose_example =
    wakeup-sched_queue_select-dispose none_busy 3 0 2 7 leaving refl (λ e. refl) refl refl
      leaving-IsQueued
