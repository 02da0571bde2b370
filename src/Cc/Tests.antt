-- ===== src/Cc/Tests.antt =====
-- Condition variables with the threads of the scheduler's tests, and a run of the kernel lock.
use tinyos.Base.{
  ℕ, ◌+◌, ◌≤◌, ◌≡◌, [], ◌∷◌, false, refl, arith, ltb, count, ◌&&◌, if◌then◌else◌, length,
}
use tinyos.Sched.{ready, is_blocked}
use tinyos.Sched.Tests.{four}
use tinyos.Cc.{CondVar, KernelLock, cond_signal, cond_broadcast, kernel_lock, kernel_wait_wchan}
use tinyos.Cc.Signal.{Signalled, cond_signal-Signalled, cond_broadcast-state}
use tinyos.Cc.Lock.{System, Step, Reachable, at_most_one_inside}

-- The waiter 1 has been woken already.
abbrev waiters : CondVar
waiters = record { waitset = 1 ∷ 2 ∷ 3 ∷ []; signalled = λ t. false; removed = λ t. false }

abbrev pub no_waiters : CondVar
no_waiters = record waiters { waitset = [] }

cond_signal-Signalled_example : Signalled waiters four (cond_signal waiters four)
cond_signal-Signalled_example = cond_signal-Signalled waiters four

cond_broadcast-state_example :
    let (cv', s') = cond_broadcast waiters four in
    (cv'.waitset ≡ [])
    × ((u : ℕ)
        → (s'.tcb u).state ≡ (
            if ltb 0 (count u waiters.waitset) && is_blocked (four.tcb u).state
            then ready
            else (four.tcb u).state))
cond_broadcast-state_example = cond_broadcast-state waiters four

abbrev pub unlocked : KernelLock
unlocked = record { kernel_sem = 1; kernel_sem_cv = no_waiters; sched = four }

abbrev start : System
start = record { lock = unlocked; inside = [] }

-- A thread enters the kernel, a second one queues up, and the first waits on a condition.
one_in : KernelLock
one_in = (kernel_lock 0 5 unlocked).1

one_queued : KernelLock
one_queued = (kernel_lock 1 6 one_in).1

abbrev last : System
last = record { lock = (kernel_wait_wchan 0 7 100 waiters one_queued).1; inside = [] }

last-Reachable : Reachable start last
unfolding one_in one_queued kernel_lock
last-Reachable =
    Reachable.there
      (Reachable.there (Reachable.there Reachable.here (Step.enters 0 5 0 refl))
        (Step.queues_up 1 6 refl))
      (Step.waits 0 7 100 0 waiters (omega arith))

at_most_one_inside_example :
    (length last.inside ≤ 1) × (last.lock.kernel_sem + length last.inside ≡ 1)
at_most_one_inside_example = at_most_one_inside {start = start} {x = last} refl refl last-Reachable
