-- ===== src/Cc.antt =====
-- Condition variables and the kernel lock of kernel_cc.c, over the scheduler. A region under a
-- spinlock is one step; a call that sleeps is cut in two, the part before and the part after.
pub mod Signal
pub mod Lock
pub mod Tests
use tinyos.Base.{
  ℕ, zero, suc, ◌+◌, ◌*◌, ◌-◌, ◌%◌, ◌^◌, List, [], ◌∷◌, ◌++◌, Bool, true, false, Option, none, some,
  ltb, if◌then◌else◌, update, remove, length,
}
use tinyos.Sched.{Sched, ThreadState, stopped, no_timeout, wakeup, sleep_releasing}

-- `Mutex_Lock`: one `test_and_set`, which gets the lock if it was free; the caller spins or yields
-- and tries again otherwise. `Mutex_Unlock` clears the lock.
unfoldable pub mutex_lock : Bool → Bool × Bool
mutex_lock true = (false, true)
mutex_lock false = (true, true)

unfoldable pub mutex_unlock : Bool → Bool
mutex_unlock lock = false

-- A `CondVar` with its `__cv_waiter`s, which are named by their threads: the ring in its order from
-- `waitset` on, and the two flags of each waiter.
pub record CondVar : Type 0 where
  pub waitset : List ℕ
  pub signalled : ℕ → Bool
  pub removed : ℕ → Bool

-- `remove_from_ring`
unfoldable pub remove_from_ring : ℕ → CondVar → CondVar
remove_from_ring w cv = record cv { waitset = remove w cv.waitset }

-- The new waiter of `cv_wait`, at the back of the ring.
unfoldable pub add_waiter : ℕ → CondVar → CondVar
add_waiter t cv = record {
  waitset = cv.waitset ++ (t ∷ []);
  signalled = update cv.signalled t false;
  removed = update cv.removed t false;
}

-- `cv_wait` on core `core` until it sleeps: the mutex is free then.
unfoldable pub cv_wait :
    (core now timeout : ℕ) → (mutex : Bool) → CondVar → Sched → Bool × CondVar × Sched
unfolding mutex_unlock add_waiter
cv_wait core now timeout mutex cv s =
    (mutex_unlock mutex, add_waiter (s.current core) cv, sleep_releasing core now stopped timeout s)

-- `cv_wait` after it has slept, up to the lock of the mutex; `none` is the failed assertion.
unfoldable pub cv_wait_woken : ℕ → CondVar → Option (Bool × CondVar)
unfolding remove_from_ring
cv_wait_woken t cv =
    if cv.removed t
    then some (cv.signalled t, cv)
    else if cv.signalled t
    then none
    else some (cv.signalled t, remove_from_ring t cv)

-- The loop of `cv_signal`. The waiter that leaves the ring is the first one.
unfoldable pub signal_from : List ℕ → CondVar → Sched → CondVar × Sched
signal_from [] cv s = (cv, s)
signal_from (t ∷ ts) cv s =
    let c = record cv { waitset = ts; removed = update cv.removed t true } in
    let (woken, s') = wakeup t s in
    let more = signal_from ts c s' in
    if woken then (record c { signalled = update c.signalled t true }, s') else more

unfoldable pub cv_signal : CondVar → Sched → CondVar × Sched
unfolding signal_from
cv_signal cv s = signal_from cv.waitset cv s

unfoldable pub cond_wait :
    (core now : ℕ) → (mutex : Bool) → CondVar → Sched → Bool × CondVar × Sched
unfolding cv_wait
cond_wait core now mutex cv s = cv_wait core now no_timeout mutex cv s

-- `Cond_TimedWait`: from milliseconds to microseconds.
unfoldable pub cond_timed_wait :
    (core now timeout : ℕ) → (mutex : Bool) → CondVar → Sched → Bool × CondVar × Sched
unfolding cv_wait
cond_timed_wait core now timeout mutex cv s =
    cv_wait core now ((timeout * 1000) % 2 ^ 64) mutex cv s

unfoldable pub cond_signal : CondVar → Sched → CondVar × Sched
unfolding cv_signal
cond_signal cv s = cv_signal cv s

-- The loop of `Cond_Broadcast`, on fuel.
unfoldable pub broadcast_loop : (fuel : ℕ) → CondVar → Sched → CondVar × Sched
unfolding cv_signal
broadcast_loop zero cv s = (cv, s)
broadcast_loop (suc fuel) cv s =
    let (cv', s') = cv_signal cv s in
    let more = broadcast_loop fuel cv' s' in elim cv.waitset [ [] ↦ (cv, s) | _ ∷ _ ↦ more ]

unfoldable pub cond_broadcast : CondVar → Sched → CondVar × Sched
unfolding broadcast_loop
cond_broadcast cv s = broadcast_loop (length cv.waitset) cv s

-- The kernel semaphore with its condition, and the scheduler. `kernel_mutex` is held during a step.
pub record KernelLock : Type 0 where
  pub kernel_sem : ℕ
  pub kernel_sem_cv : CondVar
  pub sched : Sched

-- One round of the loop of `kernel_lock`, which is also that at the end of `kernel_wait_wchan`: the semaphore
-- is taken (true), or the thread waits for it.
unfoldable pub kernel_lock : (core now : ℕ) → KernelLock → Bool × KernelLock
unfolding cond_wait
kernel_lock core now k =
    if ltb 0 k.kernel_sem
    then (true, record k { kernel_sem = k.kernel_sem - 1 })
    else (let (_, cv, s) = cond_wait core now true k.kernel_sem_cv k.sched in
        (false, record k { kernel_sem_cv = cv; sched = s }))

unfoldable pub kernel_unlock : KernelLock → KernelLock
unfolding cond_signal
kernel_unlock k =
    let (cv, s) = cond_signal k.kernel_sem_cv k.sched in
    record { kernel_sem = k.kernel_sem + 1; kernel_sem_cv = cv; sched = s }

-- `kernel_wait_wchan` until it sleeps on `cv`.
unfoldable pub kernel_wait_wchan :
    (core now timeout : ℕ) → CondVar → KernelLock → CondVar × KernelLock
unfolding kernel_unlock cv_wait
kernel_wait_wchan core now timeout cv k =
    let free = kernel_unlock k in
    let (_, cv', s) = cv_wait core now timeout true cv free.sched in
    (cv', record free { sched = s })

unfoldable pub kernel_signal : CondVar → KernelLock → CondVar × KernelLock
unfolding cond_signal
kernel_signal cv k = let (cv', s) = cond_signal cv k.sched in (cv', record k { sched = s })

unfoldable pub kernel_broadcast : CondVar → KernelLock → CondVar × KernelLock
unfolding cond_broadcast
kernel_broadcast cv k = let (cv', s) = cond_broadcast cv k.sched in (cv', record k { sched = s })

-- `kernel_sleep` until it sleeps.
unfoldable pub kernel_sleep : (core now : ℕ) → ThreadState → KernelLock → KernelLock
unfolding kernel_unlock
kernel_sleep core now state k =
    let free = kernel_unlock k in
    record free { sched = sleep_releasing core now state no_timeout free.sched }
