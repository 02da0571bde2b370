-- ===== src/Cc/Lock.antt =====
-- The kernel lock: at most one thread is inside the kernel.
use tinyos.Base.{
  ℕ, ◌+◌, ◌≤◌, ◌<◌, ◌≡◌, ◌∙◌, ap, refl, List, [], ◌∷◌, true, false, arith, count, remove, length,
  length-remove,
}
use tinyos.Sched.{Sched, ThreadState}
use tinyos.Cc.{
  CondVar, KernelLock, kernel_lock, kernel_unlock, kernel_wait_wchan, kernel_signal,
  kernel_broadcast, kernel_sleep,
}

-- The lock, with the threads that are inside the kernel.
pub record System : Type 0 where
  pub lock : KernelLock
  pub inside : List ℕ

-- The steps of the threads and of the scheduler. Only a thread inside leaves, waits, signals or sleeps.
pub data Step : System → System → Type 0 where
  enters :
      (core now t : ℕ) {k : KernelLock} {l : List ℕ}
      → (kernel_lock core now k).0 ≡ true
      → Step
          (record { lock = k; inside = l })
          (record { lock = (kernel_lock core now k).1; inside = t ∷ l })
  queues_up :
      (core now : ℕ) {k : KernelLock} {l : List ℕ}
      → (kernel_lock core now k).0 ≡ false
      → Step
          (record { lock = k; inside = l })
          (record { lock = (kernel_lock core now k).1; inside = l })
  leaves :
      (t : ℕ) {k : KernelLock} {l : List ℕ}
      → 0 < count t l
      → Step
          (record { lock = k; inside = l })
          (record { lock = kernel_unlock k; inside = remove t l })
  waits :
      (core now timeout t : ℕ) (cv : CondVar) {k : KernelLock} {l : List ℕ}
      → 0 < count t l
      → Step
          (record { lock = k; inside = l })
          (record { lock = (kernel_wait_wchan core now timeout cv k).1; inside = remove t l })
  signals :
      (cv : CondVar) {k : KernelLock} {l : List ℕ}
      → Step
          (record { lock = k; inside = l })
          (record { lock = (kernel_signal cv k).1; inside = l })
  broadcasts :
      (cv : CondVar) {k : KernelLock} {l : List ℕ}
      → Step
          (record { lock = k; inside = l })
          (record { lock = (kernel_broadcast cv k).1; inside = l })
  dies :
      (core now t : ℕ) (state : ThreadState) {k : KernelLock} {l : List ℕ}
      → 0 < count t l
      → Step
          (record { lock = k; inside = l })
          (record { lock = kernel_sleep core now state k; inside = remove t l })
  schedules :
      (s : Sched) {k : KernelLock} {l : List ℕ}
      → Step
          (record { lock = k; inside = l })
          (record { lock = record k { sched = s }; inside = l })

pub data Reachable (start : System) : System → Type 0 where
  here : Reachable start start
  there : {x y : System} → Reachable start x → Step x y → Reachable start y

abbrev balance : System → ℕ
balance x = x.lock.kernel_sem + length x.inside

balance-Step : {x y : System} → Step x y → balance y ≡ balance x
unfolding kernel_lock kernel_unlock kernel_wait_wchan kernel_signal kernel_broadcast kernel_sleep
balance-Step (enters core now t e) = ground arith
balance-Step (queues_up core now e) = ground arith
balance-Step (leaves t {k} {l} e) = omega (arith, length-remove t l)
balance-Step (waits core now timeout t cv {k} {l} e) = omega (arith, length-remove t l)
balance-Step (signals cv) = omega arith
balance-Step (broadcasts cv) = omega arith
balance-Step (dies core now t state {k} {l} e) = omega (arith, length-remove t l)
balance-Step (schedules s) = omega arith

balance-Reachable : {start x : System} → Reachable start x → balance x ≡ balance start
balance-Reachable here = refl
balance-Reachable (there r s) = balance-Step s ∙ balance-Reachable r

-- From the initial semaphore, with no thread inside, at most one thread is ever inside the
-- kernel, and the semaphore is free exactly when none is.
pub at_most_one_inside :
    {start x : System}
    → start.lock.kernel_sem ≡ 1
    → start.inside ≡ []
    → Reachable start x
    → (length x.inside ≤ 1) × (x.lock.kernel_sem + length x.inside ≡ 1)
at_most_one_inside sem nobody r =
    let b = balance-Reachable r in
    (omega (arith, b, ap length nobody), omega (arith, b, ap length nobody))
