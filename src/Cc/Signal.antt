-- ===== src/Cc/Signal.antt =====
-- Which waiters `Cond_Signal` and `Cond_Broadcast` wake.
use tinyos.Base.{
  ℕ, zero, suc, ◌≤◌, ◌<◌, ◌≡◌, ◌⊎◌, inl, inr, List, [], ◌∷◌, ◌++◌, true, false, arith, refl, count,
  if◌then◌else◌, update, length, length-append, Bool-cases, ◌∙◌, ap, ap₂, sym, subst, append-nil,
  ltb, ◌&&◌,
}
use tinyos.Sched.{Sched, is_blocked, ready, wakeup, make_ready}
use tinyos.Sched.Timeout.{make_ready_lem}
use tinyos.Cc.{CondVar, signal_from, cv_signal, cond_signal, broadcast_loop, cond_broadcast}

-- No thread of the list is blocked.
abbrev pub NoneBlocked : Sched → List ℕ → Type 0
NoneBlocked s [] = Unit
NoneBlocked s (t ∷ ts) = (is_blocked (s.tcb t).state ≡ false) × NoneBlocked s ts

-- What a signal comes to. Either no waiter was blocked: the ring is empty and no thread changes; or
-- `t` is the first blocked waiter: it is made ready and signalled, those before it leave the ring, and
-- those behind it stay.
abbrev pub Signalled : CondVar → Sched → CondVar × Sched → Type 0
Signalled cv s (cv', s') =
    (NoneBlocked s cv.waitset × (cv'.waitset ≡ []) × (s' ≡ s))
    ⊎ ((skipped : List ℕ) × (t : ℕ) × (rest : List ℕ) × (cv.waitset ≡ skipped ++ (t ∷ rest))
        × NoneBlocked s skipped
        × (is_blocked (s.tcb t).state ≡ true)
        × (cv'.waitset ≡ rest)
        × (cv'.signalled t ≡ true)
        × (s' ≡ make_ready t s))

wakeup-ready :
    (t : ℕ) (s : Sched) → is_blocked (s.tcb t).state ≡ true → wakeup t s ≡ (true, make_ready t s)
unfolding wakeup
wakeup-ready t s b = rw b refl

wakeup-other : (t : ℕ) (s : Sched) → is_blocked (s.tcb t).state ≡ false → wakeup t s ≡ (false, s)
unfolding wakeup
wakeup-other t s b = rw b refl

-- The waiter that a signal takes out of the ring.
abbrev taken_out : ℕ → List ℕ → CondVar → CondVar
taken_out t ts cv = record cv { waitset = ts; removed = update cv.removed t true }

pub signal_from-blocked :
    (t : ℕ) (ts : List ℕ) (cv : CondVar) (s : Sched)
    → is_blocked (s.tcb t).state ≡ true
    → signal_from (t ∷ ts) cv s
      ≡ (record (taken_out t ts cv) { signalled = update cv.signalled t true }, make_ready t s)
unfolding signal_from
signal_from-blocked t ts cv s b = rw (wakeup-ready t s b) refl

signal_from-other :
    (t : ℕ) (ts : List ℕ) (cv : CondVar) (s : Sched)
    → is_blocked (s.tcb t).state ≡ false
    → signal_from (t ∷ ts) cv s ≡ signal_from ts (taken_out t ts cv) s
unfolding signal_from
signal_from-other t ts cv s b = rw (wakeup-other t s b) refl

Signalled-skip :
    (t : ℕ) (ts : List ℕ) (cv : CondVar) (s : Sched) (r : CondVar × Sched)
    → cv.waitset ≡ t ∷ ts
    → is_blocked (s.tcb t).state ≡ false
    → Signalled (taken_out t ts cv) s r
    → Signalled cv s r
Signalled-skip t ts cv s (cv', s') e b (inl (n, empty, same)) =
    inl (subst (NoneBlocked s) (sym e) (b, n), empty, same)
Signalled-skip t ts cv s (cv', s') e b (inr (skipped, u, rest, split, n, x, y, z, w)) =
    inr (t ∷ skipped, u, rest, e ∙ ap (λ l. t ∷ l) split, (b, n), x, y, z, w)

signal_from-Signalled :
    (ts : List ℕ) (cv : CondVar) (s : Sched)
    → cv.waitset ≡ ts
    → Signalled cv s (signal_from ts cv s)
unfolding signal_from
signal_from-Signalled [] cv s e = (inl (subst (NoneBlocked s) (sym e) tt, e, refl))
signal_from-Signalled (t ∷ ts) cv s e = elim (Bool-cases (is_blocked (s.tcb t).state)) [
  | inl b ↦
      subst (Signalled cv s) (sym (signal_from-blocked t ts cv s b))
        (inr ([], t, ts, e, tt, b, refl, ground arith, refl))
  | inr b ↦ subst (Signalled cv s) (sym (signal_from-other t ts cv s b)) (
      Signalled-skip t ts cv s (signal_from ts (taken_out t ts cv) s) e b
        (signal_from-Signalled ts (taken_out t ts cv) s refl))
]

-- `Cond_Signal` wakes the first blocked waiter of the ring and no other thread, whatever the
-- states of the waiters; if none is blocked it empties the ring.
pub cond_signal-Signalled : (cv : CondVar) (s : Sched) → Signalled cv s (cond_signal cv s)
unfolding cond_signal cv_signal
cond_signal-Signalled cv s = signal_from-Signalled cv.waitset cv s refl

-- The threads of the list woken one after the other.
pub wake_all : List ℕ → Sched → Sched
wake_all [] s = s
wake_all (t ∷ ts) s = wake_all ts (wakeup t s).1

wake_all-NoneBlocked :
    (ts rest : List ℕ) (s : Sched) → NoneBlocked s ts → wake_all (ts ++ rest) s ≡ wake_all rest s
unfolding wake_all
wake_all-NoneBlocked [] rest s n = refl
wake_all-NoneBlocked (t ∷ ts) rest s n =
    ap (λ r. wake_all (ts ++ rest) r.1) (wakeup-other t s n.0) ∙ wake_all-NoneBlocked ts rest s n.1

wake_all-ready :
    (t : ℕ) (rest : List ℕ) (s : Sched)
    → is_blocked (s.tcb t).state ≡ true
    → wake_all (t ∷ rest) s ≡ wake_all rest (make_ready t s)
unfolding wake_all
wake_all-ready t rest s b = ap (λ r. wake_all rest r.1) (wakeup-ready t s b)

-- What is left to wake after a signal, and that the ring is shorter.
wake_all-Signalled :
    (cv : CondVar) (s : Sched) (r : CondVar × Sched)
    → Signalled cv s r
    → wake_all cv.waitset s ≡ wake_all r.0.waitset r.1
wake_all-Signalled cv s (cv', s') (inl (n, empty, same)) =
    ap (λ l. wake_all l s) (sym (append-nil cv.waitset))
    ∙ wake_all-NoneBlocked cv.waitset [] s n
    ∙ ap₂ wake_all (sym empty) (sym same)
wake_all-Signalled cv s (cv', s') (inr (skipped, t, rest, split, n, b, left, _, made)) =
    ap (λ l. wake_all l s) split
    ∙ wake_all-NoneBlocked skipped (t ∷ rest) s n
    ∙ wake_all-ready t rest s b
    ∙ ap₂ wake_all (sym left) (sym made)

length-Signalled :
    (cv : CondVar) (s : Sched) (r : CondVar × Sched) (t : ℕ) (ts : List ℕ)
    → cv.waitset ≡ t ∷ ts
    → Signalled cv s r
    → length r.0.waitset < length cv.waitset
length-Signalled cv s (cv', s') t ts e (inl (n, empty, same)) =
    omega (arith, ap length empty, ap length e)
length-Signalled cv s (cv', s') t ts e (inr (skipped, u, rest, split, n, b, left, _, made)) =
    omega (arith, ap length left, ap length split, length-append skipped (u ∷ rest))

broadcast_loop-cons :
    (fuel t : ℕ) (ts : List ℕ) (cv : CondVar) (s : Sched)
    → cv.waitset ≡ t ∷ ts
    → broadcast_loop (suc fuel) cv s
      ≡ (let (cv', s') = cond_signal cv s in broadcast_loop fuel cv' s')
unfolding broadcast_loop cond_signal
broadcast_loop-cons fuel t ts cv s e = ground arith

broadcast_loop-nil :
    (fuel : ℕ) (cv : CondVar) (s : Sched) → cv.waitset ≡ [] → broadcast_loop fuel cv s ≡ (cv, s)
unfolding broadcast_loop
broadcast_loop-nil zero cv s e = refl
broadcast_loop-nil (suc fuel) cv s e = ground arith

abbrev AllWoken : CondVar → Sched → CondVar × Sched → Type 0
AllWoken cv s (cv', s') = (cv'.waitset ≡ []) × (s' ≡ wake_all cv.waitset s)

broadcast_loop-AllWoken :
    (fuel : ℕ) (ts : List ℕ) (cv : CondVar) (s : Sched)
    → cv.waitset ≡ ts
    → length ts ≤ fuel
    → AllWoken cv s (broadcast_loop fuel cv s)
unfolding wake_all
broadcast_loop-AllWoken fuel [] cv s e f =
    subst (AllWoken cv s) (sym (broadcast_loop-nil fuel cv s e)) (e, ap (λ l. wake_all l s) (sym e))
broadcast_loop-AllWoken zero (t ∷ ts) cv s e f = absurd (omega arith)
broadcast_loop-AllWoken (suc fuel) (t ∷ ts) cv s e f =
    let r = cond_signal cv s in
    let g = cond_signal-Signalled cv s in
    let ih =
      broadcast_loop-AllWoken fuel r.0.waitset r.0 r.1 refl
        (omega (arith, length-Signalled cv s r t ts e g, ap length e)) in
    subst (AllWoken cv s) (sym (broadcast_loop-cons fuel t ts cv s e))
      (ih.0, ih.1 ∙ sym (wake_all-Signalled cv s r g))

wake_all-state :
    (ts : List ℕ) (s : Sched) (u : ℕ)
    → ((wake_all ts s).tcb u).state
      ≡ (if ltb 0 (count u ts) && is_blocked (s.tcb u).state then ready else (s.tcb u).state)
unfolding wake_all wakeup
wake_all-state [] s u = ground arith
wake_all-state (t ∷ ts) s u =
    ground (arith, wake_all-state ts (wakeup t s).1 u, (make_ready_lem t s u).2)

-- `Cond_Broadcast` ends with an empty ring, and makes exactly the blocked waiters ready.
pub cond_broadcast-state :
    (cv : CondVar) (s : Sched)
    → let (cv', s') = cond_broadcast cv s in
      (cv'.waitset ≡ [])
      × ((u : ℕ)
          → (s'.tcb u).state ≡ (
              if ltb 0 (count u cv.waitset) && is_blocked (s.tcb u).state
              then ready
              else (s.tcb u).state))
unfolding cond_broadcast
cond_broadcast-state cv s =
    let w = broadcast_loop-AllWoken (length cv.waitset) cv.waitset cv s refl (omega arith) in
    (w.0, λ u. ap (λ r. (r.tcb u).state) w.1 ∙ wake_all-state cv.waitset s u)
