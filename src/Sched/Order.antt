-- ===== src/Sched/Order.antt =====
-- The order in which the scheduler takes the waiting threads.
use tinyos.Base.{
  ℕ, zero, suc, ◌+◌, ◌≤◌, ◌<◌, ◌≡◌, ◌≢◌, inl, inr, List, [], ◌∷◌, ◌++◌, arith, refl, sym, ◌∙◌, ap,
  ap₂, subst, true, false, Bool, if◌then◌else◌, ◌==◌, Bool-cases, length,
}
use tinyos.Sched.{Sched, queues, sched_queue_select}
use tinyos.Sched.Queue.{Chosen, sched_queue_select-Chosen}

-- The threads in the `n` queues from `i` on, level by level.
unfoldable pub waiting : (n i : ℕ) → (ℕ → List ℕ) → List ℕ
waiting zero i queue = []
waiting (suc n) i queue = queue i ++ waiting n (i + 1) queue

pub waiting-same :
    (n i : ℕ) (q r : ℕ → List ℕ) → ((j : ℕ) → i ≤ j → r j ≡ q j) → waiting n i r ≡ waiting n i q
unfolding waiting
waiting-same zero i q r e = refl
waiting-same (suc n) i q r e =
    ap₂ (λ xs ys. xs ++ ys) (e i (omega arith))
      (waiting-same n (i + 1) q r (λ j h. e j (omega (arith, h))))

pub waiting-nil :
    (n i : ℕ) (q : ℕ → List ℕ) → ((j : ℕ) → i ≤ j → j < i + n → q j ≡ []) → waiting n i q ≡ []
unfolding waiting
waiting-nil zero i q e = refl
waiting-nil (suc n) i q e =
    ap₂ (λ xs ys. xs ++ ys) (e i (omega arith) (omega arith))
      (waiting-nil n (i + 1) q (λ j h b. e j (omega (arith, h)) (omega (arith, b))))

-- The head of the first queue that is not empty is the first of the waiting threads.
pub waiting-cons :
    (n i level t : ℕ) (q r : ℕ → List ℕ)
    → i ≤ level
    → level < i + n
    → q level ≡ t ∷ r level
    → ((j : ℕ) → j < level → q j ≡ [])
    → ((j : ℕ) → j ≢ level → r j ≡ q j)
    → waiting n i q ≡ t ∷ waiting n i r
unfolding waiting
waiting-cons zero i level t q r h b e above same = absurd (omega (arith, h, b))
waiting-cons (suc n) i level t q r h b e above same = elim (Bool-cases (i == level)) [
  | inl here ↦
      let at_level : level ≡ i = ground (arith, here) in
      let head : q i ≡ t ∷ r i = subst (λ l. q l ≡ t ∷ r l) at_level e in
      ap₂ (λ xs ys. xs ++ ys) head
        (sym (
          waiting-same n (i + 1) q r (λ j c. same j (λ f. absurd (omega (arith, f, c, at_level))))))
  | inr later ↦
      let past : i < level = ground (arith, later, h) in
      let empty = above i past in
      ap₂ (λ xs ys. xs ++ ys) empty
        (waiting-cons n (i + 1) level t q r (omega (arith, past)) (omega (arith, b)) e above same)
      ∙ sym (
          ap (λ xs. t ∷ xs ++ waiting n (i + 1) r)
            (same i (λ f. absurd (omega (arith, f, past))) ∙ empty))
]

-- The threads that selections on a core take from the queues, one after the other, when nothing is
-- added in between; each becomes the current thread, and a selection that finds no waiting thread ends
-- the sequence.
unfoldable pub taken : (rounds core current : ℕ) → Sched → List ℕ
taken zero core current s = []
taken (suc n) core current s =
    let (next, found, r) = sched_queue_select core current s in
    let more = taken n core next r in if found then next ∷ more else []

pub Chosen-waiting :
    (core current : ℕ) (s : Sched) (c : ℕ × Bool × Sched)
    → Chosen core current s c
    → waiting queues 0 s.queue ≡ (if c.1 then c.0 ∷ waiting queues 0 c.2.queue else [])
Chosen-waiting core current s (next, true, r) c =
    let (level, top, e, above, same) = c.0 refl in
    waiting-cons queues 0 level next s.queue r.queue (omega arith) (omega (arith, top)) e above same
Chosen-waiting core current s (next, false, r) c =
    waiting-nil queues 0 s.queue (λ j h b. (c.1 refl).0 j (omega (arith, b)))

no_more : (xs : List ℕ) → length xs ≤ 0 → [] ≡ xs
no_more [] h = refl
no_more (x ∷ xs) h = absurd (omega (arith, h))

-- One selection and the ones that follow.
taken_first :
    (n next : ℕ) (found : Bool) (more rest xs : List ℕ)
    → xs ≡ (if found then next ∷ rest else [])
    → length xs ≤ suc n
    → (length rest ≤ n → more ≡ rest)
    → (if found then next ∷ more else []) ≡ xs
taken_first n next true more rest xs e h ih =
    ap (λ l. next ∷ l) (ih (omega (arith, h, ap length e))) ∙ sym e
taken_first n next false more rest xs e h ih = sym e

-- With at least as many selections as waiting threads, and nothing added in between, a core takes
-- every waiting thread, level by level and each queue in its order, whatever the current thread.
pub taken-waiting :
    (n core current : ℕ) (s : Sched)
    → length (waiting queues 0 s.queue) ≤ n
    → taken n core current s ≡ waiting queues 0 s.queue
unfolding taken
taken-waiting zero core current s h = no_more (waiting queues 0 s.queue) h
taken-waiting (suc n) core current s h =
    let c = sched_queue_select core current s in
    taken_first n c.0 c.1 (taken n core c.0 c.2) (waiting queues 0 c.2.queue)
      (waiting queues 0 s.queue)
      (Chosen-waiting core current s c (sched_queue_select-Chosen core current s)) h
      (taken-waiting n core c.0 c.2)
