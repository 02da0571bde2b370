-- ===== src/Userlib/Epochs.antt =====
-- Threads that meet at a barrier of tinyoslib.c, again and again.
use tinyos.Base.{
  ℕ, ◌+◌, ◌*◌, ◌^◌, ◌%◌, ap, ◌∙◌, ◌≤◌, ◌<◌, ◌≡◌, List, [], ◌∷◌, true, false, Option, none, some,
  count, remove, length, ◌==◌, arith, refl, sym, if◌then◌else◌, ltb, count-remove, length-remove,
  ==_iff, ltb→lt, subst, ◌⊎◌, Bool-cases, inl, inr,
}
use native.Mathlib.Nat.{mod-eq_of_lt, lt_of_mul-lt-mul_left}
use tinyos.Userlib.{Barrier, barrier_arrive, barrier_waits}

-- The barrier, with the epochs of the calls that have not returned, how many calls have been made, and how many
-- have returned.
pub record Meeting : Type 0 where
  pub bar : Barrier
  pub inside : List ℕ
  pub called : ℕ
  pub returned : ℕ

-- A thread calls `BarrierSync`, up to its loop; or the loop of a call ends, and it returns.
pub data Step (n : ℕ) : Meeting → Meeting → Type 0 where
  arrives :
      (epoch : ℕ) {b b' : Barrier} {l : List ℕ} {c r : ℕ}
      → barrier_arrive n b ≡ some (epoch, b')
      → Step n
          (record { bar = b; inside = l; called = c; returned = r })
          (record { bar = b'; inside = epoch ∷ l; called = c + 1; returned = r })
  leaves :
      (epoch : ℕ) {b : Barrier} {l : List ℕ} {c r : ℕ}
      → 0 < count epoch l
      → barrier_waits epoch b ≡ false
      → Step n
          (record { bar = b; inside = l; called = c; returned = r })
          (record { bar = b; inside = remove epoch l; called = c; returned = r + 1 })

pub data Reachable (n : ℕ) (start : Meeting) : Meeting → Type 0 where
  here : Reachable n start start
  there : {x y : Meeting} → Reachable n start x → Step n x y → Reachable n start y

-- Calls come in groups of `n`, one for each epoch that has ended; those of the current epoch wait.
pub record IsFair (n : ℕ) (x : Meeting) : Type 0 where
  pub few : x.bar.count < n
  pub calls : x.called ≡ n * x.bar.epoch + x.bar.count
  pub waiting : count x.bar.epoch x.inside ≡ x.bar.count
  pub later : (e : ℕ) → x.bar.epoch < e → count e x.inside ≡ 0
  pub all : x.called ≡ x.returned + length x.inside

count_le_length : (a : ℕ) (xs : List ℕ) → count a xs ≤ length xs
count_le_length a [] = omega arith
count_le_length a (x ∷ xs) = ground (arith, count_le_length a xs)

-- How `barrier_arrive` goes on: the last of a group ends the epoch, and the others wait.
abbrev Arrived : (n : ℕ) → Barrier → ℕ × Barrier → Type 0
Arrived n b r =
    (b.count < n)
    × (((b.count + 1 ≡ n) × (r ≡ (b.epoch, record { count = 0; epoch = (b.epoch + 1) % 2 ^ 32 })))
        ⊎ ((b.count + 1 < n) × (r ≡ (b.epoch, record { count = b.count + 1; epoch = b.epoch }))))

abbrev OnSome : {A : Type 0} → (A → Type 0) → Option A → Type 0
OnSome P none = Unit
OnSome P (some a) = P a

barrier_arrive-Arrived : (n : ℕ) (b : Barrier) → OnSome (Arrived n b) (barrier_arrive n b)
unfolding barrier_arrive
barrier_arrive-Arrived n b = elim (Bool-cases (ltb 0 n)) [
  | inr e ↦ rw e tt
  | inl e ↦ elim (Bool-cases (ltb b.count n)) [
    | inr f ↦ rw e (rw f tt)
    | inl f ↦ elim (Bool-cases (b.count + 1 == n)) [
      | inl g ↦ rw e (rw f (rw g (ltb→lt b.count n f, inl ((==_iff (b.count + 1) n).0 g, refl))))
      | inr g ↦ rw e (rw f (rw g (ltb→lt b.count n f, inr (ground (arith, f, g), refl))))
    ]
  ]
]

-- The assertions hold.
barrier_arrive-some :
    (n : ℕ) (b : Barrier) → b.count < n → (r : ℕ × Barrier) × (barrier_arrive n b ≡ some r)
unfolding barrier_arrive
barrier_arrive-some n b few =
    let positive : ltb 0 n ≡ true = ground arith in
    let below : ltb b.count n ≡ true = ground arith in
    (
      (
        b.epoch,
        if b.count + 1 == n
            then record { count = 0; epoch = (b.epoch + 1) % 2 ^ 32 }
            else record b { count = b.count + 1 },
      ),
      rw positive (rw below refl),
    )

IsFair-call :
    (n : ℕ) (x : Meeting) (r : ℕ × Barrier)
    → x.called + 1 < n * 2 ^ 32
    → Arrived n x.bar r
    → IsFair n x
    → IsFair n (record {
      bar = r.1;
      inside = r.0 ∷ x.inside;
      called = x.called + 1;
      returned = x.returned;
    })
IsFair-call n x r below (few, inl (full, e)) f =
    let next : (x.bar.epoch + 1) % 2 ^ 32 ≡ x.bar.epoch + 1 =
      mod-eq_of_lt (lt_of_mul-lt-mul_left n (omega (arith, below, f.calls, full))) in
    subst
      (λ r. IsFair n (record {
        bar = r.1;
        inside = r.0 ∷ x.inside;
        called = x.called + 1;
        returned = x.returned;
      }))
      (sym (e ∙ ap (λ k. (x.bar.epoch, record { count = 0; epoch = k })) next))
      (record {
        few = omega (arith, few);
        calls = omega (arith, f.calls, full);
        waiting = ground (arith, f.later (x.bar.epoch + 1) (omega arith));
        later = λ y h. ground (arith, f.later y (omega (arith, h)), h);
        all = omega (arith, f.all);
      })
IsFair-call n x r below (few, inr (more, e)) f =
    subst
      (λ r. IsFair n (record {
        bar = r.1;
        inside = r.0 ∷ x.inside;
        called = x.called + 1;
        returned = x.returned;
      }))
      (sym e)
      (record {
        few = more;
        calls = omega (arith, f.calls);
        waiting = ground (arith, f.waiting);
        later = λ y h. ground (arith, f.later y h, h);
        all = omega (arith, f.all);
      })

IsFair-return :
    (n epoch : ℕ) (x : Meeting)
    → 0 < count epoch x.inside
    → (epoch == x.bar.epoch) ≡ false
    → IsFair n x
    → IsFair n (record x { inside = remove epoch x.inside; returned = x.returned + 1 })
IsFair-return n epoch x present ended f = record {
  few = f.few;
  calls = f.calls;
  waiting = ground (arith, count-remove epoch x.bar.epoch x.inside, f.waiting, ended);
  later = λ y h. omega (arith, count-remove epoch y x.inside, f.later y h);
  all = omega (arith, f.all, length-remove epoch x.inside present);
}

Step-called : (n : ℕ) {x y : Meeting} → Step n x y → x.called ≤ y.called
Step-called n (arrives epoch e) = omega arith
Step-called n (leaves epoch present ended) = omega arith

Step-IsFair : (n : ℕ) {x y : Meeting} → Step n x y → y.called < n * 2 ^ 32 → IsFair n x → IsFair n y
unfolding barrier_waits
Step-IsFair n (arrives epoch {b} {b'} {l} {c} {r} e) below f =
    IsFair-call n (record { bar = b; inside = l; called = c; returned = r }) (epoch, b') below
      (subst (OnSome (Arrived n b)) e (barrier_arrive-Arrived n b)) f
Step-IsFair n (leaves epoch {b} {l} {c} {r} present ended) below f =
    IsFair-return n epoch (record { bar = b; inside = l; called = c; returned = r }) present ended f

Reachable-IsFair :
    (n : ℕ) {x y : Meeting} → Reachable n x y → y.called < n * 2 ^ 32 → IsFair n x → IsFair n y
Reachable-IsFair n here below f = f
Reachable-IsFair n (there r s) below f =
    Step-IsFair n s below (Reachable-IsFair n r (omega (arith, Step-called n s, below)) f)

abbrev pub empty_meeting : Meeting
empty_meeting = record {
  bar = record { count = 0; epoch = 0 };
  inside = [];
  called = 0;
  returned = 0;
}

-- At a barrier for `n` threads, `n` not 0, that starts with no call, as long as fewer than n * 2 ^ 32 calls have
-- been made, so that the epoch has not wrapped: no assertion fails; at every moment fewer than `n` calls wait
-- for the current epoch to end, `n` calls have been made for each epoch that has ended, no more calls have
-- returned than that, and a call that has not returned waits for the current epoch or may return.
pub returned_calls :
    (n : ℕ) (x : Meeting)
    → 0 < n
    → Reachable n empty_meeting x
    → x.called < n * 2 ^ 32
    → ((r : ℕ × Barrier) × (barrier_arrive n x.bar ≡ some r))
      × (x.bar.count < n)
      × (x.called ≡ n * x.bar.epoch + x.bar.count)
      × (x.returned ≤ n * x.bar.epoch)
      × (count x.bar.epoch x.inside ≡ x.bar.count)
      × ((e : ℕ) → 0 < count e x.inside → (e ≡ x.bar.epoch) ⊎ (barrier_waits e x.bar ≡ false))
unfolding barrier_waits
returned_calls n x positive r below =
    let f = Reachable-IsFair n r below (record {
      few = positive;
      calls = omega arith;
      waiting = refl;
      later = λ e h. refl;
      all = omega arith;
    }) in
    (
      barrier_arrive-some n x.bar f.few,
      f.few,
      f.calls,
      omega (arith, f.all, f.calls, f.waiting, count_le_length x.bar.epoch x.inside),
      f.waiting,
      (λ e h. elim (Bool-cases (e == x.bar.epoch)) [
        | inl same ↦ inl ((==_iff e x.bar.epoch).0 same)
        | inr ended ↦ inr ended
      ]),
    )
