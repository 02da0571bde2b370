-- ===== src/Exceptions/Unwind.antt =====
-- Which handlers run when an exception is raised or a block is left, and where the program goes on.
use tinyos.Base.{
  ℕ, ◌≡◌, List, [], ◌∷◌, ◌++◌, Bool, true, false, not, ◌&&◌, ◌==◌, if◌then◌else◌, is_nil,
  Bool-cases, inl, inr, refl, sym, ◌∙◌, ap, subst, append_assoc, append-nil, arith,
}
use tinyos.Exceptions.{
  Frame, Handling, run_catchers, run_finalizers, run_frame, exception_unwind, raise_exception,
  exc_exit_try,
}

-- The handlers of frames, in the order in which an exception runs them.
abbrev pub handlers : List Frame → List ℕ
handlers [] = []
handlers (f ∷ fs) = (f.catchers ++ f.finalizers) ++ handlers fs

-- A handling that also keeps a log of the handlers that have run.
abbrev pub logged : {World : Type 0} → Handling World → Handling (World × List ℕ)
logged run h errcode (w, log) =
    let (raises, w') = run h errcode w in (raises, (w', log ++ (h ∷ [])))

-- What an unwinding comes to from the log `log`: the frames that it has popped are the first ones of
-- the stack, and their handlers have run, each once and in order.
abbrev pub Ran : {World : Type 0} → List Frame → List ℕ → List Frame × (World × List ℕ) → Type 0
Ran stack log r = (popped : List Frame) × (stack ≡ popped ++ r.0) × (r.1.1 ≡ log ++ handlers popped)

module _ {World : Type 0} (run : Handling World) where
  run_catchers-log :
      (captured : Bool) (errcode : ℕ) (cs : List ℕ) (w : World) (log : List ℕ)
      → (run_catchers (logged run) captured errcode cs (w, log)).world.1 ≡ log ++ cs
  unfolding run_catchers
  run_catchers-log captured errcode [] w log = sym (append-nil log)
  run_catchers-log captured errcode (c ∷ cs) w log = elim (Bool-cases (run c errcode w).0) [
    | inl raises ↦ rw raises (
        run_catchers-log false 1 cs (run c errcode w).1 (log ++ (c ∷ []))
        ∙ append_assoc log (c ∷ []) cs)
    | inr quiet ↦ rw quiet (
        run_catchers-log true errcode cs (run c errcode w).1 (log ++ (c ∷ []))
        ∙ append_assoc log (c ∷ []) cs)
  ]

  run_finalizers-log :
      (captured : Bool) (errcode : ℕ) (cs : List ℕ) (w : World) (log : List ℕ)
      → (run_finalizers (logged run) captured errcode cs (w, log)).world.1 ≡ log ++ cs
  unfolding run_finalizers
  run_finalizers-log captured errcode [] w log = sym (append-nil log)
  run_finalizers-log captured errcode (c ∷ cs) w log = elim (Bool-cases (run c errcode w).0) [
    | inl raises ↦ rw raises (
        run_finalizers-log false 1 cs (run c errcode w).1 (log ++ (c ∷ []))
        ∙ append_assoc log (c ∷ []) cs)
    | inr quiet ↦ rw quiet (
        run_finalizers-log captured errcode cs (run c errcode w).1 (log ++ (c ∷ []))
        ∙ append_assoc log (c ∷ []) cs)
  ]

  run_frame-log :
      (errcode : ℕ) (f : Frame) (w : World) (log : List ℕ)
      → (run_frame (logged run) errcode f (w, log)).world.1 ≡ log ++ (f.catchers ++ f.finalizers)
  unfolding run_frame
  run_frame-log errcode f w log =
      let r = run_catchers (logged run) false errcode f.catchers (w, log) in
      run_finalizers-log r.captured r.errcode f.finalizers r.world.0 r.world.1
      ∙ ap (λ l. l ++ f.finalizers) (run_catchers-log false errcode f.catchers w log)
      ∙ append_assoc log f.catchers f.finalizers

  Ran-cons :
      (f : Frame) (fs : List Frame) (log : List ℕ) (r : List Frame × (World × List ℕ))
      → Ran fs (log ++ (f.catchers ++ f.finalizers)) r
      → Ran (f ∷ fs) log r
  Ran-cons f fs log (rest, (w, log')) (popped, e, l) = (
    f ∷ popped,
    ap (λ xs. f ∷ xs) e,
    l ∙ append_assoc log (f.catchers ++ f.finalizers) (handlers popped),
  )

  Ran-if :
      (b : Bool) (stack : List Frame) (log : List ℕ) (x y : List Frame × (World × List ℕ))
      → Ran stack log x
      → Ran stack log y
      → Ran stack log (if b then x else y)
  Ran-if true stack log x y p q = p
  Ran-if false stack log x y p q = q

  exception_unwind-Ran :
      (errcode : ℕ) (stack : List Frame) (w : World) (log : List ℕ)
      → Ran stack log (exception_unwind (logged run) errcode stack (w, log))
  unfolding exception_unwind
  exception_unwind-Ran errcode [] w log = ([], refl, sym (append-nil log))
  exception_unwind-Ran errcode (f ∷ fs) w log =
      let r = run_frame (logged run) errcode f (w, log) in
      let e : r.world.1 ≡ log ++ (f.catchers ++ f.finalizers) = run_frame-log errcode f w log in
      let more = exception_unwind (logged run) 1 fs r.world in
      Ran-if (not (r.errcode == 0) && not r.captured) (f ∷ fs) log more (fs, r.world)
        (Ran-cons f fs log more
          (subst (λ l. Ran fs l more) e (exception_unwind-Ran 1 fs r.world.0 r.world.1)))
        (f ∷ [], refl, e ∙ ap (λ l. log ++ l) (sym (append-nil (f.catchers ++ f.finalizers))))

  -- Whatever the handlers do, also if they raise: an exception runs all the handlers of the frames
  -- that it pops, the catchers of a frame before its finalizers and the top frame first, each of them
  -- once; it pops the first frames of the stack and leaves the others.
  pub raise_exception-Ran :
      (stack : List Frame) (w : World) (log : List ℕ)
      → Ran stack log (raise_exception (logged run) stack (w, log))
  unfolding raise_exception
  raise_exception-Ran stack w log = exception_unwind-Ran 1 stack w log

  -- The same for the end of a block, which throws the catchers of its frame away.
  pub exc_exit_try-Ran :
      (f : Frame) (fs : List Frame) (w : World) (log : List ℕ)
      → Ran (record f { catchers = [] } ∷ fs) log (exc_exit_try (logged run) (f ∷ fs) (w, log))
  unfolding exc_exit_try
  exc_exit_try-Ran f fs w log = exception_unwind-Ran 0 (record f { catchers = [] } ∷ fs) w log

-- The frames behind the first one with a catcher.
abbrev pub behind_catcher : List Frame → List Frame
behind_catcher [] = []
behind_catcher (f ∷ fs) = if is_nil f.catchers then behind_catcher fs else fs

module _ {World : Type 0} (run : Handling World)
    (quiet : (h errcode : ℕ) (w : World) → (run h errcode w).0 ≡ false) where
  run_catchers-quiet :
      (captured : Bool) (errcode : ℕ) (cs : List ℕ) (w : World)
      → let r = run_catchers run captured errcode cs w in
        (r.errcode ≡ errcode) × (r.captured ≡ (if is_nil cs then captured else true))
  unfolding run_catchers
  run_catchers-quiet captured errcode [] w = (refl, refl)
  run_catchers-quiet captured errcode (c ∷ cs) w =
      ground (arith, quiet c errcode w, run_catchers-quiet true errcode cs (run c errcode w).1)

  run_finalizers-quiet :
      (captured : Bool) (errcode : ℕ) (cs : List ℕ) (w : World)
      → let r = run_finalizers run captured errcode cs w in
        (r.errcode ≡ errcode) × (r.captured ≡ captured)
  unfolding run_finalizers
  run_finalizers-quiet captured errcode [] w = (refl, refl)
  run_finalizers-quiet captured errcode (c ∷ cs) w =
      ground
        (arith, quiet c errcode w, run_finalizers-quiet captured errcode cs (run c errcode w).1)

  run_frame-quiet :
      (errcode : ℕ) (f : Frame) (w : World)
      → let r = run_frame run errcode f w in
        (r.errcode ≡ errcode) × (r.captured ≡ not (is_nil f.catchers))
  unfolding run_frame
  run_frame-quiet errcode f w =
      let r = run_catchers run false errcode f.catchers w in
      let c = run_catchers-quiet false errcode f.catchers w in
      let e = run_finalizers-quiet r.captured r.errcode f.finalizers r.world in
      (e.0 ∙ c.0, e.1 ∙ c.1 ∙ ground arith)

  exception_unwind-behind_catcher :
      (stack : List Frame) (w : World) → (exception_unwind run 1 stack w).0 ≡ behind_catcher stack
  unfolding exception_unwind
  exception_unwind-behind_catcher [] w = refl
  exception_unwind-behind_catcher (f ∷ fs) w =
      let r = run_frame run 1 f w in
      ground (arith, run_frame-quiet 1 f w, exception_unwind-behind_catcher fs r.world)

  exception_unwind-exit :
      (f : Frame) (fs : List Frame) (w : World) → (exception_unwind run 0 (f ∷ fs) w).0 ≡ fs
  unfolding exception_unwind
  exception_unwind-exit f fs w = ground (arith, run_frame-quiet 0 f w)

  -- When no handler raises, an exception is caught by the first frame with a catcher, and the program
  -- goes on behind its block; without such a frame the stack is emptied. The end of a block pops its
  -- own frame only.
  pub raise_exception-behind_catcher :
      (f : Frame) (fs : List Frame) (w : World)
      → ((raise_exception run (f ∷ fs) w).0 ≡ behind_catcher (f ∷ fs))
        × ((exc_exit_try run (f ∷ fs) w).0 ≡ fs)
  unfolding raise_exception exc_exit_try
  raise_exception-behind_catcher f fs w = (
    exception_unwind-behind_catcher (f ∷ fs) w,
    exception_unwind-exit (record f { catchers = [] }) fs w,
  )
