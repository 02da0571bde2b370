-- ===== src/Exceptions.antt =====
-- The exceptions of util.h and util.c: stacks of frames with the handlers of TRY blocks. Handlers are
-- user code, named by numbers; their behaviour is a parameter.
pub mod Unwind
mod Tests
use tinyos.Base.{ℕ, List, [], ◌∷◌, Bool, true, false, not, ◌&&◌, ◌==◌, if◌then◌else◌}

-- `exception_stack_frame`, without the jump buffer, and the exception stack, the top frame first.
pub record Frame : Type 0 where
  pub catchers : List ℕ
  pub finalizers : List ℕ

-- What a handler does with an error code: whether it raises an exception that it does not catch
-- itself, and what it leaves. It is assumed to leave the exception stack as it was.
abbrev pub Handling : Type 0 → Type 0
Handling World = (handler errcode : ℕ) → World → Bool × World

-- `TRY_WITH`: a new frame without handlers.
unfoldable pub exc_push_frame : List Frame → List Frame
exc_push_frame stack = record { catchers = []; finalizers = [] } ∷ stack

-- `FINALLY` and `ON_ERROR` in the block of the top frame.
unfoldable pub add_finalizer : ℕ → List Frame → List Frame
add_finalizer h [] = []
add_finalizer h (f ∷ fs) = record f { finalizers = h ∷ f.finalizers } ∷ fs

unfoldable pub add_catcher : ℕ → List Frame → List Frame
add_catcher h [] = []
add_catcher h (f ∷ fs) = record f { catchers = h ∷ f.catchers } ∷ fs

-- Whether a catcher has run, and the error code, after the handlers of a list.
pub record Handled (World : Type 0) : Type 0 where
  pub captured : Bool
  pub errcode : ℕ
  pub world : World

module _ {World : Type 0} (run : Handling World) where
  -- The two loops of `exception_unwind`. A handler that raises jumps back to the TRY block of the
  -- frame, which calls `exception_unwind` anew with the error code 1; the handler is off its list
  -- already.
  unfoldable pub run_catchers : (captured : Bool) → (errcode : ℕ) → List ℕ → World → Handled World
  run_catchers captured errcode [] w = record { captured = captured; errcode = errcode; world = w }
  run_catchers captured errcode (c ∷ cs) w =
      let (raises, w') = run c errcode w in
      let anew = run_catchers false 1 cs w' in
      let on = run_catchers true errcode cs w' in if raises then anew else on

  unfoldable pub run_finalizers : (captured : Bool) → (errcode : ℕ) → List ℕ → World → Handled World
  run_finalizers captured errcode [] w = record {
    captured = captured;
    errcode = errcode;
    world = w;
  }
  run_finalizers captured errcode (c ∷ cs) w =
      let (raises, w') = run c errcode w in
      let anew = run_finalizers false 1 cs w' in
      let on = run_finalizers captured errcode cs w' in if raises then anew else on

  -- The handlers of a frame.
  unfoldable pub run_frame : (errcode : ℕ) → Frame → World → Handled World
  unfolding run_catchers run_finalizers
  run_frame errcode f w =
      let r = run_catchers false errcode f.catchers w in
      run_finalizers r.captured r.errcode f.finalizers r.world

  -- `exception_unwind` of the top frame; `raise_exception` at its end jumps to the next frame, if
  -- there is one. The result is the stack with which the program goes on, behind the TRY block of the
  -- frame that was popped last.
  unfoldable pub exception_unwind : (errcode : ℕ) → List Frame → World → List Frame × World
  unfolding run_frame
  exception_unwind errcode [] w = ([], w)
  exception_unwind errcode (f ∷ fs) w =
      let r = run_frame errcode f w in
      let propagated = exception_unwind 1 fs r.world in
      if not (r.errcode == 0) && not r.captured then propagated else (fs, r.world)

  -- `raise_exception`, which returns when the stack is empty.
  unfoldable pub raise_exception : List Frame → World → List Frame × World
  unfolding exception_unwind
  raise_exception stack w = exception_unwind 1 stack w

  -- `__exc_exit_try`: the block of the top frame has come to its end.
  unfoldable pub exc_exit_try : List Frame → World → List Frame × World
  unfolding exception_unwind
  exc_exit_try [] w = ([], w)
  exc_exit_try (f ∷ fs) w = exception_unwind 0 (record f { catchers = [] } ∷ fs) w
