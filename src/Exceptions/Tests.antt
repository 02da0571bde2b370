-- ===== src/Exceptions/Tests.antt =====
-- A stack of three frames, of which the second has a catcher.
use tinyos.Base.{◌≡◌, List, [], ◌∷◌, false, ◌==◌, refl}
use tinyos.Exceptions.{
  Frame, Handling, run_catchers, run_finalizers, run_frame, exception_unwind, raise_exception,
}
use tinyos.Exceptions.Unwind.{logged, Ran, raise_exception-Ran}

abbrev frames : List Frame
frames =
    record { catchers = []; finalizers = 11 ∷ [] }
    ∷ record { catchers = 20 ∷ 21 ∷ []; finalizers = 22 ∷ [] }
    ∷ record { catchers = []; finalizers = 31 ∷ [] }
    ∷ []

-- A handling in which the handler 21 raises, and one in which none does.
abbrev rethrow : Handling (Unit {0})
rethrow h errcode w = (h == 21, w)

abbrev calm : Handling (Unit {0})
calm h errcode w = (false, w)

raise_exception-Ran_example : Ran frames [] (raise_exception (logged rethrow) frames (tt, []))
raise_exception-Ran_example = raise_exception-Ran rethrow frames tt []

-- The catcher 20 returns and 21 raises: the exception goes on to the third frame.
rethrown :
    raise_exception (logged rethrow) frames (tt, []) ≡ ([], (tt, 11 ∷ 20 ∷ 21 ∷ 22 ∷ 31 ∷ []))
unfolding raise_exception exception_unwind run_frame run_catchers run_finalizers
rethrown = refl

caught :
    raise_exception (logged calm) frames (tt, [])
    ≡ (record { catchers = []; finalizers = 31 ∷ [] } ∷ [], (tt, 11 ∷ 20 ∷ 21 ∷ 22 ∷ []))
unfolding raise_exception exception_unwind run_frame run_catchers run_finalizers
caught = refl
