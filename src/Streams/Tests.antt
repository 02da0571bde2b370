-- ===== src/Streams/Tests.antt =====
-- The theorems on streams, from the state after `initialize_files`.
use tinyos.Base.{ℕ, refl, [], true, none, arith}
use tinyos.Base.Int.{pos}
use tinyos.Streams.{Files, Driver, initialize_files, fcb_reserve, sys_close, sys_dup2}
use tinyos.Streams.Calls.{IsSound, IsFew, sys_close-IsSound, sys_dup2-IsSound}
use tinyos.Streams.Reserve.{
  Reserved, fcb_reserve-Reserved, fcb_reserve-IsSound, initialize_files-IsSound,
}

-- A device that swallows and gives nothing; its world is empty.
abbrev pub null_driver : Driver (Unit {0}) (Unit {0})
null_driver = record {
  can_read = λ ops. true;
  can_write = λ ops. true;
  read = λ ops obj size s. (pos size, s);
  write = λ ops obj buf s. (pos 0, s);
  close = λ ops obj w. (pos 0, w);
}

abbrev pub before : Files (Unit {0}) (Unit {0})
before = record {
  fcb = λ f. record { refcount = 7; streamobj = none; streamfunc = tt };
  freelist = [];
  fidt = λ p i. none;
  world = tt;
}

-- The file system at boot, and after process 0 has reserved two streams.
boot : Files (Unit {0}) (Unit {0})
boot = initialize_files before

pub opened : Files (Unit {0}) (Unit {0})
opened = (fcb_reserve 0 2 boot).1

abbrev pub quiet : ℕ → ℕ
quiet f = 0

pub few : IsFew 4 quiet
few = record { procs = omega arith; calls = λ f. omega arith }

pub opened-IsSound : IsSound 4 quiet opened
unfolding opened boot
opened-IsSound =
    fcb_reserve-IsSound 4 quiet few 0 2 boot (omega arith)
      (initialize_files-IsSound 4 before (λ p i h. refl))

fcb_reserve-Reserved_example : Reserved 4 quiet few 0 2 opened (fcb_reserve 0 2 opened)
fcb_reserve-Reserved_example =
    fcb_reserve-Reserved 4 quiet few 0 2 opened (omega arith) opened-IsSound

sys_close-IsSound_example : IsSound 4 quiet (sys_close null_driver 0 (pos 1) opened).1
sys_close-IsSound_example =
    sys_close-IsSound 4 quiet few null_driver 0 (pos 1) opened (omega arith) opened-IsSound

sys_dup2-IsSound_example : IsSound 4 quiet (sys_dup2 null_driver 0 (pos 1) (pos 0) opened).1
sys_dup2-IsSound_example =
    sys_dup2-IsSound 4 quiet few null_driver 0 (pos 1) (pos 0) opened (omega arith) opened-IsSound
