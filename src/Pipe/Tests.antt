-- ===== src/Pipe/Tests.antt =====
-- The theorems on pipes at concrete pipes.
use tinyos.Pipe.Open.{Pipes, sys_pipe}
use tinyos.Pipe.Opened.{Opens, sys_pipe-Opens}
use tinyos.Streams.Tests.{opened, opened-IsSound, quiet, few}
use tinyos.Base.{zero, suc, ◌≡◌, refl, [], ◌∷◌, true, false, some, arith}
use tinyos.Base.Int.{pos}
use tinyos.Pipe.{Pipe, WriteRun, pipe_buffer_size, pipe_write, pipe_read, read_loop, take_byte}
use tinyos.Pipe.Inv.{IsValid, contents}
use tinyos.Pipe.Fifo
use tinyos.Pipe.Fifo.{done}
use tinyos.Pipe.Refine.{Stored, view, pipe_of, pipe_write-Stored, pipe_read-read}
use tinyos.Pipe.Overrun.{written_pipe, full_overwrites}

-- Two bytes, 7 and 9, round the end of the ring.
abbrev pub wrapped : Pipe
wrapped = record {
  reader = some 1;
  writer = some 2;
  has_space = [];
  has_data = [];
  w_position = 1;
  r_position = 16382;
  buffer = λ i. elim i [ zero ↦ 9 | suc _ ↦ 7 ];
  word_length = 2;
  freed = false;
}

abbrev pub empty : Pipe
empty = record wrapped { r_position = 1; word_length = 0 }

-- All slots taken, the next one to write being the last.
abbrev full : Pipe
full = record wrapped { w_position = 16382; word_length = 16383 }

abbrev overfull : Pipe
overfull = record wrapped { w_position = 0; word_length = 16384 }

wrapped-IsValid : IsValid wrapped
wrapped-IsValid = omega arith

contents-wrapped : contents wrapped ≡ 7 ∷ 9 ∷ []
contents-wrapped = refl

read_both : view (pipe_read 5 true 2 wrapped) ≡ done (pos 2) (7 ∷ 9 ∷ []) []
unfolding pipe_read read_loop take_byte
read_both = refl

pipe_write-Stored_example :
    (q : Pipe) × (pipe_write 5 (some (4 ∷ 6 ∷ [])) wrapped ≡ WriteRun.returned (pos 2) q)
    × Stored wrapped (4 ∷ 6 ∷ []) q
pipe_write-Stored_example =
    pipe_write-Stored 5 (4 ∷ 6 ∷ []) wrapped-IsValid refl refl (omega arith) (omega arith)

pipe_read-read_example :
    (view (pipe_read 5 true 3 wrapped) ≡ Fifo.read true 3 [] (7 ∷ 9 ∷ []))
    × IsValid (pipe_of (pipe_read 5 true 3 wrapped))
pipe_read-read_example = pipe_read-read 5 3 wrapped-IsValid refl (omega arith)

full_overwrites_example :
    let q = written_pipe (pipe_write 5 (some (4 ∷ [])) full) in
    (pipe_write 5 (some (4 ∷ [])) full ≡ WriteRun.sleeps 0 [] q)
    × (q.r_position ≡ 16382)
    × (q.buffer q.r_position ≡ 4)
    × (q.word_length ≡ pipe_buffer_size)
full_overwrites_example = full_overwrites 5 4 full (omega arith) refl refl refl

-- A table of files in which process 0 has two streams.
abbrev pipes : Pipes (Unit {0}) (Unit {0})
pipes = record { pipe = λ q. empty; files = opened }

sys_pipe-Opens_example : Opens 4 quiet few tt tt 0 3 pipes (sys_pipe tt tt 0 3 (λ i. 0) pipes)
sys_pipe-Opens_example =
    sys_pipe-Opens 4 quiet few tt tt 0 3 (λ i. 0) pipes (omega arith) opened-IsSound
