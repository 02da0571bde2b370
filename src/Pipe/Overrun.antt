-- ===== src/Pipe/Overrun.antt =====
-- Where `pipe_write` departs from a bounded queue. Its positions use one slot less than the buffer
-- has, but it waits only when the count of bytes reaches the size of the buffer.
use tinyos.Base.{ℕ, ◌-◌, ◌≡◌, List, [], ◌∷◌, ◌++◌, true, false, some, arith, is_none}
use tinyos.Base.Int.{pos}
use tinyos.Pipe.{
  Pipe, WriteRun, pipe_buffer_size, store_byte, written, write_result, write_loop, write_resume,
  pipe_write, take_byte, read_loop, pipe_read, pipe_reader_close,
}
use tinyos.Pipe.Inv.{IsValid, slots}
use tinyos.Pipe.Refine.{pipe_of}

abbrev pub written_pipe : WriteRun → Pipe
written_pipe (WriteRun.returned r p) = p
written_pipe (WriteRun.sleeps c rest p) = p

-- On an open pipe with every slot taken, the one byte of a write is written over the oldest unread
-- one, and only then does the writer sleep.
pub full_overwrites :
    (self x : ℕ) (p : Pipe)
    → IsValid p
    → is_none p.writer ≡ false
    → is_none p.reader ≡ false
    → p.word_length ≡ slots
    → let q = written_pipe (pipe_write self (some (x ∷ [])) p) in
      (pipe_write self (some (x ∷ [])) p ≡ WriteRun.sleeps 0 [] q)
      × (q.r_position ≡ p.r_position)
      × (q.buffer q.r_position ≡ x)
      × (q.word_length ≡ pipe_buffer_size)
unfolding pipe_write write_loop store_byte
full_overwrites self x p v w r full = ground arith

-- The close of the read end wakes no writer that sleeps on a full pipe, and a writer that runs again
-- after it, for another reason, goes back to sleep.
pub write_resume-pipe_reader_close :
    (self size counter : ℕ) (rest : List ℕ) (p : Pipe)
    → p.word_length ≡ pipe_buffer_size
    → let q = (pipe_reader_close p).1 in
      (q.has_space ≡ p.has_space)
      × (write_resume self size counter rest q
          ≡ WriteRun.sleeps counter rest (record q { has_space = q.has_space ++ (self ∷ []) }))
unfolding pipe_reader_close write_resume
write_resume-pipe_reader_close self size counter rest p full = ground arith

-- A writer sleeps before its position has gone round. If the pipe was full with the position at the
-- last slot, and three bytes are read before the sleeper runs again, then a second writer of two bytes
-- stores the last one behind the end of the buffer.
pub second_writer_overflows :
    (first reader second x y z : ℕ) (p : Pipe)
    → IsValid p
    → is_none p.writer ≡ false
    → is_none p.reader ≡ false
    → p.word_length ≡ slots
    → p.w_position ≡ slots - 1
    → let slept = written_pipe (pipe_write first (some (x ∷ [])) p) in
      let drained = pipe_of (pipe_read reader true 3 slept) in
      let q = written_pipe (pipe_write second (some (y ∷ z ∷ [])) drained) in
      (pipe_write second (some (y ∷ z ∷ [])) drained ≡ WriteRun.returned (pos 2) q)
      × (q.buffer pipe_buffer_size ≡ z)
unfolding pipe_write write_loop write_result store_byte written pipe_read read_loop take_byte
second_writer_overflows first reader second x y z p v w r full at_end = ground arith
