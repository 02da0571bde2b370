-- ===== src/Pipe.antt =====
-- The pipes of kernel_pipe.c and kernel_pipe.h: a byte ring between a reader and a writer.
pub mod Inv
pub mod Fifo
pub mod Refine
pub mod Ends
pub mod Open
pub mod Opened
pub mod Overrun
pub mod Tests
use tinyos.Base.{
  ℕ, zero, suc, ◌+◌, ◌-◌, List, [], ◌∷◌, ◌++◌, Bool, true, false, ◌||◌, Option, none, some, ◌==◌,
  ltb, if◌then◌else◌, update, length, is_none,
}
use tinyos.Base.Int.{ℤ, pos, minus_one}

abbrev pub pipe_buffer_size : ℕ
pipe_buffer_size = 16384

-- `Pipe_CB`. FCBs and threads are named by numbers, `none` is NULL, and a condition variable is the
-- list of the threads that sleep on it. `freed` records the call of `free`.
pub record Pipe : Type 0 where
  pub reader : Option ℕ
  pub writer : Option ℕ
  pub has_space : List ℕ
  pub has_data : List ℕ
  pub w_position : ℕ
  pub r_position : ℕ
  pub buffer : ℕ → ℕ
  pub word_length : ℕ
  pub freed : Bool

-- `pipe_init`. The buffer comes from `xmalloc`, so its first content is the argument.
unfoldable pub pipe_init : (ℕ → ℕ) → Pipe
pipe_init memory = record {
  reader = none;
  writer = none;
  has_space = [];
  has_data = [];
  w_position = 0;
  r_position = 0;
  buffer = memory;
  word_length = 0;
  freed = false;
}

-- What a call that may sleep comes to: it returns, or it sleeps in `kernel_wait` with the pipe in
-- the state that the other threads then find.
pub data WriteRun : Type 0 where
  returned : ℤ → Pipe → WriteRun
  sleeps : (counter : ℕ) → (rest : List ℕ) → Pipe → WriteRun

-- The assignments at the top of the loop of `pipe_write`.
unfoldable pub store_byte : Pipe → ℕ → Pipe
store_byte p x = record p {
  w_position = p.w_position + 1;
  buffer = update p.buffer p.w_position x;
  word_length = p.word_length + 1;
}

-- The end of the loop's body, once there is space: the writer's position goes round, and the
-- readers are woken by the broadcast.
unfoldable pub written : Pipe → Pipe
written p = record p {
  w_position = if p.w_position == pipe_buffer_size - 1 then 0 else p.w_position;
  has_data = [];
}

-- The two lines behind the loop.
unfoldable pub write_result : ℕ → ℕ → Pipe → ℤ
write_result size counter p =
    if is_none p.reader
    then (if p.word_length == size then minus_one else pos counter)
    else pos counter

-- The loop of `pipe_write` from its head, with the bytes that are left; `self` is the caller.
unfoldable pub write_loop : (self size counter : ℕ) → List ℕ → Pipe → WriteRun
write_loop self size counter [] p = returned (write_result size counter p) p
write_loop self size counter (x ∷ rest) p =
    let q = store_byte p x in
    let more = write_loop self size (counter + 1) rest (written q) in
    if is_none p.reader
    then returned (write_result size counter p) p
    else if q.word_length == pipe_buffer_size
    then sleeps counter rest (record q { has_space = q.has_space ++ (self ∷ []) })
    else more

-- What a sleeper does when it runs again: it tests for space once more.
unfoldable pub write_resume : (self size counter : ℕ) → List ℕ → Pipe → WriteRun
write_resume self size counter rest p =
    if p.word_length == pipe_buffer_size
    then sleeps counter rest (record p { has_space = p.has_space ++ (self ∷ []) })
    else write_loop self size (counter + 1) rest (written p)

-- `pipe_write`. The buffer is its `size` bytes, `none` for NULL; a NULL pipe is `none`.
unfoldable pub pipe_write : (self : ℕ) → Option (List ℕ) → Pipe → WriteRun
pipe_write self none p = returned minus_one p
pipe_write self (some buf) p =
    if ltb (length buf) 1 || is_none p.writer || is_none p.reader
    then returned minus_one p
    else write_loop self (length buf) 0 buf p

-- As for `WriteRun`; `out` is what the caller's buffer holds so far.
pub data ReadRun : Type 0 where
  returned : ℤ → (out : List ℕ) → Pipe → ReadRun
  sleeps : (left : ℕ) → (out : List ℕ) → Pipe → ReadRun

-- The body of the loop of `pipe_read` behind the wait.
unfoldable pub take_byte : Pipe → Pipe
take_byte p =
    let r = p.r_position + 1 in
    let n = p.word_length - 1 in
    record p {
      r_position = if r == pipe_buffer_size - 1 then 0 else r;
      word_length = n;
      has_space = if ltb n pipe_buffer_size then [] else p.has_space;
    }

-- The loop of `pipe_read`, with the number of bytes that are still wanted.
unfoldable pub read_loop : (self left : ℕ) → List ℕ → Pipe → ReadRun
read_loop self zero out p = returned (pos (length out)) out p
read_loop self (suc left) out p =
    let more = read_loop self left (out ++ (p.buffer p.r_position ∷ [])) (take_byte p) in
    if p.word_length == 0
    then (if is_none p.writer
        then returned (pos (length out)) out p
        else sleeps (suc left) out (record p { has_data = p.has_data ++ (self ∷ []) }))
    else more

-- `pipe_read`. `has_buf` tells a buffer from NULL.
unfoldable pub pipe_read : (self : ℕ) → (has_buf : Bool) → (size : ℕ) → Pipe → ReadRun
pipe_read self has_buf size p =
    if has_buf
    then (if ltb size 1 || is_none p.reader
        then returned minus_one [] p
        else read_loop self size [] p)
    else returned minus_one [] p

-- `pipe_writer_close`: the broadcast wakes the readers, and the last end frees the block.
unfoldable pub pipe_writer_close : Pipe → ℤ × Pipe
pipe_writer_close p =
    if is_none p.writer
    then (minus_one, p)
    else (pos 0, record p { writer = none; has_data = []; freed = is_none p.reader || p.freed })

-- `pipe_reader_close`: no broadcast here.
unfoldable pub pipe_reader_close : Pipe → ℤ × Pipe
pipe_reader_close p =
    if is_none p.reader
    then (minus_one, p)
    else (pos 0, record p { reader = none; freed = is_none p.writer || p.freed })
