-- ===== src/Pipe/Ends.antt =====
-- Closing the two ends of a pipe: `pipe_reader_close`, `pipe_writer_close` and what comes after.
use tinyos.Base.{
  ℕ, zero, suc, ◌<◌, ◌≡◌, refl, ◌∙◌, List, [], ◌∷◌, ◌++◌, true, false, ◌&&◌, ◌||◌, Option, none,
  some, arith, if◌then◌else◌, length, take, drop, append_assoc, append-nil, is_none,
}
use tinyos.Base.Int.{pos, minus_one}
use tinyos.Pipe.{Pipe, WriteRun, pipe_write, pipe_read, pipe_reader_close, pipe_writer_close}
use tinyos.Pipe.Inv.{IsValid, contents}
use tinyos.Pipe.Fifo
use tinyos.Pipe.Fifo.{Outcome, done, asleep}
use tinyos.Pipe.Refine.{view, pipe_read-read}

-- The block is freed when both ends are closed, and not before.
abbrev pub IsFreedLast : Pipe → Type 0
IsFreedLast p = p.freed ≡ (is_none p.reader && is_none p.writer)

-- Each close keeps it, whether it succeeds or not; a close succeeds exactly at an open end.
pub close-IsFreedLast :
    (p : Pipe)
    → IsFreedLast p
    → IsFreedLast (pipe_reader_close p).1
      × IsFreedLast (pipe_writer_close p).1
      × ((pipe_reader_close p).0 ≡ (if is_none p.reader then minus_one else pos 0))
      × ((pipe_writer_close p).0 ≡ (if is_none p.writer then minus_one else pos 0))
unfolding pipe_reader_close pipe_writer_close
close-IsFreedLast p h = ground arith

-- In whichever order the two open ends are closed, the second close frees the block, and any further close of
-- either end fails and changes nothing.
pub close_both :
    (p : Pipe)
    → is_none p.reader ≡ false
    → is_none p.writer ≡ false
    → let q = (pipe_writer_close (pipe_reader_close p).1).1 in
      let q' = (pipe_reader_close (pipe_writer_close p).1).1 in
      (q.freed ≡ true)
      × (q'.freed ≡ true)
      × (pipe_reader_close q ≡ (minus_one, q))
      × (pipe_writer_close q' ≡ (minus_one, q'))
unfolding pipe_reader_close pipe_writer_close
close_both p r w = ground arith

-- Once the read end is closed, every write fails at once and changes nothing.
pub pipe_write-pipe_reader_close :
    (self : ℕ) (buf : Option (List ℕ)) (p : Pipe)
    → let q = (pipe_reader_close p).1 in pipe_write self buf q ≡ WriteRun.returned minus_one q
unfolding pipe_reader_close pipe_write
pipe_write-pipe_reader_close self none p = refl
pipe_write-pipe_reader_close self (some buf) p = ground arith

read_closed :
    (n : ℕ) (out queue : List ℕ)
    → Fifo.read false n out queue
      ≡ done (pos (length (out ++ take n queue))) (out ++ take n queue) (drop n queue)
unfolding Fifo.read
read_closed zero out queue = rw (append-nil out)
read_closed (suc n) out [] = rw (append-nil out)
read_closed (suc n) out (x ∷ queue) =
    rw (read_closed n (out ++ (x ∷ [])) queue, append_assoc out (x ∷ []))

-- When the write end of an open pipe is closed, a read of at least one byte never sleeps: it returns
-- the unread bytes, as many as were asked for or are left, and so 0 when there are none.
pub pipe_read-pipe_writer_close :
    (self n : ℕ) {p : Pipe}
    → IsValid p
    → is_none p.reader ≡ false
    → is_none p.writer ≡ false
    → 0 < n
    → view (pipe_read self true n (pipe_writer_close p).1)
      ≡ done (pos (length (take n (contents p)))) (take n (contents p)) (drop n (contents p))
unfolding pipe_writer_close
pipe_read-pipe_writer_close self n {p} v r w h =
    rw w ((pipe_read-read self n (closed v) r h).0 ∙ read_closed n [] (contents p))
  where
    closed :
        IsValid p
        → IsValid (record p { writer = none; has_data = []; freed = is_none p.reader || p.freed })
    closed v = ground arith
