-- ===== src/Pipe/Fifo.antt =====
-- What a pipe promises: a queue of bytes, read from the front, with two ends that may be closed.
use tinyos.Base.{
  ℕ, zero, suc, ◌≤◌, ◌≡◌, List, [], ◌∷◌, ◌++◌, Bool, arith, if◌then◌else◌, length, take, drop,
  append_assoc, append-nil,
}
use tinyos.Base.Int.{ℤ, pos}

-- What a reader sees: it has returned, or it still wants `left` bytes and sleeps.
pub data Outcome : Type 0 where
  done : ℤ → (out rest : List ℕ) → Outcome
  asleep : (left : ℕ) → (out rest : List ℕ) → Outcome

-- A read of `left` more bytes; `open_end` says that the write end is open.
unfoldable pub read : (open_end : Bool) → (left : ℕ) → (out queue : List ℕ) → Outcome
read open_end zero out queue = done (pos (length out)) out queue
read open_end (suc left) out [] =
    if open_end then asleep (suc left) out [] else done (pos (length out)) out []
read open_end (suc left) out (x ∷ queue) = read open_end left (out ++ (x ∷ [])) queue

-- A read of no more than the queue holds gives its front, in order, and leaves the rest.
pub read-take :
    (open_end : Bool) (n : ℕ) (out queue : List ℕ)
    → n ≤ length queue
    → read open_end n out queue
      ≡ done (pos (length (out ++ take n queue))) (out ++ take n queue) (drop n queue)
unfolding read
read-take open_end zero out queue h = rw (append-nil out)
read-take open_end (suc n) out [] h = absurd (omega arith)
read-take open_end (suc n) out (x ∷ queue) h =
    rw (read-take open_end n (out ++ (x ∷ [])) queue (omega arith), append_assoc out (x ∷ []))
