-- ===== src/Pipe/Refine.antt =====
-- The loops of `pipe_write` and `pipe_read` against the queue of Pipe/Fifo.antt.
use native.Mathlib.Nat.{add-zero}
use tinyos.Base.{
  ℕ, zero, suc, ◌+◌, ◌≤◌, ◌<◌, ◌≡◌, refl, ap, ap₂, sym, ◌∙◌, List, [], ◌∷◌, ◌++◌, true, false,
  Option, none, some, arith, ◌==◌, length, take, drop, append_assoc, append-nil, is_none, is_some,
  Bool-cases, inl, inr,
}
use tinyos.Base.Int.{pos}
use tinyos.Pipe.{
  Pipe, WriteRun, ReadRun, store_byte, written, write_result, write_loop, pipe_write, take_byte,
  read_loop, pipe_read,
}
use tinyos.Pipe.Inv.{
  IsValid, slots, contents, window, written-IsValid, contents-written, take_byte-IsValid,
  contents-take_byte,
}
use tinyos.Pipe.Fifo
use tinyos.Pipe.Fifo.{Outcome, done, asleep}

-- The pipe after the bytes have been written one by one.
pub store_all : List ℕ → Pipe → Pipe
store_all [] p = p
store_all (x ∷ xs) p = store_all xs (written (store_byte p x))

-- What writing changes, and what it leaves.
pub record Stored (p : Pipe) (bs : List ℕ) (q : Pipe) : Type 0 where
  pub valid : IsValid q
  pub bytes : contents q ≡ contents p ++ bs
  pub reader : q.reader ≡ p.reader
  pub writer : q.writer ≡ p.writer
  pub count : q.word_length ≡ p.word_length + length bs

written-keeps :
    (p : Pipe) (x : ℕ)
    → let q = written (store_byte p x) in
      (q.reader ≡ p.reader) × (q.writer ≡ p.writer) × (q.word_length ≡ p.word_length + 1)
unfolding written store_byte
written-keeps p x = (refl, refl, refl)

pub store_all-Stored :
    (bs : List ℕ) {p : Pipe}
    → IsValid p
    → p.word_length + length bs ≤ slots
    → Stored p bs (store_all bs p)
unfolding store_all
store_all-Stored [] {p} v h = record {
  valid = v;
  bytes = sym (append-nil (contents p));
  reader = refl;
  writer = refl;
  count = omega arith;
}
store_all-Stored (x ∷ xs) {p} v h =
    let q = written (store_byte p x) in
    let k = written-keeps p x in
    let s = store_all-Stored xs {p = q} (written-IsValid x v (omega arith)) (omega (arith, k)) in
    record {
      valid = s.valid;
      bytes =
          s.bytes
          ∙ ap (λ c. c ++ xs) (contents-written x v (omega arith))
          ∙ append_assoc (contents p) (x ∷ []) xs;
      reader = s.reader ∙ k.0;
      writer = s.writer ∙ k.1;
      count = omega (arith, s.count, k.2);
    }

-- While the slots suffice, the loop stores every byte and does not sleep.
write_loop-store_all :
    (self size counter : ℕ) (bs : List ℕ) {p : Pipe}
    → IsValid p
    → is_none p.reader ≡ false
    → p.word_length + length bs ≤ slots
    → write_loop self size counter bs p
      ≡ WriteRun.returned (pos (counter + length bs)) (store_all bs p)
unfolding write_loop store_all
write_loop-store_all self size counter [] {p} v r h = unfold write_result in rw (r, add-zero)
write_loop-store_all self size counter (x ∷ xs) {p} v r h =
    let k = written-keeps p x in
    let full : ((store_byte p x).word_length == 16384) ≡ false =
      unfold store_byte in ground arith in
    rw (r, full)
      (write_loop-store_all self size (counter + 1) xs {p = written (store_byte p x)}
          (written-IsValid x v (omega arith)) (ground (arith, k.0)) (omega (arith, k.2))
        ∙ ap (λ n. WriteRun.returned (pos n) (store_all xs (written (store_byte p x))))
            (omega arith))

-- A write of at least one byte to an open pipe that has room for all of them returns their number
-- without sleeping, and the bytes then stand behind the unread ones, in order. The invariant holds
-- again, and the ends stay as they were.
pub pipe_write-Stored :
    (self : ℕ) (bs : List ℕ) {p : Pipe}
    → IsValid p
    → is_none p.writer ≡ false
    → is_none p.reader ≡ false
    → 0 < length bs
    → p.word_length + length bs ≤ slots
    → (q : Pipe) × (pipe_write self (some bs) p ≡ WriteRun.returned (pos (length bs)) q)
      × Stored p bs q
unfolding pipe_write
pipe_write-Stored self bs {p} v w r pos_len h = (
  store_all bs p,
  ground (arith, write_loop-store_all self (length bs) 0 bs v),
  store_all-Stored bs v h,
)

abbrev pub view : ReadRun → Outcome
view (ReadRun.returned r out p) = done r out (contents p)
view (ReadRun.sleeps left out p) = asleep left out (contents p)

abbrev pub pipe_of : ReadRun → Pipe
pipe_of (ReadRun.returned r out p) = p
pipe_of (ReadRun.sleeps left out p) = p

take_byte-writer : (p : Pipe) → (take_byte p).writer ≡ p.writer
unfolding take_byte
take_byte-writer p = refl

not_none : {A : Type 0} (o : Option A) → is_none o ≡ false → is_some o ≡ true
not_none none h = cc
not_none (some a) h = refl

contents_empty : (p : Pipe) → p.word_length ≡ 0 → contents p ≡ []
contents_empty p e = ap (λ n. window p.buffer p.r_position n) e

read_loop-read :
    (self left : ℕ) (out : List ℕ) {p : Pipe}
    → IsValid p
    → (view (read_loop self left out p) ≡ Fifo.read (is_some p.writer) left out (contents p))
      × IsValid (pipe_of (read_loop self left out p))
unfolding read_loop Fifo.read
read_loop-read self zero out v = (refl, v)
read_loop-read self (suc left) out {p} v = elim (Bool-cases (p.word_length == 0)) [
  | inl empty ↦ ground (arith, contents_empty p)
  | inr more ↦
      let next =
        read_loop-read self left (out ++ (p.buffer p.r_position ∷ [])) {p = take_byte p}
          (take_byte-IsValid v (ground arith)) in
      rw (more, contents-take_byte v (ground arith))
        (
          next.0
              ∙ ap
                  (λ w.
                    Fifo.read (is_some w) left (out ++ (p.buffer p.r_position ∷ []))
                      (contents (take_byte p)))
                  (take_byte-writer p),
          next.1,
        )
]

-- On a pipe with its read end open, a read of at least one byte does what the queue of its unread
-- bytes does: it returns the same bytes and count, or sleeps at the same point, and leaves the same
-- queue; and the invariant holds again.
pub pipe_read-read :
    (self n : ℕ) {p : Pipe}
    → IsValid p
    → is_none p.reader ≡ false
    → 0 < n
    → (view (pipe_read self true n p) ≡ Fifo.read (is_some p.writer) n [] (contents p))
      × IsValid (pipe_of (pipe_read self true n p))
unfolding pipe_read
pipe_read-read self n v r h = ground (arith, read_loop-read self n [] v)

take_all : (xs : List ℕ) → take (length xs) xs ≡ xs
take_all [] = refl
take_all (x ∷ xs) = ap (λ l. x ∷ l) (take_all xs)

drop_all : (xs : List ℕ) → drop (length xs) xs ≡ []
drop_all [] = refl
drop_all (x ∷ xs) = drop_all xs

-- What is written to an empty open pipe, at least one byte and at most its capacity, comes out of one
-- read unchanged.
pub pipe_read-pipe_write :
    (self other : ℕ) (bs : List ℕ) {p : Pipe}
    → IsValid p
    → p.word_length ≡ 0
    → is_none p.writer ≡ false
    → is_none p.reader ≡ false
    → 0 < length bs
    → length bs ≤ slots
    → (q : Pipe) × (pipe_write self (some bs) p ≡ WriteRun.returned (pos (length bs)) q)
      × (view (pipe_read other true (length bs) q) ≡ done (pos (length bs)) bs [])
pipe_read-pipe_write self other bs {p} v e w r h room =
    let (q, runs, s) = pipe_write-Stored self bs v w r h (omega arith) in
    let held : contents q ≡ bs = s.bytes ∙ ap (λ c. c ++ bs) (contents_empty p e) in
    (
      q,
      runs,
      (pipe_read-read other (length bs) s.valid (ground (arith, s.reader)) h).0
          ∙ ap (Fifo.read (is_some q.writer) (length bs) []) held
          ∙ Fifo.read-take (is_some q.writer) (length bs) [] bs (omega arith)
          ∙ ap₂ (λ a b. done (pos (length a)) a b) (take_all bs) (drop_all bs),
    )
