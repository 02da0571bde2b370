-- ===== src/Pipe/Inv.antt =====
-- The representation invariant of `Pipe_CB` between calls, and the bytes that it holds.
use native.Mathlib.Numerals.{add-one}
use tinyos.Base.{
  ℕ, zero, suc, ◌+◌, ◌-◌, ◌%◌, ◌≤◌, ◌<◌, ◌≡◌, refl, ap, ap₂, List, [], ◌∷◌, ◌++◌, arith, update,
  length,
}
use tinyos.Pipe.{Pipe, pipe_buffer_size, pipe_init, store_byte, written, take_byte}

-- The positions go round one slot before the end of the buffer.
abbrev pub slots : ℕ
slots = pipe_buffer_size - 1

pub record IsValid (p : Pipe) : Type 0 where
  pub w_in : p.w_position < slots
  pub r_in : p.r_position < slots
  pub few : p.word_length ≤ slots
  pub apart : p.w_position ≡ (p.r_position + p.word_length) % slots

-- The `n` bytes from slot `h` on.
abbrev pub window : (ℕ → ℕ) → ℕ → ℕ → List ℕ
window buf h zero = []
window buf h (suc n) = buf h ∷ window buf ((h + 1) % slots) n

-- The unread bytes, the oldest first.
abbrev pub contents : Pipe → List ℕ
contents p = window p.buffer p.r_position p.word_length

pub length-window : (buf : ℕ → ℕ) (h n : ℕ) → length (window buf h n) ≡ n
length-window buf h zero = refl
length-window buf h (suc n) = ap suc (length-window buf ((h + 1) % slots) n)

pub window_pos :
    (buf : ℕ → ℕ) (h n : ℕ) → 0 < n → window buf h n ≡ buf h ∷ window buf ((h + 1) % slots) (n - 1)
window_pos buf h zero q = absurd (omega arith)
window_pos buf h (suc n) q = ap (λ k. window buf h (suc k)) (omega arith)

-- A byte stored just behind a window extends it.
pub window-update :
    (buf : ℕ → ℕ) (x n h i : ℕ)
    → h < slots
    → n < slots
    → i ≡ (h + n) % slots
    → window (update buf i x) h (suc n) ≡ window buf h n ++ (x ∷ [])
window-update buf x zero h i hh hn e = ground arith
window-update buf x (suc n) h i hh hn e =
    ap₂ ◌∷◌ (ground arith)
      (window-update buf x n ((h + 1) % slots) i (omega arith) (omega arith) (omega arith))

pub pipe_init-IsValid : (memory : ℕ → ℕ) → IsValid (pipe_init memory)
unfolding pipe_init
pipe_init-IsValid memory = omega arith

-- One round of the loop of `pipe_write`.
pub written-IsValid :
    {p : Pipe} (x : ℕ) → IsValid p → p.word_length < slots → IsValid (written (store_byte p x))
unfolding written store_byte
written-IsValid x v h = ground arith

pub contents-written :
    {p : Pipe} (x : ℕ)
    → IsValid p
    → p.word_length < slots
    → contents (written (store_byte p x)) ≡ contents p ++ (x ∷ [])
unfolding written store_byte
contents-written {p} x v h =
    rw add-one (window-update p.buffer x p.word_length p.r_position p.w_position v.r_in h v.apart)

-- One round of the loop of `pipe_read`.
pub take_byte-IsValid : {p : Pipe} → IsValid p → 0 < p.word_length → IsValid (take_byte p)
unfolding take_byte
take_byte-IsValid v h = ground arith

pub contents-take_byte :
    {p : Pipe}
    → IsValid p
    → 0 < p.word_length
    → contents p ≡ p.buffer p.r_position ∷ contents (take_byte p)
unfolding take_byte
contents-take_byte {p} v h = ground (arith, window_pos p.buffer p.r_position p.word_length)
