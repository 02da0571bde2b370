-- ===== src/Args.antt =====
-- The packing of string arrays into argument buffers of util.h. A string is the list of its bytes
-- without the final zero, and a pointer into a buffer is the rest of the buffer from there on.
pub mod Round
mod Tests
use tinyos.Base.{
  ℕ, zero, suc, ◌+◌, List, [], ◌∷◌, ◌++◌, Option, none, some, ◌==◌, if◌then◌else◌, length,
}

-- The loop of `argvlen`.
unfoldable pub argvlen : List (List ℕ) → ℕ
argvlen [] = 0
argvlen (s ∷ argv) = length s + 1 + argvlen argv

-- The inner loop of `argvpack` on one string: the bytes that it stores, with the zero, and how often
-- it counts.
unfoldable pub copy_string : List ℕ → List ℕ × ℕ
copy_string [] = (0 ∷ [], 0)
copy_string (c ∷ s) = let (bytes, n) = copy_string s in (c ∷ bytes, n + 1)

unfoldable pub pack_strings : List (List ℕ) → List ℕ × ℕ
unfolding copy_string
pack_strings [] = ([], 0)
pack_strings (s ∷ argv) =
    let (bytes, n) = copy_string s in let (more, m) = pack_strings argv in (bytes ++ more, n + m)

-- `argvpack`: the bytes that are stored, and the length that it returns.
unfoldable pub argvpack : List (List ℕ) → List ℕ × ℕ
unfolding pack_strings
argvpack argv = let (bytes, argl) = pack_strings argv in (bytes, argl + length argv)

-- `argscount` of the first `argl` bytes; `none` is a read behind the buffer.
unfoldable pub argscount : (argl : ℕ) → List ℕ → Option ℕ
argscount zero args = some 0
argscount (suc argl) [] = none
argscount (suc argl) (c ∷ args) = elim (argscount argl args) [
  | none ↦ none
  | some n ↦ some (if c == 0 then n + 1 else n)
]

-- The inner loop of `argvunpack`, which skips a string and its zero.
unfoldable pub skip_string : List ℕ → Option (List ℕ)
skip_string [] = none
skip_string (c ∷ a) = let rest = skip_string a in if c == 0 then some a else rest

-- `argvunpack`: the pointers that it stores, and the first location not unpacked.
unfoldable pub argvunpack : (argc : ℕ) → List ℕ → Option (List (List ℕ) × List ℕ)
unfolding skip_string
argvunpack zero a = some ([], a)
argvunpack (suc argc) a = elim (skip_string a) [
  | none ↦ none
  | some rest ↦ elim (argvunpack argc rest) [
    | none ↦ none
    | some (argv, end) ↦ some (a ∷ argv, end)
  ]
]
