-- ===== src/Args/Tests.antt =====
-- Packing of the words of a command line.
use tinyos.Base.{ℕ, ◌≡◌, List, [], ◌∷◌, refl}
use tinyos.Args.{argvpack}
use tinyos.Args.Round.{Packed, argvpack-Packed}

-- "ls", the empty string, "a b".
abbrev words : List (List ℕ)
words = (b'l' ∷ b's' ∷ []) ∷ [] ∷ (b'a' ∷ b' ' ∷ b'b' ∷ []) ∷ []

pack_words : argvpack words ≡ (b'l' ∷ b's' ∷ 0 ∷ 0 ∷ b'a' ∷ b' ' ∷ b'b' ∷ 0 ∷ [], 8)
unfolding argvpack
pack_words = refl

argvpack-Packed_example : Packed words (argvpack words).1 (argvpack words).0
argvpack-Packed_example = argvpack-Packed words (refl, (refl, (refl, tt)))
