-- ===== src/Args/Round.antt =====
-- What is packed is unpacked again.
use tinyos.Base.{
  ℕ, zero, suc, ◌+◌, ◌≡◌, List, [], ◌∷◌, ◌++◌, map, some, ◌==◌, if◌then◌else◌, length,
  length-append, count, arith, refl, ap, ap₂, append_assoc, ◌∙◌, subst, sym,
}
use tinyos.Args.{argvlen, copy_string, pack_strings, argvpack, argscount, skip_string, argvunpack}

-- No string of the array has a zero byte.
abbrev pub AreTexts : List (List ℕ) → Type 0
AreTexts [] = Unit
AreTexts (s ∷ argv) = (count 0 s ≡ 0) × AreTexts argv

-- The string at which a pointer points.
unfoldable pub text_at : List ℕ → List ℕ
text_at [] = []
text_at (c ∷ a) = let rest = text_at a in if c == 0 then [] else c ∷ rest

copy_string-append : (s : List ℕ) → (copy_string s).0 ≡ s ++ (0 ∷ [])
unfolding copy_string
copy_string-append [] = refl
copy_string-append (c ∷ s) = ap (λ l. c ∷ l) (copy_string-append s)

copy_string-length : (s : List ℕ) → (copy_string s).1 ≡ length s
unfolding copy_string
copy_string-length [] = refl
copy_string-length (c ∷ s) = omega (arith, copy_string-length s)

skip_string-append : (s rest : List ℕ) → count 0 s ≡ 0 → skip_string (s ++ (0 ∷ rest)) ≡ some rest
unfolding skip_string
skip_string-append [] rest h = ground arith
skip_string-append (c ∷ s) rest h = ground (arith, skip_string-append s rest)

text_at-append : (s rest : List ℕ) → count 0 s ≡ 0 → text_at (s ++ (0 ∷ rest)) ≡ s
unfolding text_at
text_at-append [] rest h = ground arith
text_at-append (c ∷ s) rest h = ground (arith, text_at-append s rest)

argscount-append :
    (m : ℕ) (s rest : List ℕ) (l n : ℕ)
    → m ≡ length s + 1 + l
    → count 0 s ≡ 0
    → argscount l rest ≡ some n
    → argscount m (s ++ (0 ∷ rest)) ≡ some (n + 1)
unfolding argscount
argscount-append zero s rest l n q h e = absurd (omega arith)
argscount-append (suc m) [] rest l n q h e =
    ground (arith, ap (λ k. argscount k rest) (same m l q), e)
  where
    same : (m l : ℕ) → suc m ≡ 0 + 1 + l → m ≡ l
    same m l q = omega arith
argscount-append (suc m) (c ∷ s) rest l n q h e = ground (arith, argscount-append m s rest l n)

-- The packed bytes of an array, one string in front of the others.
pack_strings-cons :
    (s : List ℕ) (argv : List (List ℕ))
    → ((pack_strings (s ∷ argv)).0 ≡ s ++ (0 ∷ (pack_strings argv).0))
      × ((pack_strings (s ∷ argv)).1 ≡ length s + (pack_strings argv).1)
unfolding pack_strings
pack_strings-cons s argv = (
  ap (λ b. b ++ (pack_strings argv).0) (copy_string-append s)
      ∙ append_assoc s (0 ∷ []) (pack_strings argv).0,
  ap (λ n. n + (pack_strings argv).1) (copy_string-length s),
)

-- What packing an array, and reading the buffer again, comes to.
pub record Packed (argv : List (List ℕ)) (argl : ℕ) (bytes : List ℕ) : Type 0 where
  pub len : argl ≡ length bytes
  pub measured : argl ≡ argvlen argv
  pub counted : argscount argl bytes ≡ some (length argv)
  pub unpacked :
      (pointers : List (List ℕ)) × (argvunpack (length argv) bytes ≡ some (pointers, []))
      × (map text_at pointers ≡ argv)

Packed-nil : Packed [] 0 []
unfolding argvlen argscount argvunpack
Packed-nil = record { len = refl; measured = refl; counted = refl; unpacked = ([], refl, refl) }

Packed-cons :
    (s : List ℕ) (argv : List (List ℕ)) (argl : ℕ) (bytes : List ℕ)
    → count 0 s ≡ 0
    → Packed argv argl bytes
    → Packed (s ∷ argv) (length s + 1 + argl) (s ++ (0 ∷ bytes))
unfolding argvlen argvunpack
Packed-cons s argv argl bytes h p =
    let (pointers, e, same) = p.unpacked in
    record {
      len = omega (arith, p.len, length-append s (0 ∷ bytes));
      measured = omega (arith, p.measured);
      counted =
          argscount-append (length s + 1 + argl) s bytes argl (length argv) refl h p.counted
          ∙ ap some (omega arith);
      unpacked = (
        (s ++ (0 ∷ bytes)) ∷ pointers,
        rw (skip_string-append s bytes h, argvunpack) (rw (e, argvunpack) refl),
        ap₂ ◌∷◌ (text_at-append s bytes h) same,
      );
    }

pack_strings-Packed :
    (argv : List (List ℕ))
    → AreTexts argv
    → Packed argv ((pack_strings argv).1 + length argv) (pack_strings argv).0
unfolding pack_strings
pack_strings-Packed [] h = Packed-nil
pack_strings-Packed (s ∷ argv) h =
    let (bytes, n) = pack_strings-cons s argv in
    let p =
      Packed-cons s argv ((pack_strings argv).1 + length argv) (pack_strings argv).0 h.0
        (pack_strings-Packed argv h.1) in
    subst (λ b. Packed (s ∷ argv) ((pack_strings (s ∷ argv)).1 + length (s ∷ argv)) b) (sym bytes)
      (subst (λ l. Packed (s ∷ argv) l (s ++ (0 ∷ (pack_strings argv).0))) (omega (arith, n)) p)

-- For an array of strings without zero bytes, `argvpack` stores and returns `argvlen` bytes,
-- `argscount` counts the strings in them, and `argvunpack` gives pointers to the same strings and ends
-- behind the buffer.
pub argvpack-Packed :
    (argv : List (List ℕ)) → AreTexts argv → Packed argv (argvpack argv).1 (argvpack argv).0
unfolding argvpack
argvpack-Packed argv h = pack_strings-Packed argv h
