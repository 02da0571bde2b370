-- ===== src/Shell.antt =====
-- The programs of tinyos_shell.c. A string is the list of its bytes, a stream the list of the bytes that it gives,
-- and a program that prints gives what it prints.
pub mod Remote
pub mod Puzzle
pub mod Line
pub mod Request
mod Tests
use tinyos.Base.{
  ℕ, zero, suc, ◌+◌, ◌-◌, List, [], ◌∷◌, ◌++◌, Bool, true, false, not, ◌&&◌, ◌||◌, Option, none,
  some, ◌==◌, ltb, leb, if◌then◌else◌, take, length,
}
use tinyos.Base.Int.{ℤ, pos, pos_part, ltb_ℤ}

-- `strcmp` of two strings, as a test whether they are equal.
unfoldable pub same_text : List ℕ → List ℕ → Bool
same_text [] [] = true
same_text [] (d ∷ t) = false
same_text (c ∷ s) [] = false
same_text (c ∷ s) (d ∷ t) = let rest = same_text s t in if c == d then rest else false

-- `getprog_byname` in the names of a table of commands, from number `c` on; `none` for -1.
unfoldable pub getprog_byname : (c : ℕ) → (names : List (List ℕ)) → (name : List ℕ) → Option ℕ
unfolding same_text
getprog_byname c [] name = none
getprog_byname c (s ∷ names) name =
    let rest = getprog_byname (c + 1) names name in if same_text s name then some c else rest

-- The moves that `hanoi` prints: from a tile to a tile.
unfoldable pub hanoi : (n a b c : ℕ) → List (ℕ × ℕ)
hanoi zero a b c = []
hanoi (suc n) a b c = hanoi n a c b ++ ((a, b) ∷ hanoi n c b a)

-- `Hanoi` of its argument: its value and its moves.
unfoldable pub hanoi_program : (n : ℤ) → ℤ × List (ℕ × ℕ)
unfolding hanoi
hanoi_program n =
    if ltb_ℤ n (pos 1) || ltb_ℤ (pos 15) n then (n, []) else (pos 0, hanoi (pos_part n) 1 2 3)

-- The bytes that a loop over `fgetc` reads into its `char`: byte 255 is EOF there.
unfoldable pub read_chars : List ℕ → List ℕ
read_chars [] = []
read_chars (c ∷ cs) = let rest = read_chars cs in if c == 255 then [] else c ∷ rest

abbrev pub newline : ℕ
newline = 10

-- The counts of `WordCount`: lines, words, characters, and whether white space has come last.
pub record Counts : Type 0 where
  pub nline : ℕ
  pub nword : ℕ
  pub nchar : ℕ
  pub wspace : Bool

-- The functions of ctype.h.
module _ (isblank : ℕ → Bool) where
  unfoldable pub count_char : ℕ → Counts → Counts
  count_char c k =
      let word = k.wspace && not (isblank c) in
      record {
        nline = if c == newline then k.nline + 1 else k.nline;
        nword = if word then k.nword + 1 else k.nword;
        nchar = k.nchar + 1;
        wspace =
            if isblank c
            then true
            else if c == newline
            then true
            else if word
            then false
            else k.wspace;
      }

  unfoldable pub count_chars : List ℕ → Counts → Counts
  unfolding count_char
  count_chars [] k = k
  count_chars (c ∷ cs) k = count_chars cs (count_char c k)

  unfoldable pub word_count : List ℕ → Counts
  unfolding count_chars read_chars
  word_count input =
      count_chars (read_chars input) (record { nline = 0; nword = 0; nchar = 0; wspace = true })

-- `Capitalize` and `LowerCase`, with toupper or tolower.
unfoldable pub convert : (ℕ → ℕ) → List ℕ → List ℕ
convert f [] = []
convert f (c ∷ cs) = f c ∷ convert f cs

unfoldable pub capitalize : (toupper : ℕ → ℕ) → List ℕ → List ℕ
unfolding read_chars convert
capitalize toupper input = convert toupper (read_chars input)

unfoldable pub lower_case : (tolower : ℕ → ℕ) → List ℕ → List ℕ
unfolding read_chars convert
lower_case tolower input = convert tolower (read_chars input)

-- The loop of `LineEnum`; `number` prints a line number and what stands behind it.
unfoldable pub enumerate_lines :
    (number : ℕ → List ℕ) → (atend : Bool) → (count : ℕ) → List ℕ → List ℕ
enumerate_lines number atend count [] = []
enumerate_lines number atend count (c ∷ cs) =
    let line = if atend then count + 1 else count in
    let rest = enumerate_lines number (c == newline) line cs in
    (if atend then number line else []) ++ (c ∷ rest)

unfoldable pub line_enum : (number : ℕ → List ℕ) → List ℕ → List ℕ
unfolding read_chars enumerate_lines
line_enum number input = enumerate_lines number true 0 (read_chars input)

-- `Echo` of its arguments, without its own name.
unfoldable pub echo : List (List ℕ) → List ℕ
echo [] = newline ∷ []
echo (s ∷ []) = s ++ (newline ∷ [])
echo (s ∷ t ∷ more) = let rest = echo (t ∷ more) in s ++ (b' ' ∷ rest)

abbrev pub bar : List ℕ
bar = b'|' ∷ []

-- The first loop of `process_line`, at fragment `frag` of the arrays with `size` elements: for each fragment its
-- number of words and the pointer to its first word. The words that are left, and the fragment so far;
-- the pointer of an empty fragment is not set. `none` is a store behind the arrays, which `++frag` leads to.
unfoldable pub split_line :
    (size frag : ℕ)
    → (argv : List (List ℕ)) → (vargc : ℕ) → (vargv : List (List ℕ))
    → Option (List (ℕ × List (List ℕ)))
unfolding same_text
split_line size frag [] vargc vargv = some ((vargc, vargv) ∷ [])
split_line size frag (w ∷ argv) vargc vargv =
    let first = if vargc + 1 == 1 then w ∷ argv else vargv in
    let word = split_line size frag argv (vargc + 1) first in
    let next = split_line size (frag + 1) argv 0 [] in
    if not (same_text w bar)
    then word
    else if ltb (frag + 1) size
    then elim next [ none ↦ none | some fragments ↦ some ((vargc, vargv) ∷ fragments) ]
    else none

-- The second loop: the command of each fragment; `none` when a fragment is empty or has no program.
unfoldable pub find_commands :
    (names : List (List ℕ)) → List (ℕ × List (List ℕ)) → Option (List (ℕ × List (List ℕ)))
unfolding getprog_byname
find_commands names [] = some []
find_commands names ((zero, vargv) ∷ fragments) = none
find_commands names ((suc n, []) ∷ fragments) = none
find_commands names ((suc n, w ∷ vargv) ∷ fragments) =
    let rest = find_commands names fragments in
    elim (getprog_byname 0 names w) [
      | none ↦ none
      | some c ↦ elim rest [ none ↦ none | some more ↦ some ((c, take (suc n) (w ∷ vargv)) ∷ more) ]
    ]

-- `process_line` up to the pipes: the programs to execute, with their arguments; `some none` when the line is
-- refused, and `none` when it stores behind the arrays `Vargc` and `Vargv`, which have an element for each
-- word.
unfoldable pub plan_line : (names argv : List (List ℕ)) → Option (Option (List (ℕ × List (List ℕ))))
unfolding split_line find_commands
plan_line names argv =
    let fragments = split_line (length argv) 0 argv 0 [] in
    if ltb 0 (length argv)
    then elim fragments [ none ↦ none | some more ↦ some (find_commands names more) ]
    else none
