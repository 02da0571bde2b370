-- ===== src/Shell/Line.antt =====
-- The splitting of a command line of tinyos_shell.c at its bars.
use tinyos.Base.{
  ℕ, zero, suc, ◌+◌, ◌≡◌, ◌⊎◌, inl, inr, List, [], ◌∷◌, ◌++◌, Option, none, some, Bool, true, false,
  ltb→lt, ◌==◌, ◌≤◌, ◌<◌, ltb, not, if◌then◌else◌, length, length-append, take, append_assoc, arith,
  refl, ap, ap₂, sym, ◌∙◌, subst, Bool-cases, ==_iff,
}
use tinyos.Shell.{same_text, getprog_byname, bar, split_line, find_commands, plan_line}

-- The fragments, with a bar before each of them.
abbrev pub barred : List (List (List ℕ)) → List (List ℕ)
barred [] = []
barred (words ∷ fragments) = bar ∷ (words ++ barred fragments)

abbrev fragment_words : List (ℕ × List (List ℕ)) → List (List (List ℕ))
fragment_words [] = []
fragment_words ((vargc, vargv) ∷ fragments) = take vargc vargv ∷ fragment_words fragments

-- Words that are not bars.
abbrev pub NoBars : List (List ℕ) → Type 0
NoBars [] = Unit
NoBars (w ∷ words) = (same_text w bar ≡ false) × NoBars words

abbrev pub AllNoBars : List (List (List ℕ)) → Type 0
AllNoBars [] = Unit
AllNoBars (words ∷ fragments) = NoBars words × AllNoBars fragments

pub same_text-eq : (s t : List ℕ) → same_text s t ≡ true → s ≡ t
unfolding same_text
same_text-eq [] [] h = refl
same_text-eq [] (d ∷ t) h = absurd (ground (arith, h))
same_text-eq (c ∷ s) [] h = absurd (ground (arith, h))
same_text-eq (c ∷ s) (d ∷ t) h = elim (Bool-cases (c == d)) [
  | inl e ↦
      ap₂ (λ x xs. x ∷ xs) ((==_iff c d).0 e)
        (same_text-eq s t (sym (ap (λ b. if b then same_text s t else false) e) ∙ h))
  | inr e ↦
      let no : false ≡ true = sym (ap (λ b. if b then same_text s t else false) e) ∙ h in
      absurd (ground (arith, no))
]

take-prefix : (pre rest : List (List ℕ)) → take (length pre) (pre ++ rest) ≡ pre
take-prefix [] rest = refl
take-prefix (w ∷ pre) rest = ap (λ l. w ∷ l) (take-prefix pre rest)

NoBars-append : (xs ys : List (List ℕ)) → NoBars xs → NoBars ys → NoBars (xs ++ ys)
NoBars-append [] ys p q = q
NoBars-append (x ∷ xs) ys p q = (p.0, NoBars-append xs ys p.1 q)

-- The pointer of a fragment whose words are `pre`.
abbrev Points : (pre argv vargv : List (List ℕ)) → Type 0
Points pre argv vargv = (pre ≡ []) ⊎ (vargv ≡ pre ++ argv)

Points-word :
    (pre argv vargv : List (List ℕ)) (w : List ℕ)
    → Points pre (w ∷ argv) vargv
    → Points (pre ++ (w ∷ [])) argv (if length pre + 1 == 1 then w ∷ argv else vargv)
Points-word [] argv vargv w p = inr refl
Points-word (x ∷ pre) argv vargv w (inl e) = absurd (omega (arith, ap length e))
Points-word (x ∷ pre) argv vargv w (inr e) =
    let other : (length (x ∷ pre) + 1 == 1) ≡ false = ground arith in
    inr (rw other (e ∙ ap (λ l. x ∷ l) (sym (append_assoc pre (w ∷ []) argv))))

Points-take :
    (pre argv vargv : List (List ℕ)) → Points pre argv vargv → take (length pre) vargv ≡ pre
Points-take pre argv vargv (inl e) = ap (λ l. take (length l) vargv) e ∙ sym e
Points-take pre argv vargv (inr e) = ap (take (length pre)) e ∙ take-prefix pre argv

-- The fragments that the loop makes in arrays that are long enough.
abbrev split_words :
    (argv : List (List ℕ)) → (vargc : ℕ) → (vargv : List (List ℕ)) → List (ℕ × List (List ℕ))
split_words [] vargc vargv = (vargc, vargv) ∷ []
split_words (w ∷ argv) vargc vargv =
    let first = if vargc + 1 == 1 then w ∷ argv else vargv in
    if not (same_text w bar)
    then split_words argv (vargc + 1) first
    else (vargc, vargv) ∷ split_words argv 0 []

abbrev pub bars : List (List ℕ) → ℕ
bars [] = 0
bars (w ∷ argv) = if same_text w bar then bars argv + 1 else bars argv

bars_le_length : (argv : List (List ℕ)) → bars argv ≤ length argv
bars_le_length [] = omega arith
bars_le_length (w ∷ argv) = ground (arith, bars_le_length argv)

abbrev in_arrays : (size last : ℕ) → List (ℕ × List (List ℕ)) → Option (List (ℕ × List (List ℕ)))
in_arrays size last fragments = if ltb last size then some fragments else none

abbrev add_fragment :
    ℕ × List (List ℕ) → Option (List (ℕ × List (List ℕ))) → Option (List (ℕ × List (List ℕ)))
add_fragment f none = none
add_fragment f (some fragments) = some (f ∷ fragments)

in_arrays-cons :
    (size last last' : ℕ) (f : ℕ × List (List ℕ)) (fragments : List (ℕ × List (List ℕ)))
    → last ≡ last'
    → add_fragment f (in_arrays size last fragments) ≡ in_arrays size last' (f ∷ fragments)
in_arrays-cons size last last' f fragments same = elim (Bool-cases (ltb last' size)) [
  | inl e ↦ rw same (rw e refl)
  | inr e ↦ rw same (rw e refl)
]

-- The arrays are long enough when they have an element for the last fragment.
split_line-split_words :
    (size frag : ℕ) (argv : List (List ℕ)) (vargc : ℕ) (vargv : List (List ℕ))
    → frag < size
    → split_line size frag argv vargc vargv
      ≡ in_arrays size (frag + bars argv) (split_words argv vargc vargv)
unfolding split_line
split_line-split_words size frag [] vargc vargv h =
    let inside : ltb (frag + 0) size ≡ true = ground (arith, h) in rw inside refl
split_line-split_words size frag (w ∷ argv) vargc vargv h = elim (Bool-cases (same_text w bar)) [
  | inr e ↦
      let first = if vargc + 1 == 1 then w ∷ argv else vargv in
      rw (e, split_line) (split_line-split_words size frag argv (vargc + 1) first h)
  | inl e ↦ elim (Bool-cases (ltb (frag + 1) size)) [
    | inr f ↦
        let outside : ltb (frag + (bars argv + 1)) size ≡ false = ground (arith, f) in
        rw (e, split_line) (rw f (rw outside refl))
    | inl f ↦
        let rest = split_line-split_words size (frag + 1) argv 0 [] (ltb→lt (frag + 1) size f) in
        rw (e, split_line)
          (rw f (
            ap (add_fragment (vargc, vargv)) rest
            ∙ in_arrays-cons size (frag + 1 + bars argv) (frag + (bars argv + 1)) (vargc, vargv)
                (split_words argv 0 []) (omega arith)))
  ]
]

-- What the loop of `process_line` makes of the words that are left behind `pre`.
record Splits (pre argv : List (List ℕ)) (fragments : List (List (List ℕ))) : Type 0 where
  joined : barred fragments ≡ bar ∷ (pre ++ argv)
  no_bars : AllNoBars fragments

split_words-word :
    (w : List ℕ) (argv vargv : List (List ℕ)) (vargc : ℕ)
    → same_text w bar ≡ false
    → split_words (w ∷ argv) vargc vargv
      ≡ split_words argv (vargc + 1) (if vargc + 1 == 1 then w ∷ argv else vargv)
split_words-word w argv vargv vargc e = rw e refl

split_words-bar :
    (w : List ℕ) (argv vargv : List (List ℕ)) (vargc : ℕ)
    → same_text w bar ≡ true
    → split_words (w ∷ argv) vargc vargv ≡ (vargc, vargv) ∷ split_words argv 0 []
split_words-bar w argv vargv vargc e = rw e refl

split_words-Splits :
    (argv pre vargv : List (List ℕ))
    → NoBars pre
    → Points pre argv vargv
    → Splits pre argv (fragment_words (split_words argv (length pre) vargv))
split_words-Splits [] pre vargv clean p =
    let words = Points-take pre [] vargv p in
    subst (λ l. Splits pre [] (l ∷ [])) (sym words)
      (record { joined = refl; no_bars = (clean, tt) })
split_words-Splits (w ∷ argv) pre vargv clean p = elim (Bool-cases (same_text w bar)) [
  | inl e ↦
      let rest = split_words-Splits argv [] [] tt (inl refl) in
      let words = Points-take pre (w ∷ argv) vargv p in
      let fragments = fragment_words (split_words argv 0 []) in
      subst (λ l. Splits pre (w ∷ argv) (fragment_words l))
        (sym (split_words-bar w argv vargv (length pre) e))
        (subst (λ l. Splits pre (w ∷ argv) (l ∷ fragments)) (sym words)
          (record {
            joined =
                ap (λ l. bar ∷ (pre ++ l)) rest.joined
                ∙ ap (λ x. bar ∷ (pre ++ (x ∷ argv))) (sym (same_text-eq w bar e));
            no_bars = (clean, rest.no_bars);
          }))
  | inr e ↦
      let pre' = pre ++ (w ∷ []) in
      let first = if length pre + 1 == 1 then w ∷ argv else vargv in
      let rest =
        split_words-Splits argv pre' first (NoBars-append pre (w ∷ []) clean (e, tt))
          (Points-word pre argv vargv w p) in
      let longer : length pre' ≡ length pre + 1 = length-append pre (w ∷ []) in
      let same : split_words argv (length pre') first ≡ split_words (w ∷ argv) (length pre) vargv =
        ap (λ k. split_words argv k first) longer
        ∙ sym (split_words-word w argv vargv (length pre) e) in
      let fragments = fragment_words (split_words argv (length pre') first) in
      subst (λ l. Splits pre (w ∷ argv) (fragment_words l)) same
        (record {
          joined = rest.joined ∙ ap (λ l. bar ∷ l) (append_assoc pre (w ∷ []) argv);
          no_bars = rest.no_bars;
        })
]

abbrev pub name_at : ℕ → List (List ℕ) → Option (List ℕ)
name_at c [] = none
name_at zero (s ∷ names) = some s
name_at (suc c) (s ∷ names) = name_at c names

-- Whether the first word names a program.
abbrev pub known : (names words : List (List ℕ)) → Bool
known names [] = false
known names (w ∷ words) = elim (getprog_byname 0 names w) [ none ↦ false | some _ ↦ true ]

abbrev pub all_known : (names : List (List ℕ)) → List (List (List ℕ)) → Bool
all_known names [] = true
all_known names (words ∷ fragments) = if known names words then all_known names fragments else false

abbrev pub plan_words : List (ℕ × List (List ℕ)) → List (List (List ℕ))
plan_words [] = []
plan_words ((c, words) ∷ plan) = words ∷ plan_words plan

-- The program of a fragment is the one with its first word for a name.
abbrev pub AllNamed : (names : List (List ℕ)) → List (ℕ × List (List ℕ)) → Type 0
AllNamed names [] = Unit
AllNamed names ((c, words) ∷ plan) =
    ((w : List ℕ) × (rest : List (List ℕ)) × (words ≡ w ∷ rest) × (name_at c names ≡ some w))
    × AllNamed names plan

getprog_byname-named :
    (i : ℕ) (names : List (List ℕ)) (name : List ℕ)
    → (getprog_byname i names name ≡ none)
      ⊎ ((c : ℕ) × (getprog_byname i names name ≡ some (i + c)) × (name_at c names ≡ some name))
unfolding getprog_byname
getprog_byname-named i [] name = inl refl
getprog_byname-named i (s ∷ names) name = elim (Bool-cases (same_text s name)) [
  | inl e ↦ inr (
    0,
    rw (e, getprog_byname) (ap (λ n. some n) (omega arith)),
    ap (λ t. some t) (same_text-eq s name e),
  )
  | inr e ↦ elim (getprog_byname-named (i + 1) names name) [
    | inl f ↦ inl (rw (e, getprog_byname) f)
    | inr (c, f, g) ↦ inr (suc c, rw (e, getprog_byname) (f ∙ ap (λ n. some n) (omega arith)), g)
  ]
]

abbrev known_of : Option ℕ → Bool
known_of none = false
known_of (some _) = true

known-getprog_byname :
    (names words : List (List ℕ)) (w : List ℕ)
    → known names (w ∷ words) ≡ known_of (getprog_byname 0 names w)
known-getprog_byname names words w = refl

abbrev pub Plans :
    (names : List (List ℕ)) → List (List (List ℕ)) → Option (List (ℕ × List (List ℕ))) → Type 0
Plans names fragments o =
    ((plan : List (ℕ × List (List ℕ))) × (o ≡ some plan)
      × (plan_words plan ≡ fragments)
      × AllNamed names plan)
    ⊎ ((o ≡ none) × (all_known names fragments ≡ false))

find_commands-Plans :
    (names : List (List ℕ)) (fs : List (ℕ × List (List ℕ)))
    → Plans names (fragment_words fs) (find_commands names fs)
unfolding find_commands
find_commands-Plans names [] = inl ([], refl, refl, tt)
find_commands-Plans names ((zero, vargv) ∷ fs) = inr (refl, refl)
find_commands-Plans names ((suc n, []) ∷ fs) = inr (refl, refl)
find_commands-Plans names ((suc n, w ∷ vargv) ∷ fs) =
    let more : Bool → Bool = λ b. if b then all_known names (fragment_words fs) else false in
    let known_w = known-getprog_byname names (take n vargv) w in
    elim (getprog_byname-named 0 names w) [
      | inl e ↦ inr (rw (e, find_commands) refl, ap more (known_w ∙ ap known_of e))
      | inr (c, e, named) ↦ elim (find_commands-Plans names fs) [
        | inr (f, unknown) ↦
            inr (rw (e, find_commands) (rw f refl), ap more (known_w ∙ ap known_of e) ∙ unknown)
        | inl (plan, f, words, all) ↦ inl (
          (c, w ∷ take n vargv) ∷ plan,
          rw (e, find_commands)
              (rw f (ap (λ k. some ((k, w ∷ take n vargv) ∷ plan)) (omega arith))),
          ap (λ l. (w ∷ take n vargv) ∷ l) words,
          ((w, take n vargv, refl, named), all),
        )
      ]
    ]

abbrev find_all :
    (names : List (List ℕ))
    → Option (List (ℕ × List (List ℕ)))
    → Option (Option (List (ℕ × List (List ℕ))))
find_all names none = none
find_all names (some fragments) = some (find_commands names fragments)

-- The first fragment stands at 0.
plan_line-split_words :
    (names argv : List (List ℕ))
    → (plan_line names argv ≡ none) × (bars argv ≡ length argv)
      ⊎ (plan_line names argv ≡ some (find_commands names (split_words argv 0 [])))
        × (bars argv < length argv)
unfolding plan_line
plan_line-split_words names [] = inl (refl, refl)
plan_line-split_words names (w ∷ argv) =
    let line = w ∷ argv in
    let size = length line in
    let fragments = split_words line 0 [] in
    let split = split_line size 0 line 0 [] in
    let positive : ltb 0 size ≡ true = ground arith in
    let planned : plan_line names line ≡ find_all names split =
      ap (λ b. if b then find_all names split else none) positive in
    let made = split_line-split_words size 0 line 0 [] (omega arith) in
    let found : (b : Bool)
        → ltb (0 + bars line) size ≡ b
        → plan_line names line ≡ find_all names (if b then some fragments else none) =
      λ b e.
        planned ∙ ap (find_all names) (made ∙ ap (λ x. if x then some fragments else none) e) in
    elim (Bool-cases (ltb (0 + bars line) size)) [
      | inl e ↦ inr (found true e, omega (arith, ltb→lt (0 + bars line) size e))
      | inr e ↦ inl (found false e, ground (arith, bars_le_length line, e))
    ]

-- The fragments of a command line are the words between its bars, and contain no bar. A line of which not every
-- word is a bar is planned if each fragment begins with the name of a program: each fragment is the argument
-- vector of the program with that name, in their order; if one is empty or its first word names no
-- program, the line is refused and none is executed. A line without words, or of bars only, makes the code
-- store behind its arrays.
pub plan_line-Plans :
    (names argv : List (List ℕ))
    → (fragments : List (List (List ℕ))) × (barred fragments ≡ bar ∷ argv)
      × AllNoBars fragments
      × ((plan_line names argv ≡ none) × (bars argv ≡ length argv)
          ⊎ (o : Option (List (ℕ × List (List ℕ)))) × (plan_line names argv ≡ some o)
            × (bars argv < length argv)
            × Plans names fragments o)
plan_line-Plans names argv =
    let fs = split_words argv 0 [] in
    let splits = split_words-Splits argv [] [] tt (inl refl) in
    (
      fragment_words fs,
      splits.joined,
      splits.no_bars,
      elim (plan_line-split_words names argv) [
        | inl out ↦ inl out
        | inr (planned, few) ↦
            inr (find_commands names fs, planned, few, find_commands-Plans names fs)
      ],
    )
