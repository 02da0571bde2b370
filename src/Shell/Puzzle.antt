-- ===== src/Shell/Puzzle.antt =====
-- The moves of `hanoi` of tinyos_shell.c solve the puzzle.
use tinyos.Base.{
  ℕ, zero, suc, ◌+◌, ◌^◌, ◌*◌, ◌<◌, ◌≤◌, ◌≡◌, ◌≢◌, ◌⊎◌, ◌||◌, List, [], ◌∷◌, ◌++◌, Option, none,
  some, Bool, true, false, ltb, ◌==◌, if◌then◌else◌, update, length, length-append, ==_refl, arith,
  refl, ap, sym, ◌∙◌,
}
use Prim.Native.Nat.pow
use tinyos.Base.Int.{ℤ, pos, negsuc, pos_part}
use tinyos.Shell.{hanoi, hanoi_program}

-- The disks on each tile, named by their sizes, the top disk first.
abbrev pub Tiles : Type 0
Tiles = ℕ → List ℕ

-- Whether a disk may be put on a pile.
abbrev pub fits : (disk : ℕ) → List ℕ → Bool
fits disk [] = true
fits disk (d ∷ pile) = ltb disk d

-- The rules: the top disk of a tile is put on a smaller one never.
abbrev put : (disk : ℕ) → (rest : List ℕ) → (a b : ℕ) → Tiles → Option Tiles
put disk rest a b s =
    if fits disk (s b) then some (update (update s a rest) b (disk ∷ s b)) else none

abbrev pub move_disk : (a b : ℕ) → Tiles → List ℕ → Option Tiles
move_disk a b s [] = none
move_disk a b s (disk ∷ rest) = put disk rest a b s

unfoldable pub play : List (ℕ × ℕ) → Tiles → Option Tiles
play [] s = some s
play ((a, b) ∷ moves) s = elim (move_disk a b s (s a)) [ none ↦ none | some t ↦ play moves t ]

-- The disks 1 to `n`, the smallest on top.
unfoldable pub tower : (n : ℕ) → List ℕ → List ℕ
tower zero pile = pile
tower (suc n) pile = tower n (suc n ∷ pile)

-- The moves that follow.
abbrev go_on : List (ℕ × ℕ) → Option Tiles → Option Tiles
go_on ys none = none
go_on ys (some t) = play ys t

play-append : (xs ys : List (ℕ × ℕ)) (s : Tiles) → play (xs ++ ys) s ≡ go_on ys (play xs s)
unfolding play
play-append [] ys s = refl
play-append ((a, b) ∷ xs) ys s = go (move_disk a b s (s a)) (λ t. play-append xs ys t)
  where
    first : List (ℕ × ℕ) → Option Tiles → Option Tiles
    first zs none = none
    first zs (some t) = play zs t

    go :
        (o : Option Tiles)
        → ((t : Tiles) → play (xs ++ ys) t ≡ go_on ys (play xs t))
        → first (xs ++ ys) o ≡ go_on ys (first xs o)
    go none rest = refl
    go (some t) rest = rest t

length-hanoi : (n a b c : ℕ) → length (hanoi n a b c) + 1 ≡ 2 ^ n
unfolding hanoi
length-hanoi zero a b c = refl
length-hanoi (suc n) a b c =
    let power : 2 ^ suc n ≡ 2 ^ n * 2 = pow.suc 2 n in
    omega (
      arith,
      power,
      length-append (hanoi n a c b) ((a, b) ∷ hanoi n c b a),
      length-hanoi n a c b,
      length-hanoi n c b a,
    )

-- The piles of three tiles.
record Piled (s : Tiles) (a b c : ℕ) (pa pb pc : List ℕ) : Type 0 where
  at_a : s a ≡ pa
  at_b : s b ≡ pb
  at_c : s c ≡ pc

-- A move of the top disk.
play-move :
    (a b c disk : ℕ) (pa pb pc : List ℕ) (moves : List (ℕ × ℕ)) (s : Tiles)
    → a ≢ b
    → a ≢ c
    → b ≢ c
    → fits disk pb ≡ true
    → Piled s a b c (disk ∷ pa) pb pc
    → (t : Tiles) × (play ((a, b) ∷ moves) s ≡ play moves t) × Piled t a b c pa (disk ∷ pb) pc
unfolding play
play-move a b c disk pa pb pc moves s ab ac bc fit p =
    let t = update (update s a pa) b (disk ∷ s b) in
    let may : fits disk (s b) ≡ true = ap (fits disk) p.at_b ∙ fit in
    let moved : move_disk a b s (s a) ≡ some t =
      ap (move_disk a b s) p.at_a ∙ ap (λ x. if x then some t else none) may in
    (
      t,
      ap (go_on moves) moved,
      record {
        at_a = ground (arith, ab);
        at_b =
            ap (λ x. if x then disk ∷ s b else update s a pa b) (==_refl b)
            ∙ ap (λ l. disk ∷ l) p.at_b;
        at_c = ground (arith, ac, bc, p.at_c);
      },
    )

fits_less : (n : ℕ) (pile : List ℕ) → fits (suc n) pile ≡ true → fits n pile ≡ true
fits_less n [] h = refl
fits_less n (d ∷ pile) h = ground arith

-- The moves of `hanoi` take the tower on tile `a`, whatever lies under it, to tile `b`.
hanoi-Piled :
    (n a b c : ℕ) (pa pb pc : List ℕ) (s : Tiles)
    → a ≢ b
    → a ≢ c
    → b ≢ c
    → fits n pa ≡ true
    → fits n pb ≡ true
    → fits n pc ≡ true
    → Piled s a b c (tower n pa) pb pc
    → (t : Tiles) × (play (hanoi n a b c) s ≡ some t) × Piled t a b c pa (tower n pb) pc
unfolding hanoi play tower
hanoi-Piled zero a b c pa pb pc s ab ac bc fa fb fc p = (s, refl, p)
hanoi-Piled (suc n) a b c pa pb pc s ab ac bc fa fb fc p =
    let moves = hanoi n c b a in
    let (t, plays, q) =
      hanoi-Piled n a c b (suc n ∷ pa) pc pb s ac ab (λ e. bc (sym e)) (ground arith)
        (fits_less n pc fc) (fits_less n pb fb)
        (record { at_a = p.at_a; at_b = p.at_c; at_c = p.at_b }) in
    let (u, moved, m) =
      play-move a b c (suc n) pa pb (tower n pc) moves t ab ac bc fb
        (record { at_a = q.at_a; at_b = q.at_c; at_c = q.at_b }) in
    let (w, rest, r) =
      hanoi-Piled n c b a pc (suc n ∷ pb) pa u (λ e. bc (sym e)) (λ e. ac (sym e)) (λ e. ab (sym e))
        (fits_less n pc fc) (ground arith) (fits_less n pa fa)
        (record { at_a = m.at_c; at_b = m.at_b; at_c = m.at_a }) in
    (
      w,
      play-append (hanoi n a c b) ((a, b) ∷ moves) s
          ∙ (ap (go_on ((a, b) ∷ moves)) plays ∙ (moved ∙ rest)),
      record { at_a = r.at_c; at_b = r.at_b; at_c = r.at_a },
    )

-- All the disks are on tile 1.
abbrev pub start_tiles : (n : ℕ) → Tiles
start_tiles n x = if x == 1 then tower n [] else []

hanoi_program-refused :
    (n : ℤ)
    → (pos_part n ≡ 0) ⊎ (15 < pos_part n)
    → ((hanoi_program n).0 ≡ n) × ((hanoi_program n).1 ≡ [])
unfolding hanoi_program
hanoi_program-refused (pos k) out =
    let outside : (ltb (k + 0) (1 + 0) || ltb (15 + 0) (k + 0)) ≡ true = ground (arith, out) in
    rw outside (refl, refl)
hanoi_program-refused (negsuc k) out =
    let outside : (ltb 0 (1 + suc k) || ltb (15 + suc k) 0) ≡ true = ground arith in
    rw outside (refl, refl)

-- For 1 to 15 disks the program returns 0, and its moves obey the rules: from all disks on tile 1 they lead to
-- all disks on tile 2, in their order, with nothing on the tiles 1 and 3, in 2 ^ n - 1 moves. For another
-- number, which may be negative, it returns the number and moves nothing.
pub play-hanoi_program :
    (n : ℤ)
    → let (value, moves) = hanoi_program n in
      ((k : ℕ)
        → n ≡ pos k
        → 1 ≤ k
        → k ≤ 15
        → (value ≡ pos 0)
          × (length moves + 1 ≡ 2 ^ k)
          × ((t : Tiles) × (play moves (start_tiles k) ≡ some t)
              × (t 1 ≡ [])
              × (t 2 ≡ tower k [])
              × (t 3 ≡ [])))
      × ((pos_part n ≡ 0) ⊎ (15 < pos_part n) → (value ≡ n) × (moves ≡ []))
unfolding hanoi_program
play-hanoi_program n = (
  (λ k e p q.
      let (t, plays, piled) =
        hanoi-Piled k 1 2 3 [] [] [] (start_tiles k) (λ e. omega (arith, e)) (λ e. omega (arith, e))
          (λ e. omega (arith, e)) refl refl refl
          (record { at_a = refl; at_b = refl; at_c = refl }) in
      let inside : (ltb (k + 0) (1 + 0) || ltb (15 + 0) (k + 0)) ≡ false = ground (arith, p, q) in
      rw e
        (rw inside (refl, length-hanoi k 1 2 3, (t, plays, piled.at_a, piled.at_b, piled.at_c)))),
  hanoi_program-refused n,
)
