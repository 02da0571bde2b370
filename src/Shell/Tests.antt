-- ===== src/Shell/Tests.antt =====
-- Programs of the shell on small inputs, and a request over a connection that passes one byte at a time.
use tinyos.Base.{
  ℕ, ◌+◌, ◌^◌, ◌<◌, ◌≤◌, ◌≡◌, ◌⊎◌, List, [], ◌∷◌, ◌++◌, map, Bool, true, ◌==◌, ◌||◌, Option, none,
  some, length, take, arith, refl, ap,
}
use tinyos.Base.Int.{ℤ, pos, pos_part}
use tinyos.Args.{argvlen, argvpack}
use tinyos.Args.Round.{text_at}
use tinyos.Userlib.{store_bytes}
use tinyos.Shell.{
  same_text, getprog_byname, hanoi, hanoi_program, read_chars, count_char, count_chars, word_count,
  convert, capitalize, enumerate_lines, line_enum, echo, bar, split_line, find_commands, plan_line,
}
use tinyos.Shell.Puzzle.{Tiles, play, tower, start_tiles, play-hanoi_program}
use tinyos.Shell.Line.{barred, bars, AllNoBars, Plans, plan_line-Plans}
use tinyos.Shell.Remote.{Connection, Request, send_request, send_message, send_loop, rsrv_client}
use tinyos.Shell.Request.{IsSource, IsSink, rsrv_client-send_request}

-- "ls" and "wc"; "ls | wc".
abbrev ls : List ℕ
ls = b'l' ∷ b's' ∷ []

abbrev wc : List ℕ
wc = b'w' ∷ b'c' ∷ []

abbrev names : List (List ℕ)
names = ls ∷ wc ∷ []

abbrev pipeline : List (List ℕ)
pipeline = ls ∷ bar ∷ wc ∷ []

plan_pipeline : plan_line names pipeline ≡ some (some ((0, ls ∷ []) ∷ (1, wc ∷ []) ∷ []))
unfolding plan_line split_line find_commands getprog_byname same_text
plan_pipeline = refl

plan_empty_fragment : plan_line names (ls ∷ bar ∷ []) ≡ some none
unfolding plan_line split_line find_commands getprog_byname same_text
plan_empty_fragment = refl

plan_bars : plan_line names (bar ∷ bar ∷ []) ≡ none
unfolding plan_line split_line find_commands getprog_byname same_text
plan_bars = refl

plan_line-Plans_example :
    (fragments : List (List (List ℕ))) × (barred fragments ≡ bar ∷ pipeline)
    × AllNoBars fragments
    × ((plan_line names pipeline ≡ none) × (bars pipeline ≡ length pipeline)
        ⊎ (o : Option (List (ℕ × List (List ℕ)))) × (plan_line names pipeline ≡ some o)
          × (bars pipeline < length pipeline)
          × Plans names fragments o)
plan_line-Plans_example = plan_line-Plans names pipeline

abbrev disks : ℤ
disks = pos 3

play-hanoi_program_example :
    ((k : ℕ)
      → disks ≡ pos k
      → 1 ≤ k
      → k ≤ 15
      → ((hanoi_program disks).0 ≡ pos 0)
        × (length (hanoi_program disks).1 + 1 ≡ 2 ^ k)
        × ((t : Tiles) × (play (hanoi_program disks).1 (start_tiles k) ≡ some t)
            × (t 1 ≡ [])
            × (t 2 ≡ tower k [])
            × (t 3 ≡ [])))
    × ((pos_part disks ≡ 0) ⊎ (15 < pos_part disks)
        → ((hanoi_program disks).0 ≡ disks) × ((hanoi_program disks).1 ≡ []))
play-hanoi_program_example = play-hanoi_program disks

hanoi_two : hanoi 2 1 2 3 ≡ (1, 3) ∷ (1, 2) ∷ (3, 2) ∷ []
unfolding hanoi
hanoi_two = refl

abbrev is_space_or_tab : ℕ → Bool
is_space_or_tab c = (c == 32) || (c == 9)

-- An empty line counts as a word.
word_count_newlines :
    word_count is_space_or_tab (b'a' ∷ 10 ∷ 10 ∷ [])
    ≡ record { nline = 2; nword = 2; nchar = 3; wspace = true }
unfolding word_count count_chars count_char read_chars
word_count_newlines = refl

-- A byte 255 ends the input.
capitalize_cut : capitalize (λ c. c) (b'a' ∷ 255 ∷ b'b' ∷ []) ≡ b'a' ∷ []
unfolding capitalize convert read_chars
capitalize_cut = refl

number_lines : line_enum (λ n. n ∷ []) (b'a' ∷ 10 ∷ b'b' ∷ []) ≡ 1 ∷ b'a' ∷ 10 ∷ 2 ∷ b'b' ∷ []
unfolding line_enum enumerate_lines read_chars
number_lines = refl

echo_words : echo (ls ∷ wc ∷ []) ≡ b'l' ∷ b's' ∷ 32 ∷ b'w' ∷ b'c' ∷ 10 ∷ []
unfolding echo
echo_words = refl

-- The world is the bytes that have been sent, or that are still to come.
abbrev give_byte : List ℕ → List ℕ × List ℕ
give_byte [] = ([], [])
give_byte (c ∷ cs) = (c ∷ [], cs)

abbrev take_byte : List ℕ → List ℕ → ℕ × List ℕ
take_byte [] w = (0, w)
take_byte (c ∷ cs) w = (1, w ++ (c ∷ []))

abbrev slow : Connection (List ℕ)
slow = record { read = λ size w. give_byte w; write = λ bytes w. take_byte bytes w }

given_byte :
    (size : ℕ) (w : List ℕ)
    → 0 < size
    → (length (give_byte w).0 ≤ size)
      × (w ≡ (give_byte w).0 ++ (give_byte w).1)
      × ((give_byte w).0 ≡ [] → w ≡ [])
given_byte size [] h = (omega arith, refl, (λ e. refl))
given_byte size (c ∷ cs) h = (omega (arith, h), refl, (λ e. absurd (omega (arith, ap length e))))

taken_byte :
    (bytes w : List ℕ)
    → 0 < length bytes
    → (0 < (take_byte bytes w).0)
      × ((take_byte bytes w).0 ≤ length bytes)
      × ((take_byte bytes w).1 ≡ w ++ take (take_byte bytes w).0 bytes)
taken_byte [] w h = absurd (omega (arith, h))
taken_byte (c ∷ cs) w h = (omega arith, omega arith, refl)

abbrev slow-IsSource : IsSource slow
slow-IsSource = record { incoming = λ w. w; read = λ size w h. given_byte size w h }

abbrev slow-IsSink : IsSink slow
slow-IsSink = record { sent = λ w. w; write = λ bytes w h. taken_byte bytes w h }

-- The request of "ls wc", and a byte behind it.
abbrev request : List ℕ
request = (send_request slow names []).1

rsrv_client-send_request_example :
    ((send_request slow names []).0 ≡ true)
    × ((pointers : List (List ℕ)) × (server' : List ℕ) × (map text_at pointers ≡ names)
        × (rsrv_client slow (request ++ (7 ∷ [])) ≡ (some (Request.accepted pointers), server'))
        × (server' ≡ 7 ∷ []))
unfolding argvlen
rsrv_client-send_request_example =
    rsrv_client-send_request slow slow-IsSink slow slow-IsSource names (7 ∷ []) []
      (request ++ (7 ∷ [])) (refl, (refl, tt)) (omega arith) (omega arith) refl refl

request_bytes : request ≡ 6 ∷ 0 ∷ 0 ∷ 0 ∷ b'l' ∷ b's' ∷ 0 ∷ b'w' ∷ b'c' ∷ 0 ∷ []
unfolding send_request send_message send_loop argvlen argvpack store_bytes
request_bytes = refl
