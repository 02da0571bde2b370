-- ===== src/Shell/Request.antt =====
-- A request of the remote client reaches the server, in whatever pieces the connection takes and gives it.
use tinyos.Base.{
  ℕ, zero, suc, ◌+◌, ◌-◌, ◌<◌, ◌≤◌, ◌≡◌, ◌⊎◌, inl, inr, List, [], ◌∷◌, ◌++◌, map, Option, none,
  some, Bool, true, false, not, ◌&&◌, ◌==◌, ltb, leb, if◌then◌else◌, length, length-append, take,
  drop, is_nil, append_assoc, append-nil, arith, refl, ap, ap₂, sym, ◌∙◌, subst, ==_refl,
  List-cases,
}
use tinyos.Args.{argvlen, argvpack}
use tinyos.Args.Round.{AreTexts, text_at, Packed, argvpack-Packed}
use tinyos.Userlib.{store_bytes, load_bytes}
use tinyos.Userlib.Launch.{load_bytes-store_bytes}
use tinyos.Shell.Remote.{
  Connection, recv_loop, recv_message, send_loop, send_message, send_request, Request,
  unpacked_args, read_args, rsrv_client,
}

-- The reading end of a stream: `Read` gives some of the bytes that come next, one at least while there are any.
pub record IsSource {World : Type 0} (sock : Connection World) : Type 0 where
  pub incoming : World → List ℕ
  pub read :
      (size : ℕ) (w : World)
      → 0 < size
      → let (bytes, w') = sock.read size w in
        (length bytes ≤ size) × (incoming w ≡ bytes ++ incoming w') × (bytes ≡ [] → incoming w ≡ [])

-- The writing end: `Write` takes some of the bytes, one at least.
pub record IsSink {World : Type 0} (sock : Connection World) : Type 0 where
  pub sent : World → List ℕ
  pub write :
      (bytes : List ℕ) (w : World)
      → 0 < length bytes
      → let (rc, w') = sock.write bytes w in
        (0 < rc) × (rc ≤ length bytes) × (sent w' ≡ sent w ++ take rc bytes)

take-append : (xs ys : List ℕ) → take (length xs) (xs ++ ys) ≡ xs
take-append [] ys = refl
take-append (x ∷ xs) ys = ap (λ l. x ∷ l) (take-append xs ys)

drop-append : (xs ys : List ℕ) → drop (length xs) (xs ++ ys) ≡ ys
drop-append [] ys = refl
drop-append (x ∷ xs) ys = drop-append xs ys

take-drop : (n : ℕ) (xs : List ℕ) → take n xs ++ drop n xs ≡ xs
take-drop zero xs = refl
take-drop (suc n) [] = refl
take-drop (suc n) (x ∷ xs) = ap (λ l. x ∷ l) (take-drop n xs)

length-drop : (n : ℕ) (xs : List ℕ) → length (drop n xs) ≡ length xs - n
length-drop zero xs = omega arith
length-drop (suc n) [] = omega arith
length-drop (suc n) (x ∷ xs) = omega (arith, length-drop n xs)

module _ {World : Type 0} (sock : Connection World) (s : IsSource sock) where
  -- A round of the loop.
  recv_loop-round :
      (n left : ℕ) (got : List ℕ) (w : World) (b : Bool)
      → let (bytes, w') = sock.read (suc left) w in
        is_nil bytes ≡ b
        → recv_loop sock (suc n) (suc left) got w
          ≡ (if b then (got, w') else recv_loop sock n (suc left - length bytes) (got ++ bytes) w')
  unfolding recv_loop
  recv_loop-round n left got w b e =
      let (bytes, w') = sock.read (suc left) w in
      let zero_left : (suc left == 0) ≡ false = ground arith in
      ap₂
        (λ x y.
          if x
          then (got, w)
          else if y
          then (got, w')
          else recv_loop sock n (suc left - length bytes) (got ++ bytes) w')
        zero_left e

  -- What has come and what is still to come; the loop stops early only at the end of the stream.
  abbrev Receives : (left : ℕ) → (got : List ℕ) → World → List ℕ × World → Type 0
  Receives left got w r =
      (r.0 ++ s.incoming r.1 ≡ got ++ s.incoming w)
      × ((length r.0 ≡ length got + left)
          ⊎ ((length r.0 < length got + left) × (s.incoming r.1 ≡ [])))

  recv_loop-Receives :
      (n left : ℕ) (got : List ℕ) (w : World)
      → left ≤ n
      → Receives left got w (recv_loop sock n left got w)
  unfolding recv_loop
  recv_loop-Receives zero left got w h = (refl, inl (omega (arith, h)))
  recv_loop-Receives (suc n) zero got w h = (refl, inl (omega arith))
  recv_loop-Receives (suc n) (suc left) got w h =
      let (short, split, ended) = s.read (suc left) w (omega arith) in
      let bytes = (sock.read (suc left) w).0 in
      let w' = (sock.read (suc left) w).1 in
      elim (List-cases bytes) [
        | inl e ↦
            let none_left = ended e in
            let after : s.incoming w' ≡ [] =
              ap (λ l. l ++ s.incoming w') (sym e) ∙ (sym split ∙ none_left) in
            subst (Receives (suc left) got w)
              (sym (recv_loop-round n left got w true (ap is_nil e)))
              (ap (λ l. got ++ l) (after ∙ sym none_left), inr (omega arith, after))
        | inr (b, bs, e) ↦
            let more =
              recv_loop-Receives n (suc left - length bytes) (got ++ bytes) w'
                (omega (arith, h, ap length e)) in
            let len : length (got ++ bytes) + (suc left - length bytes) ≡ length got + suc left =
              omega (arith, length-append got bytes, short) in
            subst (Receives (suc left) got w)
              (sym (recv_loop-round n left got w false (ap is_nil e)))
              (
                more.0 ∙ (append_assoc got bytes (s.incoming w') ∙ ap (λ l. got ++ l) (sym split)),
                elim more.1 [
                  | inl whole ↦ inl (whole ∙ len)
                  | inr (part, empty) ↦ inr (omega (arith, part, len), empty)
                ],
              )
      ]

  -- A whole message is received, whatever the pieces that the reads give, and nothing behind it is taken.
  recv_message-whole :
      (msg rest : List ℕ) (w : World)
      → s.incoming w ≡ msg ++ rest
      → (w' : World) × (recv_message sock (length msg) w ≡ (true, (msg, w')))
        × (s.incoming w' ≡ rest)
  unfolding recv_message
  recv_message-whole msg rest w e =
      let (got, w') = recv_loop sock (length msg) (length msg) [] w in
      let r = recv_loop-Receives (length msg) (length msg) [] w (omega arith) in
      let both : got ++ s.incoming w' ≡ msg ++ rest = r.0 ∙ e in
      let len : length got ≡ length msg = elim r.1 [
        | inl whole ↦ omega (arith, whole)
        | inr (part, empty) ↦ absurd (
            omega (
              arith,
              part,
              ap length both,
              ap length empty,
              length-append got (s.incoming w'),
              length-append msg rest,
            ))
      ] in
      let same : got ≡ msg =
        sym (take-append got (s.incoming w'))
        ∙ (ap₂ (λ n l. take n l) len both ∙ take-append msg rest) in
      let behind : s.incoming w' ≡ rest =
        sym (drop-append got (s.incoming w'))
        ∙ (ap₂ (λ n l. drop n l) len both ∙ drop-append msg rest) in
      (
        w',
        ap₂ (λ n l. (n == length msg, (l, w'))) len same
            ∙ ap (λ b. (b, (msg, w'))) (==_refl (length msg)),
        behind,
      )

module _ {World : Type 0} (sock : Connection World) (s : IsSink sock) where
  -- A round of the loop that writes.
  send_loop-round :
      (n x : ℕ) (left : List ℕ) (count : ℕ) (w : World)
      → let (rc, w') = sock.write (x ∷ left) w in
        0 < rc
        → send_loop sock (suc n) (x ∷ left) count w
          ≡ send_loop sock n (drop rc (x ∷ left)) (count + rc) w'
  unfolding send_loop
  send_loop-round n x left count w h =
      let (rc, w') = sock.write (x ∷ left) w in
      let some_taken : (rc == 0) ≡ false = ground (arith, h) in
      ap (λ b. if b then (count, w') else send_loop sock n (drop rc (x ∷ left)) (count + rc) w')
        some_taken

  send_loop-sent :
      (n : ℕ) (left : List ℕ) (count : ℕ) (w : World)
      → length left ≤ n
      → let (count', w') = send_loop sock n left count w in
        (count' ≡ count + length left) × (s.sent w' ≡ s.sent w ++ left)
  unfolding send_loop
  send_loop-sent zero [] count w h = (omega arith, sym (append-nil (s.sent w)))
  send_loop-sent zero (x ∷ left) count w h = absurd (omega (arith, h))
  send_loop-sent (suc n) [] count w h = (omega arith, sym (append-nil (s.sent w)))
  send_loop-sent (suc n) (x ∷ left) count w h =
      let (some_taken, fits, stored) = s.write (x ∷ left) w (omega arith) in
      let rc = (sock.write (x ∷ left) w).0 in
      let w' = (sock.write (x ∷ left) w).1 in
      let shorter = length-drop rc (x ∷ left) in
      let (counted, sent) =
        send_loop-sent n (drop rc (x ∷ left)) (count + rc) w'
          (omega (arith, h, shorter, some_taken)) in
      subst (λ r. (r.0 ≡ count + length (x ∷ left)) × (s.sent r.1 ≡ s.sent w ++ (x ∷ left)))
        (sym (send_loop-round n x left count w some_taken))
        (
          omega (arith, counted, shorter, fits),
          sent
              ∙ (ap (λ l. l ++ drop rc (x ∷ left)) stored
                  ∙ (append_assoc (s.sent w) (take rc (x ∷ left)) (drop rc (x ∷ left))
                      ∙ ap (λ l. s.sent w ++ l) (take-drop rc (x ∷ left)))),
        )

  -- A message is sent as a whole, whatever the pieces that the writes take.
  send_message-sent :
      (msg : List ℕ) (w : World)
      → (w' : World) × (send_message sock msg w ≡ (true, w')) × (s.sent w' ≡ s.sent w ++ msg)
  unfolding send_message
  send_message-sent msg w =
      let (count, w') = send_loop sock (length msg) msg 0 w in
      let (counted, sent) = send_loop-sent (length msg) msg 0 w (omega arith) in
      let all : (count == length msg) ≡ true = ground (arith, counted) in
      (w', ap (λ b. (b, w')) all, sent)

  -- The request is the length of the arguments, in four bytes, and the arguments.
  send_request-sent :
      (argv : List (List ℕ)) (w : World)
      → (w' : World) × (send_request sock argv w ≡ (true, w'))
        × (s.sent w' ≡ s.sent w ++ (store_bytes 4 (argvlen argv) ++ (argvpack argv).0))
  unfolding send_request
  send_request-sent argv w =
      let head = store_bytes 4 (argvlen argv) in
      let args = (argvpack argv).0 in
      let (u, first, sent_head) = send_message-sent head w in
      let (v, second, sent_args) = send_message-sent args u in
      (
        v,
        ap (λ r. if r.0 then send_message sock args r.1 else (false, r.1)) first ∙ second,
        sent_args ∙ (ap (λ l. l ++ args) sent_head ∙ append_assoc (s.sent w) head args),
      )

module _ {World : Type 0} (sock : Connection World) (s : IsSource sock) where
  unpacked_args-accepted :
      (argl : ℕ) (args : List ℕ) (argv : List (List ℕ))
      → Packed argv argl args
      → (pointers : List (List ℕ)) × (map text_at pointers ≡ argv)
        × (unpacked_args argl args ≡ some (Request.accepted pointers))
  unpacked_args-accepted argl args argv p =
      let (pointers, unpacks, same) = p.unpacked in
      (pointers, same, rw (p.counted, unpacked_args) (rw unpacks refl))

  read_args-accepted :
      (argv : List (List ℕ)) (rest : List ℕ) (w : World)
      → AreTexts argv
      → 0 < argvlen argv
      → argvlen argv ≤ 2048
      → s.incoming w ≡ (argvpack argv).0 ++ rest
      → (pointers : List (List ℕ)) × (w' : World) × (map text_at pointers ≡ argv)
        × (read_args sock (argvlen argv) w ≡ (some (Request.accepted pointers), w'))
        × (s.incoming w' ≡ rest)
  unfolding read_args
  read_args-accepted argv rest w texts some_bytes fits e =
      let args = (argvpack argv).0 in
      let p = argvpack-Packed argv texts in
      let argl = argvlen argv in
      let len : length args ≡ argl = omega (arith, p.len, p.measured) in
      let (w', received, behind) = recv_message-whole sock s args rest w e in
      let (pointers, same, unpacks) = unpacked_args-accepted (argvpack argv).1 args argv p in
      let bounds : (ltb 0 argl && leb argl 2048) ≡ true = ground (arith, some_bytes, fits) in
      let whole : recv_message sock argl w ≡ (true, (args, w')) =
        ap (λ n. recv_message sock n w) (sym len) ∙ received in
      (
        pointers,
        w',
        same,
        ap₂
              (λ b r.
                if not b
                then (none, w)
                else if r.0
                then (unpacked_args argl (r.1).0, (r.1).1)
                else (some Request.aborted, (r.1).1))
              bounds whole
            ∙ ap (λ o. (o, w')) (ap (λ n. unpacked_args n args) (sym p.measured) ∙ unpacks),
        behind,
      )

  rsrv_client-accepted :
      (argv : List (List ℕ)) (rest : List ℕ) (w : World)
      → AreTexts argv
      → 0 < argvlen argv
      → argvlen argv ≤ 2048
      → s.incoming w ≡ (store_bytes 4 (argvlen argv) ++ (argvpack argv).0) ++ rest
      → (pointers : List (List ℕ)) × (w' : World) × (map text_at pointers ≡ argv)
        × (rsrv_client sock w ≡ (some (Request.accepted pointers), w'))
        × (s.incoming w' ≡ rest)
  unfolding rsrv_client store_bytes
  rsrv_client-accepted argv rest w texts some_bytes fits e =
      let argl = argvlen argv in
      let head = store_bytes 4 argl in
      let args = (argvpack argv).0 in
      let (u, received, behind) =
        recv_message-whole sock s head (args ++ rest) w (e ∙ append_assoc head args rest) in
      let (pointers, v, same, reads, left) =
        read_args-accepted argv rest u texts some_bytes fits behind in
      let loads : load_bytes 4 head ≡ some argl =
        ap (load_bytes 4) (sym (append-nil head))
        ∙ load_bytes-store_bytes 4 argl [] (omega (arith, fits)) in
      let go_on : Option ℕ → Option Request × World =
        λ o. elim o [ none ↦ (none, u) | some n ↦ read_args sock n u ] in
      (
        pointers,
        v,
        same,
        ap
              (λ r.
                if r.0
                then elim (load_bytes 4 (r.1).0) [
                  | none ↦ (none, (r.1).1)
                  | some n ↦ read_args sock n (r.1).1
                ]
                else (some Request.aborted, (r.1).1))
              received
            ∙ (ap go_on loads ∙ reads),
        left,
      )

-- Over connections that pass bytes on in any pieces, a client that has sent nothing before sends its whole
-- request, and the server, if what comes to it begins with what the client has sent, accepts it, with the
-- arguments of the client, and takes nothing behind it. The arguments contain no zero byte, and take at least
-- one byte and at most 2048.
pub rsrv_client-send_request :
    {Client Server : Type 0} (c : Connection Client) (out : IsSink c) (d : Connection Server)
    (sock : IsSource d) (argv : List (List ℕ)) (rest : List ℕ) (client : Client) (server : Server)
    → AreTexts argv
    → 0 < argvlen argv
    → argvlen argv ≤ 2048
    → out.sent client ≡ []
    → sock.incoming server ≡ out.sent (send_request c argv client).1 ++ rest
    → ((send_request c argv client).0 ≡ true)
      × ((pointers : List (List ℕ)) × (server' : Server) × (map text_at pointers ≡ argv)
          × (rsrv_client d server ≡ (some (Request.accepted pointers), server'))
          × (sock.incoming server' ≡ rest))
rsrv_client-send_request c out d sock argv rest client server texts some_bytes fits fresh arrives =
    let request = store_bytes 4 (argvlen argv) ++ (argvpack argv).0 in
    let (client', whole, sent) = send_request-sent c out argv client in
    let all : out.sent (send_request c argv client).1 ≡ request =
      ap (λ r. out.sent r.1) whole ∙ (sent ∙ ap (λ l. l ++ request) fresh) in
    (
      ap (λ r. r.0) whole,
      rsrv_client-accepted d sock argv rest server texts some_bytes fits
          (arrives ∙ ap (λ l. l ++ rest) all),
    )
