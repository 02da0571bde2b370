-- ===== src/Shell/Remote.antt =====
-- The messages of the remote server and its client in tinyos_shell.c: the loops over `Read` and `Write`, the
-- request of `RemoteClient`, and what `rsrv_client` makes of it.
use tinyos.Base.{
  ℕ, zero, suc, ◌+◌, ◌-◌, List, [], ◌++◌, Bool, false, not, ◌&&◌, Option, none, some, ◌==◌, ltb,
  leb, if◌then◌else◌, length, is_nil, drop,
}
use tinyos.Args.{argvlen, argvpack, argscount, argvunpack}
use tinyos.Userlib.{store_bytes, load_bytes}

-- A connected socket: the bytes that `Read` stores, none for a value below 1, and how many bytes `Write` takes,
-- 0 for a value below 1.
pub record Connection (World : Type 0) : Type 0 where
  pub read : (size : ℕ) → World → List ℕ × World
  pub write : (bytes : List ℕ) → World → ℕ × World

module _ {World : Type 0} (sock : Connection World) where
  -- The loop of `recv_message`, with the bytes that are wanted and those that have come; each round takes one at
  -- least, so that as many rounds as bytes are enough.
  unfoldable pub recv_loop : (rounds left : ℕ) → (got : List ℕ) → World → List ℕ × World
  recv_loop zero left got w = (got, w)
  recv_loop (suc n) left got w =
      let (bytes, w') = sock.read left w in
      let rest = recv_loop n (left - length bytes) (got ++ bytes) w' in
      if left == 0 then (got, w) else if is_nil bytes then (got, w') else rest

  -- Whether the message is whole, and its bytes.
  unfoldable pub recv_message : (len : ℕ) → World → Bool × (List ℕ × World)
  unfolding recv_loop
  recv_message len w = let (got, w') = recv_loop len len [] w in (length got == len, (got, w'))

  -- The loop of `send_message`, with the bytes that are left and the count.
  unfoldable pub send_loop : (rounds : ℕ) → (left : List ℕ) → (count : ℕ) → World → ℕ × World
  send_loop zero left count w = (count, w)
  send_loop (suc n) left count w =
      let (rc, w') = sock.write left w in
      let rest = send_loop n (drop rc left) (count + rc) w' in
      if is_nil left then (count, w) else if rc == 0 then (count, w') else rest

  -- `false` is the exit of the client.
  unfoldable pub send_message : (buf : List ℕ) → World → Bool × World
  unfolding send_loop
  send_message buf w = let (count, w') = send_loop (length buf) buf 0 w in (count == length buf, w')

-- The part of `RemoteClient` that sends its arguments.
unfoldable pub send_request :
    {World : Type 0} → Connection World → (argv : List (List ℕ)) → World → Bool × World
unfolding send_message
send_request sock argv w =
    let (sent, w') = send_message sock (store_bytes 4 (argvlen argv)) w in
    let (all, w'') = send_message sock (argvpack argv).0 w' in
    if sent then (all, w'') else (false, w')

-- What `rsrv_client` makes of a request: the arguments for the process behind its name and its socket, or an error
-- in receiving; `none` is a failed assertion, or a read behind the buffer.
pub data Request : Type 0 where
  accepted : List (List ℕ) → Request
  aborted : Request

abbrev pub unpacked_args : (argl : ℕ) → (args : List ℕ) → Option Request
unpacked_args argl args = elim (argscount argl args) [
  | none ↦ none
  | some argc ↦ elim (argvunpack argc args) [
    | none ↦ none
    | some (argv, _) ↦ some (Request.accepted argv)
  ]
]

unfoldable pub read_args :
    {World : Type 0} → Connection World → (argl : ℕ) → World → Option Request × World
unfolding recv_message
read_args sock argl w =
    let (whole, (args, w')) = recv_message sock argl w in
    if not (ltb 0 argl && leb argl 2048)
    then (none, w)
    else if whole
    then (unpacked_args argl args, w')
    else (some Request.aborted, w')

unfoldable pub rsrv_client : {World : Type 0} → Connection World → World → Option Request × World
unfolding recv_message read_args load_bytes
rsrv_client sock w =
    let (whole, (bytes, w')) = recv_message sock 4 w in
    if whole
    then elim (load_bytes 4 bytes) [ none ↦ (none, w') | some argl ↦ read_args sock argl w' ]
    else (some Request.aborted, w')
