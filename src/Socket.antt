-- ===== src/Socket.antt =====
-- The sockets of kernel_socket.c and kernel_socket.h: socket control blocks, the port map and the
-- calls on them, over the pipes, the streams and the kernel lock. `p` is `CURPROC`, and the
-- blocks that `xmalloc` returns are arguments.
pub mod Connect
mod Tests
pub mod Ports
pub mod Shut
pub mod Accept
use tinyos.Base.{
  ℕ, ◌+◌, ◌-◌, ◌%◌, ◌^◌, List, [], ◌∷◌, ◌++◌, Bool, true, false, ◌&&◌, Option, none, some, ◌==◌,
  ltb, if◌then◌else◌, update, remove, is_none,
}
use tinyos.Base.Int.{ℤ, pos, negsuc, minus_one, is_zero}
use tinyos.Cc.{CondVar, KernelLock, kernel_signal, kernel_wait_wchan}
use tinyos.Sched.{no_timeout}
use tinyos.Kernel.{incr, decr}
use tinyos.Pipe.{
  Pipe, WriteRun, ReadRun, pipe_init, pipe_write, pipe_read, pipe_reader_close, pipe_writer_close,
}
use tinyos.Streams.{Files, fcb_reserve, get_fcb}

pub data SocketType : Type 0 where
  unbound peer listener : SocketType

abbrev pub is_unbound : SocketType → Bool
is_unbound unbound = true
is_unbound _ = false

abbrev pub is_peer : SocketType → Bool
is_peer peer = true
is_peer _ = false

abbrev pub is_listener : SocketType → Bool
is_listener listener = true
is_listener _ = false

-- `MAX_PORT` and `NOPORT`
abbrev pub max_port : ℕ
max_port = 1023

abbrev pub noport : ℕ
noport = 0

-- `SCB`, with the members of its union side by side: a socket is never a listener and a peer in
-- its life. Blocks are named by numbers and `none` is NULL; the queue is the list of its requests.
pub record Scb : Type 0 where
  pub fcb : ℕ
  pub refcount : ℕ
  pub type : SocketType
  pub port : ℕ
  pub queue : List ℕ
  pub req_available : CondVar
  pub peer_scb : Option ℕ
  pub write_pipe : Option ℕ
  pub read_pipe : Option ℕ

-- `c_req`. `overwritten` tells that the variable `request` of the `Connect` call has been written to
-- through the key of the list node, which is the variable's address; `freed` records the call of `free`.
pub record Request : Type 0 where
  pub admitted : Bool
  pub peer_scb : ℕ
  pub overwritten : Bool
  pub freed : Bool

pub record Net (Ops World : Type 0) : Type 0 where
  pub scb : ℕ → Scb
  pub port_map : ℕ → Option ℕ
  pub request : ℕ → Request
  pub pipe : ℕ → Pipe
  pub files : Files Ops World
  pub lock : KernelLock

-- What a call comes to: it returns, it sleeps in `kernel_wait`, or it follows a bad pointer.
pub data SocketRun (Ops World : Type 0) : Type 0 where
  returns : ℤ → Net Ops World → SocketRun Ops World
  waits : Net Ops World → SocketRun Ops World
  fails : SocketRun Ops World

pub data ShutdownMode : Type 0 where
  shutdown_read shutdown_write shutdown_both other_mode : ShutdownMode

-- The loop of `socket_close` that frees the requests. It calls `free` on the list node inside a request, which is
-- not the start of its block: `none`.
unfoldable pub free_requests : List ℕ → (ℕ → Request) → Option (ℕ → Request)
free_requests [] request = some request
free_requests (r ∷ rs) request = none

module _ {Ops World : Type 0} where
  abbrev pub set_scb : ℕ → Scb → Net Ops World → Net Ops World
  set_scb a c n = record n { scb = update n.scb a c }

  -- The pipe behind a pointer of a socket, if the socket is a peer.
  unfoldable pub peer_pipe : (Scb → Option ℕ) → Option ℕ → Net Ops World → Option ℕ
  peer_pipe end none n = none
  peer_pipe end (some a) n = let c = n.scb a in if is_peer c.type then end c else none

  -- `socket_read`: the pipe that is read with what `pipe_read` does there, or `none` for -1.
  unfoldable pub socket_read :
      (self : ℕ) → Option ℕ → (has_buf : Bool) → (size : ℕ) → Net Ops World → Option (ℕ × ReadRun)
  unfolding peer_pipe
  socket_read self scb has_buf size n = elim (peer_pipe (λ c. c.read_pipe) scb n) [
    | none ↦ none
    | some q ↦ some (q, pipe_read self has_buf size (n.pipe q))
  ]

  -- `socket_write`, likewise.
  unfoldable pub socket_write :
      (self : ℕ) → Option ℕ → Option (List ℕ) → Net Ops World → Option (ℕ × WriteRun)
  unfolding peer_pipe
  socket_write self scb buf n = elim (peer_pipe (λ c. c.write_pipe) scb n) [
    | none ↦ none
    | some q ↦ some (q, pipe_write self buf (n.pipe q))
  ]

  -- `pipe_reader_close` and `pipe_writer_close` of a pointer to a pipe.
  unfoldable pub close_reader : Option ℕ → Net Ops World → ℤ × Net Ops World
  close_reader none n = (minus_one, n)
  close_reader (some q) n =
      let (r, c) = pipe_reader_close (n.pipe q) in (r, record n { pipe = update n.pipe q c })

  unfoldable pub close_writer : Option ℕ → Net Ops World → ℤ × Net Ops World
  close_writer none n = (minus_one, n)
  close_writer (some q) n =
      let (r, c) = pipe_writer_close (n.pipe q) in (r, record n { pipe = update n.pipe q c })

  -- `kernel_signal` of the condition of a listener.
  unfoldable pub signal_listener : ℕ → Net Ops World → Net Ops World
  signal_listener a n =
      let c = n.scb a in
      let (cv, l) = kernel_signal c.req_available n.lock in
      set_scb a (record c { req_available = cv }) (record n { lock = l })

  -- The case of `socket_close` for a listener.
  unfoldable pub close_listener : ℕ → Net Ops World → Option (Net Ops World)
  unfolding signal_listener free_requests
  close_listener a n =
      let c = n.scb a in
      elim (free_requests c.queue n.request) [
        | none ↦ none
        | some request ↦ some (
            signal_listener a (
              set_scb a (record c { queue = []; port = noport })
                (record n { port_map = update n.port_map c.port none; request = request })))
      ]

  unfoldable pub drop_scb : ℕ → Net Ops World → Net Ops World
  drop_scb a n = let c = n.scb a in set_scb a (record c { refcount = decr c.refcount }) n

  -- `socket_close`. The reference count is unsigned, so the test for a negative one is never true. `none` is the
  -- `free` of a bad pointer.
  unfoldable pub socket_close : Option ℕ → Net Ops World → Option (ℤ × Net Ops World)
  unfolding close_listener close_reader close_writer drop_scb
  socket_close none n = some (minus_one, n)
  socket_close (some a) n =
      let c = n.scb a in
      let closed : Option (Net Ops World) = elim c.type [
        | listener ↦ close_listener a n
        | peer ↦ some (close_writer c.write_pipe (close_reader c.read_pipe n).1).1
        | unbound ↦ some n
      ] in
      elim closed [ none ↦ none | some m ↦ some (pos 0, drop_scb a m) ]

  -- `new_socket`; the other fields keep what the block held.
  unfoldable pub new_socket : (a port : ℕ) → Net Ops World → Net Ops World
  new_socket a port n =
      let c = n.scb a in set_scb a (record c { refcount = 0; port = port; type = unbound }) n

  unfoldable pub get_scb : (p : ℕ) → (sock : ℤ) → Net Ops World → Option ℕ
  get_scb p sock n = elim (get_fcb p sock n.files) [
    | none ↦ none
    | some f ↦ (n.files.fcb f).streamobj
  ]

  -- The links of `sys_Socket` between the new socket `a` and its FCB; `ops` stands for
  -- `socketOperations`.
  unfoldable pub bind_fcb : (ops : Ops) → (a f : ℕ) → Net Ops World → Net Ops World
  bind_fcb ops a f n =
      let c = n.scb a in
      let s = n.files in
      let b = s.fcb f in
      set_scb a (record c { fcb = f })
        (record n {
          files = record s {
            fcb = update s.fcb f (record b { streamobj = some a; streamfunc = ops });
          };
        })

  -- `sys_Socket` for a legal port, with the result of `FCB_reserve`.
  unfoldable pub bind_reserved :
      (ops : Ops)
      → (a port : ℕ) → Net Ops World
      → Option (List ℕ × List ℕ) × Files Ops World
      → ℤ × Net Ops World
  unfolding new_socket bind_fcb
  bind_reserved ops a port n (some (i ∷ is, f ∷ fs), s) =
      (pos i, bind_fcb ops a f (new_socket a port (record n { files = s })))
  bind_reserved ops a port n (_, s) = (minus_one, record n { files = s })

  unfoldable pub open_socket : (ops : Ops) → (p a port : ℕ) → Net Ops World → ℤ × Net Ops World
  unfolding bind_reserved
  open_socket ops p a port n = bind_reserved ops a port n (fcb_reserve p 1 n.files)

  unfoldable pub sys_socket :
      (ops : Ops) → (p a : ℕ) → (port : ℤ) → Net Ops World → ℤ × Net Ops World
  unfolding open_socket
  sys_socket ops p a (negsuc k) n = (minus_one, n)
  sys_socket ops p a (pos port) n =
      let opened = open_socket ops p a port n in
      if ltb max_port port then (minus_one, n) else opened

  -- The checks of `sys_Listen`.
  unfoldable pub can_listen : Scb → Net Ops World → Bool
  can_listen c n =
      is_unbound c.type && ltb 0 c.port && ltb c.port (max_port + 1) && is_none (n.port_map c.port)

  -- `sys_Listen`, with the socket at the file id.
  unfoldable pub listen : Option ℕ → Net Ops World → ℤ × Net Ops World
  unfolding can_listen
  listen none n = (minus_one, n)
  listen (some a) n =
      let c = n.scb a in
      let cv = c.req_available in
      if can_listen c n
      then (
        pos 0,
        set_scb a
            (record c { type = listener; queue = []; req_available = record cv { waitset = [] } })
            (record n { port_map = update n.port_map c.port (some a) }),
      )
      else (minus_one, n)

  unfoldable pub sys_listen : (p : ℕ) → (sock : ℤ) → Net Ops World → ℤ × Net Ops World
  unfolding listen get_scb
  sys_listen p sock n = listen (get_scb p sock n) n
