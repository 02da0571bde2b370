-- ===== src/Socket/Connect.antt =====
-- `sys_Accept`, `sys_Connect` and `sys_ShutDown` of kernel_socket.c.
use tinyos.Base.{
  ℕ, ◌+◌, [], ◌∷◌, ◌++◌, Bool, true, false, ◌&&◌, ◌||◌, Option, none, some, ◌==◌, ltb,
  if◌then◌else◌, update, remove,
}
use tinyos.Base.Int.{ℤ, pos, negsuc, minus_one, is_zero}
use tinyos.Cc.{kernel_wait_wchan}
use tinyos.Sched.{no_timeout}
use tinyos.Kernel.{incr}
use tinyos.Pipe.{pipe_init}
use tinyos.Socket.{
  Scb, Net, SocketRun, returns, waits, fails, ShutdownMode, shutdown_read, shutdown_write,
  shutdown_both, other_mode, SocketType, is_unbound, is_peer, is_listener, max_port, noport,
  set_scb, get_scb, signal_listener, drop_scb, close_reader, close_writer, open_socket,
}

-- `ret = a && b` of `sys_ShutDown`, for the values of the two closes.
unfoldable pub both_closed : (reader writer : ℤ) → ℤ
both_closed reader writer = if is_zero reader || is_zero writer then pos 0 else pos 1

module _ {Ops World : Type 0} where
  unfoldable pub hold_scb : ℕ → Net Ops World → Net Ops World
  hold_scb a n = let c = n.scb a in set_scb a (record c { refcount = incr c.refcount }) n

  -- `kernel_wait` and `kernel_timedwait` on the condition of the listener `a`.
  unfoldable pub wait_listener : (core now timeout a : ℕ) → Net Ops World → Net Ops World
  wait_listener core now timeout a n =
      let c = n.scb a in
      let (cv, l) = kernel_wait_wchan core now timeout c.req_available n.lock in
      set_scb a (record c { req_available = cv }) (record n { lock = l })

  -- The assignments of `sys_Accept` that make the sockets `server` and `client` peers of each other,
  -- with the new pipes `p1` and `p2`, whose buffers hold `m1` and `m2`.
  unfoldable pub link_peers :
      (ops : Ops) → (server client p1 p2 : ℕ) → (m1 m2 : ℕ → ℕ) → Net Ops World → Net Ops World
  unfolding pipe_init
  link_peers ops server client p1 p2 m1 m2 n =
      let s = n.scb server in
      let served = update n.scb server (record s {
        type = SocketType.peer;
        peer_scb = some client;
        write_pipe = some p1;
        read_pipe = some p2;
      }) in
      let c = served client in
      let t = n.files in
      let b1 = t.fcb s.fcb in
      let fcb1 = update t.fcb s.fcb (record b1 { streamfunc = ops }) in
      let b2 = fcb1 c.fcb in
      let first = pipe_init m1 in
      let second = pipe_init m2 in
      record n {
        scb = update served client (record c {
          type = SocketType.peer;
          peer_scb = some server;
          read_pipe = some p1;
          write_pipe = some p2;
        });
        pipe =
            update (update n.pipe p1 (record first { writer = some s.fcb; reader = some c.fcb })) p2
              (record second { writer = some c.fcb; reader = some s.fcb });
        files = record t { fcb = update fcb1 c.fcb (record b2 { streamfunc = ops }) };
      }

  -- The store of `c_req->admitted` and the end of `sys_Accept`. The pointer `c_req` is the key of the node, so
  -- the store goes to the variable `request` of the `Connect` call and not to the request.
  unfoldable pub admit : (listener r : ℕ) → Net Ops World → Net Ops World
  unfolding drop_scb signal_listener
  admit listener r n =
      let c = n.request r in
      signal_listener listener (
        drop_scb listener
          (record n { request = update n.request r (record c { overwritten = true }) }))

  -- `sys_Accept` behind its call of `sys_Socket`, with the new file id and the socket that stands
  -- there. The socket `client` is what `c_req->peer` reads.
  unfoldable pub answer :
      (ops : Ops)
      → (p1 p2 : ℕ) → (m1 m2 : ℕ → ℕ) → (client listener r : ℕ) → (fid : ℤ) → Option ℕ
      → Net Ops World
      → ℤ × Net Ops World
  unfolding link_peers admit
  answer ops p1 p2 m1 m2 client listener r fid none n = (minus_one, n)
  answer ops p1 p2 m1 m2 client listener r fid (some server) n =
      (fid, admit listener r (link_peers ops server client p1 p2 m1 m2 n))

  -- `sys_Accept` behind the wait, with the request `r` taken from the queue. `behind r` is the socket that
  -- `c_req->peer` reads, a word of the frame of the `Connect` call; `a` is the block for the new socket.
  unfoldable pub serve :
      (ops : Ops)
      → (p a p1 p2 : ℕ) → (m1 m2 : ℕ → ℕ) → (behind : ℕ → ℕ) → (listener r : ℕ) → Net Ops World
      → ℤ × Net Ops World
  unfolding open_socket get_scb answer
  serve ops p a p1 p2 m1 m2 behind listener r n =
      let (fid, opened) = open_socket ops p a (n.scb listener).port n in
      answer ops p1 p2 m1 m2 (behind r) listener r fid (get_scb p fid opened) opened

  -- One round of the loop of `sys_Accept`, and what stands behind it.
  unfoldable pub accept_round :
      (core now : ℕ)
      → (ops : Ops) → (p a p1 p2 : ℕ) → (m1 m2 : ℕ → ℕ) → (behind : ℕ → ℕ) → (listener : ℕ)
      → Net Ops World
      → SocketRun Ops World
  unfolding wait_listener serve
  accept_round core now ops p a p1 p2 m1 m2 behind listener n =
      let c = n.scb listener in
      if c.port == noport then returns minus_one n else elim c.queue [
        | [] ↦ waits (wait_listener core now no_timeout listener n)
        | r ∷ rs ↦
            let (fid, done) =
              serve ops p a p1 p2 m1 m2 behind listener r
                (set_scb listener (record c { queue = rs }) n) in
            returns fid done
      ]

  -- `sys_Accept`, with the socket at the file id.
  unfoldable pub accept :
      (core now : ℕ)
      → (ops : Ops) → (p a p1 p2 : ℕ) → (m1 m2 : ℕ → ℕ) → (behind : ℕ → ℕ) → Option ℕ
      → Net Ops World
      → SocketRun Ops World
  unfolding accept_round hold_scb
  accept core now ops p a p1 p2 m1 m2 behind none n = returns minus_one n
  accept core now ops p a p1 p2 m1 m2 behind (some l) n =
      let run = accept_round core now ops p a p1 p2 m1 m2 behind l (hold_scb l n) in
      if is_listener (n.scb l).type then run else returns minus_one n

  unfoldable pub sys_accept :
      (core now : ℕ)
      → (ops : Ops) → (p a p1 p2 : ℕ) → (m1 m2 : ℕ → ℕ) → (behind : ℕ → ℕ) → (lsock : ℤ)
      → Net Ops World
      → SocketRun Ops World
  unfolding accept get_scb
  sys_accept core now ops p a p1 p2 m1 m2 behind lsock n =
      accept core now ops p a p1 p2 m1 m2 behind (get_scb p lsock n) n

  -- The listener at a port, if the checks of `sys_Connect` find one.
  unfoldable pub listener_at : (port : ℕ) → Net Ops World → Option ℕ
  listener_at port n =
      if ltb 0 port && ltb port (max_port + 1)
      then elim (n.port_map port) [
        | none ↦ none
        | some l ↦ if is_listener (n.scb l).type then some l else none
      ]
      else none

  -- `sys_Connect` behind its checks until it sleeps: socket `a` asks listener `l` by the request `r`.
  unfoldable pub ask : (core now timeout a l r : ℕ) → Net Ops World → Net Ops World
  unfolding hold_scb signal_listener wait_listener
  ask core now timeout a l r n =
      let held = hold_scb a n in
      let c = held.scb l in
      let asked =
        set_scb l (record c { queue = c.queue ++ (r ∷ []) })
          (record held {
            request =
                update held.request r
                  (record { admitted = false; peer_scb = a; overwritten = false; freed = false });
          }) in
      wait_listener core now timeout l (signal_listener l asked)

  -- `sys_Connect`, with the socket at the file id.
  unfoldable pub connect :
      (core now timeout r : ℕ) → Option ℕ → (port : ℕ) → Net Ops World → SocketRun Ops World
  unfolding listener_at ask
  connect core now timeout r none port n = returns minus_one n
  connect core now timeout r (some a) port n =
      if is_unbound (n.scb a).type
      then elim (listener_at port n) [
        | none ↦ returns minus_one n
        | some l ↦ waits (ask core now timeout a l r n)
      ]
      else returns minus_one n

  unfoldable pub sys_connect :
      (core now timeout p r : ℕ) → (sock : ℤ) → (port : ℤ) → Net Ops World → SocketRun Ops World
  unfolding connect get_scb
  sys_connect core now timeout p r sock (negsuc k) n = returns minus_one n
  sys_connect core now timeout p r sock (pos port) n =
      connect core now timeout r (get_scb p sock n) port n

  -- `sys_Connect` after it has slept: `signalled` is the result of the wait, and `l` the listener
  -- in whose queue the request may still be.
  unfoldable pub connect_woken :
      (signalled : Bool) → (a l r : ℕ) → Net Ops World → SocketRun Ops World
  unfolding drop_scb
  connect_woken true a l r n = returns (pos 0) (drop_scb a n)
  connect_woken false a l r n =
      let c = n.scb l in
      let q = n.request r in
      if q.overwritten || q.freed
      then fails
      else returns minus_one (
          set_scb l (record c { queue = remove r c.queue })
            (record n { request = update n.request r (record q { freed = true }) }))

  -- The closes of `SHUTDOWN_BOTH`: the writer is closed only if the close of the reader fails.
  unfoldable pub close_both_ends : (c : Scb) → Net Ops World → ℤ × Net Ops World
  unfolding close_reader close_writer both_closed
  close_both_ends c n =
      let (r, n1) = close_reader c.read_pipe n in
      let (w, n2) = close_writer c.write_pipe n1 in
      if is_zero r then (pos 0, n1) else (both_closed r w, n2)

  -- `sys_ShutDown`, with the socket at the file id.
  unfoldable pub shut_down : Option ℕ → ShutdownMode → Net Ops World → ℤ × Net Ops World
  unfolding close_reader close_writer close_both_ends
  shut_down none how n = (minus_one, n)
  shut_down (some a) how n =
      let c = n.scb a in
      let (r, n1) = close_reader c.read_pipe n in
      let (w, n2) = close_writer c.write_pipe n in
      let (b, n3) = close_both_ends c n in
      let forget_reader = set_scb a (record c { read_pipe = none }) n1 in
      let forget_writer = set_scb a (record c { write_pipe = none }) n2 in
      let forget_both = set_scb a (record c { read_pipe = none; write_pipe = none }) n3 in
      if is_peer c.type
      then elim how [
        | shutdown_read ↦ (r, if is_zero r then forget_reader else n1)
        | shutdown_write ↦ (w, if is_zero w then forget_writer else n2)
        | shutdown_both ↦ (b, if is_zero b then forget_both else n3)
        | other_mode ↦ (minus_one, n)
      ]
      else (minus_one, n)

  unfoldable pub sys_shut_down :
      (p : ℕ) → (sock : ℤ) → ShutdownMode → Net Ops World → ℤ × Net Ops World
  unfolding shut_down get_scb
  sys_shut_down p sock how n = shut_down (get_scb p sock n) how n
