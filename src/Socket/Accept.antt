-- ===== src/Socket/Accept.antt =====
-- What `sys_Accept` connects: the two sockets are peers, and what one writes the other reads.
use tinyos.Base.{
  ℕ, ◌≤◌, ◌<◌, ◌≡◌, ◌≢◌, List, [], ◌∷◌, true, false, Option, some, update, arith, ap, ◌∙◌, length,
  is_none,
}
use tinyos.Base.Int.{pos}
use tinyos.Pipe.{Pipe, WriteRun, ReadRun, pipe_init, pipe_write, pipe_read}
use tinyos.Pipe.Inv.{IsValid, slots}
use tinyos.Pipe.Fifo.{done}
use tinyos.Pipe.Refine.{view, pipe_read-pipe_write}
use tinyos.Streams.{Files, fcb_reserve, get_fcb, legal_fid, max_fileid}
use tinyos.Socket.{
  Net, SocketType, returns, noport, set_scb, peer_pipe, socket_read, socket_write, get_scb,
  open_socket, new_socket, bind_fcb, bind_reserved, signal_listener, drop_scb,
}
use tinyos.Socket.Connect.{link_peers, admit, answer, serve, accept_round}

-- `a` and `b` are peers, and the pipe that `a` writes to is the one that `b` reads from: `q`, empty and open.
pub record Feeds {Ops World : Type 0} (a b q : ℕ) (n : Net Ops World) : Type 0 where
  pub type : ((n.scb a).type ≡ SocketType.peer) × ((n.scb b).type ≡ SocketType.peer)
  pub peer : ((n.scb a).peer_scb ≡ some b) × ((n.scb b).peer_scb ≡ some a)
  pub written : (n.scb a).write_pipe ≡ some q
  pub read : (n.scb b).read_pipe ≡ some q
  pub valid : IsValid (n.pipe q)
  pub empty : (n.pipe q).word_length ≡ 0
  pub ends : (is_none (n.pipe q).writer ≡ false) × (is_none (n.pipe q).reader ≡ false)

-- What a write at `a` and then a read at `b` come to.
abbrev pub Delivers : {Ops World : Type 0} → (a b q : ℕ) → List ℕ → Net Ops World → Type 0
Delivers a b q bs n =
    (self other : ℕ)
    → (c : Pipe) × (r : ReadRun) × (socket_write self (some a) (some bs) n
        ≡ some (q, WriteRun.returned (pos (length bs)) c))
      × (socket_read other (some b) true (length bs) (record n { pipe = update n.pipe q c })
          ≡ some (q, r))
      × (view r ≡ done (pos (length bs)) bs [])

module _ {Ops World : Type 0} where
  socket_write-Feeds :
      (a b q self : ℕ) (buf : Option (List ℕ)) (n : Net Ops World)
      → Feeds a b q n
      → socket_write self (some a) buf n ≡ some (q, pipe_write self buf (n.pipe q))
  unfolding socket_write peer_pipe
  socket_write-Feeds a b q self buf n f = ground (arith, f.type, f.written)

  socket_read-Feeds :
      (a b q other size : ℕ) (c : Pipe) (n : Net Ops World)
      → Feeds a b q n
      → socket_read other (some b) true size (record n { pipe = update n.pipe q c })
        ≡ some (q, pipe_read other true size c)
  unfolding socket_read peer_pipe
  socket_read-Feeds a b q other size c n f = ground (arith, f.type, f.read)

  Feeds-Delivers :
      (a b q : ℕ) (bs : List ℕ) (n : Net Ops World)
      → Feeds a b q n
      → 0 < length bs
      → length bs ≤ slots
      → Delivers a b q bs n
  Feeds-Delivers a b q bs n f h room self other =
      let (c, runs, got) =
        pipe_read-pipe_write self other bs f.valid f.empty f.ends.0 f.ends.1 h room in
      (
        c,
        pipe_read other true (length bs) c,
        socket_write-Feeds a b q self (some bs) n f ∙ ap (λ r. some (q, r)) runs,
        socket_read-Feeds a b q other (length bs) c n f,
        got,
      )

  -- The assignments of `sys_Accept` connect two different sockets in both directions.
  link_peers-Feeds :
      (ops : Ops) (server client p1 p2 : ℕ) (m1 m2 : ℕ → ℕ) (n : Net Ops World)
      → server ≢ client
      → p1 ≢ p2
      → let m = link_peers ops server client p1 p2 m1 m2 n in
        Feeds server client p1 m × Feeds client server p2 m
  unfolding link_peers pipe_init
  link_peers-Feeds ops server client p1 p2 m1 m2 n ne ne' = (
    record {
      type = ground arith;
      peer = ground arith;
      written = ground arith;
      read = ground arith;
      valid = ground arith;
      empty = ground arith;
      ends = ground arith;
    },
    record {
      type = ground arith;
      peer = ground arith;
      written = ground arith;
      read = ground arith;
      valid = ground arith;
      empty = ground arith;
      ends = ground arith;
    },
  )

  admit-Feeds : (a b q l r : ℕ) (n : Net Ops World) → Feeds a b q n → Feeds a b q (admit l r n)
  unfolding admit signal_listener drop_scb
  admit-Feeds a b q l r n f = record {
    type = ground (arith, f.type);
    peer = ground (arith, f.peer);
    written = ground (arith, f.written);
    read = ground (arith, f.read);
    valid = f.valid;
    empty = f.empty;
    ends = f.ends;
  }

  -- The new socket is found again at its file id.
  get_scb-bind_fcb :
      (ops : Ops) (p a port i f : ℕ) (s : Files Ops World) (n : Net Ops World)
      → i < max_fileid
      → s.fidt p i ≡ some f
      → get_scb p (pos i) (bind_fcb ops a f (new_socket a port (record n { files = s }))) ≡ some a
  unfolding get_scb get_fcb legal_fid bind_fcb new_socket
  get_scb-bind_fcb ops p a port i f s n h e = ground (arith, e)

  open_socket-bind_fcb :
      (ops : Ops) (p a port i f : ℕ) (is fs : List ℕ) (s : Files Ops World) (n : Net Ops World)
      → fcb_reserve p 1 n.files ≡ (some (i ∷ is, f ∷ fs), s)
      → open_socket ops p a port n
        ≡ (pos i, bind_fcb ops a f (new_socket a port (record n { files = s })))
  unfolding open_socket
  open_socket-bind_fcb ops p a port i f is fs s n e = ap (bind_reserved ops a port n) e

  module _ (ops : Ops) (p a p1 p2 : ℕ) (m1 m2 : ℕ → ℕ) (behind : ℕ → ℕ) (l r i f : ℕ)
      (is fs : List ℕ) (s : Files Ops World) where
    -- The state in which `sys_Accept` connects the sockets.
    abbrev opened : Net Ops World → Net Ops World
    opened n = bind_fcb ops a f (new_socket a (n.scb l).port (record n { files = s }))

    serve-admit :
        (n : Net Ops World)
        → fcb_reserve p 1 n.files ≡ (some (i ∷ is, f ∷ fs), s)
        → i < max_fileid
        → s.fidt p i ≡ some f
        → serve ops p a p1 p2 m1 m2 behind l r n
          ≡ (pos i, admit l r (link_peers ops a (behind r) p1 p2 m1 m2 (opened n)))
    unfolding serve answer
    serve-admit n e h e' =
        ap (λ o. answer ops p1 p2 m1 m2 (behind r) l r o.0 (get_scb p o.0 o.1) o.1)
          (open_socket-bind_fcb ops p a (n.scb l).port i f is fs s n e)
        ∙ ap (λ o. answer ops p1 p2 m1 m2 (behind r) l r (pos i) o (opened n))
            (get_scb-bind_fcb ops p a (n.scb l).port i f s n h e')

    -- A listener that is open and has a request accepts it without sleeping, if `FCB_reserve` gives a
    -- legal file id that names the FCB it gives, the two new pipes are distinct, and `c_req->peer`
    -- reads a socket other than the new one: it returns the file id, and what either socket then
    -- writes to its pipe, from one byte to the capacity of a pipe, the other one reads.
    pub accept_round-Delivers :
        (core now : ℕ) (rs bs : List ℕ) (n : Net Ops World)
        → (n.scb l).port ≢ noport
        → (n.scb l).queue ≡ r ∷ rs
        → a ≢ behind r
        → p1 ≢ p2
        → fcb_reserve p 1 n.files ≡ (some (i ∷ is, f ∷ fs), s)
        → i < max_fileid
        → s.fidt p i ≡ some f
        → 0 < length bs
        → length bs ≤ slots
        → (m : Net Ops World) × (accept_round core now ops p a p1 p2 m1 m2 behind l n
            ≡ returns (pos i) m)
          × Delivers a (behind r) p1 bs m
          × Delivers (behind r) a p2 bs m
    unfolding accept_round
    accept_round-Delivers core now rs bs n open_port e ne ne' reserved h e' pos_len room =
        let c = n.scb l in
        let n' = set_scb l (record c { queue = rs }) n in
        let linked = link_peers ops a (behind r) p1 p2 m1 m2 (opened n') in
        let (there, back) = link_peers-Feeds ops a (behind r) p1 p2 m1 m2 (opened n') ne ne' in
        (
          admit l r linked,
          ground (arith, e, serve-admit n' reserved h e'),
          Feeds-Delivers a (behind r) p1 bs (admit l r linked)
              (admit-Feeds a (behind r) p1 l r linked there) pos_len room,
          Feeds-Delivers (behind r) a p2 bs (admit l r linked)
              (admit-Feeds (behind r) a p2 l r linked back) pos_len room,
        )
