-- ===== src/Socket/Tests.antt =====
-- The theorems on sockets: a listener 1 at port 80 with the request 30 of the unbound socket 2, an
-- unbound socket 3 for port 90, and the peers 4 and 5.
use tinyos.Base.{ℕ, ◌≡◌, [], ◌∷◌, true, false, none, some, update, arith, refl}
use tinyos.Base.Int.{pos}
use tinyos.Cc.Tests.{no_waiters, unlocked}
use tinyos.Pipe.{Pipe, ReadRun}
use tinyos.Pipe.Tests.{empty}
use tinyos.Streams.{Files, fcb_reserve}
use tinyos.Streams.Tests.{before}
use tinyos.Socket.{
  Scb, Net, SocketType, returns, shutdown_both, free_requests, close_listener, socket_close,
  socket_read,
}
use tinyos.Socket.Connect.{shut_down, accept_round, ask}
use tinyos.Socket.Ports.{IsPorts, Closes, socket_close-IsPorts}
use tinyos.Socket.Accept.{Delivers, accept_round-Delivers}
use tinyos.Socket.Shut.{Fooled, shut_down-socket_read, ask-Fooled}

abbrev scb : Scb
scb = record {
  fcb = 0;
  refcount = 0;
  type = SocketType.unbound;
  port = 0;
  queue = [];
  req_available = no_waiters;
  peer_scb = none;
  write_pipe = none;
  read_pipe = none;
}

abbrev server : Scb
server = record scb {
  type = SocketType.listener;
  port = 80;
  queue = 30 ∷ [];
  req_available = record no_waiters { waitset = 2 ∷ [] };
}

abbrev left : Scb
left = record scb {
  type = SocketType.peer;
  peer_scb = some 5;
  write_pipe = some 9;
  read_pipe = some 8;
}

abbrev right : Scb
right = record scb {
  type = SocketType.peer;
  peer_scb = some 4;
  write_pipe = some 8;
  read_pipe = some 9;
}

abbrev files : Files (Unit {0}) (Unit {0})
files = record before { freelist = 7 ∷ 8 ∷ [] }

abbrev net : Net (Unit {0}) (Unit {0})
net = record {
  scb =
      update (update (update (update (λ a. scb) 1 server) 3 (record scb { port = 90 })) 4 left) 5
        right;
  port_map = update (λ p. none) 80 (some 1);
  request = λ r. record { admitted = false; peer_scb = 2; overwritten = false; freed = false };
  pipe = λ q. empty;
  files = files;
  lock = unlocked;
}

net-IsPorts : IsPorts net
net-IsPorts = record { listed = λ port a h. ground arith; registered = λ a h ne. ground arith }

-- The listener without its request.
abbrev calm_net : Net (Unit {0}) (Unit {0})
calm_net = record net { scb = update net.scb 1 (record server { queue = [] }) }

calm_net-IsPorts : IsPorts calm_net
calm_net-IsPorts = record { listed = λ port a h. ground arith; registered = λ a h ne. ground arith }

socket_close-IsPorts_example : Closes 1 calm_net (socket_close (some 1) calm_net)
socket_close-IsPorts_example = socket_close-IsPorts 1 calm_net calm_net-IsPorts

close_with_request : socket_close (some 1) net ≡ none
unfolding socket_close close_listener free_requests
close_with_request = refl

-- `c_req->peer` reads the socket of the call.
abbrev behind : ℕ → ℕ
behind r = 2

abbrev zeros : ℕ → ℕ
zeros i = 0

reserved : Files (Unit {0}) (Unit {0})
reserved = (fcb_reserve 0 1 files).1

reserves : fcb_reserve 0 1 files ≡ (some (0 ∷ [], 7 ∷ []), reserved)
unfolding reserved fcb_reserve
reserves = refl

reserved_fid : reserved.fidt 0 0 ≡ some 7
unfolding reserved fcb_reserve
reserved_fid = refl

accept_round-Delivers_example :
    (m : Net (Unit {0}) (Unit {0})) × (accept_round 0 5 tt 0 6 20 21 zeros zeros behind 1 net
      ≡ returns (pos 0) m)
    × Delivers 6 2 20 (1 ∷ 2 ∷ []) m
    × Delivers 2 6 21 (1 ∷ 2 ∷ []) m
accept_round-Delivers_example =
    accept_round-Delivers tt 0 6 20 21 zeros zeros behind 1 30 0 7 [] [] reserved 0 5 []
      (1 ∷ 2 ∷ []) net (ground arith) refl (ground arith) (ground arith) reserves (omega arith)
      reserved_fid (omega arith) (omega arith)

shut_down-socket_read_example :
    (m : Net (Unit {0}) (Unit {0})) × (q : Pipe) × (shut_down (some 4) shutdown_both net
      ≡ (pos 0, m))
    × ((m.scb 4).read_pipe ≡ none)
    × ((m.scb 4).write_pipe ≡ none)
    × (m.pipe 9 ≡ net.pipe 9)
    × (socket_read 0 (some 5) true 3 m ≡ some (9, ReadRun.sleeps 3 [] q))
shut_down-socket_read_example =
    shut_down-socket_read 4 5 8 9 0 2 net refl refl refl (ground arith) refl (ground arith) refl
      refl refl refl refl

ask-Fooled_example : Fooled 2 2 30 31 1 (ask 0 5 100 3 1 31 net)
ask-Fooled_example = ask-Fooled 0 5 100 2 2 30 3 31 1 [] net refl refl refl (ground arith) refl
