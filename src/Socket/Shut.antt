-- ===== src/Socket/Shut.antt =====
-- Two faults of the socket calls: a shut down of both directions, and a connection that nobody
-- accepted.
use tinyos.Base.{
  ℕ, suc, ◌≡◌, ◌≢◌, List, [], ◌∷◌, ◌++◌, true, false, none, some, update, arith, refl, ap, ◌∙◌,
  is_none, inl, inr,
}
use tinyos.Base.Int.{pos}
use tinyos.Sched.{Sched, is_blocked, make_ready, set_ready, cancel_timeout}
use tinyos.Sched.Boost.{sched_queue_add-rest}
use tinyos.Cc.{
  CondVar, KernelLock, signal_from, cv_signal, cond_signal, kernel_signal, kernel_wait_wchan,
  kernel_unlock, cv_wait, add_waiter, cv_wait_woken,
}
use tinyos.Cc.Signal.{Signalled, cond_signal-Signalled, signal_from-blocked}
use tinyos.Pipe.{Pipe, ReadRun, pipe_read, read_loop, pipe_reader_close}
use tinyos.Socket.{
  Net, SocketType, returns, shutdown_both, socket_read, peer_pipe, close_reader, signal_listener,
  drop_scb, set_scb,
}
use tinyos.Socket.Connect.{shut_down, close_both_ends, ask, hold_scb, wait_listener, connect_woken}

module _ {Ops World : Type 0} where
  -- `SHUTDOWN_BOTH` on a peer with an open read end returns 0 and forgets both pipes, but the pipe
  -- that it writes to keeps its writer: when that pipe is empty, a socket that reads from it sleeps.
  pub shut_down-socket_read :
      (a b r w self size : ℕ) (n : Net Ops World)
      → (n.scb a).type ≡ SocketType.peer
      → (n.scb a).read_pipe ≡ some r
      → (n.scb a).write_pipe ≡ some w
      → r ≢ w
      → is_none (n.pipe r).reader ≡ false
      → a ≢ b
      → (n.scb b).type ≡ SocketType.peer
      → (n.scb b).read_pipe ≡ some w
      → is_none (n.pipe w).reader ≡ false
      → is_none (n.pipe w).writer ≡ false
      → (n.pipe w).word_length ≡ 0
      → (m : Net Ops World) × (q : Pipe) × (shut_down (some a) shutdown_both n ≡ (pos 0, m))
        × ((m.scb a).read_pipe ≡ none)
        × ((m.scb a).write_pipe ≡ none)
        × (m.pipe w ≡ n.pipe w)
        × (socket_read self (some b) true (suc size) m ≡ some (w, ReadRun.sleeps (suc size) [] q))
  unfolding shut_down close_both_ends close_reader pipe_reader_close socket_read peer_pipe pipe_read
      read_loop
  shut_down-socket_read a b r w self size n ta ra wa ne open_r ab tb rb open_w open_w' empty =
      let c = n.scb a in
      let p = n.pipe r in
      let q = n.pipe w in
      let m = record n {
        scb = update n.scb a (record c { read_pipe = none; write_pipe = none });
        pipe = update n.pipe r (pipe_reader_close p).1;
      } in
      (
        m,
        record q { has_data = q.has_data ++ (self ∷ []) },
        ground arith,
        ground arith,
        ground arith,
        ground arith,
        ground arith,
      )

current-make_ready : (t : ℕ) (s : Sched) → (make_ready t s).current ≡ s.current
unfolding make_ready set_ready cancel_timeout
current-make_ready t s =
    ground (arith, (sched_queue_add-rest t (set_ready t (cancel_timeout t s))).1)

current-Signalled :
    (cv : CondVar) (s : Sched) (r : CondVar × Sched) → Signalled cv s r → r.1.current ≡ s.current
current-Signalled cv s (cv', s') (inl (n, empty, same)) = ap (λ x. x.current) same
current-Signalled cv s (cv', s') (inr (skipped, t, rest, split, n, b, left, sig, made)) =
    ap (λ x. x.current) made ∙ current-make_ready t s

current-kernel_unlock : (k : KernelLock) → (kernel_unlock k).sched.current ≡ k.sched.current
unfolding kernel_unlock
current-kernel_unlock k =
    current-Signalled k.kernel_sem_cv k.sched (cond_signal k.kernel_sem_cv k.sched)
      (cond_signal-Signalled k.kernel_sem_cv k.sched)

-- The waiter `t` of a condition has been signalled and taken out of the ring.
abbrev Called : ℕ → CondVar → Type 0
Called t cv = (cv.signalled t ≡ true) × (cv.removed t ≡ true)

cv_wait_woken-Called : (t : ℕ) (cv : CondVar) → Called t cv → cv_wait_woken t cv ≡ some (true, cv)
unfolding cv_wait_woken
cv_wait_woken-Called t cv c = ground (arith, c)

cond_signal-Called :
    (t : ℕ) (ts : List ℕ) (cv : CondVar) (s : Sched)
    → cv.waitset ≡ t ∷ ts
    → is_blocked (s.tcb t).state ≡ true
    → Called t (cond_signal cv s).0 × ((cond_signal cv s).1.current ≡ s.current)
unfolding cond_signal cv_signal
cond_signal-Called t ts cv s e b =
    let r : signal_from cv.waitset cv s ≡ signal_from (t ∷ ts) cv s =
      ap (λ l. signal_from l cv s) e in
    let q = r ∙ signal_from-blocked t ts cv s b in
    (
      (ap (λ x. x.0.signalled t) q ∙ ground arith, ap (λ x. x.0.removed t) q ∙ ground arith),
      ap (λ x. x.1.current) q ∙ current-make_ready t s,
    )

module _ {Ops World : Type 0} where
  signal_listener-Called :
      (t l core : ℕ) (ts : List ℕ) (n : Net Ops World)
      → (n.scb l).req_available.waitset ≡ t ∷ ts
      → is_blocked (n.lock.sched.tcb t).state ≡ true
      → let m = signal_listener l n in
        Called t (m.scb l).req_available
        × (m.lock.sched.current ≡ n.lock.sched.current)
        × ((m.scb l).queue ≡ (n.scb l).queue)
        × ((x : ℕ) → (m.scb x).type ≡ (n.scb x).type)
  unfolding signal_listener kernel_signal
  signal_listener-Called t l core ts n e b =
      let c = cond_signal-Called t ts (n.scb l).req_available n.lock.sched e b in
      (ground (arith, c.0), c.1, ground arith, λ x. ground arith)

  wait_listener-Called :
      (t l core now timeout : ℕ) (n : Net Ops World)
      → Called t (n.scb l).req_available
      → n.lock.sched.current core ≢ t
      → let m = wait_listener core now timeout l n in
        Called t (m.scb l).req_available
        × ((m.scb l).queue ≡ (n.scb l).queue)
        × ((x : ℕ) → (m.scb x).type ≡ (n.scb x).type)
  unfolding wait_listener kernel_wait_wchan cv_wait add_waiter
  wait_listener-Called t l core now timeout n c ne =
      let same = ap (λ f. f core) (current-kernel_unlock n.lock) in
      (ground (arith, c, same), ground arith, λ x. ground arith)

  connect_woken-type :
      (a l r : ℕ) (m : Net Ops World)
      → (g : Net Ops World) × (connect_woken true a l r m ≡ returns (pos 0) g)
        × ((x : ℕ) → (g.scb x).type ≡ (m.scb x).type)
        × ((x : ℕ) → (g.scb x).queue ≡ (m.scb x).queue)
  unfolding connect_woken drop_scb
  connect_woken-type a l r m = (drop_scb a m, refl, (λ x. ground arith), λ x. ground arith)

  -- `ask` before its signal.
  abbrev asked : (b l q : ℕ) → Net Ops World → Net Ops World
  asked b l q n =
      let held = hold_scb b n in
      let c = held.scb l in
      set_scb l (record c { queue = c.queue ++ (q ∷ []) })
        (record held {
          request =
              update held.request q
                (record { admitted = false; peer_scb = b; overwritten = false; freed = false });
        })

  asked_lem :
      (b l q : ℕ) (n : Net Ops World)
      → let m = asked b l q n in
        ((m.scb l).queue ≡ (n.scb l).queue ++ (q ∷ []))
        × ((m.scb l).req_available ≡ (n.scb l).req_available)
        × (m.lock ≡ n.lock)
        × ((x : ℕ) → (m.scb x).type ≡ (n.scb x).type)
  unfolding hold_scb
  asked_lem b l q n = (ground arith, ground arith, refl, λ x. ground arith)

  -- The first call is told that it has connected, with its request still in the queue and its socket unbound.
  abbrev pub Fooled : (t a r q l : ℕ) → Net Ops World → Type 0
  Fooled t a r q l m =
      let cv = (m.scb l).req_available in
      (g : Net Ops World) × (cv_wait_woken t cv ≡ some (true, cv))
      × (connect_woken true a l r m ≡ returns (pos 0) g)
      × ((g.scb l).queue ≡ r ∷ q ∷ [])
      × ((g.scb a).type ≡ SocketType.unbound)

  -- When the first sleeper at a listener is the thread `t` of a `Connect` call with the unbound socket
  -- `a` and the request `r`, the only one in the queue, then a second `Connect` call wakes it, and the
  -- first call returns 0, though nobody has accepted: both requests are in the queue and the socket is
  -- still unbound.
  pub ask-Fooled :
      (core now timeout t a r b q l : ℕ) (ts : List ℕ) (n : Net Ops World)
      → (n.scb l).queue ≡ r ∷ []
      → (n.scb l).req_available.waitset ≡ t ∷ ts
      → is_blocked (n.lock.sched.tcb t).state ≡ true
      → n.lock.sched.current core ≢ t
      → (n.scb a).type ≡ SocketType.unbound
      → Fooled t a r q l (ask core now timeout b l q n)
  unfolding ask
  ask-Fooled core now timeout t a r b q l ts n e w blocked other free =
      let n1 = asked b l q n in
      let f1 = asked_lem b l q n in
      let n2 = signal_listener l n1 in
      let f2 = signal_listener-Called t l core ts n1 (ap (λ v. v.waitset) f1.1 ∙ w) blocked in
      let f3 =
        wait_listener-Called t l core now timeout n2 f2.0
          (ground (arith, ap (λ f. f core) f2.1, other)) in
      let n3 = wait_listener core now timeout l n2 in
      let (g, done, types, queues) = connect_woken-type a l r n3 in
      (
        g,
        cv_wait_woken-Called t (n3.scb l).req_available f3.0,
        done,
        queues l ∙ f3.1 ∙ f2.2 ∙ f1.0 ∙ ap (λ xs. xs ++ (q ∷ [])) e,
        types a ∙ f3.2 a ∙ f2.3 a ∙ f1.3 a ∙ free,
      )
