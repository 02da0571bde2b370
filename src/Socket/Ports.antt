-- ===== src/Socket/Ports.antt =====
-- The port map: on each port at most one listener, and each open listener at its port.
use tinyos.Base.{
  ℕ, ◌≤◌, ◌<◌, ◌≡◌, ◌≢◌, ◌⊎◌, List, [], ◌∷◌, subst, true, Option, none, some, update, arith, refl,
  Bool-cases, inl, inr, sym, ap, ◌∙◌,
}
use tinyos.Base.Int.{ℤ, pos, minus_one}
use tinyos.Socket.{
  Net, Request, SocketType, is_listener, is_unbound, max_port, noport, set_scb, socket_close,
  close_listener, signal_listener, drop_scb, close_reader, close_writer, can_listen, listen,
  unbound, peer, listener, free_requests,
}

-- The map and the listeners agree.
pub record IsPorts {Ops World : Type 0} (n : Net Ops World) : Type 0 where
  pub listed :
      (port a : ℕ)
      → n.port_map port ≡ some a
      → (is_listener (n.scb a).type ≡ true)
        × ((n.scb a).port ≡ port)
        × (0 < port)
        × (port ≤ max_port)
  pub registered :
      (a : ℕ)
      → is_listener (n.scb a).type ≡ true
      → (n.scb a).port ≢ noport
      → n.port_map (n.scb a).port ≡ some a

-- What the agreement is read from.
pub record SamePorts {Ops World : Type 0} (n m : Net Ops World) : Type 0 where
  pub map : (port : ℕ) → m.port_map port ≡ n.port_map port
  pub type : (a : ℕ) → (m.scb a).type ≡ (n.scb a).type
  pub port : (a : ℕ) → (m.scb a).port ≡ (n.scb a).port

module _ {Ops World : Type 0} where
  pub IsPorts-same : (n m : Net Ops World) → SamePorts n m → IsPorts n → IsPorts m
  IsPorts-same n m e v = record {
    listed = λ port a h. ground (arith, e.map port, e.type a, e.port a, v.listed port a);
    registered = λ a h ne.
        ground (
          arith,
          ap m.port_map (e.port a),
          e.map (n.scb a).port,
          e.type a,
          e.port a,
          v.registered a,
        );
  }

  signal_listener-SamePorts : (a : ℕ) (n : Net Ops World) → SamePorts n (signal_listener a n)
  unfolding signal_listener
  signal_listener-SamePorts a n = record {
    map = λ q. refl;
    type = λ b. ground arith;
    port = λ b. ground arith;
  }

  drop_scb-SamePorts : (a : ℕ) (n : Net Ops World) → SamePorts n (drop_scb a n)
  unfolding drop_scb
  drop_scb-SamePorts a n = record {
    map = λ q. refl;
    type = λ b. ground arith;
    port = λ b. ground arith;
  }

  close_reader-SamePorts : (o : Option ℕ) (n : Net Ops World) → SamePorts n (close_reader o n).1
  unfolding close_reader
  close_reader-SamePorts none n = record { map = λ q. refl; type = λ b. refl; port = λ b. refl }
  close_reader-SamePorts (some q) n = record { map = λ q. refl; type = λ b. refl; port = λ b. refl }

  close_writer-SamePorts : (o : Option ℕ) (n : Net Ops World) → SamePorts n (close_writer o n).1
  unfolding close_writer
  close_writer-SamePorts none n = record { map = λ q. refl; type = λ b. refl; port = λ b. refl }
  close_writer-SamePorts (some q) n = record { map = λ q. refl; type = λ b. refl; port = λ b. refl }

  -- The state of `close_listener` before its signal.
  abbrev unlisted : ℕ → Net Ops World → Net Ops World
  unlisted a n =
      let c = n.scb a in
      set_scb a (record c { queue = []; port = noport })
        (record n { port_map = update n.port_map c.port none })

  unlisted-IsPorts :
      (a : ℕ) (n : Net Ops World)
      → is_listener (n.scb a).type ≡ true
      → IsPorts n
      → IsPorts (unlisted a n)
  unlisted-IsPorts a n t v = record {
    listed = λ port b h. ground (arith, v.listed port b, v.registered a t);
    registered = λ b h ne. ground (
      arith,
      v.registered b,
      v.registered a t,
      v.listed (n.scb b).port b,
      v.listed (n.scb b).port a,
    );
  }

  -- A listener without requests is closed, and one with a request is not.
  close_listener-cases :
      (a : ℕ) (n : Net Ops World)
      → ((n.scb a).queue ≡ []) × (close_listener a n ≡ some (signal_listener a (unlisted a n)))
        ⊎ ((n.scb a).queue ≢ []) × (close_listener a n ≡ none)
  unfolding close_listener free_requests
  close_listener-cases a n = go (n.scb a).queue refl
    where
      unlist : Option (ℕ → Request) → Option (Net Ops World)
      unlist none = none
      unlist (some request) =
          let c = n.scb a in
          some (
            signal_listener a (
              set_scb a (record c { queue = []; port = noport })
                (record n { port_map = update n.port_map c.port none; request = request })))

      go :
          (q : List ℕ)
          → (n.scb a).queue ≡ q
          → ((n.scb a).queue ≡ []) × (close_listener a n ≡ some (signal_listener a (unlisted a n)))
            ⊎ ((n.scb a).queue ≢ []) × (close_listener a n ≡ none)
      go [] e = inl (e, ap (λ l. unlist (free_requests l n.request)) e)
      go (r ∷ rs) e =
          inr ((λ h. ground (arith, e, h)), ap (λ l. unlist (free_requests l n.request)) e)

  -- The part of `socket_close` for the type.
  abbrev closed : ℕ → SocketType → Net Ops World → Option (Net Ops World)
  closed a t n =
      let c = n.scb a in
      elim t [
        | listener ↦ close_listener a n
        | peer ↦ some (close_writer c.write_pipe (close_reader c.read_pipe n).1).1
        | unbound ↦ some n
      ]

  -- What is left when the case of the type is done; `none` is the bad `free`.
  abbrev Closed : ℕ → Net Ops World → Option (Net Ops World) → Type 0
  Closed a n none = (is_listener (n.scb a).type ≡ true) × ((n.scb a).queue ≢ [])
  Closed a n (some m) =
      IsPorts m
      × ((port : ℕ) → m.port_map port ≢ some a)
      × (is_listener (n.scb a).type ≡ true → (n.scb a).queue ≡ [])

  closed-Closed :
      (a : ℕ) (t : SocketType) (n : Net Ops World)
      → (n.scb a).type ≡ t
      → IsPorts n
      → Closed a n (closed a t n)
  closed-Closed a unbound n e v =
      (v, (λ port h. ground (arith, v.listed port a)), λ h. absurd (ground (arith, e, h)))
  closed-Closed a peer n e v =
      let c = n.scb a in
      let r = (close_reader c.read_pipe n).1 in
      let w = (close_writer c.write_pipe r).1 in
      let vr = IsPorts-same n r (close_reader-SamePorts c.read_pipe n) v in
      let sr = close_reader-SamePorts c.read_pipe n in
      let sw = close_writer-SamePorts c.write_pipe r in
      let vw = IsPorts-same r w sw vr in
      (
        vw,
        (λ port h. ground (arith, vw.listed port a, sw.type a, sr.type a)),
        λ h. absurd (ground (arith, e, h)),
      )
  closed-Closed a listener n e v =
      let listens : is_listener (n.scb a).type ≡ true = ground (arith, e) in
      elim (close_listener-cases a n) [
        | inr (full, fails) ↦ subst (Closed a n) (sym fails) (listens, full)
        | inl (empty, closes) ↦
            let u = unlisted-IsPorts a n listens v in
            let s = signal_listener-SamePorts a (unlisted a n) in
            let w = IsPorts-same (unlisted a n) (signal_listener a (unlisted a n)) s u in
            subst (Closed a n) (sym closes)
              (w, (λ port h. ground (arith, w.listed port a, s.port a)), λ h. empty)
      ]

  abbrev pub Closes : ℕ → Net Ops World → Option (ℤ × Net Ops World) → Type 0
  Closes a n none = (is_listener (n.scb a).type ≡ true) × ((n.scb a).queue ≢ [])
  Closes a n (some (r, m)) =
      (r ≡ pos 0)
      × IsPorts m
      × ((port : ℕ) → m.port_map port ≢ some a)
      × (is_listener (n.scb a).type ≡ true → (n.scb a).queue ≡ [])

  -- If the port map and the listeners agree, then `socket_close` of a socket of any type, unless it is a listener
  -- with a request, returns 0, they still agree, and the socket is then at no port. For a listener with a
  -- request the code frees a pointer into the middle of a block.
  pub socket_close-IsPorts :
      (a : ℕ) (n : Net Ops World) → IsPorts n → Closes a n (socket_close (some a) n)
  unfolding socket_close
  socket_close-IsPorts a n v =
      go (closed a (n.scb a).type n) (closed-Closed a (n.scb a).type n refl v)
    where
      after : Option (Net Ops World) → Option (ℤ × Net Ops World)
      after none = none
      after (some m) = some (pos 0, drop_scb a m)

      go : (o : Option (Net Ops World)) → Closed a n o → Closes a n (after o)
      go none c = c
      go (some m) (w, off, empty) =
          let s = drop_scb-SamePorts a m in
          (
            refl,
            IsPorts-same m (drop_scb a m) s w,
            (λ port h. off port (sym (s.map port) ∙ h)),
            empty,
          )

  can_listen-checks :
      (a : ℕ) (n : Net Ops World)
      → can_listen (n.scb a) n ≡ true
      → (is_unbound (n.scb a).type ≡ true)
        × (0 < (n.scb a).port)
        × ((n.scb a).port ≤ max_port)
        × (n.port_map (n.scb a).port ≡ none)
  unfolding can_listen
  can_listen-checks a n b = ground (arith, b)

  abbrev pub Listens : ℕ → Net Ops World → ℤ × Net Ops World → Type 0
  Listens a n (r, m) =
      IsPorts m
      × ((r ≡ minus_one) × (m ≡ n)
          ⊎ (r ≡ pos 0)
            × (is_unbound (n.scb a).type ≡ true)
            × (n.port_map (n.scb a).port ≡ none)
            × (m.port_map (n.scb a).port ≡ some a))

  -- If the port map and the listeners agree, they do after `sys_Listen` on a socket. It fails and
  -- changes nothing, or the socket was unbound and its port free, and the socket is now the listener
  -- at that port.
  pub listen-Listens : (a : ℕ) (n : Net Ops World) → IsPorts n → Listens a n (listen (some a) n)
  unfolding listen
  listen-Listens a n v = elim (Bool-cases (can_listen (n.scb a) n)) [
    | inl b ↦
        let c = can_listen-checks a n b in
        rw b (
          record {
            listed = λ port x h. ground (arith, v.listed port x, c);
            registered = λ x h ne. ground (arith, v.registered x, v.listed (n.scb x).port x, c);
          },
          inr (refl, c.0, c.3, ground arith),
        )
    | inr b ↦ rw b (v, inl (refl, refl))
  ]
