-- ===== src/Dev/Serial.antt =====
-- A serial device over a port that keeps the bytes which have come in.
use tinyos.Base.{
  ℕ, zero, suc, ◌<◌, ◌≡◌, ◌⊎◌, inl, inr, List, [], ◌∷◌, ◌++◌, none, some, if◌then◌else◌, length,
  length-append, is_nil, take, drop, arith, refl, ap, ◌∙◌, sym, subst, append_assoc, append-nil,
}
use tinyos.Base.Int.{pos}
use tinyos.Dev.{SerialDcb, SerialPorts, SerialRead, read_bytes, serial_read}

-- What the machine does on a read of the port `devno`: it gives the oldest of the bytes that have come in,
-- or fails when there is none.
pub record IsPort {World : Type 0} (bios : SerialPorts World) (devno : ℕ) : Type 0 where
  pub incoming : World → List ℕ
  pub byte :
      (w : World) (c : ℕ) (cs : List ℕ)
      → incoming w ≡ c ∷ cs
      → (w' : World) × (bios.read_serial devno w ≡ (some c, w')) × (incoming w' ≡ cs)
  pub nothing :
      (w : World)
      → incoming w ≡ []
      → (w' : World) × (bios.read_serial devno w ≡ (none, w')) × (incoming w' ≡ [])

module _ {World : Type 0} (bios : SerialPorts World) (dcb : SerialDcb)
    (port : IsPort bios dcb.devno) where
  -- The loop that has read `out` and wants `left` more of the bytes `bs`.
  abbrev LoopReads : (left : ℕ) → (out bs : List ℕ) → SerialRead World → Type 0
  LoopReads left out bs (SerialRead.returned r got w) =
      (r ≡ pos (length got))
      × (got ≡ out ++ take left bs)
      × (port.incoming w ≡ drop left bs)
      × ((left ≡ 0) ⊎ (0 < length got))
  LoopReads left out bs (SerialRead.waits w) =
      (0 < left) × (out ≡ []) × (bs ≡ []) × (port.incoming w ≡ [])

  read_bytes-byte :
      (left c : ℕ) (out : List ℕ) (w w' : World)
      → bios.read_serial dcb.devno w ≡ (some c, w')
      → read_bytes bios dcb.devno (suc left) out w
        ≡ read_bytes bios dcb.devno left (out ++ (c ∷ [])) w'
  unfolding read_bytes
  read_bytes-byte left c out w w' e = ground (arith, e)

  read_bytes-nothing :
      (left : ℕ) (out : List ℕ) (w w' : World)
      → bios.read_serial dcb.devno w ≡ (none, w')
      → read_bytes bios dcb.devno (suc left) out w ≡ (
          if is_nil out then SerialRead.waits w' else SerialRead.returned (pos (length out)) out w')
  unfolding read_bytes
  read_bytes-nothing left out w w' e = ground (arith, e)

  LoopReads-byte :
      (left c : ℕ) (out cs : List ℕ) (r : SerialRead World)
      → LoopReads left (out ++ (c ∷ [])) cs r
      → LoopReads (suc left) out (c ∷ cs) r
  LoopReads-byte left c out cs (SerialRead.returned r got w) l = (
    l.0,
    l.1 ∙ append_assoc out (c ∷ []) (take left cs),
    l.2,
    inr (
        omega (
          arith,
          ap length l.1,
          length-append (out ++ (c ∷ [])) (take left cs),
          length-append out (c ∷ []),
        )),
  )
  LoopReads-byte left c out cs (SerialRead.waits w) l =
      absurd (omega (arith, ap length l.1, length-append out (c ∷ [])))

  LoopReads-nothing :
      (left : ℕ) (out : List ℕ) (w : World)
      → port.incoming w ≡ []
      → LoopReads
          (suc left)
          out
          []
          (if is_nil out then SerialRead.waits w else SerialRead.returned (pos (length out)) out w)
  LoopReads-nothing left [] w e = (omega arith, refl, refl, e)
  LoopReads-nothing left (x ∷ out) w e = (refl, sym (append-nil (x ∷ out)), e, inr (omega arith))

  read_bytes-LoopReads :
      (left : ℕ) (out bs : List ℕ) (w : World)
      → port.incoming w ≡ bs
      → LoopReads left out bs (read_bytes bios dcb.devno left out w)
  unfolding read_bytes
  read_bytes-LoopReads zero out bs w e = (refl, sym (append-nil out), e, inl refl)
  read_bytes-LoopReads (suc left) out [] w e =
      let (w', reads, after) = port.nothing w e in
      subst (LoopReads (suc left) out []) (sym (read_bytes-nothing left out w w' reads))
        (LoopReads-nothing left out w' after)
  read_bytes-LoopReads (suc left) out (c ∷ cs) w e =
      let (w', reads, after) = port.byte w c cs e in
      subst (LoopReads (suc left) out (c ∷ cs)) (sym (read_bytes-byte left c out w w' reads)) (
        LoopReads-byte left c out cs (read_bytes bios dcb.devno left (out ++ (c ∷ [])) w')
          (read_bytes-LoopReads left (out ++ (c ∷ [])) cs w' after))

  -- What a read of `size` bytes comes to, from the bytes that have come in.
  abbrev pub Reads : (size : ℕ) → List ℕ → SerialRead World → Type 0
  Reads size bs (SerialRead.returned r got w) =
      (r ≡ pos (length got))
      × (got ≡ take size bs)
      × (port.incoming w ≡ drop size bs)
      × ((size ≡ 0) ⊎ (0 < length got))
  Reads size bs (SerialRead.waits w) = (0 < size) × (bs ≡ []) × (port.incoming w ≡ [])

  -- On a port that gives its bytes in order, `serial_read` returns those that have come in, up to
  -- `size`, and leaves the rest; it returns no bytes only if none are asked for, and sleeps just when
  -- there are none.
  pub serial_read-Reads :
      (size : ℕ) (w : World) → Reads size (port.incoming w) (serial_read bios dcb size w)
  unfolding serial_read
  serial_read-Reads size w =
      go (read_bytes bios dcb.devno size [] w)
        (read_bytes-LoopReads size [] (port.incoming w) w refl)
    where
      go :
          (r : SerialRead World)
          → LoopReads size [] (port.incoming w) r
          → Reads size (port.incoming w) r
      go (SerialRead.returned r got v) l = l
      go (SerialRead.waits v) l = (l.0, l.2, l.3)
