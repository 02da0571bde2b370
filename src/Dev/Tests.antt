-- ===== src/Dev/Tests.antt =====
-- The theorem on serial reads, on a port that three bytes have reached.
use tinyos.Base.{ℕ, ◌≡◌, List, [], ◌∷◌, true, Option, none, some, refl, ap}
use tinyos.Base.Int.{pos}
use tinyos.Cc.Tests.{no_waiters}
use tinyos.Dev.{SerialDcb, SerialPorts, SerialRead, serial_read, read_bytes}
use tinyos.Dev.Serial.{IsPort}

-- The world is the bytes that have come in on the port.
abbrev take_byte : List ℕ → Option ℕ × List ℕ
take_byte [] = (none, [])
take_byte (c ∷ cs) = (some c, cs)

abbrev ports : SerialPorts (List ℕ)
ports = record { read_serial = λ devno w. take_byte w; write_serial = λ devno byte w. (true, w) }

abbrev ports-IsPort : IsPort ports 0
ports-IsPort = record {
  incoming = λ w. w;
  byte = λ w c cs e. (cs, ap take_byte e, refl);
  nothing = λ w e. ([], ap take_byte e, refl);
}

abbrev terminal : SerialDcb
terminal = record { devno = 0; rx_ready = no_waiters }

read_two :
    serial_read ports terminal 2 (104 ∷ 105 ∷ 10 ∷ [])
    ≡ SerialRead.returned (pos 2) (104 ∷ 105 ∷ []) (10 ∷ [])
unfolding serial_read read_bytes
read_two = refl

read_none : serial_read ports terminal 2 [] ≡ SerialRead.waits []
unfolding serial_read read_bytes
read_none = refl
