-- ===== src/Packet/Tests.antt =====
-- A hello packet, written and read.
use durak.Base.{ℕ, ◌≡◌, refl, true, List, [], ◌∷◌, ◌>>=◌, arith, ok}
use durak.Packet.{
  serialize, from_buffer, read_hello, to_bytes, new_packet, write_uint, write_string, write_bool,
}
use durak.Packet.Kinds.{packet_code}
use durak.Packet.Factory.{make_hello_packet, make_lobby_open_state_change_request_packet}
use durak.Packet.RoundTrip.{read_hello-make_hello_packet}

-- The name "Al".
abbrev name : List ℕ
name = 65 ∷ 108 ∷ []

lobby_packet_bytes :
    serialize (make_lobby_open_state_change_request_packet true) ≡ 0 ∷ 0 ∷ 0 ∷ 2 ∷ 135 ∷ 1 ∷ []
unfolding serialize make_lobby_open_state_change_request_packet write_bool new_packet packet_code
    to_bytes
lobby_packet_bytes = refl

hello_packet_bytes :
    serialize (make_hello_packet 258 name)
    ≡ 0 ∷ 0 ∷ 0 ∷ 15 ∷ 128 ∷ 0 ∷ 0 ∷ 0 ∷ 0 ∷ 0 ∷ 0 ∷ 1 ∷ 2 ∷ 0 ∷ 0 ∷ 0 ∷ 2 ∷ 65 ∷ 108 ∷ []
unfolding serialize make_hello_packet write_uint write_string new_packet packet_code to_bytes
hello_packet_bytes = refl

read_hello-make_hello_packet_example :
    (from_buffer (serialize (make_hello_packet 258 name)) >>= read_hello) ≡ ok (258, name)
read_hello-make_hello_packet_example =
    read_hello-make_hello_packet 258 name (omega arith) (omega arith)
