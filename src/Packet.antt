-- ===== src/Packet.antt =====
-- source/network/Packet.h: the buffer of a packet, its writes and its reads. A byte is a number below
-- 256. A read beyond the data, which the program does not check, is a fault (`out_of_range`).
pub mod Kinds
pub mod Factory
pub mod RoundTrip
pub mod Tests
use durak.Base.{
  ℕ, zero, suc, ◌+◌, ◌*◌, ◌/◌, ◌%◌, ◌^◌, Bool, true, false, not, ◌==◌, leb, ltb, if◌then◌else◌,
  List, [], ◌∷◌, ◌++◌, length, get_elem?, take, drop, Outcome, ok, fault, out_of_range,
  length_error, ◌>>=◌, value_or_fault,
}
use durak.Protocol.{
  ClientRole, host, regular, SessionPhase, DisconnectReason, server_is_closed, server_is_full,
  game_already_started, invalid_token, kicked_by_host, timeout, quit, SnapshotType, no_snapshot,
  lobby_snapshot, game_snapshot, RulesType, no_phase, lobby_phase, game_phase, classic_rules,
}
use durak.Packet.Kinds.{PacketType, packet_code}

-- The kind is kept as its number, since a buffer may hold any.
pub record Packet : Type 0 where
  pub kind : ℕ
  pub payload : List ℕ
  pub read_position : ℕ

unfoldable pub new_packet : PacketType → Packet
new_packet t = record { kind = packet_code t; payload = []; read_position = 0 }

-- The packet in a buffer: byte 4 is the kind, and the data start at byte 5.
unfoldable pub from_buffer : List ℕ → Outcome Packet
from_buffer buffer = value_or_fault (get_elem? buffer 4) out_of_range >>= λ kind.
    ok (record { kind = kind; payload = drop 5 buffer; read_position = 0 })

-- The `n` bytes of a number, the highest first.
unfoldable pub to_bytes : ℕ → ℕ → List ℕ
to_bytes zero v = []
to_bytes (suc i) v = v / 256 ^ i % 256 ∷ to_bytes i v

abbrev pub append : List ℕ → Packet → Packet
append bytes p = record p { payload = p.payload ++ bytes }

-- A number of `n` bytes; the value of a signed one is converted to unsigned first.
unfoldable pub write_uint : ℕ → ℕ → Packet → Packet
write_uint n v = append (to_bytes n v)

unfoldable pub write_bool : Bool → Packet → Packet
write_bool b = append ((if b then 1 else 0) ∷ [])

unfoldable pub write_string : List ℕ → Packet → Packet
write_string string p = append string (write_uint 4 (length string) p)

-- The length of the kind and the data in `uint32_t`, the kind, and the data.
unfoldable pub serialize : Packet → List ℕ
serialize p = to_bytes 4 ((1 + length p.payload) % 2 ^ 32) ++ (p.kind ∷ p.payload)

-- The loop of `read`: `n` more bytes from a position on; `|=` adds, since the bits do not overlap.
unfoldable pub read_from : ℕ → ℕ → List ℕ → ℕ → Outcome ℕ
read_from zero position payload value = ok value
read_from (suc n) position payload value =
    value_or_fault (get_elem? payload position) out_of_range >>= λ byte.
    read_from n (position + 1) payload (value + byte * 256 ^ n)

unfoldable pub read_uint : ℕ → Packet → Outcome (ℕ × Packet)
read_uint n p = read_from n p.read_position p.payload 0 >>= λ value.
    ok (value, record p { read_position = p.read_position + n })

unfoldable pub read_bool : Packet → Outcome (Bool × Packet)
read_bool p = value_or_fault (get_elem? p.payload p.read_position) out_of_range >>= λ byte.
    ok (not (byte == 0), record p { read_position = p.read_position + 1 })

-- The length is read into an `int32_t`: from 2 ^ 31 on it is negative.
unfoldable pub read_string : Packet → Outcome (List ℕ × Packet)
read_string p = read_uint 4 p >>= λ r.
    if leb (2 ^ 31) r.0
    then fault length_error
    else if ltb (length r.1.payload) (r.1.read_position + r.0)
    then fault out_of_range
    else ok (
      take r.0 (drop r.1.read_position r.1.payload),
      record r.1 { read_position = r.1.read_position + r.0 },
    )

abbrev pub role_code : ClientRole → ℕ
role_code host = 0
role_code regular = 1

abbrev pub session_phase_code : SessionPhase → ℕ
session_phase_code no_phase = 0
session_phase_code lobby_phase = 1
session_phase_code game_phase = 2

abbrev pub reason_code : DisconnectReason → ℕ
reason_code server_is_closed = 0
reason_code server_is_full = 1
reason_code game_already_started = 2
reason_code invalid_token = 3
reason_code kicked_by_host = 4
reason_code timeout = 5
reason_code quit = 6

abbrev pub snapshot_code : SnapshotType → ℕ
snapshot_code no_snapshot = 0
snapshot_code lobby_snapshot = 1
snapshot_code game_snapshot = 2

abbrev pub rules_code : RulesType → ℕ
rules_code classic_rules = 0

-- What `onHelloPacket` of the server reads.
unfoldable pub read_hello : Packet → Outcome (ℕ × List ℕ)
read_hello p =
    read_uint 8 p >>= λ token. read_string token.1 >>= λ nickname. ok (token.0, nickname.0)
