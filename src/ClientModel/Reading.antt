-- ===== src/ClientModel/Reading.antt =====
-- What the handlers of a snapshot read from the packets that the server makes.
use durak.Base.{
  ℕ, ◌+◌, ◌^◌, ◌<◌, ◌≡◌, refl, Bool, true, false, List, [], ◌∷◌, ◌++◌, length, drop, ℤ, to_u32,
  arith, Outcome, Outcome-cases, inl, inr, ok, ◌>>=◌, sym, ◌∙◌, All, if◌then◌else◌,
}
use mathlib.Core.List.{append_assoc, append-nil}
use durak.Protocol.{ClientRole, host, regular}
use durak.Lobby.{queue_seat}
use durak.Lobby.Moves.{IsInt}
use durak.Packet.{Packet, write_uint, read_bool, to_bytes, role_code}
use durak.Packet.RoundTrip.{drop-head, read_uint-to_bytes, advance}
use durak.Packet.Factory.{write_all, write_seats}
use durak.Server.Requests.{to_int-to_u32, to_u32-bounded}
use durak.ClientLobby.{ClientLobby, assign_player_to_seat_position}
use durak.ClientModel.{to_role}
use durak.ClientModel.Building.{read_seats, read_queue}

pub read_bool-written :
    (b : Bool) (p : Packet) (post : List ℕ)
    → drop p.read_position p.payload ≡ (if b then 1 else 0) ∷ post
    → (read_bool p ≡ ok (b, advance 1 p)) × (drop (p.read_position + 1) p.payload ≡ post)
unfolding read_bool
read_bool-written true p post h =
    let (here, behind) = drop-head p.read_position p.payload 1 post h in
    (ground (arith, here), behind)
read_bool-written false p post h =
    let (here, behind) = drop-head p.read_position p.payload 0 post h in
    (ground (arith, here), behind)

pub to_role-role_code : (r : ClientRole) → to_role (role_code r) ≡ r
to_role-role_code host = refl
to_role-role_code regular = refl

pub role_code-bounded : (r : ClientRole) → role_code r < 256 ^ 1
role_code-bounded host = omega arith
role_code-bounded regular = omega arith

-- The bytes of the entries of a map of seats, and of a list of ids.
unfoldable pub seats_bytes : List (ℤ × ℕ) → List ℕ
seats_bytes [] = []
seats_bytes ((seat, player) ∷ rest) =
    to_bytes 4 (to_u32 seat) ++ (to_bytes 4 player ++ seats_bytes rest)

unfoldable pub ids_bytes : List ℕ → List ℕ
ids_bytes [] = []
ids_bytes (i ∷ is) = to_bytes 4 i ++ ids_bytes is

-- What a packet that a list was written behind keeps and carries.
pub write_seats-payload :
    (m : List (ℤ × ℕ)) (p : Packet)
    → ((write_seats m p).payload ≡ p.payload ++ seats_bytes m) × ((write_seats m p).kind ≡ p.kind)
unfolding write_seats seats_bytes write_uint
write_seats-payload [] p = (sym (append-nil p.payload), refl)
write_seats-payload ((seat, player) ∷ rest) p =
    let (bytes, kind) =
      write_seats-payload rest (write_uint 4 player (write_uint 4 (to_u32 seat) p)) in
    (
      bytes
          ∙ append_assoc (p.payload ++ to_bytes 4 (to_u32 seat)) (to_bytes 4 player)
              (seats_bytes rest)
          ∙ append_assoc p.payload (to_bytes 4 (to_u32 seat))
              (to_bytes 4 player ++ seats_bytes rest),
      kind,
    )

pub write_all-payload :
    (is : List ℕ) (p : Packet)
    → ((write_all is p).payload ≡ p.payload ++ ids_bytes is) × ((write_all is p).kind ≡ p.kind)
unfolding write_all ids_bytes write_uint
write_all-payload [] p = (sym (append-nil p.payload), refl)
write_all-payload (i ∷ is) p =
    let (bytes, kind) = write_all-payload is (write_uint 4 i p) in
    (bytes ∙ append_assoc p.payload (to_bytes 4 i) (ids_bytes is), kind)

-- The loops without the reads.
unfoldable pub assign_each : List (ℤ × ℕ) → ClientLobby → Outcome ClientLobby
assign_each [] c = ok c
assign_each ((seat, player) ∷ rest) c =
    assign_player_to_seat_position seat player c >>= assign_each rest

unfoldable pub enqueue_all : List ℕ → ClientLobby → Outcome ClientLobby
enqueue_all [] c = ok c
enqueue_all (i ∷ is) c = assign_player_to_seat_position queue_seat i c >>= enqueue_all is

-- An entry that fits in its bytes.
abbrev pub IsEntry : ℤ × ℕ → Type 0
IsEntry (seat, player) = IsInt seat × (player < 2 ^ 32)

abbrev pub IsId : ℕ → Type 0
IsId i = i < 2 ^ 32

pub read_seats-assign_each :
    (m : List (ℤ × ℕ)) (p : Packet) (c : ClientLobby)
    → All IsEntry m
    → drop p.read_position p.payload ≡ seats_bytes m
    → read_seats (length m) p c ≡ assign_each m c
unfolding read_seats assign_each seats_bytes
read_seats-assign_each [] p c small h = refl
read_seats-assign_each ((seat, player) ∷ rest) p c small h =
    let (first, ahead) =
      read_uint-to_bytes 4 (to_u32 seat) p (to_bytes 4 player ++ seats_bytes rest)
        (to_u32-bounded seat small.0.0) h in
    let (second, behind) =
      read_uint-to_bytes 4 player (advance 4 p) (seats_bytes rest) (omega (arith, small.0.1))
        ahead in
    let same = to_int-to_u32 seat small.0.0 in
    elim (Outcome-cases (assign_player_to_seat_position seat player c)) [
      | inr (x, e) ↦ ground (arith, first, second, same, e)
      | inl (d, e) ↦ ground (
        arith,
        first,
        second,
        same,
        e,
        read_seats-assign_each rest (advance 4 (advance 4 p)) d small.1 behind,
      )
    ]

pub read_queue-enqueue_all :
    (is : List ℕ) (p : Packet) (c : ClientLobby)
    → All IsId is
    → drop p.read_position p.payload ≡ ids_bytes is
    → read_queue (length is) p c ≡ enqueue_all is c
unfolding read_queue enqueue_all ids_bytes
read_queue-enqueue_all [] p c small h = refl
read_queue-enqueue_all (i ∷ is) p c small h =
    let (first, behind) = read_uint-to_bytes 4 i p (ids_bytes is) (omega (arith, small.0)) h in
    elim (Outcome-cases (assign_player_to_seat_position queue_seat i c)) [
      | inr (x, e) ↦ ground (arith, first, e)
      | inl (d, e) ↦
          ground (arith, first, e, read_queue-enqueue_all is (advance 4 p) d small.1 behind)
    ]
