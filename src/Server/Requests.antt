-- ===== src/Server/Requests.antt =====
-- A request packet on its way through `dispatch`, its reads, and the logic of the lobby.
use durak.Base.{
  length, map, suc, ℕ, ◌+◌, ◌^◌, ◌<◌, List, [], ◌++◌, drop, ℤ, pos, negsuc, to_int, to_u32, arith,
  ok, ◌>>=◌, sym, ap, true, false, ◌≡◌, ◌≢◌, ◌⊎◌, ◌∷◌, ◌∙◌, refl, get_elem?, some, inl, inr,
  Outcome-cases, Fault, fault,
}
use mathlib.Core.List.{append-nil}
use durak.Protocol.{Profile, lobby_phase}
use durak.Lobby.{Lobby}
use durak.Lobby.Moves.{IsInt}
use durak.LobbyLogic.{apply_seat_positions_change_request}
use durak.Packet.{Packet, new_packet, write_uint, read_uint, to_bytes}
use durak.Packet.Kinds.{packet_code}
use durak.Packet.RoundTrip.{read_uint-to_bytes, advance}
use durak.Packet.Factory.{
  make_seat_positions_change_request_packet, make_notify_seat_positions_changed_packet,
}
use durak.LobbyLogic.Seating.{change_request_refused}
use durak.Session.{Session}
use durak.Server.{Server, broadcast_to, broadcast, get_player_profile_by_id}
use durak.Server.Informing.{send_full_snapshot_update}
use durak.Server.Informed.{Informed, with_packets, send_full_snapshot_update-Informed}
use durak.Server.Broadcast.{broadcast_sends}
use durak.Server.Handlers.{on_seat_positions_change_request_packet, answer, get_client_id}
use durak.Server.Loops.{dispatch}

-- An `int` that goes over the network as four bytes comes back as it was.
pub to_int-to_u32 : (k : ℤ) → IsInt k → to_int (to_u32 k) ≡ k
to_int-to_u32 (pos n) h = ground (arith, h)
to_int-to_u32 (negsuc n) h = ground (arith, h)

pub to_u32-bounded : (k : ℤ) → IsInt k → to_u32 k < 256 ^ 4
to_u32-bounded (pos n) h = ground (arith, h)
to_u32-bounded (negsuc n) h = ground (arith, h)

-- Two numbers of four bytes, read one after another.
pub two_numbers :
    (a b : ℕ) (p : Packet) (post : List ℕ)
    → a < 256 ^ 4
    → b < 256 ^ 4
    → drop p.read_position p.payload ≡ to_bytes 4 a ++ (to_bytes 4 b ++ post)
    → (read_uint 4 p ≡ ok (a, advance 4 p))
      × (read_uint 4 (advance 4 p) ≡ ok (b, advance 4 (advance 4 p)))
      × (drop (p.read_position + 4 + 4) p.payload ≡ post)
two_numbers a b p post sa sb h =
    let (first, ahead) = read_uint-to_bytes 4 a p (to_bytes 4 b ++ post) sa h in
    let (second, end) = read_uint-to_bytes 4 b (advance 4 p) post sb ahead in (first, second, end)

-- The packet's numbers reach the logic of the lobby, and its decision reaches `answer`.
pub change_request_packet_read :
    (i player me : ℕ) (seat : ℤ) (s : Server)
    → player < 2 ^ 32
    → IsInt seat
    → s.phase ≡ lobby_phase
    → get_client_id i s ≡ ok me
    → dispatch i (make_seat_positions_change_request_packet player seat) s ≡ (
        apply_seat_positions_change_request player seat me s.lobby >>= λ r.
        answer i me (make_notify_seat_positions_changed_packet player seat) r s)
unfolding dispatch make_seat_positions_change_request_packet new_packet write_uint packet_code
    on_seat_positions_change_request_packet
change_request_packet_read i player me seat s small int phase client =
    let p = make_seat_positions_change_request_packet player seat in
    let (first, second, _) =
      two_numbers player (to_u32 seat) p [] (omega (arith, small)) (to_u32-bounded seat int)
        (ap (λ xs. to_bytes 4 player ++ xs) (sym (append-nil (to_bytes 4 (to_u32 seat))))) in
    let same = to_int-to_u32 seat int in rw (first, second, client, phase, same)

-- Every session but those of one player has the packet behind what it has to send; that player's are
-- as before, and so is all else but the lobby.
pub record Notified (packet : Packet) (me : ℕ) (s s' : Server) : Type 0 where
  pub each :
      (j : ℕ) (client : Session)
      → get_elem? s.clients j ≡ some client
      → (client' : Session) × (get_elem? s'.clients j ≡ some client')
        × (((client.player_profile ≡ some me) × (client' ≡ client))
            ⊎ ((client.player_profile ≢ some me) × (client' ≡ with_packets (packet ∷ []) client)))
  pub no_more : length s'.clients ≡ length s.clients
  pub untouched : record s' { clients = s.clients; lobby = s.lobby } ≡ s

length-map : (f : Session → Session) (xs : List Session) → length (map f xs) ≡ length xs
length-map f [] = refl
length-map f (x ∷ xs) = ap suc (length-map f xs)

answer_granted :
    (i me : ℕ) (packet : Packet) (l : Lobby) (s : Server)
    → (s' : Server) × (answer i me packet (true, l) s ≡ ok s')
      × (s'.lobby ≡ l)
      × Notified packet me s s'
unfolding answer broadcast
answer_granted i me packet l s =
    let with_lobby : Server = record s { lobby = l } in
    (
      broadcast packet (some me) with_lobby,
      refl,
      refl,
      record {
        each = λ j client h. broadcast_sends packet me j with_lobby client h;
        no_more = length-map (broadcast_to packet (some me)) s.clients;
        untouched = refl;
      },
    )

answer_refused :
    (i me : ℕ) (packet : Packet) (s : Server)
    → answer i me packet (false, s.lobby) s ≡ send_full_snapshot_update i s
unfolding answer
answer_refused i me packet s = refl

-- In the lobby's phase, a client whose profile the server has sends the packet that asks for a move
-- of a player, an id below 2 ^ 32, to a seat that fits in an `int`. The lobby's logic decides on
-- exactly this player, this seat and the client's own id. If it grants the move, the server has the
-- new lobby, all sessions but those of the client's player have the notification behind what they
-- have to send, and nothing else changes; if it refuses, the lobby stays, the client is in a
-- snapshot and has its packets behind what it has to send, unless it was in one before, and nothing
-- else changes; and if it faults, so does the server.
pub change_request_packet_answered :
    (i player me : ℕ) (seat : ℤ) (p : Profile) (client : Session) (s : Server)
    → player < 2 ^ 32
    → IsInt seat
    → s.phase ≡ lobby_phase
    → get_elem? s.clients i ≡ some client
    → client.player_profile ≡ some me
    → get_player_profile_by_id me s ≡ some p
    → ((l' : Lobby) × (s' : Server) × (apply_seat_positions_change_request player seat me s.lobby
          ≡ ok (true, l'))
        × (dispatch i (make_seat_positions_change_request_packet player seat) s ≡ ok s')
        × (s'.lobby ≡ l')
        × Notified (make_notify_seat_positions_changed_packet player seat) me s s')
      ⊎ ((s' : Server) × (apply_seat_positions_change_request player seat me s.lobby
            ≡ ok (false, s.lobby))
          × (dispatch i (make_seat_positions_change_request_packet player seat) s ≡ ok s')
          × Informed i p client s s')
      ⊎ ((x : Fault) × (apply_seat_positions_change_request player seat me s.lobby ≡ fault x)
          × (dispatch i (make_seat_positions_change_request_packet player seat) s ≡ fault x))
change_request_packet_answered i player me seat p client s small int phase there mine known =
    let read =
      change_request_packet_read i player me seat s small int phase (ground (arith, there, mine)) in
    let notice = make_notify_seat_positions_changed_packet player seat in
    let made = apply_seat_positions_change_request player seat me s.lobby in
    elim (Outcome-cases made) [
      | inl ((true, l), e) ↦
          let (s', a, same, notified) = answer_granted i me notice l s in
          inl (l, s', e, read ∙ ap (λ r. r >>= λ q. answer i me notice q s) e ∙ a, same, notified)
      | inl ((false, l), e) ↦
          let kept : l ≡ s.lobby = change_request_refused player seat me s.lobby l e in
          let e' = e ∙ ap (λ k. ok (false, k)) kept in
          let (s', sent, informed) =
            send_full_snapshot_update-Informed i s client me p there mine known phase in
          inr (
            inl (
              s',
              e',
              read
                  ∙ ap (λ r. r >>= λ q. answer i me notice q s) e'
                  ∙ answer_refused i me notice s
                  ∙ sent,
              informed,
            ))
      | inr (x, e) ↦ inr (inr (x, e, read ∙ ap (λ r. r >>= λ q. answer i me notice q s) e))
    ]
