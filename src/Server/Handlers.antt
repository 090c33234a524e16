-- ===== src/Server/Handlers.antt =====
-- Server.cpp: `on…Packet`.
use durak.Base.{
  ℕ, zero, suc, ◌+◌, ◌%◌, ◌^◌, Bool, true, false, not, ◌&&◌, ◌==◌, if◌then◌else◌, List, [], ◌∷◌,
  ◌++◌, none, some, to_int, Outcome, ok, logic_error, bad_optional, ◌>>=◌, value_or_fault,
}
use durak.Protocol.{
  Profile, SessionPhase, no_phase, lobby_phase, game_phase, set_nickname, regular, quit,
  invalid_token,
}
use durak.Lobby.{Lobby, has_player, get_seat_position_by_id}
use durak.LobbyLogic.{
  apply_player_connect_request, apply_player_disconnected, apply_seat_positions_change_request,
  apply_seat_positions_swap_request, apply_players_per_game_change_request, apply_lobby_open_state,
  as_number,
}
use durak.Packet.{Packet, read_uint, read_bool, read_hello}
use durak.Packet.Factory.{
  make_server_disconnect_packet, make_welcome_packet, make_notify_player_connected_packet,
  make_notify_player_nickname_changed_packet, make_notify_player_disconnected_packet,
  make_notify_seat_positions_changed_packet, make_notify_seat_positions_swapped_packet,
  make_notify_players_per_game_changed_packet, make_notify_lobby_open_state_changed_packet,
}
use durak.Session.{
  Session, request_disconnect, send_packet, set_player_profile, set_initialized, end_sync,
}
use durak.Server.{
  Server, get_player_profile_by_token, clients_to_disconnect_by_token, is_token_correct, broadcast,
  get_client,
}
use durak.Server.Informing.{send_full_snapshot_update}

unfoldable pub modify : ℕ → (Session → Session) → List Session → List Session
modify i f [] = []
modify zero f (c ∷ cs) = f c ∷ cs
modify (suc i) f (c ∷ cs) = c ∷ modify i f cs

-- A change of the session that a handler got.
unfoldable pub at_client : ℕ → (Session → Session) → Server → Server
unfolding modify
at_client i f s = record s { clients = modify i f s.clients }

unfoldable pub same_bytes : List ℕ → List ℕ → Bool
same_bytes [] [] = true
same_bytes [] (y ∷ ys) = false
same_bytes (x ∷ xs) [] = false
same_bytes (x ∷ xs) (y ∷ ys) = x == y && same_bytes xs ys

-- The profile with the same id, written over.
unfoldable pub put_profile : Profile → List Profile → List Profile
put_profile p [] = []
put_profile p (q ∷ qs) = if q.id == p.id then p ∷ qs else q ∷ put_profile p qs

-- `profiles.emplace_back`, with the next id, a `uint32_t`.
unfoldable pub add_profile : ℕ → List ℕ → Server → Profile × Server
add_profile token nickname s =
    let p : Profile = record {
      id = s.id_counter;
      token = token;
      nickname = nickname;
      role = regular;
    } in
    (p, record s { profiles = s.profiles ++ (p ∷ []); id_counter = (s.id_counter + 1) % 2 ^ 32 })

-- Who says hello: a known profile, or a new one.
unfoldable pub identify : ℕ → ℕ → List ℕ → Server → Profile × Server
unfolding add_profile at_client
identify i token nickname s = elim (get_player_profile_by_token token s) [
  | some p ↦ (p, at_client i (set_player_profile p.id) (clients_to_disconnect_by_token token s))
  | none ↦
      let (p, s') = add_profile token nickname s in (p, at_client i (set_player_profile p.id) s')
]

-- The welcome, the snapshot, and the notification to the others, with a nickname each.
unfoldable pub welcome : ℕ → Profile → List ℕ → List ℕ → Server → Outcome Server
unfolding at_client
welcome i p nickname shown s =
    send_full_snapshot_update i (
      at_client i
        (λ client.
          send_packet (make_welcome_packet p.id nickname p.role s.phase)
            (set_initialized true client))
        s)
    >>= λ s'. value_or_fault (get_seat_position_by_id s'.lobby p.id) bad_optional >>= λ seat.
        ok (broadcast (make_notify_player_connected_packet p.id shown p.role seat) (some p.id) s')

-- The nickname of a profile, wherever it is kept.
unfoldable pub rename : Profile → List ℕ → Server → Server
unfolding put_profile
rename p nickname s = record s {
  profiles = put_profile (set_nickname nickname p) s.profiles;
  lobby = record s.lobby { profiles = put_profile (set_nickname nickname p) s.lobby.profiles };
}

unfoldable pub hello_again : ℕ → Profile → List ℕ → Server → Outcome Server
unfolding welcome rename same_bytes
hello_again i p nickname s = welcome i p nickname p.nickname s >>= λ s'.
    if same_bytes nickname p.nickname
    then ok s'
    else ok (
        broadcast (make_notify_player_nickname_changed_packet p.id nickname) (some p.id)
          (rename p nickname s'))

unfoldable pub hello_new : ℕ → Profile → List ℕ → Server → Outcome Server
unfolding welcome put_profile at_client
hello_new i p nickname s = apply_player_connect_request p s.lobby >>= λ r. elim r.0 [
  | some reason ↦ ok (
      at_client i
        (λ client. request_disconnect (send_packet (make_server_disconnect_packet reason) client))
        (record s { lobby = r.2 }))
  | none ↦
      welcome i r.1 nickname nickname
        (record s { lobby = r.2; profiles = put_profile r.1 s.profiles })
]

unfoldable pub on_hello_packet : ℕ → Packet → Server → Outcome Server
unfolding identify hello_again hello_new at_client
on_hello_packet i packet s = read_hello packet >>= λ r.
    if not (is_token_correct r.0)
    then ok (
        at_client i
          (λ client.
            request_disconnect (send_packet (make_server_disconnect_packet invalid_token) client))
          s)
    else (let (p, s') = identify i r.0 r.1 s in
        elim s'.phase [
          | lobby_phase ↦
              if has_player s'.lobby p then hello_again i p r.1 s' else hello_new i p r.1 s'
          | game_phase ↦ ok s'
          | no_phase ↦ ok s'
        ])

unfoldable pub on_player_disconnected_packet : ℕ → Packet → Server → Outcome Server
unfolding at_client
on_player_disconnected_packet i packet s = get_client i s >>= λ client.
    value_or_fault client.player_profile logic_error >>= λ player. elim s.phase [
      | lobby_phase ↦ ok (
          at_client i request_disconnect (
            broadcast (make_notify_player_disconnected_packet player quit) (some player)
              (record s { lobby = apply_player_disconnected player s.lobby })))
      | game_phase ↦ ok (at_client i request_disconnect s)
      | no_phase ↦ ok (at_client i request_disconnect s)
    ]

unfoldable pub on_snapshot_ack_packet : ℕ → Packet → Server → Outcome Server
unfolding at_client
on_snapshot_ack_packet i packet s = ok (at_client i end_sync s)

-- The id of the player behind a session; `value()` throws where there is none.
abbrev pub get_client_id : ℕ → Server → Outcome ℕ
get_client_id i s = get_client i s >>= λ client. value_or_fault client.player_profile bad_optional

-- A granted request is made known to the others, and after a refused one the client gets a snapshot.
unfoldable pub answer : ℕ → ℕ → Packet → Bool × Lobby → Server → Outcome Server
answer i player notice r s =
    if r.0
    then ok (broadcast notice (some player) (record s { lobby = r.1 }))
    else send_full_snapshot_update i (record s { lobby = r.1 })

abbrev pub in_lobby : SessionPhase → Bool
in_lobby lobby_phase = true
in_lobby game_phase = false
in_lobby no_phase = false

unfoldable pub on_seat_positions_change_request_packet : ℕ → Packet → Server → Outcome Server
unfolding answer
on_seat_positions_change_request_packet i packet s = read_uint 4 packet >>= λ player.
    read_uint 4 player.1 >>= λ seat. get_client_id i s >>= λ client.
    if not (in_lobby s.phase)
    then ok s
    else (apply_seat_positions_change_request player.0 (to_int seat.0) client s.lobby >>= λ r.
        answer i client (make_notify_seat_positions_changed_packet player.0 (to_int seat.0)) r s)

unfoldable pub on_seat_positions_swap_request_packet : ℕ → Packet → Server → Outcome Server
unfolding answer
on_seat_positions_swap_request_packet i packet s = read_uint 4 packet >>= λ first.
    read_uint 4 first.1 >>= λ second. get_client_id i s >>= λ client.
    if not (in_lobby s.phase)
    then ok s
    else (apply_seat_positions_swap_request first.0 second.0 client s.lobby >>= λ r.
        answer i client (make_notify_seat_positions_swapped_packet first.0 second.0) r s)

unfoldable pub on_players_per_game_change_request_packet : ℕ → Packet → Server → Outcome Server
unfolding answer
on_players_per_game_change_request_packet i packet s = read_uint 4 packet >>= λ value.
    get_client_id i s >>= λ client.
    if not (in_lobby s.phase)
    then ok s
    else (apply_players_per_game_change_request value.0 client s.lobby >>= λ r.
        answer i client (make_notify_players_per_game_changed_packet value.0) r s)

-- The only request that is answered in any phase.
unfoldable pub on_lobby_open_state_change_request_packet : ℕ → Packet → Server → Outcome Server
unfolding answer
on_lobby_open_state_change_request_packet i packet s = read_bool packet >>= λ value.
    get_client_id i s >>= λ client.
    apply_lobby_open_state (as_number value.0) client s.lobby >>= λ r.
    answer i client (make_notify_lobby_open_state_changed_packet value.0) r s
