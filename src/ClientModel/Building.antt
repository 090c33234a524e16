-- ===== src/ClientModel/Building.antt =====
-- ClientModel.cpp: the handlers of the packets of a snapshot, which build a lobby and then show it.
use durak.Base.{
  ℕ, zero, suc, ◌==◌, if◌then◌else◌, [], ◌∷◌, ◌++◌, none, some, to_int, Outcome, ok, ◌>>=◌,
}
use durak.Protocol.{ClientRole, syncing, synced, classic_rules}
use durak.Lobby.{queue_seat}
use durak.Packet.{Packet, read_uint, read_bool, read_string}
use durak.Packet.Factory.{make_snapshot_ack_packet}
use durak.ClientPlayer.{new_client_player}
use durak.ClientLobby.{
  ClientLobby, new_client_lobby, set_lobby_open, set_move_to_another_seat, set_rules_type,
  set_players_per_game, set_host_id, add_client_player_data, assign_player_to_seat_position,
}
use durak.LobbyLogic.{is_host_role}
use durak.ClientModel.{snapshot_applied, ClientModel, send, publish, to_role}

unfoldable pub on_snapshot_begin_packet : Packet → ClientModel → Outcome ClientModel
on_snapshot_begin_packet packet m = read_uint 1 packet >>= λ type.
    if type.0 == 1
    then ok (record m { sync_state = syncing; temp_lobby = some new_client_lobby })
    else ok (record m { sync_state = syncing })

unfoldable pub apply_snapshot : ClientModel → ClientModel
apply_snapshot m = elim m.temp_lobby [
  | none ↦ m
  | some c ↦ send make_snapshot_ack_packet (
      publish (snapshot_applied (some c)) (record m {
        states_to_delete = m.states_to_delete ++ (m.lobby ∷ []);
        lobby = some c;
        temp_lobby = none;
      }))
]

-- A type that is neither the lobby's nor the game's passes the switch with no state.
unfoldable pub on_snapshot_end_packet : Packet → ClientModel → Outcome ClientModel
unfolding apply_snapshot
on_snapshot_end_packet packet m = read_uint 1 packet >>= λ type.
    let m' : ClientModel = record m { sync_state = synced } in
    if type.0 == 1
    then ok (apply_snapshot m')
    else if type.0 == 2
    then ok m'
    else ok (send make_snapshot_ack_packet (publish (snapshot_applied none) m'))

-- The settings of the lobby that is being built.
unfoldable pub read_settings : Packet → ClientModel → ClientLobby → Outcome ClientModel
read_settings packet m c = read_uint 4 packet >>= λ id. read_uint 1 id.1 >>= λ role.
    read_bool role.1 >>= λ is_open. read_bool is_open.1 >>= λ can_move.
    read_uint 1 can_move.1 >>= λ rules. read_uint 4 rules.1 >>= λ size.
    set_players_per_game size.0 (
      set_rules_type classic_rules
        (set_move_to_another_seat can_move.0 (set_lobby_open is_open.0 c)))
    >>= λ c'. ok (record m {
      local_context = record { local_id = id.0; local_role = to_role role.0 };
      temp_lobby = some c';
    })

unfoldable pub on_snapshot_lobby_settings_packet : Packet → ClientModel → Outcome ClientModel
unfolding read_settings
on_snapshot_lobby_settings_packet packet m = elim m.temp_lobby [
  | none ↦ ok m
  | some c ↦ read_settings packet m c
]

abbrev pub note_host : ℕ → ClientRole → ClientLobby → ClientLobby
note_host id role c = if is_host_role role then set_host_id id c else c

unfoldable pub read_player_info : Packet → ClientModel → ClientLobby → Outcome ClientModel
read_player_info packet m c = read_uint 4 packet >>= λ id. read_string id.1 >>= λ nickname.
    read_uint 1 nickname.1 >>= λ role. ok (record m {
      temp_lobby = some (
          note_host id.0 (to_role role.0)
            (add_client_player_data (new_client_player id.0 nickname.0 (to_role role.0)) c));
    })

unfoldable pub on_snapshot_lobby_player_info_packet : Packet → ClientModel → Outcome ClientModel
unfolding read_player_info
on_snapshot_lobby_player_info_packet packet m = elim m.temp_lobby [
  | none ↦ ok m
  | some c ↦ read_player_info packet m c
]

-- The loop over the seats of a snapshot.
unfoldable pub read_seats : ℕ → Packet → ClientLobby → Outcome ClientLobby
read_seats zero packet c = ok c
read_seats (suc n) packet c = read_uint 4 packet >>= λ seat. read_uint 4 seat.1 >>= λ player.
    assign_player_to_seat_position (to_int seat.0) player.0 c >>= λ c'. read_seats n player.1 c'

unfoldable pub on_snapshot_lobby_seat_positions_packet : Packet → ClientModel → Outcome ClientModel
unfolding read_seats
on_snapshot_lobby_seat_positions_packet packet m = elim m.temp_lobby [
  | none ↦ ok m
  | some c ↦ read_uint 1 packet >>= λ size.
      read_seats size.0 size.1 c >>= λ c'. ok (record m { temp_lobby = some c' })
]

-- The loop over the queue of a snapshot.
unfoldable pub read_queue : ℕ → Packet → ClientLobby → Outcome ClientLobby
read_queue zero packet c = ok c
read_queue (suc n) packet c = read_uint 4 packet >>= λ player.
    assign_player_to_seat_position queue_seat player.0 c >>= λ c'. read_queue n player.1 c'

unfoldable pub on_snapshot_lobby_queue_positions_packet : Packet → ClientModel → Outcome ClientModel
unfolding read_queue
on_snapshot_lobby_queue_positions_packet packet m = elim m.temp_lobby [
  | none ↦ ok m
  | some c ↦ read_uint 1 packet >>= λ size.
      read_queue size.0 size.1 c >>= λ c'. ok (record m { temp_lobby = some c' })
]
