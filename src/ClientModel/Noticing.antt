-- ===== src/ClientModel/Noticing.antt =====
-- ClientModel.cpp: the handlers of the welcome, of the disconnection and of the notifications.
use durak.Base.{
  Bool, true, not, ◌==◌, if◌then◌else◌, is_empty, some, to_int, Outcome, ok, null_pointer, ◌>>=◌,
  value_or_fault,
}
use durak.Packet.{Packet, read_uint, read_bool, read_string}
use durak.ClientLobby.{ClientLobby, new_client_lobby}
use durak.ClientLobbyLogic.{
  apply_player_connected, apply_player_disconnected, apply_player_nickname_changed,
  apply_seat_positions_changed, apply_seat_positions_swapped, apply_players_per_game_change,
  apply_lobby_open_state,
}
use durak.ClientModel.{
  welcomed, server_disconnected, player_connected, player_reconnected, player_disconnected,
  connection_with_player_lost, player_nickname_changed, seat_positions_changed,
  seat_positions_swapped, players_per_game_changed, lobby_open_state_changed, ClientContext, Event,
  ClientModel, publish, send_snapshot_update_request, logic_lobby, put_logic_lobby, to_role,
  to_session_phase,
}

-- Outside the lobby's phase the lobby that the event refers to is a null pointer.
unfoldable pub on_welcome_packet : Packet → ClientModel → Outcome ClientModel
on_welcome_packet packet m = read_uint 4 packet >>= λ id. read_string id.1 >>= λ nickname.
    read_uint 1 nickname.1 >>= λ role. read_uint 1 role.1 >>= λ phase.
    let context : ClientContext = record { local_id = id.0; local_role = to_role role.0 } in
    let lobby = if phase.0 == 1 then some new_client_lobby else m.lobby in
    value_or_fault lobby null_pointer >>= λ c. ok (
      publish (welcomed (to_session_phase phase.0) context c) (record m {
        local_context = context;
        local_nickname = nickname.0;
        phase = to_session_phase phase.0;
        lobby = lobby;
        initialized = true;
      }))

unfoldable pub on_server_disconnect_packet : Packet → ClientModel → Outcome ClientModel
on_server_disconnect_packet packet m =
    read_uint 1 packet >>= λ reason. ok (publish (server_disconnected reason.0) m)

-- The event of a change that the logic has made, or the request for a snapshot.
unfoldable pub settle : Event → Bool × ClientLobby → ClientModel → ClientModel
unfolding send_snapshot_update_request put_logic_lobby
settle e r m =
    let m' = put_logic_lobby r.1 m in if r.0 then publish e m' else send_snapshot_update_request m'

unfoldable pub on_notify_player_connected_packet : Packet → ClientModel → Outcome ClientModel
unfolding settle
on_notify_player_connected_packet packet m = read_uint 4 packet >>= λ player.
    read_string player.1 >>= λ nickname. read_uint 1 nickname.1 >>= λ role.
    read_uint 4 role.1 >>= λ seat.
    apply_player_connected player.0 nickname.0 (to_role role.0) (to_int seat.0) (logic_lobby m)
    >>= λ r. ok (settle (player_connected player.0 nickname.0 (to_role role.0) (to_int seat.0)) r m)

unfoldable pub on_notify_player_reconnected_packet : Packet → ClientModel → Outcome ClientModel
on_notify_player_reconnected_packet packet m =
    read_uint 4 packet >>= λ player. ok (publish (player_reconnected player.0) m)

unfoldable pub on_notify_player_disconnected_packet : Packet → ClientModel → Outcome ClientModel
unfolding put_logic_lobby
on_notify_player_disconnected_packet packet m = read_uint 4 packet >>= λ player.
    read_uint 1 player.1 >>= λ reason. ok (
      publish (player_disconnected player.0 reason.0)
        (put_logic_lobby (apply_player_disconnected player.0 (logic_lobby m)) m))

unfoldable pub on_notify_connection_with_player_lost_packet :
    Packet → ClientModel → Outcome ClientModel
on_notify_connection_with_player_lost_packet packet m =
    read_uint 4 packet >>= λ player. ok (publish (connection_with_player_lost player.0) m)

unfoldable pub on_notify_player_nickname_changed_packet : Packet → ClientModel → Outcome ClientModel
unfolding settle
on_notify_player_nickname_changed_packet packet m = read_uint 4 packet >>= λ player.
    read_string player.1 >>= λ nickname. ok (
      settle (player_nickname_changed player.0 nickname.0)
        (apply_player_nickname_changed player.0 nickname.0 (logic_lobby m)) m)

unfoldable pub on_notify_seat_positions_changed_packet : Packet → ClientModel → Outcome ClientModel
unfolding settle
on_notify_seat_positions_changed_packet packet m = read_uint 4 packet >>= λ player.
    read_uint 4 player.1 >>= λ seat.
    apply_seat_positions_changed player.0 (to_int seat.0) (logic_lobby m) >>= λ r.
    ok (settle (seat_positions_changed player.0 (to_int seat.0)) r m)

unfoldable pub on_notify_seat_positions_swapped_packet : Packet → ClientModel → Outcome ClientModel
unfolding settle
on_notify_seat_positions_swapped_packet packet m = read_uint 4 packet >>= λ first.
    read_uint 4 first.1 >>= λ second.
    apply_seat_positions_swapped first.0 second.0 (logic_lobby m) >>= λ r.
    ok (settle (seat_positions_swapped first.0 second.0) r m)

-- A snapshot is asked for when players had to leave their seats.
unfoldable pub on_notify_players_per_game_changed_packet :
    Packet → ClientModel → Outcome ClientModel
unfolding put_logic_lobby send_snapshot_update_request
on_notify_players_per_game_changed_packet packet m = read_uint 4 packet >>= λ size.
    apply_players_per_game_change size.0 (logic_lobby m) >>= λ r.
    let m' = put_logic_lobby r.1 m in
    let m'' = if not (is_empty r.0) then send_snapshot_update_request m' else m' in
    ok (publish (players_per_game_changed size.0) m'')

unfoldable pub on_notify_lobby_open_state_changed_packet :
    Packet → ClientModel → Outcome ClientModel
unfolding settle
on_notify_lobby_open_state_changed_packet packet m = read_bool packet >>= λ is_open. ok (
    settle (lobby_open_state_changed is_open.0) (apply_lobby_open_state is_open.0 (logic_lobby m))
      m)
