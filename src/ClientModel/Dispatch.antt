-- ===== src/ClientModel/Dispatch.antt =====
-- ClientModel.cpp: `registerHandlers` and `processReceivingPackets`. A dispatcher that has no handler
-- for a kind is `none`.
use durak.Base.{ℕ, not, ◌==◌, if◌then◌else◌, List, [], ◌∷◌, Option, none, some, Outcome, ok, ◌>>=◌}
use durak.Protocol.{SyncState, unsynced, syncing, synced}
use durak.Packet.{Packet}
use durak.Packet.Kinds.{
  packet_code, welcome, server_disconnect, snapshot_begin, snapshot_end, snapshot_lobby_settings,
  snapshot_lobby_player_info, snapshot_lobby_seat_positions, snapshot_lobby_queue_positions,
  notify_player_connected, notify_player_reconnected, notify_player_disconnected,
  notify_connection_with_player_lost, notify_player_nickname_changed, notify_seat_positions_changed,
  notify_seat_positions_swapped, notify_players_per_game_changed, notify_lobby_open_state_changed,
}
use durak.Connection.{receive_packets}
use durak.ClientModel.{ClientModel}
use durak.ClientModel.Noticing.{
  on_welcome_packet, on_server_disconnect_packet, on_notify_player_connected_packet,
  on_notify_player_reconnected_packet, on_notify_player_disconnected_packet,
  on_notify_connection_with_player_lost_packet, on_notify_player_nickname_changed_packet,
  on_notify_seat_positions_changed_packet, on_notify_seat_positions_swapped_packet,
  on_notify_players_per_game_changed_packet, on_notify_lobby_open_state_changed_packet,
}
use durak.ClientModel.Building.{
  on_snapshot_begin_packet, on_snapshot_end_packet, on_snapshot_lobby_settings_packet,
  on_snapshot_lobby_player_info_packet, on_snapshot_lobby_seat_positions_packet,
  on_snapshot_lobby_queue_positions_packet,
}

unfoldable pub dispatch_common : Packet → ClientModel → Option (Outcome ClientModel)
dispatch_common p m =
    if p.kind == packet_code server_disconnect
    then some (on_server_disconnect_packet p m)
    else if p.kind == packet_code snapshot_begin
    then some (on_snapshot_begin_packet p m)
    else none

unfoldable pub dispatch_unsynced : Packet → ClientModel → Option (Outcome ClientModel)
dispatch_unsynced p m = if p.kind == packet_code welcome then some (on_welcome_packet p m) else none

unfoldable pub dispatch_syncing : Packet → ClientModel → Option (Outcome ClientModel)
dispatch_syncing p m =
    if p.kind == packet_code snapshot_end
    then some (on_snapshot_end_packet p m)
    else if p.kind == packet_code snapshot_lobby_settings
    then some (on_snapshot_lobby_settings_packet p m)
    else if p.kind == packet_code snapshot_lobby_player_info
    then some (on_snapshot_lobby_player_info_packet p m)
    else if p.kind == packet_code snapshot_lobby_seat_positions
    then some (on_snapshot_lobby_seat_positions_packet p m)
    else if p.kind == packet_code snapshot_lobby_queue_positions
    then some (on_snapshot_lobby_queue_positions_packet p m)
    else none

unfoldable pub dispatch_synced : Packet → ClientModel → Option (Outcome ClientModel)
dispatch_synced p m =
    if p.kind == packet_code notify_player_connected
    then some (on_notify_player_connected_packet p m)
    else if p.kind == packet_code notify_player_reconnected
    then some (on_notify_player_reconnected_packet p m)
    else if p.kind == packet_code notify_player_disconnected
    then some (on_notify_player_disconnected_packet p m)
    else if p.kind == packet_code notify_connection_with_player_lost
    then some (on_notify_connection_with_player_lost_packet p m)
    else if p.kind == packet_code notify_player_nickname_changed
    then some (on_notify_player_nickname_changed_packet p m)
    else if p.kind == packet_code notify_seat_positions_changed
    then some (on_notify_seat_positions_changed_packet p m)
    else if p.kind == packet_code notify_seat_positions_swapped
    then some (on_notify_seat_positions_swapped_packet p m)
    else if p.kind == packet_code notify_players_per_game_changed
    then some (on_notify_players_per_game_changed_packet p m)
    else if p.kind == packet_code notify_lobby_open_state_changed
    then some (on_notify_lobby_open_state_changed_packet p m)
    else none

-- The dispatcher of the state.
abbrev pub dispatch_in : SyncState → Packet → ClientModel → Option (Outcome ClientModel)
dispatch_in syncing = dispatch_syncing
dispatch_in synced = dispatch_synced
dispatch_in unsynced = dispatch_unsynced

abbrev pub or_else : Option (Outcome ClientModel) → Outcome ClientModel → Outcome ClientModel
or_else none rest = rest
or_else (some r) rest = r

-- One turn of the loop of `processReceivingPackets`.
unfoldable pub process_packet : Packet → ClientModel → Outcome ClientModel
unfolding dispatch_common dispatch_unsynced dispatch_syncing dispatch_synced
process_packet p m =
    if not m.initialized
    then (if p.kind == packet_code welcome
        then or_else (dispatch_unsynced p m) (ok m)
        else if p.kind == packet_code server_disconnect
        then or_else (dispatch_common p m) (ok m)
        else ok m)
    else or_else (dispatch_in m.sync_state p m) (or_else (dispatch_common p m) (ok m))

unfoldable pub process_packets : List Packet → ClientModel → Outcome ClientModel
unfolding process_packet
process_packets [] m = ok m
process_packets (p ∷ ps) m = process_packet p m >>= process_packets ps

-- What the socket hands over is a list of chunks.
unfoldable pub process_receiving_packets : List (List ℕ) → ClientModel → Outcome ClientModel
unfolding process_packets
process_receiving_packets chunks m = receive_packets (packet_code welcome) chunks m.client >>= λ r.
    process_packets r.0 (record m { client = r.1 })
