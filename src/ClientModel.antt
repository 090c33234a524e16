-- ===== src/ClientModel.antt =====
-- source/network/ClientModel.{h,cpp}, ClientPacketDispatcher.h and core/ClientContext.h: the client's
-- side of the protocol. The event system is a list of the events published, in their order. A byte that
-- is no enumerator of a role counts as a regular one: the program only compares with the host's role.
pub mod Noticing
pub mod Building
pub mod Dispatch
pub mod Requests
pub mod Reading
pub mod Placing
pub mod Snapshot
pub mod Taken
pub mod Applied
pub mod Deaf
pub mod Tests
use durak.Base.{
  ℕ, zero, suc, Bool, true, false, not, ◌&&◌, ◌==◌, if◌then◌else◌, List, [], ◌∷◌, ◌++◌, is_empty,
  Option, none, some, is_some, ℤ, to_int, Outcome, ok, fault, null_pointer, ◌>>=◌, value_or_fault,
}
use durak.Protocol.{
  ClientRole, host, regular, SessionPhase, no_phase, lobby_phase, game_phase, SyncState, unsynced,
  syncing, synced, classic_rules,
}
use durak.Lobby.{queue_seat}
use durak.Packet.{Packet, read_uint, read_bool, read_string}
use durak.Packet.Kinds.{
  packet_code, welcome, server_disconnect, snapshot_begin, snapshot_end, snapshot_lobby_settings,
  snapshot_lobby_player_info, snapshot_lobby_seat_positions, snapshot_lobby_queue_positions,
  notify_player_connected, notify_player_reconnected, notify_player_disconnected,
  notify_connection_with_player_lost, notify_player_nickname_changed, notify_seat_positions_changed,
  notify_seat_positions_swapped, notify_players_per_game_changed, notify_lobby_open_state_changed,
}
use durak.Packet.Factory.{make_hello_packet, make_update_request_packet, make_snapshot_ack_packet}
use durak.ClientPlayer.{new_client_player}
use durak.ClientLobby.{
  ClientLobby, new_client_lobby, set_lobby_open, set_move_to_another_seat, set_rules_type,
  set_players_per_game, set_host_id, add_client_player_data, assign_player_to_seat_position,
}
use durak.ClientLobbyLogic.{
  apply_player_connected, apply_player_disconnected, apply_player_nickname_changed,
  apply_seat_positions_changed, apply_seat_positions_swapped, apply_players_per_game_change,
  apply_lobby_open_state,
}
use durak.LobbyLogic.{is_host_role}
use durak.Connection.{
  Connection, ConnectionState, disconnected, connecting, ready, SocketStatus, connect, send_packet,
  new_connection, receive_packets,
}

pub record ClientContext : Type 0 where
  pub local_id : ℕ
  pub local_role : ClientRole

-- What ClientModel publishes.
pub data Event : Type 0 where
  snapshot_applied : Option ClientLobby → Event
  welcomed : SessionPhase → ClientContext → ClientLobby → Event
  server_disconnected : ℕ → Event
  player_connected : ℕ → List ℕ → ClientRole → ℤ → Event
  player_reconnected : ℕ → Event
  player_disconnected : ℕ → ℕ → Event
  connection_with_player_lost : ℕ → Event
  player_nickname_changed : ℕ → List ℕ → Event
  seat_positions_changed : ℕ → ℤ → Event
  seat_positions_swapped : ℕ → ℕ → Event
  players_per_game_changed : ℕ → Event
  lobby_open_state_changed : Bool → Event
  lobby_state_sync : ClientContext → Event

pub record ClientModel : Type 0 where
  pub sync_state : SyncState
  pub client : Connection
  pub published : List Event
  pub phase : SessionPhase
  pub initialized : Bool
  pub token : ℕ
  pub local_nickname : List ℕ
  pub local_context : ClientContext
  -- The lobby that the constructor gives to the logic, which serves until there is another one.
  pub first_lobby : ClientLobby
  pub lobby : Option ClientLobby
  pub temp_lobby : Option ClientLobby
  pub states_to_delete : List (Option ClientLobby)

abbrev pub send : Packet → ClientModel → ClientModel
send p m = record m { client = send_packet p m.client }

abbrev pub publish : Event → ClientModel → ClientModel
publish e m = record m { published = m.published ++ (e ∷ []) }

abbrev pub is_disconnected : ConnectionState → Bool
is_disconnected disconnected = true
is_disconnected connecting = false
is_disconnected ready = false

-- The constructor, on the status of the socket's `connect`; the fields that it leaves without a value
-- are parameters.
unfoldable pub new_client_model :
    SessionPhase → ClientContext → ℕ → List ℕ → ClientLobby → SocketStatus → ClientModel
new_client_model phase context token nickname first status =
    let m : ClientModel = record {
      sync_state = unsynced;
      client = connect status (new_connection disconnected);
      published = [];
      phase = phase;
      initialized = false;
      token = token;
      local_nickname = nickname;
      local_context = context;
      first_lobby = first;
      lobby = none;
      temp_lobby = none;
      states_to_delete = [];
    } in
    if is_disconnected m.client.connection_state
    then m
    else send (make_hello_packet token nickname) m

-- `cleanUp`.
abbrev pub clean_states_to_delete : ClientModel → ClientModel
clean_states_to_delete m = record m { states_to_delete = [] }

abbrev pub set_local_id : ℕ → ClientModel → ClientModel
set_local_id id m = record m { local_context = record m.local_context { local_id = id } }

abbrev pub set_nickname : List ℕ → ClientModel → ClientModel
set_nickname nickname m = record m { local_nickname = nickname }

abbrev pub is_syncing : SyncState → Bool
is_syncing syncing = true
is_syncing unsynced = false
is_syncing synced = false

unfoldable pub send_snapshot_update_request : ClientModel → ClientModel
send_snapshot_update_request m =
    if is_syncing m.sync_state
    then m
    else send make_update_request_packet (record m { sync_state = syncing })

-- The lobby that the logic points to.
abbrev pub logic_lobby : ClientModel → ClientLobby
logic_lobby m = elim m.lobby [ none ↦ m.first_lobby | some c ↦ c ]

unfoldable pub put_logic_lobby : ClientLobby → ClientModel → ClientModel
put_logic_lobby c m = elim m.lobby [
  | none ↦ record m { first_lobby = c }
  | some d ↦ record m { lobby = some c }
]

-- The numbers of the enumerators.
abbrev pub to_role : ℕ → ClientRole
to_role n = if n == 0 then host else regular

abbrev pub to_session_phase : ℕ → SessionPhase
to_session_phase n = if n == 1 then lobby_phase else if n == 2 then game_phase else no_phase
