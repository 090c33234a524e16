-- ===== src/Server.antt =====
-- source/network/Server.{h,cpp} and ServerPacketDispatcher.h: the sessions of the clients, and what
-- the server does with their packets. The listener and the sockets are parameters. The deque of
-- profiles, the pointers of the lobby to them and those of the sessions are three lists that a change
-- of a profile rewrites alike. Lines that only print are left out.
pub mod Informing
pub mod Loops
pub mod Handlers
pub mod Informed
pub mod Greeting
pub mod Broadcast
pub mod Requests
pub mod Sound
pub mod Handled
pub mod Serving
pub mod Tests
use durak.Base.{
  ℕ, zero, suc, ◌+◌, ◌≡◌, Bool, true, false, not, ◌&&◌, ◌||◌, ◌==◌, leb, if◌then◌else◌, List, [],
  ◌∷◌, ◌++◌, map, get_elem?, set, is_empty, Option, none, some, is_some, Outcome, ok, fault,
  null_pointer, assertion, bad_optional, out_of_range, ◌>>=◌, ◌>>◌, require, value_or_fault,
}
use durak.Protocol.{
  Profile, SessionPhase, no_phase, lobby_phase, game_phase, lobby_snapshot, game_snapshot, syncing,
  SyncState, unsynced, synced, set_role, regular,
}
use durak.Lobby.{Lobby, new_lobby, has_player}
use durak.GameState.{GameState}
use durak.GameState as GameState
use durak.Packet.{Packet}
use durak.Packet.Factory.{
  make_snapshot_begin_packet, make_snapshot_end_packet, make_snapshot_lobby_settings_packet,
  make_snapshot_lobby_player_info_packet, make_snapshot_lobby_seat_positions_packet,
  make_snapshot_lobby_queue_positions_packet,
}
use durak.Connection.{Connection, ConnectionState, disconnected, connecting, ready}
use durak.Session.{Session, new_session, request_disconnect, update, start_sync, send_packet}

pub record Server : Type 0 where
  pub phase : SessionPhase
  pub lobby : Lobby
  pub game : Option GameState
  pub clients : List Session
  pub profiles : List Profile
  -- The static counter of PlayerProfile.
  pub id_counter : ℕ

-- `init`.
unfoldable pub new_server : Server
new_server = record {
  phase = lobby_phase;
  lobby = new_lobby;
  game = none;
  clients = [];
  profiles = [];
  id_counter = 0;
}

abbrev pub is_disconnected : ConnectionState → Bool
is_disconnected disconnected = true
is_disconnected connecting = false
is_disconnected ready = false

-- One turn of the loop of `updateClients`.
unfoldable pub update_client : ℕ → Session → Session
update_client dt client =
    if is_disconnected client.connection.connection_state && not client.disconnect_requested
    then update dt (request_disconnect client)
    else update dt client

unfoldable pub update_clients : ℕ → Server → Server
unfolding update_client
update_clients dt s = record s { clients = map (update_client dt) s.clients }

-- On whether the listener has a new socket.
unfoldable pub accept_new_clients : Bool → Server → Server
accept_new_clients false s = s
accept_new_clients true s = record s { clients = s.clients ++ (new_session ∷ []) }

unfoldable pub update_server : Bool → ℕ → Server → Server
unfolding accept_new_clients update_clients
update_server accepted dt s = update_clients dt (accept_new_clients accepted s)

-- Constants::Timers::MaxDisconnectTime
abbrev pub max_disconnect_time : ℕ
max_disconnect_time = 60000

abbrev pub is_erased : Session → Bool
is_erased client =
    client.disconnect_requested
    && (is_empty client.connection.outgoing || leb max_disconnect_time client.disconnect_timer)

unfoldable pub keep_clients : List Session → List Session
keep_clients [] = []
keep_clients (client ∷ clients) =
    if is_erased client then keep_clients clients else client ∷ keep_clients clients

-- `eraseClients`, which is all of `cleanUp`.
unfoldable pub erase_clients : Server → Server
unfolding keep_clients
erase_clients s = record s { clients = keep_clients s.clients }

abbrev pub has_profile : ℕ → Session → Bool
has_profile player client = elim client.player_profile [ none ↦ false | some p ↦ p == player ]

-- A pointer to a session is its index.
unfoldable pub session_from : (Session → Bool) → ℕ → List Session → Option ℕ
session_from test i [] = none
session_from test i (client ∷ clients) =
    if test client then some i else session_from test (suc i) clients

unfoldable pub get_client_session_by_id : ℕ → Server → Option ℕ
unfolding session_from
get_client_session_by_id player s = session_from (has_profile player) 0 s.clients

unfoldable pub find_profile_by_id : ℕ → List Profile → Option Profile
find_profile_by_id player [] = none
find_profile_by_id player (p ∷ ps) = if player == p.id then some p else find_profile_by_id player ps

unfoldable pub get_player_profile_by_id : ℕ → Server → Option Profile
unfolding find_profile_by_id
get_player_profile_by_id player s = find_profile_by_id player s.profiles

unfoldable pub find_profile_by_token : ℕ → List Profile → Option Profile
find_profile_by_token token [] = none
find_profile_by_token token (p ∷ ps) =
    if token == p.token then some p else find_profile_by_token token ps

unfoldable pub get_player_profile_by_token : ℕ → Server → Option Profile
unfolding find_profile_by_token
get_player_profile_by_token token s = find_profile_by_token token s.profiles

-- The token of the profile that a session points to.
abbrev pub has_token : ℕ → Server → Session → Bool
has_token token s client = elim client.player_profile [
  | none ↦ false
  | some player ↦ elim (get_player_profile_by_id player s) [
    | none ↦ false
    | some p ↦ p.token == token
  ]
]

unfoldable pub get_client_session_by_token : ℕ → Server → Option ℕ
unfolding session_from
get_client_session_by_token token s = session_from (has_token token s) 0 s.clients

-- The comparison with the token is a statement of its own, so that every session with a profile is
-- asked to disconnect.
unfoldable pub clients_to_disconnect_by_token : ℕ → Server → Server
clients_to_disconnect_by_token token s = record s {
  clients =
      map (λ (c : Session). if is_some c.player_profile then request_disconnect c else c) s.clients;
}

-- The test at the head of both loops of `broadcast`.
abbrev pub is_excluded : Option ℕ → Session → Bool
is_excluded none client = false
is_excluded (some player) client = has_profile player client

unfoldable pub broadcast_to : Packet → Option ℕ → Session → Session
broadcast_to packet exclude client =
    if is_excluded exclude client then client else send_packet packet client

unfoldable pub broadcast : Packet → Option ℕ → Server → Server
unfolding broadcast_to
broadcast packet exclude s = record s { clients = map (broadcast_to packet exclude) s.clients }

unfoldable pub send_each : List Packet → Session → Session
send_each [] client = client
send_each (p ∷ ps) client = send_each ps (send_packet p client)

-- `broadcast` of a vector of packets.
unfoldable pub broadcast_all : List Packet → Option ℕ → Server → Server
unfolding send_each
broadcast_all packets exclude s = record s {
  clients =
      map (λ (c : Session). if is_excluded exclude c then c else send_each packets c) s.clients;
}

-- `token < 0` of an unsigned number.
abbrev pub is_token_correct : ℕ → Bool
is_token_correct token = true

-- The first case of the switch falls through to the second, and the pointer to the game is null
-- until there is one.
unfoldable pub is_player_present : Server → Profile → Outcome Bool
is_player_present s profile =
    let in_game =
      value_or_fault s.game null_pointer >>= λ g. ok (GameState.has_player g profile.id) in
    elim s.phase [
      | lobby_phase ↦ if has_player s.lobby profile then ok true else in_game
      | game_phase ↦ in_game
      | no_phase ↦ ok false
    ]

-- The session at an index is rewritten.
abbrev pub put_client : ℕ → Session → Server → Server
put_client i client s = record s { clients = set s.clients i client }

-- A handler gets a reference to a session: its index.
abbrev pub get_client : ℕ → Server → Outcome Session
get_client i s = value_or_fault (get_elem? s.clients i) out_of_range
