-- ===== src/Session.antt =====
-- source/network/ClientSession.{h,cpp}: what the server keeps of one client, besides the connection.
-- The pointer to a profile is the profile's id; a time is a number of equal steps, 1000 to the second.
use durak.Base.{ℕ, ◌+◌, Bool, true, false, Option, none, some, if◌then◌else◌}
use durak.Protocol.{SyncState, unsynced, syncing, synced}
use durak.Packet.{Packet}
use durak.Connection.{Connection, new_connection, connecting}
use durak.Connection as Connection

pub record Session : Type 0 where
  pub connection : Connection
  pub sync_state : SyncState
  pub initialized : Bool
  pub player_profile : Option ℕ
  pub disconnect_requested : Bool
  pub disconnect_timer : ℕ

-- The constructor, whose body is `init`.
unfoldable pub new_session : Session
new_session = record {
  connection = new_connection connecting;
  sync_state = unsynced;
  initialized = false;
  player_profile = none;
  disconnect_requested = false;
  disconnect_timer = 0;
}

abbrev pub set_player_profile : ℕ → Session → Session
set_player_profile profile s = record s { player_profile = some profile }

abbrev pub request_disconnect : Session → Session
request_disconnect s = record s { disconnect_requested = true }

abbrev pub cancel_disconnect : Session → Session
cancel_disconnect s = record s { disconnect_requested = false; disconnect_timer = 0 }

abbrev pub set_disconnect_timer : ℕ → Session → Session
set_disconnect_timer value s = record s { disconnect_timer = value }

abbrev pub update_disconnect_timer : ℕ → Session → Session
update_disconnect_timer dt s = record s { disconnect_timer = s.disconnect_timer + dt }

abbrev pub update : ℕ → Session → Session
update dt s = if s.disconnect_requested then update_disconnect_timer dt s else s

abbrev pub set_initialized : Bool → Session → Session
set_initialized value s = record s { initialized = value }

-- The early returns leave a state that is as asked for already.
abbrev pub start_sync : Session → Session
start_sync s = record s { sync_state = syncing }

abbrev pub end_sync : Session → Session
end_sync s = record s { sync_state = synced }

unfoldable pub send_packet : Packet → Session → Session
send_packet p s = record s { connection = Connection.send_packet p s.connection }
