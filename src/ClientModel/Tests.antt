-- ===== src/ClientModel/Tests.antt =====
-- Bob's client, and the snapshot of a lobby where Ann sits and Bob waits.
use durak.Base.{
  ◌≡◌, refl, true, [], ◌∷◌, map, some, none, arith, ok, lookup, ℕ_discrete, ℤ_discrete,
}
use durak.Protocol.{regular, lobby_phase, unsynced}
use durak.Seats.{get_player_id_by_seat_position, get_seat_position_by_player_id}
use durak.Lobby.Tests.{bob, bob_waits, bob_waits-IsWellFormed}
use durak.Packet.{Packet}
use durak.Connection.{new_connection, ready}
use durak.Connection.Frames.{arrived}
use durak.Server.Informing.{lobby_snapshot_packets}
use durak.ClientLobby.{ClientLobby, new_client_lobby}
use durak.ClientLobby.Mirror.{Mirrors}
use durak.ClientModel.{ClientModel}
use durak.ClientModel.Dispatch.{process_packets}
use durak.ClientModel.Snapshot.{with_context}
use durak.ClientModel.Applied.{IsSendable, snapshot-Mirrors}
use durak.ClientModel.Taken.{settled}

abbrev bob_client : ClientModel
bob_client = record {
  sync_state = unsynced;
  client = new_connection ready;
  published = [];
  phase = lobby_phase;
  initialized = true;
  token = 12;
  local_nickname = 66 ∷ [];
  local_context = record { local_id = 1; local_role = regular };
  first_lobby = new_client_lobby;
  lobby = some new_client_lobby;
  temp_lobby = none;
  states_to_delete = [];
}

bob_waits-IsSendable : IsSendable bob bob_waits
unfolding get_player_id_by_seat_position get_seat_position_by_player_id lookup ℕ_discrete ℤ_discrete
bob_waits-IsSendable = record {
  own_id = omega arith;
  small_profiles = ((omega arith, omega arith), ((omega arith, omega arith), tt));
  small_entries = ((omega arith, omega arith), tt);
  keys_once = (refl, tt);
  few_seats = omega arith;
  small_queue = (omega arith, tt);
  few_queued = omega arith;
  in_game = λ player k h. (0, ground (arith, h), omega arith);
}

snapshot-Mirrors_example :
    (c : ClientLobby) × (process_packets
        (map arrived (lobby_snapshot_packets bob bob_waits))
        bob_client
      ≡ ok (settled (with_context (record { local_id = 1; local_role = regular }) bob_client) c))
    × Mirrors bob_waits c
snapshot-Mirrors_example =
    snapshot-Mirrors bob bob_waits bob_client bob_waits-IsWellFormed bob_waits-IsSendable refl

abbrev notice : Packet
notice = record { kind = 8; payload = []; read_position = 0 }
