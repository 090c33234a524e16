-- ===== src/Server/Informing.antt =====
-- Server.cpp: `sendFullSnapshotUpdate`, the packets of a snapshot and when they are sent.
use durak.Base.{
  ℕ, Bool, true, false, if◌then◌else◌, List, [], ◌∷◌, ◌++◌, is_some, Outcome, ok, null_pointer,
  assertion, ◌>>=◌, require, value_or_fault,
}
use durak.Protocol.{
  Profile, no_phase, lobby_phase, game_phase, lobby_snapshot, game_snapshot, syncing, SyncState,
  unsynced, synced,
}
use durak.Lobby.{Lobby}
use durak.Packet.{Packet}
use durak.Packet.Factory.{
  make_snapshot_begin_packet, make_snapshot_end_packet, make_snapshot_lobby_settings_packet,
  make_snapshot_lobby_player_info_packet, make_snapshot_lobby_seat_positions_packet,
  make_snapshot_lobby_queue_positions_packet,
}
use durak.Session.{Session, start_sync}
use durak.Server.{Server, get_player_profile_by_id, send_each, put_client, get_client}

-- The loop over the profiles in the lobby.
unfoldable pub player_infos : List Profile → List Packet
player_infos [] = []
player_infos (p ∷ ps) =
    make_snapshot_lobby_player_info_packet p.id p.nickname p.role ∷ player_infos ps

-- The packets of a snapshot of the lobby, for the player with a profile.
unfoldable pub lobby_snapshot_packets : Profile → Lobby → List Packet
unfolding player_infos
lobby_snapshot_packets p l =
    make_snapshot_begin_packet lobby_snapshot
    ∷ make_snapshot_lobby_settings_packet p.id p.role l.is_lobby_open l.can_move_to_another_seat
        l.rules_type l.players_per_game
    ∷ (player_infos l.profiles
        ++ (make_snapshot_lobby_seat_positions_packet l.seats.player_id_by_seat_position
            ∷ make_snapshot_lobby_queue_positions_packet l.queue
            ∷ make_snapshot_end_packet lobby_snapshot
            ∷ []))

unfoldable pub game_snapshot_packets : List Packet
game_snapshot_packets =
    make_snapshot_begin_packet game_snapshot ∷ make_snapshot_end_packet game_snapshot ∷ []

abbrev pub is_syncing : SyncState → Bool
is_syncing syncing = true
is_syncing unsynced = false
is_syncing synced = false

-- The session after `sendFullSnapshotUpdate`.
unfoldable pub snapshot_to : Server → Session → Outcome Session
unfolding lobby_snapshot_packets send_each game_snapshot_packets
snapshot_to s client = value_or_fault client.player_profile assertion >>= λ player.
    value_or_fault (get_player_profile_by_id player s) null_pointer >>= λ profile.
    if is_syncing client.sync_state then ok client else elim s.phase [
      | lobby_phase ↦ ok (send_each (lobby_snapshot_packets profile s.lobby) (start_sync client))
      | game_phase ↦ require (is_some s.game) assertion >>= λ _.
          ok (send_each game_snapshot_packets (start_sync client))
      | no_phase ↦ ok (start_sync client)
    ]

unfoldable pub send_full_snapshot_update : ℕ → Server → Outcome Server
unfolding snapshot_to
send_full_snapshot_update i s = do
  client ← get_client i s
  client' ← snapshot_to s client
  ok (put_client i client' s)
