-- ===== src/ClientModel/Snapshot.antt =====
-- The server's snapshot of its lobby, packet by packet, as a client takes it in.
use durak.Base.{
  ℕ, ◌+◌, ◌-◌, ◌^◌, ◌<◌, ◌≤◌, ◌≡◌, refl, true, List, [], ◌∷◌, ◌++◌, map, length, drop, drop-drop,
  drop-length, some, is_some, ℕ_discrete, lookup, lookup-insert, arith, ok, ap, sym, ◌∙◌, All, ◌||◌,
}
use mathlib.Core.List.{append-nil, append_assoc}
use durak.Protocol.{
  Profile, RulesType, SyncState, unsynced, synced, syncing, lobby_snapshot, classic_rules,
}
use durak.Seats.{no_seats, erase_player, get_seat_position_by_player_id}
use durak.Lobby.{Lobby, find_profile, seats_free}
use durak.Packet.{
  Packet, new_packet, write_uint, write_bool, write_string, to_bytes, role_code, rules_code,
}
use durak.Packet.Kinds.{packet_code}
use durak.Packet.RoundTrip.{read_uint-to_bytes, read_string-written, advance}
use durak.Packet.Factory.{
  make_snapshot_begin_packet, make_snapshot_lobby_settings_packet,
  make_snapshot_lobby_player_info_packet,
}
use durak.Connection.Frames.{arrived}
use durak.Server.Informing.{player_infos}
use durak.ClientPlayer.{new_client_player}
use durak.ClientLobby.{
  ClientLobby, new_client_lobby, set_players_per_game, add_client_player_data,
  get_client_player_data_by_id,
}
use durak.ClientModel.{ClientModel, ClientContext}
use durak.ClientModel.Building.{
  on_snapshot_begin_packet, on_snapshot_lobby_settings_packet, read_settings,
  on_snapshot_lobby_player_info_packet, read_player_info, note_host,
}
use durak.ClientModel.Dispatch.{
  process_packet, process_packets, dispatch_syncing, dispatch_synced, dispatch_unsynced,
  dispatch_common,
}
use durak.ClientModel.Reading.{read_bool-written, to_role-role_code, role_code-bounded}

-- A client in the middle of a snapshot, with the lobby built so far.
abbrev pub in_snapshot : ClientModel → ClientLobby → ClientModel
in_snapshot m c = record m { sync_state = syncing; temp_lobby = some c; initialized = true }

-- The first packet starts a new lobby, whatever the state.
begin_in :
    (state : SyncState) (m : ClientModel)
    → m.initialized ≡ true
    → m.sync_state ≡ state
    → process_packet (arrived (make_snapshot_begin_packet lobby_snapshot)) m
      ≡ on_snapshot_begin_packet (arrived (make_snapshot_begin_packet lobby_snapshot)) m
unfolding process_packet dispatch_syncing dispatch_synced dispatch_unsynced dispatch_common
    packet_code make_snapshot_begin_packet new_packet write_uint
begin_in syncing m h e = rw (h, e)
begin_in synced m h e = rw (h, e)
begin_in unsynced m h e = rw (h, e)

pub begin_taken :
    (m : ClientModel)
    → m.initialized ≡ true
    → process_packet (arrived (make_snapshot_begin_packet lobby_snapshot)) m
      ≡ ok (in_snapshot m new_client_lobby)
unfolding on_snapshot_begin_packet make_snapshot_begin_packet new_packet write_uint
begin_taken m h =
    let (type, _) =
      read_uint-to_bytes 1 1 (arrived (make_snapshot_begin_packet lobby_snapshot)) [] (omega arith)
        (sym (append-nil (to_bytes 1 1))) in
    begin_in m.sync_state m h refl ∙ (ground (arith, type, h))

-- The lobby with the settings of the server's.
abbrev pub with_settings : Lobby → ClientLobby
with_settings l = record new_client_lobby {
  is_lobby_open = l.is_lobby_open;
  can_move_to_another_seat = l.can_move_to_another_seat;
  players_per_game = l.players_per_game;
}

abbrev pub with_context : ClientContext → ClientModel → ClientModel
with_context x m = record m { local_context = x }

abbrev pub settings_packet : Profile → Lobby → Packet
settings_packet p l =
    make_snapshot_lobby_settings_packet p.id p.role l.is_lobby_open l.can_move_to_another_seat
      l.rules_type l.players_per_game

rules_code-bounded : (r : RulesType) → rules_code r < 256 ^ 1
rules_code-bounded classic_rules = omega arith

size_set :
    (l : Lobby)
    → 2 ≤ l.players_per_game
    → l.players_per_game ≤ 4
    → set_players_per_game l.players_per_game (record new_client_lobby {
      is_lobby_open = l.is_lobby_open;
      can_move_to_another_seat = l.can_move_to_another_seat;
    })
      ≡ ok (with_settings l)
unfolding set_players_per_game seats_free new_client_lobby
size_set l low high =
    let none_beyond : 2 - l.players_per_game ≡ 0 = omega (arith, low) in
    ground (arith, low, high, none_beyond)

pub settings_taken :
    (p : Profile) (l : Lobby) (m : ClientModel)
    → p.id < 2 ^ 32
    → 2 ≤ l.players_per_game
    → l.players_per_game ≤ 4
    → process_packet (arrived (settings_packet p l)) (in_snapshot m new_client_lobby)
      ≡ ok (
          in_snapshot
            (with_context (record { local_id = p.id; local_role = p.role }) m)
            (with_settings l))
unfolding process_packet dispatch_syncing on_snapshot_lobby_settings_packet read_settings
    packet_code make_snapshot_lobby_settings_packet new_packet write_uint write_bool to_bytes
    new_client_lobby
settings_taken p l m small low high =
    let q = arrived (settings_packet p l) in
    let (r1, d1) = read_uint-to_bytes 4 p.id q _ (omega (arith, small)) refl in
    let (r2, d2) =
      read_uint-to_bytes 1 (role_code p.role) (advance 4 q) _ (role_code-bounded p.role) d1 in
    let (r3, d3) = read_bool-written l.is_lobby_open (advance 1 (advance 4 q)) _ d2 in
    let (r4, d4) =
      read_bool-written l.can_move_to_another_seat (advance 1 (advance 1 (advance 4 q))) _ d3 in
    let (r5, d5) =
      read_uint-to_bytes 1 (rules_code l.rules_type)
        (advance 1 (advance 1 (advance 1 (advance 4 q)))) _ (rules_code-bounded l.rules_type) d4 in
    let (r6, _) =
      read_uint-to_bytes 4 l.players_per_game
        (advance 1 (advance 1 (advance 1 (advance 1 (advance 4 q))))) [] (omega (arith, high))
        (d5 ∙ sym (append-nil (to_bytes 4 l.players_per_game))) in
    rw (r1, r2, r3, r4, r5, r6, to_role-role_code p.role, size_set l low high)

-- The lobby with one more player.
abbrev with_player : Profile → ClientLobby → ClientLobby
with_player p c =
    note_host p.id p.role (add_client_player_data (new_client_player p.id p.nickname p.role) c)

player_info_taken :
    (p : Profile) (c : ClientLobby) (m : ClientModel)
    → p.id < 2 ^ 32
    → length p.nickname < 2 ^ 31
    → process_packet
        (arrived (make_snapshot_lobby_player_info_packet p.id p.nickname p.role))
        (in_snapshot m c)
      ≡ ok (in_snapshot m (with_player p c))
unfolding process_packet dispatch_syncing on_snapshot_lobby_player_info_packet read_player_info
    packet_code make_snapshot_lobby_player_info_packet new_packet write_uint write_string to_bytes
player_info_taken p c m small short =
    let q = arrived (make_snapshot_lobby_player_info_packet p.id p.nickname p.role) in
    let role = to_bytes 1 (role_code p.role) in
    let whole : q.payload
        ≡ to_bytes 4 p.id ++ (to_bytes 4 (length p.nickname) ++ (p.nickname ++ role)) =
      append_assoc (to_bytes 4 p.id ++ to_bytes 4 (length p.nickname)) p.nickname role in
    let (r1, d1) = read_uint-to_bytes 4 p.id q _ (omega (arith, small)) whole in
    let r2 = read_string-written p.nickname (advance 4 q) role short d1 in
    let (_, d2) =
      read_uint-to_bytes 4 (length p.nickname) (advance 4 q) (p.nickname ++ role)
        (omega (arith, short)) d1 in
    let behind : drop (0 + 4 + 4 + length p.nickname) q.payload ≡ role =
      sym (drop-drop (0 + 4 + 4) (length p.nickname) q.payload)
      ∙ ap (drop (length p.nickname)) d2
      ∙ drop-length (length p.nickname) p.nickname role refl in
    let (r3, _) =
      read_uint-to_bytes 1 (role_code p.role)
        (advance (length p.nickname) (advance 4 (advance 4 q))) [] (role_code-bounded p.role)
        (behind ∙ sym (append-nil role)) in
    rw (r1, r2, r3, to_role-role_code p.role)

-- What the packets about the players leave: a lobby without seats and queue that knows them.
pub record Informed (ps : List Profile) (c c' : ClientLobby) : Type 0 where
  pub no_seat : c'.seats ≡ no_seats
  pub same_queue : c'.queue ≡ c.queue
  pub same_size : c'.players_per_game ≡ c.players_per_game
  pub same_open : c'.is_lobby_open ≡ c.is_lobby_open
  pub members :
      (p : ℕ)
      → is_some (get_client_player_data_by_id c' p)
        ≡ (is_some (find_profile p ps) || is_some (get_client_player_data_by_id c p))

with_player-Informed :
    (p : Profile) (c : ClientLobby) → c.seats ≡ no_seats → Informed (p ∷ []) c (with_player p c)
unfolding add_client_player_data get_client_player_data_by_id find_profile erase_player
    get_seat_position_by_player_id lookup
with_player-Informed p c e = record {
  no_seat = ground (arith, e);
  same_queue = ground arith;
  same_size = ground arith;
  same_open = ground arith;
  members = λ q.
      ground (
        arith,
        lookup-insert ℕ_discrete p.id q (new_client_player p.id p.nickname p.role) c.players,
      );
}

abbrev pub IsSmallProfile : Profile → Type 0
IsSmallProfile p = (p.id < 2 ^ 32) × (length p.nickname < 2 ^ 31)

-- The packets about the players, one after another, before others.
pub player_infos_taken :
    (ps : List Profile) (rest : List Packet) (c : ClientLobby) (m : ClientModel)
    → All IsSmallProfile ps
    → c.seats ≡ no_seats
    → (c' : ClientLobby) × (process_packets
          (map arrived (player_infos ps) ++ rest)
          (in_snapshot m c)
        ≡ process_packets rest (in_snapshot m c'))
      × Informed ps c c'
unfolding process_packets player_infos find_profile
player_infos_taken [] rest c m small e = (
  c,
  refl,
  record {
    no_seat = e;
    same_queue = refl;
    same_size = refl;
    same_open = refl;
    members = λ p. refl;
  },
)
player_infos_taken (p ∷ ps) rest c m small e =
    let one = with_player-Informed p c e in
    let (c', r, i) = player_infos_taken ps rest (with_player p c) m small.1 one.no_seat in
    (
      c',
      rw (player_info_taken p c m small.0.0 small.0.1) r,
      record {
        no_seat = i.no_seat;
        same_queue = i.same_queue ∙ one.same_queue;
        same_size = i.same_size ∙ one.same_size;
        same_open = i.same_open ∙ one.same_open;
        members = λ q. ground (arith, i.members q, one.members q);
      },
    )
