-- ===== src/ClientModel/Applied.antt =====
-- The end of a snapshot: seats, queue, and the new lobby in place of the old.
use durak.Base.{
  ℕ, ◌^◌, ◌<◌, ◌≤◌, ◌≡◌, ◌≢◌, refl, true, List, [], ◌∷◌, ◌++◌, map, length, some, is_some, ℤ, pos,
  lookup, count, arith, ok, ap, sym, ◌∙◌, subst, All,
}
use durak.Protocol.{Profile, lobby_snapshot}
use durak.Seats.{Seats, no_seats, get_seat_position_by_player_id, get_player_id_by_seat_position}
use durak.Seats.Views.{at, seat_of}
use durak.Lobby.{Lobby, find_profile, queue_seat}
use durak.Lobby.Invariant.{IsWellFormed, find_profile-count}
use durak.Packet.{Packet}
use durak.Packet.Factory.{
  make_snapshot_end_packet, make_snapshot_lobby_seat_positions_packet,
  make_snapshot_lobby_queue_positions_packet,
}
use durak.Connection.Frames.{arrived}
use durak.Server.Informing.{player_infos, lobby_snapshot_packets}
use durak.ClientLobby.{
  ClientLobby, new_client_lobby, get_client_player_data_by_id, is_valid_seat_position,
}
use durak.ClientLobby.Mirror.{Mirrors}
use durak.ClientModel.{ClientModel}
use durak.ClientModel.Dispatch.{process_packet, process_packets}
use durak.ClientModel.Reading.{IsEntry, IsId}
use durak.ClientModel.Placing.{
  All-map, IsPlaced, IsWithin, Assigned, assign_each-Assigned, Assigned-seats, enqueue_all-queue,
}
use durak.ClientModel.Snapshot.{
  in_snapshot, begin_taken, with_settings, with_context, settings_taken, Informed, IsSmallProfile,
  player_infos_taken,
}
use durak.ClientModel.Taken.{seats_taken, queue_taken, settled, end_taken}

-- A lobby whose numbers fit in their bytes, and where everybody sits on a seat of the game. The map of
-- seats has a key once, as an `unordered_map` does.
pub record IsSendable (p : Profile) (l : Lobby) : Type 0 where
  pub own_id : p.id < 2 ^ 32
  pub small_profiles : All IsSmallProfile l.profiles
  pub small_entries : All IsEntry l.seats.player_id_by_seat_position
  pub keys_once : All (λ (e : ℤ × ℕ). at l.seats e.0 ≡ some e.1) l.seats.player_id_by_seat_position
  pub few_seats : length l.seats.player_id_by_seat_position < 256
  pub small_queue : All IsId l.queue
  pub few_queued : length l.queue < 256
  pub in_game :
      (player : ℕ) (k : ℤ)
      → seat_of l.seats player ≡ some k
      → (i : ℕ) × (k ≡ pos i) × (i < l.players_per_game)

-- Who stands in the queue or on a seat is one of the players.
All-counted : (P : ℕ → Type 0) (xs : List ℕ) → ((i : ℕ) → 0 < count i xs → P i) → All P xs
All-counted P [] h = tt
All-counted P (x ∷ xs) h = (h x (ground arith), All-counted P xs (λ i lt. h i (ground (arith, lt))))

known_queue :
    (l : Lobby) (i : ℕ)
    → IsWellFormed l
    → 0 < count i l.queue
    → is_some (find_profile i l.profiles) ≡ true
known_queue l i w lt = ground (arith, w.placed i, find_profile-count i l.profiles, lt)

known_seat :
    (l : Lobby) (p : ℕ) (k : ℤ)
    → IsWellFormed l
    → seat_of l.seats p ≡ some k
    → is_some (find_profile p l.profiles) ≡ true
known_seat l p k w e = ground (arith, w.placed p, find_profile-count p l.profiles, e)

valid_in_game :
    (c : ClientLobby) (k : ℤ) (i : ℕ)
    → c.players_per_game ≤ 4
    → k ≡ pos i
    → i < c.players_per_game
    → (is_valid_seat_position c k ≡ true) × (k ≢ queue_seat)
unfolding is_valid_seat_position
valid_in_game c k i small e lt = (ground (arith, e, lt, small), ground (arith, e))

no_seats-IsWithin : (s : Seats) → IsWithin s no_seats
unfolding get_seat_position_by_player_id get_player_id_by_seat_position lookup
no_seats-IsWithin s = record {
  consistent = record { seat_to_player = λ k p h. cc; player_to_seat = λ k p h. cc };
  sub = λ p k h. cc;
}

All-IsPlaced :
    (p : Profile) (l : Lobby) (c : ClientLobby)
    → IsWellFormed l
    → IsSendable p l
    → Informed l.profiles (with_settings l) c
    → All (IsPlaced l.seats c) l.seats.player_id_by_seat_position
All-IsPlaced p l c w s i =
    All-map l.seats.player_id_by_seat_position
      (λ e there.
        let seated = w.consistent.seat_to_player e.0 e.1 there in
        let (n, at_n, lt) = s.in_game e.1 e.0 seated in
        let (valid, other) =
          valid_in_game c e.0 n (omega (arith, i.same_size, w.roster.at_most)) at_n
            (omega (arith, lt, i.same_size)) in
        record {
          seated = seated;
          known = ground (arith, i.members e.1, known_seat l e.1 e.0 w seated);
          valid = valid;
          no_queue = other;
        })
      s.keys_once

queue_known :
    (l : Lobby) (c : ClientLobby) (t : Seats)
    → IsWellFormed l
    → Informed l.profiles (with_settings l) c
    → All
        (λ (j : ℕ). is_some (get_client_player_data_by_id (record c { seats = t }) j) ≡ true)
        l.queue
unfolding get_client_player_data_by_id
queue_known l c t w i =
    All-counted (λ j. is_some (get_client_player_data_by_id (record c { seats = t }) j) ≡ true)
      l.queue (λ j lt. ground (arith, i.members j, known_queue l j w lt))

settings_no_seats : (l : Lobby) → (with_settings l).seats ≡ no_seats
unfolding new_client_lobby
settings_no_seats l = refl

-- What the client's lobby is built of shows the server's lobby.
built-Mirrors :
    (l : Lobby) (c : ClientLobby) (r : Assigned l.seats l.seats.player_id_by_seat_position c)
    → IsWellFormed l
    → Informed l.profiles (with_settings l) c
    → Mirrors l (record c { seats = r.seats; queue = c.queue ++ l.queue })
unfolding new_client_lobby get_client_player_data_by_id lookup
built-Mirrors l c r w i = record {
  consistent = r.within.consistent;
  same_seats = λ q. Assigned-seats l.seats c q w.consistent r;
  same_queue = ap (λ xs. xs ++ l.queue) i.same_queue;
  same_members = λ q. ground (arith, i.members q);
  same_size = i.same_size;
  same_open = i.same_open;
}

steps_taken :
    (p q : Packet) (ps : List Packet) (m m' m'' : ClientModel)
    → process_packet p m ≡ ok m'
    → process_packet q m' ≡ ok m''
    → process_packets (p ∷ q ∷ ps) m ≡ process_packets ps m''
unfolding process_packets
steps_taken p q ps m m' m'' e f = rw (e, f)

last_taken :
    (p q r : Packet) (m m' m'' m''' : ClientModel)
    → process_packet p m ≡ ok m'
    → process_packet q m' ≡ ok m''
    → process_packet r m'' ≡ ok m'''
    → process_packets (p ∷ q ∷ r ∷ []) m ≡ ok m'''
unfolding process_packets
last_taken p q r m m' m'' m''' e f g = rw (e, f, g)

map-append : (xs ys : List Packet) → map arrived (xs ++ ys) ≡ map arrived xs ++ map arrived ys
map-append [] ys = refl
map-append (x ∷ xs) ys = ap (◌∷◌ (arrived x)) (map-append xs ys)

-- The packets of a snapshot that the server makes of a well-formed lobby, whose numbers fit in
-- their bytes and where everybody that sits has a seat of the game, are taken in by a client that
-- is past its welcome, in any state, without an exception or a failed assert. Then the client is
-- synced, shows a lobby that mirrors the server's, has published that and acknowledged the
-- snapshot, and knows its own id and role.
pub snapshot-Mirrors :
    (p : Profile) (l : Lobby) (m : ClientModel)
    → IsWellFormed l
    → IsSendable p l
    → m.initialized ≡ true
    → (c : ClientLobby) × (process_packets (map arrived (lobby_snapshot_packets p l)) m
        ≡ ok (settled (with_context (record { local_id = p.id; local_role = p.role }) m) c))
      × Mirrors l c
unfolding lobby_snapshot_packets
snapshot-Mirrors p l m w s h =
    let m' = with_context (record { local_id = p.id; local_role = p.role }) m in
    let tail : List Packet =
      make_snapshot_lobby_seat_positions_packet l.seats.player_id_by_seat_position
      ∷ make_snapshot_lobby_queue_positions_packet l.queue
      ∷ make_snapshot_end_packet lobby_snapshot
      ∷ [] in
    let (c, informed, i) =
      player_infos_taken l.profiles (map arrived tail) (with_settings l) m' s.small_profiles
        (settings_no_seats l) in
    let within : IsWithin l.seats c.seats =
      subst (IsWithin l.seats) (sym i.no_seat) (no_seats-IsWithin l.seats) in
    let r =
      assign_each-Assigned l.seats l.seats.player_id_by_seat_position c w.consistent within
        (All-IsPlaced p l c w s i) in
    let d : ClientLobby = record c { seats = r.seats } in
    let queued = enqueue_all-queue l.queue d (queue_known l c r.seats w i) in
    let e : ClientLobby = record d { queue = d.queue ++ l.queue } in
    (
      e,
      steps_taken _ _ _ m (in_snapshot m new_client_lobby) (in_snapshot m' (with_settings l))
            (begin_taken m h) (settings_taken p l m s.own_id w.roster.at_least w.roster.at_most)
          ∙ ap (λ ps. process_packets ps (in_snapshot m' (with_settings l)))
              (map-append (player_infos l.profiles) tail)
          ∙ informed
          ∙ last_taken _ _ _ (in_snapshot m' c) (in_snapshot m' d) (in_snapshot m' e) (settled m' e)
              (seats_taken l.seats.player_id_by_seat_position c d m' s.small_entries s.few_seats
                r.made)
              (queue_taken l.queue d e m' s.small_queue s.few_queued queued) (end_taken e m'),
      built-Mirrors l c r w i,
    )
