-- ===== src/ClientLobby.antt =====
-- source/states/client/ClientLobbyState.{h,cpp}: the lobby as a client knows it.
-- The `unordered_map` of players is an association list, read by `lookup`. Asserts are live.
pub mod Mirror
use durak.Base.{
  ℕ, zero, suc, ◌-◌, ◌+◌, ◌≡◌, Bool, true, false, not, ◌&&◌, ◌||◌, ltb, leb, ◌==◌, if◌then◌else◌,
  ite, List, [], ◌∷◌, ◌++◌, Option, none, some, is_some, is_empty, ℤ, pos, negsuc, ℤ_discrete,
  ℕ_discrete, to_u32, is_negative, without, replace_first, count, lookup, insert, erase, Outcome,
  ok, fault, assertion, logic_error, ◌>>=◌, ◌>>◌, require, value_or_fault,
}
use durak.Seats.{
  Seats, no_seats, get_player_id_by_seat_position, get_seat_position_by_player_id, erase_player,
  assign_seat, swap_players,
}
use durak.Protocol.{RulesType, classic_rules}
use durak.ClientPlayer.{ClientPlayer}
use durak.Lobby.{queue_seat, max_players_per_game, min_players_per_game, seats_free}

pub record ClientLobby : Type 0 where
  pub players : List (ℕ × ClientPlayer)
  pub queue : List ℕ
  pub seats : Seats
  pub host_id : Option ℕ
  pub rules_type : RulesType
  pub players_per_game : ℕ
  pub is_lobby_open : Bool
  pub can_move_to_another_seat : Bool

-- `init`.
unfoldable pub new_client_lobby : ClientLobby
new_client_lobby = record {
  players = [];
  queue = [];
  seats = no_seats;
  host_id = none;
  rules_type = classic_rules;
  players_per_game = min_players_per_game;
  is_lobby_open = true;
  can_move_to_another_seat = true;
}

abbrev pub set_host_id : ℕ → ClientLobby → ClientLobby
set_host_id i c = record c { host_id = some i }

abbrev pub get_host_id : ClientLobby → Outcome ℕ
get_host_id c = value_or_fault c.host_id assertion

abbrev pub set_lobby_open : Bool → ClientLobby → ClientLobby
set_lobby_open value c = record c { is_lobby_open = value }

abbrev pub set_move_to_another_seat : Bool → ClientLobby → ClientLobby
set_move_to_another_seat value c = record c { can_move_to_another_seat = value }

abbrev pub set_rules_type : RulesType → ClientLobby → ClientLobby
set_rules_type rules c = record c { rules_type = rules }

-- `seatPosition < m_playersPerGame` compares unsigned numbers.
unfoldable pub is_valid_seat_position : ClientLobby → ℤ → Bool
is_valid_seat_position c seat =
    ite (ℤ_discrete seat queue_seat) true
      (ltb (to_u32 seat) c.players_per_game && not (is_negative seat))

-- The queue without the player, and whether the player was in it.
unfoldable pub remove_from_queue : ℕ → ClientLobby → ClientLobby × Bool
remove_from_queue player c =
    (record c { queue = without player c.queue }, ltb 0 (count player c.queue))

-- A null pointer is `none`.
unfoldable pub get_client_player_data_by_id : ClientLobby → ℕ → Option ClientPlayer
get_client_player_data_by_id c player = lookup ℕ_discrete player c.players

unfoldable pub get_player_id_by_seat_index : ClientLobby → ℤ → Option ℕ
get_player_id_by_seat_index c seat =
    ite (ℤ_discrete seat queue_seat) none
      (if is_valid_seat_position c seat then get_player_id_by_seat_position c.seats seat else none)

-- The ids of an `unordered_map` of seats, in some order.
abbrev pub seated_ids : List (ℤ × ℕ) → List ℕ
seated_ids [] = []
seated_ids ((seat, player) ∷ m) = player ∷ seated_ids m

abbrev pub get_all_players_ids_in_seat_positions : ClientLobby → List ℕ
get_all_players_ids_in_seat_positions c = seated_ids c.seats.player_id_by_seat_position

-- The loop over the queue, from index `i` on.
unfoldable pub index_from : ℕ → ℕ → List ℕ → Option ℕ
index_from player i [] = none
index_from player i (q ∷ queue) = if q == player then some i else index_from player (suc i) queue

unfoldable pub get_player_index_in_queue_by_id : ClientLobby → ℕ → Option ℕ
unfolding index_from
get_player_index_in_queue_by_id c player = index_from player 0 c.queue

-- Into the queue or onto the seat.
unfoldable pub take_seat : ℕ → ℤ → ClientLobby → ClientLobby
take_seat player seat c =
    ite (ℤ_discrete seat queue_seat) (record c { queue = c.queue ++ (player ∷ []) })
      (record c { seats = (assign_seat player seat c.seats).0 })

-- Out of the queue or off the seat.
unfoldable pub leave_seat : ℕ → ℤ → ClientLobby → ClientLobby
leave_seat player seat c =
    ite (ℤ_discrete seat queue_seat) (remove_from_queue player c).0
      (record c { seats = erase_player player c.seats })

unfoldable pub assign_player_to_seat_position : ℤ → ℕ → ClientLobby → Outcome ClientLobby
assign_player_to_seat_position seat player c = do
  require (is_some (get_client_player_data_by_id c player)) assertion
  require (is_valid_seat_position c seat) assertion
  ok (take_seat player seat c)

unfoldable pub get_player_seat_index : ClientLobby → ℕ → Option ℤ
get_player_seat_index c player =
    if not (is_some (get_client_player_data_by_id c player))
    then none
    else elim (get_seat_position_by_player_id c.seats player) [
      | some seat ↦ some seat
      | none ↦ if ltb 0 (count player c.queue) then some queue_seat else none
    ]

-- `addClientPlayerData` without a seat: a seat the player had is given up.
unfoldable pub add_client_player_data : ClientPlayer → ClientLobby → ClientLobby
add_client_player_data p c = record c {
  seats = erase_player p.id c.seats;
  players = insert ℕ_discrete p.id p c.players;
}

unfoldable pub add_client_player_data_at : ClientPlayer → ℤ → ClientLobby → Outcome ClientLobby
add_client_player_data_at p seat c = do
  require (is_valid_seat_position c seat) assertion
  ok (take_seat p.id seat (record c { players = insert ℕ_discrete p.id p c.players }))

-- The two assignments to `removed`, and the erasure from the seats of who was in no queue.
unfoldable pub delete_client_player_data : ℕ → ClientLobby → ClientLobby
delete_client_player_data player c =
    let (c', removed) = remove_from_queue player c in
    record c' {
      seats = if removed then c.seats else erase_player player c.seats;
      players = erase ℕ_discrete player c.players;
    }

-- The queue counts as occupied as soon as one player stands in it.
unfoldable pub is_seat_occupied : ClientLobby → ℤ → Outcome Bool
is_seat_occupied c seat = do
  require (is_valid_seat_position c seat) logic_error
  ok (
      ite (ℤ_discrete seat queue_seat) (not (is_empty c.queue))
        (is_some (get_player_id_by_seat_position c.seats seat)))

unfoldable pub move_player_to_seat_position : ℕ → ℤ → ClientLobby → Outcome ClientLobby
move_player_to_seat_position player seat c = do
  require (is_valid_seat_position c seat) assertion
  current ← value_or_fault (get_player_seat_index c player) assertion
  require (not (is_some (get_player_id_by_seat_position c.seats seat))) assertion
  ite (ℤ_discrete current seat) (fault assertion)
      (ok (take_seat player seat (leave_seat player current c)))

-- The three branches of `swapPlayersSeatPositions`; in the second the first player is seated again
-- where it sits.
unfoldable pub swap_from : ℕ → ℤ → ℕ → ℤ → ClientLobby → Outcome ClientLobby
swap_from first first_seat second second_seat c =
    ite (ℤ_discrete first_seat queue_seat)
      (ok (record c {
        queue = replace_first first second c.queue;
        seats = (assign_seat first second_seat c.seats).0;
      }))
      (ite (ℤ_discrete second_seat queue_seat)
        (ok (record c {
          queue = replace_first second first c.queue;
          seats = (assign_seat first first_seat c.seats).0;
        }))
        (swap_players first second c.seats >>= λ seats. ok (record c { seats = seats })))

unfoldable pub swap_players_seat_positions : ℕ → ℕ → ClientLobby → Outcome ClientLobby
swap_players_seat_positions first second c = do
  require (not (first == second)) assertion
  require (is_some (get_client_player_data_by_id c first)) assertion
  require (is_some (get_client_player_data_by_id c second)) assertion
  first_seat ← value_or_fault (get_player_seat_index c first) assertion
  second_seat ← value_or_fault (get_player_seat_index c second) assertion
  ite (ℤ_discrete first_seat second_seat) (fault assertion)
      (swap_from first first_seat second second_seat c)

unfoldable pub set_players_per_game : ℕ → ClientLobby → Outcome ClientLobby
set_players_per_game value c = do
  require (leb min_players_per_game value && leb value max_players_per_game) assertion
  require (seats_free (c.players_per_game - value) value c.seats) assertion
  ok (record c { players_per_game = value })
