-- ===== src/Lobby.antt =====
-- source/states/server/LobbyState.{h,cpp}: the players of a lobby, the queue and the seats.
-- The list of pointers to profiles is the list of the profiles pointed to. Asserts are live, as in
-- the debug configurations of Durak.vcxproj.
pub mod Invariant
pub mod Rearranged
pub mod Moves
pub mod Relocated
pub mod Members
pub mod Swap
pub mod Tests
use durak.Base.{
  ℕ, ◌-◌, ◌+◌, ◌≡◌, Bool, true, false, not, ◌&&◌, ◌||◌, ltb, leb, ◌==◌, if◌then◌else◌, ite, List,
  [], ◌∷◌, ◌++◌, map, Option, none, some, is_some, ℤ, pos, negsuc, ℤ_discrete, ℕ_discrete, to_u32,
  is_negative, length, without, replace_first, count, zero, suc, Outcome, ok, fault, Fault,
  assertion, logic_error, ◌>>=◌, ◌>>◌, require, value_or_fault,
}
use durak.Seats.{
  Seats, no_seats, get_player_id_by_seat_position, get_seat_position_by_player_id, erase_player,
  assign_seat, swap_players,
}
use durak.Protocol.{
  Profile, RulesType, classic_rules, DisconnectReason, server_is_closed, server_is_full,
}

-- Constants::Lobby
abbrev pub max_players_in_lobby : ℕ
max_players_in_lobby = 8

abbrev pub max_players_per_game : ℕ
max_players_per_game = 4

abbrev pub min_players_per_game : ℕ
min_players_per_game = 2

abbrev pub queue_seat : ℤ
queue_seat = negsuc 0

pub record Lobby : Type 0 where
  pub seats : Seats
  pub is_lobby_open : Bool
  pub can_move_to_another_seat : Bool
  pub profiles : List Profile
  pub queue : List ℕ
  pub rules_type : RulesType
  pub players_per_game : ℕ
  pub host_id : Option ℕ

-- `init`.
unfoldable pub new_lobby : Lobby
new_lobby = record {
  seats = no_seats;
  is_lobby_open = true;
  can_move_to_another_seat = true;
  profiles = [];
  queue = [];
  rules_type = classic_rules;
  players_per_game = 2;
  host_id = none;
}

abbrev pub set_lobby_open : Bool → Lobby → Lobby
set_lobby_open value l = record l { is_lobby_open = value }

abbrev pub set_move_to_another_seat : Bool → Lobby → Lobby
set_move_to_another_seat value l = record l { can_move_to_another_seat = value }

abbrev pub set_rules_type : RulesType → Lobby → Lobby
set_rules_type rules l = record l { rules_type = rules }

abbrev pub set_host_id : ℕ → Lobby → Lobby
set_host_id i l = record l { host_id = some i }

abbrev pub ids : List Profile → List ℕ
ids [] = []
ids (p ∷ ps) = p.id ∷ ids ps

unfoldable pub find_profile : ℕ → List Profile → Option Profile
find_profile player [] = none
find_profile player (p ∷ ps) = ite (ℕ_discrete p.id player) (some p) (find_profile player ps)

unfoldable pub get_player_profile_by_id : Lobby → ℕ → Option Profile
unfolding find_profile
get_player_profile_by_id l player = find_profile player l.profiles

unfoldable pub has_player : Lobby → Profile → Bool
unfolding find_profile
has_player l p = is_some (find_profile p.id l.profiles)

unfoldable pub has_token : ℕ → List Profile → Bool
has_token token [] = false
has_token token (p ∷ ps) = p.token == token || has_token token ps

unfoldable pub is_queued : ℕ → List ℕ → Bool
is_queued player [] = false
is_queued player (x ∷ xs) = x == player || is_queued player xs

unfoldable pub get_seat_position_by_id : Lobby → ℕ → Option ℤ
unfolding is_queued
get_seat_position_by_id l player = elim (get_seat_position_by_player_id l.seats player) [
  | some seat ↦ some seat
  | none ↦ if is_queued player l.queue then some queue_seat else none
]

-- `seatPosition > playersPerGame` compares unsigned numbers, so it holds of any negative `int`.
unfoldable pub is_seat_position_correct : Lobby → ℤ → Bool
is_seat_position_correct l seat =
    ite (ℤ_discrete seat queue_seat) true
      (not (ltb l.players_per_game (to_u32 seat) && is_negative seat))

unfoldable pub is_seat_position_occupied : Lobby → ℤ → Outcome Bool
unfolding is_seat_position_correct
is_seat_position_occupied l seat = do
  require (is_seat_position_correct l seat) logic_error
  ok (
      ite (ℤ_discrete seat queue_seat) (leb max_players_in_lobby (length l.queue))
        (is_some (get_player_id_by_seat_position l.seats seat)))

-- Out of the queue or off the seat, and into the queue or onto the seat.
unfoldable pub leave_seat : ℕ → ℤ → Lobby → Lobby
leave_seat player seat l =
    ite (ℤ_discrete seat queue_seat) (record l { queue = without player l.queue })
      (record l { seats = erase_player player l.seats })

unfoldable pub take_seat : ℕ → ℤ → Lobby → Lobby
take_seat player seat l =
    ite (ℤ_discrete seat queue_seat) (record l { queue = l.queue ++ (player ∷ []) })
      (record l { seats = (assign_seat player seat l.seats).0 })

unfoldable pub change_player_seat_position : ℕ → ℤ → Lobby → Outcome Lobby
change_player_seat_position player seat l = do
  require (is_some (get_player_profile_by_id l player)) assertion
  occupied ← is_seat_position_occupied l seat
  require (not occupied) assertion
  current ← value_or_fault (get_seat_position_by_id l player) assertion
  ite (ℤ_discrete current seat) (fault assertion)
      (ok (take_seat player seat (leave_seat player current l)))

-- The three branches of `swapPlayersSeatPositions`, on the two positions.
unfoldable pub swap_from : ℕ → ℤ → ℕ → ℤ → Lobby → Outcome Lobby
swap_from first first_seat second second_seat l =
    ite (ℤ_discrete first_seat queue_seat)
      (ok (record l {
        queue = replace_first first second l.queue;
        seats = (assign_seat first second_seat l.seats).0;
      }))
      (ite (ℤ_discrete second_seat queue_seat)
        (ok (record l {
          queue = replace_first second first l.queue;
          seats = (assign_seat second second_seat l.seats).0;
        }))
        (swap_players first second l.seats >>= λ seats. ok (record l { seats = seats })))

unfoldable pub swap_players_seat_positions : ℕ → ℕ → Lobby → Outcome Lobby
swap_players_seat_positions first second l = do
  require (is_some (get_player_profile_by_id l first)) assertion
  require (is_some (get_player_profile_by_id l second)) assertion
  first_seat ← value_or_fault (get_seat_position_by_id l first) assertion
  second_seat ← value_or_fault (get_seat_position_by_id l second) assertion
  ite (ℤ_discrete first_seat second_seat) (fault assertion)
      (swap_from first first_seat second second_seat l)

-- The loop of asserts in `setPlayersPerGame`, over `n` seats from `i` on.
unfoldable pub seats_free : ℕ → ℕ → Seats → Bool
seats_free zero i s = true
seats_free (suc n) i s =
    not (is_some (get_player_id_by_seat_position s (pos i))) && seats_free n (i + 1) s

unfoldable pub set_players_per_game : ℕ → Lobby → Outcome Lobby
unfolding seats_free
set_players_per_game value l = do
  require (leb value max_players_per_game && leb min_players_per_game value) assertion
  require (seats_free (l.players_per_game - value) value l.seats) assertion
  ok (record l { players_per_game = value })

unfoldable pub add_player : Profile → ℤ → Lobby → Outcome Lobby
unfolding is_seat_position_correct take_seat
add_player p seat l = do
  require (is_seat_position_correct l seat) logic_error
  ok (take_seat p.id seat (record l { profiles = l.profiles ++ (p ∷ []) }))

unfoldable pub erase_profile : ℕ → List Profile → List Profile
erase_profile player [] = []
erase_profile player (p ∷ ps) =
    ite (ℕ_discrete p.id player) (erase_profile player ps) (p ∷ erase_profile player ps)

unfoldable pub delete_player : ℕ → Lobby → Lobby
unfolding erase_profile
delete_player player l = record l {
  seats = erase_player player l.seats;
  queue = without player l.queue;
  profiles = erase_profile player l.profiles;
}

-- `isNewPlayerCanJoin`, in LobbyState and in LobbyLogic.
unfoldable pub is_new_player_can_join : Lobby → Option DisconnectReason
is_new_player_can_join l =
    if leb max_players_in_lobby (length l.profiles)
    then some server_is_full
    else if not l.is_lobby_open
    then some server_is_closed
    else none
