-- ===== src/ClientLobbyLogic.antt =====
-- source/game/ClientLobbyLogic.{h,cpp}: what a client does with the server's notifications about
-- the lobby, and with the user's wishes before they are sent.
pub mod Resized
pub mod Follow
pub mod Swapped
pub mod Newcomers
pub mod Steps
pub mod Own
pub mod Tests
use durak.Base.{
  ℕ, zero, suc, ◌-◌, ◌+◌, Bool, true, false, not, ◌&&◌, ◌||◌, ◌==◌, if◌then◌else◌, ite, List, [],
  ◌∷◌, Option, none, some, is_some, ℤ, pos, ℤ_discrete, ℕ_discrete, insert, Outcome, ok,
  logic_error, ◌>>=◌, value_or_fault,
}
use durak.Protocol.{ClientRole}
use durak.ClientPlayer.{ClientPlayer, new_client_player, set_nickname}
use durak.LobbyLogic.{is_host_role}
use durak.Lobby.{queue_seat}
use durak.ClientLobby.{
  ClientLobby, get_client_player_data_by_id, get_player_id_by_seat_index, get_player_seat_index,
  is_seat_occupied, add_client_player_data_at, delete_client_player_data,
  move_player_to_seat_position, swap_players_seat_positions, set_players_per_game, set_lobby_open,
}

pub record SeatChange : Type 0 where
  pub player_id : ℕ
  pub to_seat_index : ℤ

-- `requireState`: the state of the logic is a pointer that may be null.
abbrev pub require_state : Option ClientLobby → Outcome ClientLobby
require_state c = value_or_fault c logic_error

unfoldable pub apply_player_connected :
    ℕ → List ℕ → ClientRole → ℤ → ClientLobby → Outcome (Bool × ClientLobby)
apply_player_connected player name part seat c =
    if is_some (get_client_player_data_by_id c player)
    then ok (false, c)
    else (is_seat_occupied c seat >>= λ occupied.
        if occupied
        then ok (false, c)
        else (add_client_player_data_at (new_client_player player name part) seat c >>= λ c'.
            ok (true, c')))

unfoldable pub apply_player_disconnected : ℕ → ClientLobby → ClientLobby
apply_player_disconnected = delete_client_player_data

-- The pointer into the map is written through.
unfoldable pub apply_player_nickname_changed : ℕ → List ℕ → ClientLobby → Bool × ClientLobby
apply_player_nickname_changed player name c = elim (get_client_player_data_by_id c player) [
  | none ↦ (false, c)
  | some p ↦ (true, record c { players = insert ℕ_discrete player (set_nickname name p) c.players })
]

unfoldable pub apply_seat_positions_changed : ℕ → ℤ → ClientLobby → Outcome (Bool × ClientLobby)
apply_seat_positions_changed player seat c =
    if not (is_some (get_client_player_data_by_id c player))
    then ok (false, c)
    else if is_some (get_player_id_by_seat_index c seat)
    then ok (false, c)
    else (move_player_to_seat_position player seat c >>= λ c'. ok (true, c'))

unfoldable pub apply_seat_positions_swapped : ℕ → ℕ → ClientLobby → Outcome (Bool × ClientLobby)
apply_seat_positions_swapped first second c =
    if not (is_some (get_client_player_data_by_id c first))
      || not (is_some (get_client_player_data_by_id c second))
    then ok (false, c)
    else if not (is_some (get_player_seat_index c first))
        || not (is_some (get_player_seat_index c second))
    then ok (false, c)
    else (swap_players_seat_positions first second c >>= λ c'. ok (true, c'))

-- The test on the new place, which the queue passes at once.
abbrev pub is_taken : ClientLobby → ℤ → Bool
is_taken c seat =
    ite (ℤ_discrete seat queue_seat) false (is_some (get_player_id_by_seat_index c seat))

-- The tests that follow the one on the initiator. A player that the map lacks has no seat index, which
-- takes in the test on the pointer.
unfoldable pub change_seat_for :
    ℕ → ℤ → ℕ → ClientPlayer → ClientLobby → Outcome (Option SeatChange × ClientLobby)
change_seat_for player seat initiator asker c =
    if not (initiator == player) && not (is_host_role asker.role)
    then ok (none, c)
    else if not c.can_move_to_another_seat && not (is_host_role asker.role)
    then ok (none, c)
    else elim (get_player_seat_index c player) [
      | none ↦ ok (none, c)
      | some current ↦ ite (ℤ_discrete current seat) (ok (none, c)) (
          if is_taken c seat
          then ok (none, c)
          else (move_player_to_seat_position player seat c >>= λ c'.
              ok (some (record { player_id = player; to_seat_index = seat }), c')))
    ]

unfoldable pub apply_seat_positions_change_request :
    ℕ → ℤ → ℕ → ClientLobby → Outcome (Option SeatChange × ClientLobby)
apply_seat_positions_change_request player seat initiator c =
    elim (get_client_player_data_by_id c initiator) [
      | none ↦ ok (none, c)
      | some asker ↦ change_seat_for player seat initiator asker c
    ]

-- The test on the two places, and the swap.
unfoldable pub swap_located :
    ℕ → ℕ → Option ℤ → Option ℤ → ClientLobby → Outcome (List SeatChange × ClientLobby)
swap_located first second none second_seat c = ok ([], c)
swap_located first second (some first_seat) none c = ok ([], c)
swap_located first second (some first_seat) (some second_seat) c =
    ite (ℤ_discrete first_seat second_seat) (ok ([], c)) (
      swap_players_seat_positions first second c >>= λ c'. ok (
        record { player_id = first; to_seat_index = second_seat }
            ∷ record { player_id = second; to_seat_index = first_seat }
            ∷ [],
        c',
      ))

-- A player other than the initiator is looked up.
abbrev pub known : ClientLobby → ℕ → ℕ → Bool
known c player initiator = player == initiator || is_some (get_client_player_data_by_id c player)

unfoldable pub apply_seat_positions_swap_request :
    ℕ → ℕ → ℕ → ClientLobby → Outcome (List SeatChange × ClientLobby)
apply_seat_positions_swap_request first second initiator c =
    elim (get_client_player_data_by_id c initiator) [
      | none ↦ ok ([], c)
      | some asker ↦
          if not (is_host_role asker.role)
          then ok ([], c)
          else if not (known c first initiator) || not (known c second initiator)
          then ok ([], c)
          else swap_located first second (get_player_seat_index c first)
              (get_player_seat_index c second) c
    ]

-- The loop over `n` seats from `i` on, which sends who sits there to the queue, and the changes.
unfoldable pub vacate : ℕ → ℕ → ClientLobby → Outcome (List SeatChange × ClientLobby)
vacate zero i c = ok ([], c)
vacate (suc n) i c = elim (get_player_id_by_seat_index c (pos i)) [
  | none ↦ vacate n (i + 1) c
  | some player ↦ move_player_to_seat_position player queue_seat c >>= λ c'.
      vacate n (i + 1) c' >>= λ r.
      ok (record { player_id = player; to_seat_index = queue_seat } ∷ r.0, r.1)
]

unfoldable pub apply_players_per_game_change :
    ℕ → ClientLobby → Outcome (List SeatChange × ClientLobby)
apply_players_per_game_change value c = do
  r ← vacate (c.players_per_game - value) value c
  c' ← set_players_per_game value r.1
  ok (r.0, c')

abbrev pub same_bool : Bool → Bool → Bool
same_bool true b = b
same_bool false b = not b

unfoldable pub apply_lobby_open_state : Bool → ClientLobby → Bool × ClientLobby
apply_lobby_open_state value c =
    if same_bool value c.is_lobby_open then (false, c) else (true, set_lobby_open value c)
