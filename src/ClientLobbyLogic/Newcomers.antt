-- ===== src/ClientLobbyLogic/Newcomers.antt =====
-- `applyPlayerConnected`: whom a client lets into its lobby.
use durak.Base.{
  ℕ, ◌≡◌, ◌≢◌, true, false, List, [], ◌∷◌, none, is_some, ℤ, ℤ_discrete, ℕ_discrete, insert, arith,
  ok, fault, assertion, insert, pos, ◌<◌, ◌≤◌, ◌^◌,
}
use durak.Protocol.{ClientRole}
use durak.Seats.Views.{at}
use durak.Lobby.{queue_seat}
use durak.ClientPlayer.{new_client_player}
use durak.ClientLobby.{
  ClientLobby, get_client_player_data_by_id, is_valid_seat_position, is_seat_occupied, take_seat,
  add_client_player_data_at, get_player_id_by_seat_index, move_player_to_seat_position,
}
use durak.ClientLobbyLogic.{apply_player_connected, apply_seat_positions_changed}

-- A newcomer is let in if the place is a valid one where nobody is, the queue included: it is in the
-- map then, with no cards and no flag set, and at its place.
pub player_connected_accepted :
    (player : ℕ) (name : List ℕ) (part : ClientRole) (seat : ℤ) (c : ClientLobby)
    → get_client_player_data_by_id c player ≡ none
    → is_valid_seat_position c seat ≡ true
    → (seat ≡ queue_seat → c.queue ≡ [])
    → (seat ≢ queue_seat → at c.seats seat ≡ none)
    → apply_player_connected player name part seat c
      ≡ ok (
        true,
        take_seat player seat (record c {
          players = insert ℕ_discrete player (new_client_player player name part) c.players;
        }),
      )
unfolding apply_player_connected is_seat_occupied add_client_player_data_at
player_connected_accepted player name part seat c new valid empty free =
    ground (arith, new, valid, empty, free)

-- A newcomer that the server put in the queue is turned away by a client that already has somebody
-- in the queue, and the client's lobby stays as it was.
pub queued_newcomer_refused :
    (player waiting : ℕ) (queue name : List ℕ) (part : ClientRole) (c : ClientLobby)
    → c.queue ≡ waiting ∷ queue
    → apply_player_connected player name part queue_seat c ≡ ok (false, c)
unfolding apply_player_connected is_seat_occupied is_valid_seat_position ℤ_discrete ℕ_discrete
queued_newcomer_refused player waiting queue name part c h = ground (arith, h)

-- The notification that a player the client knows was moved to a seat beyond those of the client's
-- game, up to the largest `int`, fails an assert.
pub move_beyond_game_faults :
    (player i : ℕ) (c : ClientLobby)
    → is_some (get_client_player_data_by_id c player) ≡ true
    → c.players_per_game ≤ i
    → i < 2 ^ 31
    → apply_seat_positions_changed player (pos i) c ≡ fault assertion
unfolding apply_seat_positions_changed get_player_id_by_seat_index move_player_to_seat_position
    is_valid_seat_position
move_beyond_game_faults player i c here large int = ground (arith, here, large, int)
