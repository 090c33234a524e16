-- ===== src/ClientLobbyLogic/Tests.antt =====
-- Ann, Bob and Cem on a client, as the tests of the server's lobby know them.
use durak.Base.{
  ◌≡◌, refl, true, [], ◌∷◌, none, some, pos, ℕ_discrete, ℤ_discrete, arith, lookup, count, ok, inr,
}
use durak.Protocol.{host, regular, classic_rules}
use durak.Seats.{get_player_id_by_seat_position, get_seat_position_by_player_id}
use durak.Lobby.{
  Lobby, queue_seat, find_profile, get_player_profile_by_id, get_seat_position_by_id, is_queued,
  is_seat_position_correct, is_seat_position_occupied, take_seat, leave_seat,
}
use durak.Lobby as Lobby
use durak.Lobby.Invariant.{IsWellFormed}
use durak.Lobby.Tests.{bob_waits, bob_waits-IsWellFormed}
use durak.LobbyLogic.{apply_seat_positions_change_request}
use durak.LobbyLogic as LobbyLogic
use durak.ClientPlayer.{new_client_player}
use durak.ClientLobby.{
  ClientLobby, new_client_lobby, get_client_player_data_by_id, is_valid_seat_position,
  get_player_seat_index, move_player_to_seat_position,
}
use durak.ClientLobby as ClientLobby
use durak.ClientLobby.Mirror.{Mirrors}
use durak.ClientLobbyLogic.{
  apply_seat_positions_changed, apply_player_connected, apply_seat_positions_swapped, SeatChange,
  change_seat_for,
}
use durak.ClientLobbyLogic as Client
use durak.ClientLobbyLogic.Steps.{
  History, still, step, Granted, moved, left, seat_changed, disconnected, apply_notices,
  notices-refine,
}
use durak.ClientLobbyLogic.Own.{own_move_agrees}
use durak.ClientLobbyLogic.Swapped.{swapped_loses_second}

-- What a client shows of the lobby where Ann sits and Bob waits.
abbrev pub bob_waits_shown : ClientLobby
bob_waits_shown = record {
  players =
      (0, new_client_player 0 (65 ∷ []) host) ∷ (1, new_client_player 1 (66 ∷ []) regular) ∷ [];
  queue = 1 ∷ [];
  seats = bob_waits.seats;
  host_id = some 0;
  rules_type = classic_rules;
  players_per_game = 2;
  is_lobby_open = true;
  can_move_to_another_seat = true;
}

pub bob_waits-Mirrors : Mirrors bob_waits bob_waits_shown
unfolding get_client_player_data_by_id find_profile lookup ℕ_discrete
bob_waits-Mirrors = record {
  consistent = bob_waits-IsWellFormed.consistent;
  same_seats = λ p. refl;
  same_queue = refl;
  same_members = λ p. ground arith;
  same_size = refl;
  same_open = refl;
}

-- Bob takes the second seat.
abbrev bob_sat : Lobby
bob_sat = take_seat 1 (pos 1) (leave_seat 1 queue_seat bob_waits)

bob_sits : Granted bob_waits (seat_changed 1 (pos 1)) bob_sat
unfolding apply_seat_positions_change_request LobbyLogic.move_for is_seat_position_correct
    is_seat_position_occupied get_seat_position_by_id get_player_profile_by_id find_profile
    Lobby.change_player_seat_position is_queued get_seat_position_by_player_id
    get_player_id_by_seat_position lookup ℕ_discrete ℤ_discrete
bob_sits = moved 1 (pos 1) 1 bob_sat (omega arith) (inr (1, refl, omega arith)) refl

bob_sits_then_ann_leaves :
    History bob_waits (seat_changed 1 (pos 1) ∷ disconnected 0 ∷ []) (Lobby.delete_player 0 bob_sat)
bob_sits_then_ann_leaves =
    step bob_waits (seat_changed 1 (pos 1)) bob_sat (disconnected 0 ∷ []) _ bob_sits
      (step bob_sat (disconnected 0) _ [] _ (left 0) (still _))

notices-refine_example :
    (c' : ClientLobby) × (apply_notices
        (seat_changed 1 (pos 1) ∷ disconnected 0 ∷ [])
        bob_waits_shown
      ≡ ok c')
    × IsWellFormed (Lobby.delete_player 0 bob_sat)
    × Mirrors (Lobby.delete_player 0 bob_sat) c'
notices-refine_example =
    notices-refine bob_waits (seat_changed 1 (pos 1) ∷ disconnected 0 ∷ [])
      (Lobby.delete_player 0 bob_sat) bob_waits_shown bob_waits-IsWellFormed bob_waits-Mirrors
      bob_sits_then_ann_leaves

ann_first : get_seat_position_by_id bob_waits 0 ≡ some (pos 0)
unfolding get_seat_position_by_id get_seat_position_by_player_id lookup ℕ_discrete
ann_first = refl

bob_queued : get_seat_position_by_id bob_waits 1 ≡ some queue_seat
unfolding get_seat_position_by_id get_seat_position_by_player_id lookup ℕ_discrete is_queued
bob_queued = refl

swapped_loses_second_example :
    (c' : ClientLobby) × (apply_seat_positions_swapped 0 1 bob_waits_shown ≡ ok (true, c'))
    × (get_player_seat_index c' 1 ≡ none)
    × (get_player_seat_index c' 0 ≡ some (pos 0))
    × (count 0 c'.queue ≡ 1)
swapped_loses_second_example =
    swapped_loses_second 0 1 (pos 0) bob_waits bob_waits_shown bob_waits-IsWellFormed
      bob_waits-Mirrors ann_first bob_queued (λ e. cc)

-- Bob moves on his own client.
abbrev bob_sat_shown : ClientLobby
bob_sat_shown =
    ClientLobby.take_seat 1 (pos 1) (ClientLobby.leave_seat 1 queue_seat bob_waits_shown)

bob_moves :
    Client.apply_seat_positions_change_request 1 (pos 1) 1 bob_waits_shown
    ≡ ok (some (record { player_id = 1; to_seat_index = pos 1 }), bob_sat_shown)
unfolding Client.apply_seat_positions_change_request change_seat_for get_client_player_data_by_id
    get_player_seat_index ClientLobby.get_player_id_by_seat_index is_valid_seat_position
    move_player_to_seat_position get_seat_position_by_player_id get_player_id_by_seat_position
    lookup ℕ_discrete ℤ_discrete
bob_moves = refl

own_move_agrees_example :
    (l' : Lobby) × (apply_seat_positions_change_request 1 (pos 1) 1 bob_waits ≡ ok (true, l'))
    × Mirrors l' bob_sat_shown
own_move_agrees_example =
    own_move_agrees 1 (pos 1) bob_waits bob_waits_shown bob_sat_shown
      (record { player_id = 1; to_seat_index = pos 1 }) bob_waits-IsWellFormed bob_waits-Mirrors
      refl bob_moves
