-- ===== src/LobbyLogic/Tests.antt =====
-- Requests to a lobby with a host and a guest.
use durak.Base.{
  ℕ, ◌≡◌, ◌≤◌, ◌<◌, refl, true, false, [], ◌∷◌, ◌++◌, none, some, ℤ, pos, arith, ok, ℕ_discrete,
  ℤ_discrete, lookup, insert, erase, without, count, inl,
}
use durak.Seats.{
  get_player_id_by_seat_position, get_seat_position_by_player_id, erase_player, erase_from_maps,
  put_in_maps, displace, assign_seat,
}
use durak.Seats.Views.{at, seat_of}
use durak.Lobby.{
  Lobby, queue_seat, take_seat, leave_seat, is_seat_position_correct, is_seat_position_occupied,
  get_seat_position_by_id, is_queued, find_profile, get_player_profile_by_id,
  change_player_seat_position,
}
use durak.Lobby.Moves.{Moved}
use durak.Lobby.Rearranged.{Rearranged}
use durak.Lobby.Relocated.{Relocated}
use durak.Lobby.Invariant.{IsWellFormed}
use durak.Lobby.Tests.{cem, bob_waits, both_sit, bob_waits-IsWellFormed, both_sit-IsWellFormed}
use durak.LobbyLogic.{
  move_for, apply_player_connect_request, apply_seat_positions_change_request,
  apply_seat_positions_swap_request, apply_players_per_game_change_request,
}
use durak.LobbyLogic.Joining.{entered, connect_request_admitted}
use durak.LobbyLogic.Seating.{
  MayMove, IsSafe, change_request_granted, change_request_MayMove, change_request-IsSafe,
}
use durak.LobbyLogic.Swapping.{MaySwap, swap_request_granted, swap_request_lost}
use durak.LobbyLogic.Settings.{players_per_game_request_granted}

abbrev closed : Lobby
closed = record bob_waits { is_lobby_open = false }

abbrev closed_both : Lobby
closed_both = record both_sit { is_lobby_open = false }

connect_request_admitted_example :
    (l' : Lobby) × (apply_player_connect_request cem bob_waits ≡ ok (none, entered cem, l'))
    × IsWellFormed l'
    × (l'.profiles ≡ bob_waits.profiles ++ (entered cem ∷ []))
unfolding get_player_profile_by_id find_profile ℕ_discrete
connect_request_admitted_example =
    connect_request_admitted cem bob_waits bob_waits-IsWellFormed refl (omega arith) refl

bob_may_sit : MayMove bob_waits 1 (pos 1) 1 queue_seat
unfolding is_seat_position_correct is_seat_position_occupied get_seat_position_by_id is_queued
    lookup get_player_id_by_seat_position get_seat_position_by_player_id ℕ_discrete ℤ_discrete
bob_may_sit = record {
  allowed = inl refl;
  correct = refl;
  open_place = refl;
  located = refl;
  elsewhere = λ e. cc;
  entitled = inl refl;
}

change_request_granted_example :
    (l' : Lobby) × (apply_seat_positions_change_request 1 (pos 1) 1 bob_waits ≡ ok (true, l'))
    × Relocated 1 (pos 1) bob_waits l'
    × Rearranged 1 (pos 1) bob_waits l' queue_seat
change_request_granted_example =
    change_request_granted 1 (pos 1) 1 queue_seat bob_waits (omega arith) bob_waits-IsWellFormed
      bob_may_sit

change_request-IsSafe_example :
    IsSafe bob_waits (apply_seat_positions_change_request 1 (pos 0) 1 bob_waits)
unfolding get_player_profile_by_id find_profile ℕ_discrete
change_request-IsSafe_example =
    change_request-IsSafe 1 (pos 0) 1 bob_waits (omega arith) bob_waits-IsWellFormed refl

bob_with_ann : MaySwap bob_waits 1 0 0 queue_seat (pos 0)
unfolding get_player_profile_by_id find_profile get_seat_position_by_id is_queued lookup
    get_seat_position_by_player_id ℕ_discrete
bob_with_ann = record { by_host = refl; first_place = refl; second_place = refl; apart = λ e. cc }

ann_with_bob : MaySwap bob_waits 0 1 0 (pos 0) queue_seat
unfolding get_player_profile_by_id find_profile get_seat_position_by_id is_queued lookup
    get_seat_position_by_player_id ℕ_discrete
ann_with_bob = record { by_host = refl; first_place = refl; second_place = refl; apart = λ e. cc }

swap_request_granted_example :
    (l' : Lobby) × (apply_seat_positions_swap_request 1 0 0 bob_waits ≡ ok (true, l'))
    × IsWellFormed l'
swap_request_granted_example =
    swap_request_granted 1 0 0 queue_seat (pos 0) bob_waits bob_waits-IsWellFormed bob_with_ann
      (λ e. cc)

swap_request_lost_example :
    (l' : Lobby) × (apply_seat_positions_swap_request 0 1 0 bob_waits ≡ ok (true, l'))
    × (seat_of l'.seats 1 ≡ some queue_seat)
    × (count 1 l'.queue ≡ 0)
    × (seat_of l'.seats 0 ≡ some (pos 0))
    × (count 0 l'.queue ≡ 1)
    × ¬ IsWellFormed l'
swap_request_lost_example =
    swap_request_lost 0 1 0 (pos 0) bob_waits bob_waits-IsWellFormed ann_with_bob

-- A game of three, with both players on the seats that are left.
players_per_game_request_granted_example :
    (l' : Lobby) × (apply_players_per_game_change_request 3 0 both_sit ≡ ok (true, l'))
    × IsWellFormed l'
    × (l'.players_per_game ≡ 3)
    × ((j : ℕ) → 3 ≤ j → j < 2 → at l'.seats (pos j) ≡ none)
    × ((j : ℕ) → j < 3 → at l'.seats (pos j) ≡ at both_sit.seats (pos j))
unfolding get_player_profile_by_id find_profile ℕ_discrete
players_per_game_request_granted_example =
    players_per_game_request_granted 3 0 both_sit both_sit-IsWellFormed refl (omega arith)
      (omega arith) (omega arith)

change_request_MayMove_example :
    (current : ℤ) × MayMove bob_waits 1 (pos 1) 1 current
    × Moved 1 (pos 1) bob_waits both_sit current
unfolding apply_seat_positions_change_request move_for change_player_seat_position
    get_player_profile_by_id find_profile is_seat_position_occupied is_seat_position_correct
    get_seat_position_by_id is_queued take_seat leave_seat without assign_seat
    get_player_id_by_seat_position get_seat_position_by_player_id erase_player erase_from_maps
    put_in_maps displace lookup insert erase ℕ_discrete ℤ_discrete
change_request_MayMove_example = change_request_MayMove 1 (pos 1) 1 bob_waits both_sit refl
