-- ===== src/Seats/Tests.antt =====
-- SeatPositionsState on a table with two players.
use durak.Base.{
  ℕ, pos, ◌≡◌, ◌≢◌, refl, ite, none, some, ok, ℕ_discrete, ℤ_discrete, lookup, insert, erase,
}
use durak.Seats.{
  Seats, no_seats, assign_seat, swap_players, get_player_id_by_seat_position,
  get_seat_position_by_player_id, erase_player, erase_from_maps, put_in_maps, displace,
}
use durak.Seats.Views.{at, seat_of, Option_discrete}
use durak.Seats.Consistent.{
  IsConsistent, assign_seat-IsConsistent, seat_of-assign_seat, swap_players-exchanges,
}

-- Player 7 on seat 0 and player 8 on seat 1.
abbrev two_seated : Seats
two_seated = (assign_seat 8 (pos 1) (assign_seat 7 (pos 0) no_seats).0).0

no_seats-IsConsistent : IsConsistent no_seats
unfolding get_player_id_by_seat_position get_seat_position_by_player_id lookup
no_seats-IsConsistent = record { seat_to_player = λ k p h. cc; player_to_seat = λ k p h. cc }

two_seated-IsConsistent : IsConsistent two_seated
two_seated-IsConsistent =
    assign_seat-IsConsistent 8 (pos 1) (assign_seat 7 (pos 0) no_seats).0
      (assign_seat-IsConsistent 7 (pos 0) no_seats no_seats-IsConsistent)

takes_the_seat_of_another :
    (seat_of (assign_seat 7 (pos 1) two_seated).0 8 ≡ none)
    × (seat_of (assign_seat 7 (pos 1) two_seated).0 7 ≡ some (pos 1))
    × ((assign_seat 7 (pos 1) two_seated).1 ≡ some 8)
unfolding assign_seat get_player_id_by_seat_position get_seat_position_by_player_id erase_player
    erase_from_maps put_in_maps displace lookup insert erase ℕ_discrete ℤ_discrete
takes_the_seat_of_another = (refl, refl, refl)

seat_of-assign_seat_example :
    seat_of (assign_seat 8 (pos 0) two_seated).0 7
    ≡ ite
        (ℕ_discrete 8 7)
        (some (pos 0))
        (ite (Option_discrete (at two_seated (pos 0)) (some 7)) none (seat_of two_seated 7))
seat_of-assign_seat_example = seat_of-assign_seat 8 (pos 0) 7 two_seated two_seated-IsConsistent

swap_players-exchanges_example :
    (t : Seats) × (swap_players 7 8 two_seated ≡ ok t)
    × IsConsistent t
    × (seat_of t 7 ≡ some (pos 1))
    × (seat_of t 8 ≡ some (pos 0))
    × ((r : ℕ) → r ≢ 7 → r ≢ 8 → seat_of t r ≡ seat_of two_seated r)
unfolding assign_seat get_player_id_by_seat_position get_seat_position_by_player_id erase_player
    erase_from_maps put_in_maps displace lookup insert erase ℕ_discrete ℤ_discrete
swap_players-exchanges_example =
    swap_players-exchanges 7 8 (pos 0) (pos 1) two_seated two_seated-IsConsistent refl refl
