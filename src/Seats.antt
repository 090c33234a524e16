-- ===== src/Seats.antt =====
-- source/states/SeatPositionsState.{h,cpp}: who sits where, kept in two maps that mirror one another.
-- Each `unordered_map` is an association list, read by `lookup`.
pub mod Consistent
pub mod Views
pub mod Tests
use durak.Base.{
  ℕ, ℤ, List, [], Option, none, some, Outcome, ok, out_of_range, ◌>>=◌, value_or_fault, lookup,
  insert, erase, ℕ_discrete, ℤ_discrete,
}

pub record Seats : Type 0 where
  pub player_id_by_seat_position : List (ℤ × ℕ)
  pub seat_position_by_player_id : List (ℕ × ℤ)

abbrev pub no_seats : Seats
no_seats = record { player_id_by_seat_position = []; seat_position_by_player_id = [] }

unfoldable pub get_player_id_by_seat_position : Seats → ℤ → Option ℕ
get_player_id_by_seat_position s seat = lookup ℤ_discrete seat s.player_id_by_seat_position

unfoldable pub get_seat_position_by_player_id : Seats → ℕ → Option ℤ
get_seat_position_by_player_id s player = lookup ℕ_discrete player s.seat_position_by_player_id

unfoldable pub erase_from_maps : ℤ → ℕ → Seats → Seats
erase_from_maps seat player s = record {
  player_id_by_seat_position = erase ℤ_discrete seat s.player_id_by_seat_position;
  seat_position_by_player_id = erase ℕ_discrete player s.seat_position_by_player_id;
}

-- `erase(uint32_t playerId)`.
unfoldable pub erase_player : ℕ → Seats → Seats
erase_player player s = elim (get_seat_position_by_player_id s player) [
  | none ↦ s
  | some seat ↦ erase_from_maps seat player s
]

-- `erase(int32_t seatPosition)`.
unfoldable pub erase_seat : ℤ → Seats → Seats
erase_seat seat s = elim (get_player_id_by_seat_position s seat) [
  | none ↦ s
  | some player ↦ erase_from_maps seat player s
]

-- The two assignments that end `assignSeat`.
unfoldable pub put_in_maps : ℕ → ℤ → Seats → Seats
put_in_maps player seat s = record {
  player_id_by_seat_position = insert ℤ_discrete seat player s.player_id_by_seat_position;
  seat_position_by_player_id = insert ℕ_discrete player seat s.seat_position_by_player_id;
}

-- The branch of `assignSeat` on the player that sits there already.
unfoldable pub displace : Option ℕ → Seats → Seats
displace none s = s
displace (some player) s = erase_player player s

-- The new state and the player that had to leave the seat.
unfoldable pub assign_seat : ℕ → ℤ → Seats → Seats × Option ℕ
assign_seat player seat s =
    let s' = erase_player player s in
    let displaced = get_player_id_by_seat_position s' seat in
    (put_in_maps player seat (displace displaced s'), displaced)

-- The four assignments of `swapPlayers`; they are two pairs of writes.
unfoldable pub cross : ℕ → ℤ → ℕ → ℤ → Seats → Seats
cross first first_seat second second_seat s = record {
  player_id_by_seat_position =
      insert ℤ_discrete second_seat first
        (insert ℤ_discrete first_seat second s.player_id_by_seat_position);
  seat_position_by_player_id =
      insert ℕ_discrete second first_seat
        (insert ℕ_discrete first second_seat s.seat_position_by_player_id);
}

-- `at` throws on a player without a seat.
unfoldable pub swap_players : ℕ → ℕ → Seats → Outcome Seats
swap_players first second s = do
  first_seat ← value_or_fault (get_seat_position_by_player_id s first) out_of_range
  second_seat ← value_or_fault (get_seat_position_by_player_id s second) out_of_range
  ok (cross first first_seat second second_seat s)
