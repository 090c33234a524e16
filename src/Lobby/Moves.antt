-- ===== src/Lobby/Moves.antt =====
-- One player's move between queue and seats: `changePlayerSeatPosition`.
use durak.Base.{
  ℕ, ◌^◌, pos, negsuc, ◌≤◌, ◌<◌, ◌≡◌, ◌≢◌, ◌↔◌, ◌⊎◌, refl, true, false, [], ◌∷◌, none, some, ℤ,
  ℤ_discrete, is_negative, count, arith, Option-cases, inl, inr, count-without, count-append, ok,
  if_pos, if_neg,
}
use durak.Seats.Views.{at, seat_of-erase_player, at-erase_player}
use durak.Seats.Consistent.{
  erase_player-IsConsistent, assign_seat-IsConsistent, seat_of-assign_seat,
}
use durak.Lobby.{
  Lobby, ids, get_seat_position_by_id, queue_seat, take_seat, leave_seat,
  change_player_seat_position, is_seat_position_correct, max_players_per_game,
  is_seat_position_occupied, get_player_profile_by_id,
}
use durak.Lobby.Rearranged.{Rearranged, move-Rearranged}
use durak.Lobby.Invariant.{
  IsWellFormed, IsAway, is_queued-count, find_profile-count, located_member,
}

-- What a move needs to know of the place it goes to: the queue, or a free seat.
pub record IsFree (l : Lobby) (seat : ℤ) : Type 0 where
  pub free : seat ≢ queue_seat → at l.seats seat ≡ none
  pub real : seat ≢ queue_seat → is_negative seat ≡ false

-- A player leaves the place that `getSeatPositionById` names, and is nowhere then.
pub leave_seat-IsAway :
    (p : ℕ) (current : ℤ) (l : Lobby)
    → IsWellFormed l
    → get_seat_position_by_id l p ≡ some current
    → IsAway p (leave_seat p current l)
unfolding leave_seat get_seat_position_by_id
leave_seat-IsAway p current l w e = elim (ℤ_discrete current queue_seat) [
  | yes q ↦ rw (if_pos _ q) (record {
    roster = w.roster;
    consistent = w.consistent;
    present = ground (
      arith,
      e,
      q,
      w.placed p,
      w.roster.once p,
      is_queued-count p l.queue,
      w.real_seats p current,
    );
    unplaced = ground (arith, e, q, count-without p p l.queue, w.real_seats p current);
    placed = λ r ne. ground (arith, count-without p r l.queue, w.placed r, ne);
    real_seats = w.real_seats;
  })
  | no n ↦ rw (if_neg _ n) (record {
    roster = w.roster;
    consistent = erase_player-IsConsistent p l.seats w.consistent;
    present = ground (arith, e, n, w.placed p, w.roster.once p);
    unplaced = ground (arith, e, n, seat_of-erase_player p p l.seats, w.placed p, w.roster.once p);
    placed = λ r ne. ground (arith, seat_of-erase_player p r l.seats, w.placed r, ne);
    real_seats = λ r k h. ground (arith, seat_of-erase_player p r l.seats, w.real_seats r k, h);
  })
]

-- A free place stays free when somebody leaves another.
pub leave_seat-IsFree :
    (p : ℕ) (current seat : ℤ) (l : Lobby)
    → IsWellFormed l
    → IsFree l seat
    → IsFree (leave_seat p current l) seat
unfolding leave_seat
leave_seat-IsFree p current seat l w f = elim (ℤ_discrete current queue_seat) [
  | yes q ↦ rw (if_pos _ q) (record { free = f.free; real = f.real })
  | no n ↦ rw (if_neg _ n) (record {
    free = λ k. ground (
      arith,
      f.free k,
      at-erase_player p seat l.seats (w.consistent.seat_to_player seat p)
          (w.consistent.player_to_seat seat p),
    );
    real = f.real;
  })
]

-- A player that is nowhere takes a place that is free.
pub take_seat-IsWellFormed :
    (p : ℕ) (seat : ℤ) (l : Lobby) → IsAway p l → IsFree l seat → IsWellFormed (take_seat p seat l)
unfolding take_seat
take_seat-IsWellFormed p seat l w f = elim (ℤ_discrete seat queue_seat) [
  | yes q ↦ rw (if_pos _ q) (record {
    roster = w.roster;
    consistent = w.consistent;
    placed =
        λ r. ground (arith, count-append r l.queue (p ∷ []), w.placed r, w.unplaced, w.present);
    real_seats = w.real_seats;
  })
  | no n ↦ rw (if_neg _ n) (record {
    roster = w.roster;
    consistent = assign_seat-IsConsistent p seat l.seats w.consistent;
    placed = λ r. ground (
      arith,
      seat_of-assign_seat p seat r l.seats w.consistent,
      w.placed r,
      w.unplaced,
      w.present,
      f.free n,
    );
    real_seats = λ r k h. ground (
      arith,
      seat_of-assign_seat p seat r l.seats w.consistent,
      w.real_seats r k,
      f.real n,
      f.free n,
      h,
    );
  })
]

-- The values of an `int`.
abbrev pub IsInt : ℤ → Type 0
IsInt (pos n) = n < 2 ^ 31
IsInt (negsuc n) = n < 2 ^ 31

-- What passes the test of `isSeatPositionCorrect` is the queue or no negative number.
correct_real :
    (l : Lobby) (seat : ℤ)
    → IsInt seat
    → l.players_per_game ≤ max_players_per_game
    → is_seat_position_correct l seat ≡ true
    → seat ≢ queue_seat
    → is_negative seat ≡ false
unfolding is_seat_position_correct
correct_real l (pos n) i small h ne = refl
correct_real l (negsuc n) i small h ne = ground arith

-- In a well-formed lobby a seat that fits in an `int` passes `isSeatPositionCorrect` exactly if it
-- is the queue or not negative, however many players a game has.
pub seat_correct_iff :
    (l : Lobby) (seat : ℤ)
    → IsInt seat
    → IsWellFormed l
    → (is_seat_position_correct l seat ≡ true) ↔ ((seat ≡ queue_seat) ⊎ (is_negative seat ≡ false))
unfolding is_seat_position_correct
seat_correct_iff l (pos n) i w = ground arith
seat_correct_iff l (negsuc n) i w = ground (arith, w.roster.at_most)

pub unoccupied-IsFree :
    (l : Lobby) (seat : ℤ)
    → IsInt seat
    → IsWellFormed l
    → is_seat_position_occupied l seat ≡ ok false
    → IsFree l seat
unfolding is_seat_position_occupied
unoccupied-IsFree l seat i w h = record {
  free = λ n. ground (arith, h, n);
  real = λ n. correct_real l seat i w.roster.at_most (ground (arith, h)) n;
}

-- A move that comes to its end went from the player's place to another, free one.
pub record Moved (p : ℕ) (seat : ℤ) (l l' : Lobby) (current : ℤ) : Type 0 where
  pub from : get_seat_position_by_id l p ≡ some current
  pub other : current ≢ seat
  pub open_place : is_seat_position_occupied l seat ≡ ok false
  pub result : l' ≡ take_seat p seat (leave_seat p current l)
  pub rearranged : Rearranged p seat l l' current

pub change_player_seat_position-Moved :
    (p : ℕ) (seat : ℤ) (l l' : Lobby)
    → change_player_seat_position p seat l ≡ ok l'
    → (current : ℤ) × Moved p seat l l' current
unfolding change_player_seat_position
change_player_seat_position-Moved p seat l l' h =
    elim (Option-cases (get_seat_position_by_id l p)) [
      | inl e ↦ absurd (ground (arith, e, h))
      | inr (current, e) ↦
          let other : current ≢ seat = ground (arith, e, h) in
          let result : l' ≡ take_seat p seat (leave_seat p current l) = ground (arith, e, h) in
          (
            current,
            record {
              from = e;
              other = other;
              open_place = ground (arith, e, h);
              result = result;
              rearranged = rw result (move-Rearranged p current seat l other);
            },
          )
    ]

pub Moved-IsWellFormed :
    (p : ℕ) (current seat : ℤ) (l l' : Lobby)
    → IsInt seat
    → IsWellFormed l
    → Moved p seat l l' current
    → IsWellFormed l'
Moved-IsWellFormed p current seat l l' i w m = rw m.result (
    take_seat-IsWellFormed p seat (leave_seat p current l) (leave_seat-IsAway p current l w m.from)
      (leave_seat-IsFree p current seat l w (unoccupied-IsFree l seat i w m.open_place)))

-- A move of a player of a well-formed lobby to a seat that fits in an `int`, if it passes the
-- asserts, leads to a well-formed lobby.
pub change_player_seat_position-IsWellFormed :
    (p : ℕ) (seat : ℤ) (l l' : Lobby)
    → IsInt seat
    → IsWellFormed l
    → change_player_seat_position p seat l ≡ ok l'
    → IsWellFormed l'
change_player_seat_position-IsWellFormed p seat l l' i w h =
    let (current, m) = change_player_seat_position-Moved p seat l l' h in
    Moved-IsWellFormed p current seat l l' i w m

-- A move of a player of the lobby from the known place to a free other one comes to its end.
pub change_player_seat_position-succeeds :
    (p : ℕ) (current seat : ℤ) (l : Lobby)
    → IsWellFormed l
    → get_seat_position_by_id l p ≡ some current
    → current ≢ seat
    → is_seat_position_occupied l seat ≡ ok false
    → change_player_seat_position p seat l ≡ ok (take_seat p seat (leave_seat p current l))
unfolding change_player_seat_position get_player_profile_by_id
change_player_seat_position-succeeds p current seat l w e ne o =
    let member : 0 < count p (ids l.profiles) = located_member p current l w e in
    ground (arith, (find_profile-count p l.profiles).1 member, e, ne, o)
