-- ===== src/Lobby/Relocated.antt =====
-- A move seen through `getSeatPositionById`: the player has the new place, and all others keep theirs.
use durak.Base.{
  ℕ, ◌≡◌, ◌≢◌, [], ◌∷◌, ◌++◌, ℤ, ℤ_discrete, without, if_pos, if_neg, arith, ◌∙◌, count-without,
  count-append, some, ok, false,
}
use durak.Seats.Views.{seat_of-erase_player}
use durak.Seats.Consistent.{seat_of-assign_seat}
use durak.Lobby.{
  Lobby, queue_seat, take_seat, leave_seat, get_seat_position_by_id, is_seat_position_occupied,
}
use durak.Lobby.Invariant.{IsWellFormed, IsAway, is_queued-count}
use durak.Lobby.Moves.{
  IsInt, IsFree, leave_seat-IsAway, leave_seat-IsFree, take_seat-IsWellFormed, unoccupied-IsFree,
}

pub record Relocated (player : ℕ) (seat : ℤ) (l l' : Lobby) : Type 0 where
  pub sound : IsWellFormed l'
  pub there : get_seat_position_by_id l' player ≡ some seat
  pub others : (r : ℕ) → r ≢ player → get_seat_position_by_id l' r ≡ get_seat_position_by_id l r
  pub untouched : record l' { seats = l.seats; queue = l.queue } ≡ l

left_others :
    (p : ℕ) (current : ℤ) (r : ℕ) (l : Lobby)
    → r ≢ p
    → get_seat_position_by_id (leave_seat p current l) r ≡ get_seat_position_by_id l r
unfolding leave_seat get_seat_position_by_id
left_others p current r l n = elim (ℤ_discrete current queue_seat) [
  | yes q ↦ rw (if_pos _ q) (
      ground (
        arith,
        n,
        is_queued-count r l.queue,
        is_queued-count r (without p l.queue),
        count-without p r l.queue,
      ))
  | no m ↦ rw (if_neg _ m) (ground (arith, n, seat_of-erase_player p r l.seats))
]

taken_others :
    (p : ℕ) (seat : ℤ) (r : ℕ) (l : Lobby)
    → IsAway p l
    → IsFree l seat
    → r ≢ p
    → get_seat_position_by_id (take_seat p seat l) r ≡ get_seat_position_by_id l r
unfolding take_seat get_seat_position_by_id
taken_others p seat r l w f n = elim (ℤ_discrete seat queue_seat) [
  | yes q ↦ rw (if_pos _ q) (
      ground (
        arith,
        n,
        is_queued-count r l.queue,
        is_queued-count r (l.queue ++ (p ∷ [])),
        count-append r l.queue (p ∷ []),
      ))
  | no m ↦
      rw (if_neg _ m)
        (ground (arith, n, f.free m, seat_of-assign_seat p seat r l.seats w.consistent))
]

taken_there :
    (p : ℕ) (seat : ℤ) (l : Lobby)
    → IsAway p l
    → IsFree l seat
    → get_seat_position_by_id (take_seat p seat l) p ≡ some seat
unfolding take_seat get_seat_position_by_id
taken_there p seat l w f = elim (ℤ_discrete seat queue_seat) [
  | yes q ↦ rw (if_pos _ q) (
      ground (
        arith,
        w.unplaced,
        q,
        is_queued-count p (l.queue ++ (p ∷ [])),
        count-append p l.queue (p ∷ []),
      ))
  | no m ↦ rw (if_neg _ m) (ground (arith, seat_of-assign_seat p seat p l.seats w.consistent))
]

moved_untouched :
    (p : ℕ) (current seat : ℤ) (l : Lobby)
    → record (take_seat p seat (leave_seat p current l)) { seats = l.seats; queue = l.queue } ≡ l
unfolding take_seat leave_seat
moved_untouched p current seat l = ground arith

pub move-Relocated :
    (p : ℕ) (current seat : ℤ) (l : Lobby)
    → IsInt seat
    → IsWellFormed l
    → get_seat_position_by_id l p ≡ some current
    → is_seat_position_occupied l seat ≡ ok false
    → Relocated p seat l (take_seat p seat (leave_seat p current l))
move-Relocated p current seat l i w e o =
    let away = leave_seat-IsAway p current l w e in
    let free = leave_seat-IsFree p current seat l w (unoccupied-IsFree l seat i w o) in
    record {
      sound = take_seat-IsWellFormed p seat (leave_seat p current l) away free;
      there = taken_there p seat (leave_seat p current l) away free;
      others = λ r n.
          taken_others p seat r (leave_seat p current l) away free n ∙ left_others p current r l n;
      untouched = moved_untouched p current seat l;
    }
