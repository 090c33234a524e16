-- ===== src/Lobby/Rearranged.antt =====
-- What a move does to the queue and to the seats, case by case, in place of `take_seat` after `leave_seat`.
use durak.Base.{ℕ, ◌≡◌, ◌≢◌, [], ◌∷◌, ◌++◌, ℤ, ℤ_discrete, without, arith, sym, ◌∙◌}
use durak.Seats.{assign_seat, erase_player}
use durak.Lobby.{Lobby, queue_seat, take_seat, leave_seat}

-- From the queue to a seat, from a seat to the end of the queue, or from a seat to another.
pub data Rearranged (p : ℕ) (seat : ℤ) (l l' : Lobby) (current : ℤ) : Type 0 where
  seated :
      current ≡ queue_seat
      → l' ≡ record l { queue = without p l.queue; seats = (assign_seat p seat l.seats).0 }
      → Rearranged p seat l l' current
  queued :
      seat ≡ queue_seat
      → l' ≡ record l { queue = l.queue ++ (p ∷ []); seats = erase_player p l.seats }
      → Rearranged p seat l l' current
  reseated :
      current ≢ queue_seat
      → seat ≢ queue_seat
      → l' ≡ record l { seats = (assign_seat p seat (erase_player p l.seats)).0 }
      → Rearranged p seat l l' current

pub move-Rearranged :
    (p : ℕ) (current seat : ℤ) (l : Lobby)
    → current ≢ seat
    → Rearranged p seat l (take_seat p seat (leave_seat p current l)) current
unfolding take_seat leave_seat
move-Rearranged p current seat l n = elim (ℤ_discrete current queue_seat) [
  | yes q ↦ seated q (let m : seat ≢ queue_seat = λ e. n (q ∙ sym e) in ground (arith, q, m))
  | no m ↦ elim (ℤ_discrete seat queue_seat) [
    | yes e ↦ queued e (ground (arith, m, e))
    | no k ↦ reseated m k (ground (arith, m, k))
  ]
]
