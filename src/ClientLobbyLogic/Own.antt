-- ===== src/ClientLobbyLogic/Own.antt =====
-- `applySeatPositionsChangeRequest` of the client: a player's own move, shown before the server
-- answers.
use durak.Base.{
  ℕ, ◌≡◌, ◌≢◌, refl, true, false, none, some, ℤ, pos, negsuc, ℤ_discrete, arith, inl, inr,
  Option-cases, Outcome-cases, ok, sym, ◌∙◌, subst,
}
use durak.Seats.Views.{at}
use durak.Lobby.{
  Lobby, queue_seat, get_seat_position_by_id, is_seat_position_correct, is_seat_position_occupied,
}
use durak.Lobby as Lobby
use durak.Lobby.Invariant.{IsWellFormed, queue_has_room, located_seat}
use durak.Lobby.Moves.{leave_seat-IsAway}
use durak.LobbyLogic as LobbyLogic
use durak.LobbyLogic.Seating.{change_request_made}
use durak.ClientLobby.{
  ClientLobby, get_player_seat_index, is_valid_seat_position, move_player_to_seat_position,
}
use durak.ClientLobby.Mirror.{Mirrors, same_place, same_occupant, move-Mirrors}
use durak.ClientLobbyLogic.{SeatChange, apply_seat_positions_change_request, change_seat_for}

-- What a move on the client's side was checked for.
record Went (player : ℕ) (seat : ℤ) (c c' : ClientLobby) (current : ℤ) : Type 0 where
  place : get_player_seat_index c player ≡ some current
  valid : is_valid_seat_position c seat ≡ true
  other : current ≢ seat
  clear : at c.seats seat ≡ none
  made : move_player_to_seat_position player seat c ≡ ok c'

move-Went :
    (player : ℕ) (seat : ℤ) (c c' : ClientLobby)
    → move_player_to_seat_position player seat c ≡ ok c'
    → (current : ℤ) × Went player seat c c' current
unfolding move_player_to_seat_position
move-Went player seat c c' h = elim (Option-cases (get_player_seat_index c player)) [
  | inl e ↦ absurd (ground (arith, e, h))
  | inr (current, e) ↦ (
    current,
    record {
      place = e;
      valid = ground (arith, e, h);
      other = ground (arith, e, h);
      clear = ground (arith, e, h);
      made = h;
    },
  )
]

own_request-Went :
    (player : ℕ) (seat : ℤ) (c c' : ClientLobby) (change : SeatChange)
    → apply_seat_positions_change_request player seat player c ≡ ok (some change, c')
    → move_player_to_seat_position player seat c ≡ ok c'
unfolding apply_seat_positions_change_request change_seat_for
own_request-Went player seat c c' change h =
    elim (Outcome-cases (move_player_to_seat_position player seat c)) [
      | inl (d, e) ↦ ground (arith, e, h)
      | inr (x, e) ↦ ground (arith, e, h)
    ]

valid_correct :
    (l : Lobby) (c : ClientLobby) (seat : ℤ)
    → Mirrors l c
    → is_valid_seat_position c seat ≡ true
    → is_seat_position_correct l seat ≡ true
unfolding is_valid_seat_position is_seat_position_correct
valid_correct l c (pos n) m h = ground (arith, h, m.same_size)
valid_correct l c (negsuc n) m h = ground (arith, h)

-- A player that shows its own move at once shows what the server will decide: where players may
-- move and the client's lobby mirrors a well-formed lobby of the server, a move of its own that the
-- client makes is granted by the server, and the two lobbies mirror one another afterwards.
pub own_move_agrees :
    (player : ℕ) (seat : ℤ) (l : Lobby) (c c' : ClientLobby) (change : SeatChange)
    → IsWellFormed l
    → Mirrors l c
    → l.can_move_to_another_seat ≡ true
    → apply_seat_positions_change_request player seat player c ≡ ok (some change, c')
    → (l' : Lobby) × (LobbyLogic.apply_seat_positions_change_request player seat player l
        ≡ ok (true, l'))
      × Mirrors l' c'
unfolding is_seat_position_occupied
own_move_agrees player seat l c c' change w m can h =
    let (current, v) = move-Went player seat c c' (own_request-Went player seat c c' change h) in
    let there : get_seat_position_by_id l player ≡ some current =
      sym (same_place l c player w m) ∙ v.place in
    let clear : at l.seats seat ≡ none = sym (same_occupant l c seat w m) ∙ v.clear in
    let correct = valid_correct l c seat m v.valid in
    let away = leave_seat-IsAway player current l w there in
    let (d, r, m') =
      move-Mirrors player current seat l c w away.consistent m v.valid there v.other clear in
    let same : d ≡ c' = cc in
    let unoccupied : is_seat_position_occupied l seat ≡ ok false =
      elim (ℤ_discrete seat queue_seat) [
        | yes q ↦
            let (_, seated) = located_seat player current l w there (λ x. v.other (x ∙ sym q)) in
            ground (arith, correct, queue_has_room l player current w seated, q)
        | no n ↦ ground (arith, correct, clear, n)
      ] in
    (
      Lobby.take_seat player seat (Lobby.leave_seat player current l),
      change_request_made player seat player current l w (record {
        allowed = inl can;
        correct = correct;
        open_place = unoccupied;
        located = there;
        elsewhere = v.other;
        entitled = inl refl;
      }),
      subst (Mirrors (Lobby.take_seat player seat (Lobby.leave_seat player current l))) same m',
    )
