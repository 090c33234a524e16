-- ===== src/LobbyLogic/Seating.antt =====
-- `applySeatPositionsChangeRequest`: who may move whom, and that the move leaves the lobby sound.
use durak.Base.{
  ℕ, ◌≡◌, ◌≢◌, ◌⊎◌, refl, Bool, true, false, none, some, is_some, ℤ, arith, Option-cases, inl, inr,
  Outcome, ok, fault, Fault, logic_error,
}
use durak.Lobby.{
  Lobby, is_seat_position_correct, is_seat_position_occupied, get_seat_position_by_id,
  get_player_profile_by_id, take_seat, leave_seat,
}
use durak.Lobby.Invariant.{IsWellFormed, find_profile-count, located_member}
use durak.Lobby.Moves.{
  IsInt, Moved, change_player_seat_position-succeeds, change_player_seat_position-Moved,
  Moved-IsWellFormed,
}
use durak.Lobby.Rearranged.{Rearranged, move-Rearranged}
use durak.Lobby.Relocated.{Relocated, move-Relocated}
use durak.LobbyLogic.{is_host, is_host_id, apply_seat_positions_change_request}

-- What the server asks of a move: the lobby lets players move or the host asks, the place is a
-- correct free one, the player stands elsewhere, and nobody but the host moves another player.
pub record MayMove (l : Lobby) (player : ℕ) (seat : ℤ) (initiator : ℕ) (current : ℤ) : Type 0 where
  pub allowed : (l.can_move_to_another_seat ≡ true) ⊎ (is_host_id l.host_id initiator ≡ true)
  pub correct : is_seat_position_correct l seat ≡ true
  pub open_place : is_seat_position_occupied l seat ≡ ok false
  pub located : get_seat_position_by_id l player ≡ some current
  pub elsewhere : current ≢ seat
  pub entitled : (player ≡ initiator) ⊎ (is_host (get_player_profile_by_id l initiator) ≡ true)

-- A request that meets the conditions of a move is granted, and the move is made.
pub change_request_made :
    (player : ℕ) (seat : ℤ) (initiator : ℕ) (current : ℤ) (l : Lobby)
    → IsWellFormed l
    → MayMove l player seat initiator current
    → apply_seat_positions_change_request player seat initiator l
      ≡ ok (true, take_seat player seat (leave_seat player current l))
unfolding apply_seat_positions_change_request get_player_profile_by_id
change_request_made player seat initiator current l w m = ground (
  arith,
  m.allowed,
  m.correct,
  m.open_place,
  m.located,
  m.elsewhere,
  m.entitled,
  (find_profile-count player l.profiles).1 (located_member player current l w m.located),
  change_player_seat_position-succeeds player current seat l w m.located m.elsewhere m.open_place,
)

-- In a well-formed lobby every request to move a player to a seat that fits in an `int`, if it
-- meets the conditions of a move, is granted: the new lobby is well formed and finds the player at
-- the new place and everybody else where they were, nothing but the queue and the seats changes,
-- and the player is taken out of the queue and put on the seat, taken off the seat and put at the
-- end of the queue, or taken off the seat and put on another.
pub change_request_granted :
    (player : ℕ) (seat : ℤ) (initiator : ℕ) (current : ℤ) (l : Lobby)
    → IsInt seat
    → IsWellFormed l
    → MayMove l player seat initiator current
    → (l' : Lobby) × (apply_seat_positions_change_request player seat initiator l ≡ ok (true, l'))
      × Relocated player seat l l'
      × Rearranged player seat l l' current
change_request_granted player seat initiator current l i w m = (
  take_seat player seat (leave_seat player current l),
  change_request_made player seat initiator current l w m,
  move-Relocated player current seat l i w m.located m.open_place,
  move-Rearranged player current seat l m.elsewhere,
)

-- A request to move a player is granted only if players may move or the host asks, the place is a
-- correct free one, the player stands at another one, and the player asks for itself or the host
-- asks; the new lobby is then the old one with the player taken off the old place and put on the
-- new one: taken out of the queue and put on the seat, taken off the seat and put at the end of the
-- queue, or taken off the seat and put on another.
pub change_request_MayMove :
    (player : ℕ) (seat : ℤ) (initiator : ℕ) (l l' : Lobby)
    → apply_seat_positions_change_request player seat initiator l ≡ ok (true, l')
    → (current : ℤ) × MayMove l player seat initiator current × Moved player seat l l' current
unfolding apply_seat_positions_change_request
change_request_MayMove player seat initiator l l' h =
    elim (Option-cases (get_seat_position_by_id l player)) [
      | inl e ↦ absurd (ground (arith, e, h))
      | inr (current, e) ↦ (
        current,
        ground (arith, e, h, change_player_seat_position-Moved player seat l l'),
        ground (arith, e, h, change_player_seat_position-Moved player seat l l'),
      )
    ]

-- What a request must end in: the lobby as it was, or another well-formed one, and no exception.
abbrev pub IsSafe : Lobby → Outcome (Bool × Lobby) → Type 0
IsSafe l (ok (true, l')) = IsWellFormed l'
IsSafe l (ok (false, l')) = l' ≡ l
IsSafe l (fault e) = ⊥

pub IsSafe-cases :
    (l : Lobby) (r : Outcome (Bool × Lobby))
    → ((l' : Lobby) → r ≡ ok (true, l') → IsWellFormed l')
    → ((l' : Lobby) → r ≡ ok (false, l') → l' ≡ l)
    → ((e : Fault) → r ≡ fault e → ⊥)
    → IsSafe l r
IsSafe-cases l (ok (true, l')) granted refused faulty = granted l' refl
IsSafe-cases l (ok (false, l')) granted refused faulty = refused l' refl
IsSafe-cases l (fault e) granted refused faulty = faulty e refl

pub change_request_refused :
    (player : ℕ) (seat : ℤ) (initiator : ℕ) (l l' : Lobby)
    → apply_seat_positions_change_request player seat initiator l ≡ ok (false, l')
    → l' ≡ l
unfolding apply_seat_positions_change_request
change_request_refused player seat initiator l l' h = ground arith

change_request-ne-fault :
    (player : ℕ) (seat : ℤ) (initiator : ℕ) (l : Lobby) (x : Fault)
    → IsWellFormed l
    → is_some (get_player_profile_by_id l initiator) ≡ true
    → apply_seat_positions_change_request player seat initiator l ≢ fault x
unfolding apply_seat_positions_change_request is_seat_position_occupied
change_request-ne-fault player seat initiator l x w here h =
    elim (Option-cases (get_seat_position_by_id l player)) [
      | inl e ↦ ground (arith, e, here, h)
      | inr (current, e) ↦
          ground (arith, e, here, h, change_player_seat_position-succeeds player current seat l w e)
    ]

-- In a well-formed lobby, a request by one of its players to move a player to any seat that fits in
-- an `int` ends without an exception or a failed assert: granted, with a lobby that is well formed,
-- or refused, with the lobby as it was.
pub change_request-IsSafe :
    (player : ℕ) (seat : ℤ) (initiator : ℕ) (l : Lobby)
    → IsInt seat
    → IsWellFormed l
    → is_some (get_player_profile_by_id l initiator) ≡ true
    → IsSafe l (apply_seat_positions_change_request player seat initiator l)
change_request-IsSafe player seat initiator l i w here =
    IsSafe-cases l (apply_seat_positions_change_request player seat initiator l)
      (λ l' h.
        let (current, _, m) = change_request_MayMove player seat initiator l l' h in
        Moved-IsWellFormed player current seat l l' i w m)
      (λ l' h. change_request_refused player seat initiator l l' h)
      (λ x h. change_request-ne-fault player seat initiator l x w here h)

-- In a well-formed lobby where players may move, a request by somebody that is not in the lobby, to
-- move a player of it to a correct free place that is another than its own, ends in the exception
-- `logic_error`.
pub change_request_throws :
    (player : ℕ) (seat : ℤ) (initiator : ℕ) (current : ℤ) (l : Lobby)
    → IsWellFormed l
    → l.can_move_to_another_seat ≡ true
    → is_seat_position_correct l seat ≡ true
    → is_seat_position_occupied l seat ≡ ok false
    → get_seat_position_by_id l player ≡ some current
    → current ≢ seat
    → player ≢ initiator
    → get_player_profile_by_id l initiator ≡ none
    → apply_seat_positions_change_request player seat initiator l ≡ fault logic_error
unfolding apply_seat_positions_change_request get_player_profile_by_id
change_request_throws player seat initiator current l w can correct open_place located elsewhere
      other gone =
    ground (
      arith,
      can,
      correct,
      open_place,
      located,
      elsewhere,
      other,
      gone,
      (find_profile-count player l.profiles).1 (located_member player current l w located),
    )
