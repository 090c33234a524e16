-- ===== src/ClientLobbyLogic/Follow.antt =====
-- A client that applies the notifications of the server keeps up with the server's lobby.
use durak.Base.{
  ℕ, ◌≡◌, true, false, ite, none, some, is_some, ℤ, ℤ_discrete, ℕ_discrete, count, arith,
  Option-cases, inl, inr, ok, ◌∙◌, sym, lookup-erase, without, ltb, Bool-cases, subst, ap,
}
use durak.Seats.Views.{at, seat_of-erase_player}
use durak.Seats.Consistent.{erase_player-IsConsistent}
use durak.Lobby.{
  Lobby, find_profile, queue_seat, erase_profile, delete_player, is_seat_position_occupied,
}
use durak.Lobby.Invariant.{IsWellFormed, find_profile-count}
use durak.Lobby.Moves.{leave_seat-IsAway}
use durak.Lobby.Members.{count-ids-erase_profile}
use durak.LobbyLogic.{apply_seat_positions_change_request}
use durak.LobbyLogic.Seating.{change_request_MayMove}
use durak.ClientLobby.{
  ClientLobby, get_client_player_data_by_id, get_player_seat_index, is_valid_seat_position,
  delete_client_player_data, remove_from_queue, get_player_id_by_seat_index,
}
use durak.ClientLobby.Mirror.{Mirrors, same_place, same_occupant, move-Mirrors}
use durak.ClientLobbyLogic.{apply_seat_positions_changed, apply_player_disconnected}

-- The queue's position is nobody's seat.
pub queue_clear : (l : Lobby) → IsWellFormed l → at l.seats queue_seat ≡ none
queue_clear l w = elim (Option-cases (at l.seats queue_seat)) [
  | inl e ↦ e
  | inr (p, e) ↦
      ground (arith, w.consistent.seat_to_player queue_seat p e, w.real_seats p queue_seat)
]

-- Where the server lets a player go, nobody sits, or it is the queue.
open_place_clear :
    (seat : ℤ) (l : Lobby)
    → IsWellFormed l
    → is_seat_position_occupied l seat ≡ ok false
    → at l.seats seat ≡ none
unfolding is_seat_position_occupied
open_place_clear seat l w h = elim (ℤ_discrete seat queue_seat) [
  | yes q ↦ rw q (queue_clear l w)
  | no n ↦ ground (arith, h, n)
]

-- Who has a place is in the client's map.
pub located_known :
    (p : ℕ) (seat : ℤ) (c : ClientLobby)
    → get_player_seat_index c p ≡ some seat
    → is_some (get_client_player_data_by_id c p) ≡ true
unfolding get_player_seat_index
located_known p seat c h = ground (arith, h)

-- If the server grants a request to move a player of a well-formed lobby to a place of the game or
-- to the queue, a client whose lobby mirrors the server's accepts the notification of the move, and
-- its lobby mirrors the server's again.
pub change_request-Mirrors :
    (player : ℕ) (seat : ℤ) (initiator : ℕ) (l l' : Lobby) (c : ClientLobby)
    → IsWellFormed l
    → Mirrors l c
    → is_valid_seat_position c seat ≡ true
    → apply_seat_positions_change_request player seat initiator l ≡ ok (true, l')
    → (c' : ClientLobby) × (apply_seat_positions_changed player seat c ≡ ok (true, c'))
      × Mirrors l' c'
unfolding apply_seat_positions_changed get_player_id_by_seat_index
change_request-Mirrors player seat initiator l l' c w m valid h =
    let (current, may, moved) = change_request_MayMove player seat initiator l l' h in
    let clear = open_place_clear seat l w may.open_place in
    let away = leave_seat-IsAway player current l w moved.from in
    let (c', r, m') =
      move-Mirrors player current seat l c w away.consistent m valid moved.from moved.other clear in
    let here = located_known player current c (same_place l c player w m ∙ moved.from) in
    (
      c',
      ground (arith, here, same_occupant l c seat w m, clear, r),
      subst (λ x. Mirrors x c') (sym moved.result) m',
    )

find_profile-erase_profile :
    (a b : ℕ) (l : Lobby)
    → is_some (find_profile b (erase_profile a l.profiles))
      ≡ ite (ℕ_discrete a b) false (is_some (find_profile b l.profiles))
find_profile-erase_profile a b l = ground (
  arith,
  find_profile-count b (erase_profile a l.profiles),
  find_profile-count b l.profiles,
  count-ids-erase_profile a b l.profiles,
)

-- After a player has left a well-formed lobby, a client whose lobby mirrored the server's and that
-- applies the notification mirrors it again.
pub disconnected-Mirrors :
    (player : ℕ) (l : Lobby) (c : ClientLobby)
    → IsWellFormed l
    → Mirrors l c
    → Mirrors (delete_player player l) (apply_player_disconnected player c)
unfolding delete_player apply_player_disconnected delete_client_player_data remove_from_queue
    get_client_player_data_by_id
disconnected-Mirrors player l c w m = record {
  consistent = elim (Bool-cases (ltb 0 (count player c.queue))) [
    | inl e ↦ rw e m.consistent
    | inr e ↦ rw e (erase_player-IsConsistent player c.seats m.consistent)
  ];
  same_seats = λ r. ground (
    arith,
    m.same_seats r,
    w.placed player,
    w.roster.once player,
    m.same_queue,
    seat_of-erase_player player r c.seats,
    seat_of-erase_player player r l.seats,
  );
  same_queue = ap (without player) m.same_queue;
  same_members = λ r. ground (
    arith,
    m.same_members r,
    lookup-erase ℕ_discrete player r c.players,
    find_profile-erase_profile player r l,
  );
  same_size = m.same_size;
  same_open = m.same_open;
}
