-- ===== src/ClientLobby/Mirror.antt =====
-- When a client's lobby shows what the server's lobby holds, and that moves of one player between
-- queue and seats keep it so. The maps may list their entries in another order.
use durak.Base.{
  ℕ, ◌≡◌, ◌≢◌, true, [], ◌∷◌, ◌++◌, none, some, is_some, ℤ, ℤ_discrete, count, without, arith,
  Option-cases, inl, inr, ok, if_pos, if_neg, sym, ◌∙◌, ap, ◌<◌,
}
use durak.Seats.{Seats}
use durak.Seats.Views.{at, seat_of, seat_of-erase_player}
use durak.Seats.Consistent.{
  IsConsistent, erase_player-IsConsistent, assign_seat-IsConsistent, seat_of-assign_seat,
}
use durak.Lobby.{
  Lobby, ids, find_profile, get_seat_position_by_id, get_player_profile_by_id, queue_seat,
}
use durak.Lobby as Lobby
use durak.Lobby.Invariant.{IsWellFormed, is_queued-count, find_profile-count}
use durak.ClientLobby.{
  ClientLobby, get_client_player_data_by_id, get_player_seat_index, take_seat, leave_seat,
  remove_from_queue, is_valid_seat_position, move_player_to_seat_position,
}

-- The client knows the same players, the same queue, the same seats and the same settings.
pub record Mirrors (l : Lobby) (c : ClientLobby) : Type 0 where
  pub consistent : IsConsistent c.seats
  pub same_seats : (p : ℕ) → seat_of c.seats p ≡ seat_of l.seats p
  pub same_queue : c.queue ≡ l.queue
  pub same_members :
      (p : ℕ) → is_some (get_client_player_data_by_id c p) ≡ is_some (find_profile p l.profiles)
  pub same_size : c.players_per_game ≡ l.players_per_game
  pub same_open : c.is_lobby_open ≡ l.is_lobby_open

-- Consistent maps that give every player the same seat give every seat the same player.
at_of_seats :
    (s t : Seats) (k : ℤ)
    → IsConsistent s
    → IsConsistent t
    → ((p : ℕ) → seat_of s p ≡ seat_of t p)
    → at s k ≡ at t k
at_of_seats s t k cs ct same = elim (Option-cases (at s k)) [
  | inl e ↦ elim (Option-cases (at t k)) [
    | inl e' ↦ e ∙ sym e'
    | inr (q, e') ↦ ground (arith, e, cs.player_to_seat k q (same q ∙ ct.seat_to_player k q e'))
  ]
  | inr (p, e) ↦ e ∙ sym (ct.player_to_seat k p (sym (same p) ∙ cs.seat_to_player k p e))
]

pub same_occupant :
    (l : Lobby) (c : ClientLobby) (k : ℤ)
    → IsWellFormed l
    → Mirrors l c
    → at c.seats k ≡ at l.seats k
same_occupant l c k w m = at_of_seats c.seats l.seats k m.consistent w.consistent m.same_seats

-- Both sides name the same place of a player.
pub same_place :
    (l : Lobby) (c : ClientLobby) (p : ℕ)
    → IsWellFormed l
    → Mirrors l c
    → get_player_seat_index c p ≡ get_seat_position_by_id l p
unfolding get_player_seat_index get_seat_position_by_id
same_place l c p w m =
    let queued : (0 < count p c.queue → 0 < count p l.queue) = rw m.same_queue (λ h. h) in
    let back : (0 < count p l.queue → 0 < count p c.queue) = rw m.same_queue (λ h. h) in
    ground (
      arith,
      m.same_seats p,
      m.same_members p,
      queued,
      back,
      is_queued-count p l.queue,
      find_profile-count p l.profiles,
      w.placed p,
    )

pub leave_seat-Mirrors :
    (p : ℕ) (current : ℤ) (l : Lobby) (c : ClientLobby)
    → Mirrors l c
    → Mirrors (Lobby.leave_seat p current l) (leave_seat p current c)
unfolding Lobby.leave_seat leave_seat remove_from_queue get_client_player_data_by_id
leave_seat-Mirrors p current l c m = elim (ℤ_discrete current queue_seat) [
  | yes q ↦
      rw (if_pos _ q, if_pos _ q)
        (record {
          consistent = m.consistent;
          same_seats = m.same_seats;
          same_queue = ap (without p) m.same_queue;
          same_members = m.same_members;
          same_size = m.same_size;
          same_open = m.same_open;
        })
  | no n ↦
      rw (if_neg _ n, if_neg _ n)
        (record {
          consistent = erase_player-IsConsistent p c.seats m.consistent;
          same_seats = λ r. ground (
            arith,
            m.same_seats r,
            seat_of-erase_player p r c.seats,
            seat_of-erase_player p r l.seats,
          );
          same_queue = m.same_queue;
          same_members = m.same_members;
          same_size = m.same_size;
          same_open = m.same_open;
        })
]

-- To a seat where the server has nobody, or to the queue.
pub take_seat-Mirrors :
    (p : ℕ) (seat : ℤ) (l : Lobby) (c : ClientLobby)
    → IsConsistent l.seats
    → Mirrors l c
    → Mirrors (Lobby.take_seat p seat l) (take_seat p seat c)
unfolding Lobby.take_seat take_seat get_client_player_data_by_id
take_seat-Mirrors p seat l c w m = elim (ℤ_discrete seat queue_seat) [
  | yes q ↦
      rw (if_pos _ q, if_pos _ q)
        (record {
          consistent = m.consistent;
          same_seats = m.same_seats;
          same_queue = ap (λ xs. xs ++ (p ∷ [])) m.same_queue;
          same_members = m.same_members;
          same_size = m.same_size;
          same_open = m.same_open;
        })
  | no n ↦
      rw (if_neg _ n, if_neg _ n)
        (record {
          consistent = assign_seat-IsConsistent p seat c.seats m.consistent;
          same_seats = λ r. ground (
            arith,
            m.same_seats r,
            at_of_seats c.seats l.seats seat m.consistent w m.same_seats,
            seat_of-assign_seat p seat r c.seats m.consistent,
            seat_of-assign_seat p seat r l.seats w,
          );
          same_queue = m.same_queue;
          same_members = m.same_members;
          same_size = m.same_size;
          same_open = m.same_open;
        })
]

-- The place a client is told of is one of the game it knows, and differs from the player's.
pub move-Mirrors :
    (p : ℕ) (current seat : ℤ) (l : Lobby) (c : ClientLobby)
    → IsWellFormed l
    → IsConsistent (Lobby.leave_seat p current l).seats
    → Mirrors l c
    → is_valid_seat_position c seat ≡ true
    → get_seat_position_by_id l p ≡ some current
    → current ≢ seat
    → at l.seats seat ≡ none
    → (c' : ClientLobby) × (move_player_to_seat_position p seat c ≡ ok c')
      × Mirrors (Lobby.take_seat p seat (Lobby.leave_seat p current l)) c'
unfolding move_player_to_seat_position
move-Mirrors p current seat l c w v m valid place other clear = (
  take_seat p seat (leave_seat p current c),
  ground (arith, valid, same_place l c p w m, place, same_occupant l c seat w m, clear, other),
  take_seat-Mirrors p seat (Lobby.leave_seat p current l) (leave_seat p current c) v
      (leave_seat-Mirrors p current l c m),
)
