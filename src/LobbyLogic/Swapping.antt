-- ===== src/LobbyLogic/Swapping.antt =====
-- `applySeatPositionsSwapRequest`: the host exchanges two players.
use durak.Base.{ℕ, ◌≡◌, ◌≢◌, true, false, some, is_some, ℤ, arith, ok, ◌∙◌, count}
use durak.Seats.Views.{seat_of}
use durak.Lobby.{
  Lobby, queue_seat, get_seat_position_by_id, get_player_profile_by_id, swap_players_seat_positions,
}
use durak.Lobby.Invariant.{IsWellFormed, find_profile-count, located_member}
use durak.Lobby.Swap.{
  swap_from-lost, swap_players_seat_positions-swap_from, swap_players_seat_positions-IsWellFormed,
}
use durak.LobbyLogic.{is_host, apply_seat_positions_swap_request}

-- A swap that the server makes: the host asks, and the two players stand at different places.
pub record MaySwap (l : Lobby) (first second initiator : ℕ) (j k : ℤ) : Type 0 where
  pub by_host : is_host (get_player_profile_by_id l initiator) ≡ true
  pub first_place : get_seat_position_by_id l first ≡ some j
  pub second_place : get_seat_position_by_id l second ≡ some k
  pub apart : j ≢ k

pub known_player :
    (p : ℕ) (seat : ℤ) (l : Lobby)
    → IsWellFormed l
    → get_seat_position_by_id l p ≡ some seat
    → is_some (get_player_profile_by_id l p) ≡ true
unfolding get_player_profile_by_id
known_player p seat l w e = (find_profile-count p l.profiles).1 (located_member p seat l w e)

pub swap_request_made :
    (first second initiator : ℕ) (j k : ℤ) (l l' : Lobby)
    → IsWellFormed l
    → MaySwap l first second initiator j k
    → swap_players_seat_positions first second l ≡ ok l'
    → apply_seat_positions_swap_request first second initiator l ≡ ok (true, l')
unfolding apply_seat_positions_swap_request
swap_request_made first second initiator j k l l' w m r =
    let one = known_player first j l w m.first_place in
    let two = known_player second k l w m.second_place in
    ground (arith, one, two, m.by_host, m.first_place, m.second_place, m.apart, r)

-- In a well-formed lobby a request of a player with the host's role to swap two players at
-- different places, the second of them not in the queue, is granted and leads to a well-formed
-- lobby.
pub swap_request_granted :
    (first second initiator : ℕ) (j k : ℤ) (l : Lobby)
    → IsWellFormed l
    → MaySwap l first second initiator j k
    → k ≢ queue_seat
    → (l' : Lobby) × (apply_seat_positions_swap_request first second initiator l ≡ ok (true, l'))
      × IsWellFormed l'
swap_request_granted first second initiator j k l w m n =
    let (l', r, w') =
      swap_players_seat_positions-IsWellFormed first second j k l w m.first_place m.second_place
        m.apart n in
    (l', swap_request_made first second initiator j k l l' w m r, w')

-- In a well-formed lobby a request of a player with the host's role to swap a seated player with a
-- second one in the queue is granted, but the second player gets the seat -1 and leaves the queue,
-- the first keeps the seat and enters the queue as well, and the lobby is not well formed any more.
pub swap_request_lost :
    (first second initiator : ℕ) (j : ℤ) (l : Lobby)
    → IsWellFormed l
    → MaySwap l first second initiator j queue_seat
    → (l' : Lobby) × (apply_seat_positions_swap_request first second initiator l ≡ ok (true, l'))
      × (seat_of l'.seats second ≡ some queue_seat)
      × (count second l'.queue ≡ 0)
      × (seat_of l'.seats first ≡ some j)
      × (count first l'.queue ≡ 1)
      × ¬ IsWellFormed l'
swap_request_lost first second initiator j l w m =
    let (l', r, s, q, s', q') =
      swap_from-lost first second j l w m.first_place m.second_place m.apart in
    let made =
      swap_players_seat_positions-swap_from first second j queue_seat l w m.first_place
        m.second_place m.apart
      ∙ r in
    (
      l',
      swap_request_made first second initiator j queue_seat l l' w m made,
      s,
      q,
      s',
      q',
      λ w'. ground (arith, w'.real_seats second queue_seat s),
    )

-- Nobody but the host swaps players.
pub swap_request_by_others :
    (first second initiator : ℕ) (l : Lobby)
    → is_host (get_player_profile_by_id l initiator) ≡ false
    → apply_seat_positions_swap_request first second initiator l ≡ ok (false, l)
unfolding apply_seat_positions_swap_request
swap_request_by_others first second initiator l h = ground arith
