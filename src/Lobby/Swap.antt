-- ===== src/Lobby/Swap.antt =====
-- Two players exchange places: `swapPlayersSeatPositions`.
use durak.Base.{
  ℕ, ◌≡◌, ◌≢◌, refl, some, ℤ, ℤ_discrete, count, arith, replace_first, count-replace_first, ok, ◌∙◌,
  ap, if_pos, if_neg,
}
use durak.Seats.{assign_seat}
use durak.Seats.Views.{seat_of}
use durak.Seats.Consistent.{assign_seat-IsConsistent, seat_of-assign_seat}
use durak.Seats.{swap_players, cross}
use durak.Seats.Views.{seat_of-cross}
use durak.Seats.Consistent.{cross-IsConsistent}
use durak.Lobby.{
  Lobby, get_seat_position_by_id, queue_seat, swap_from, swap_players_seat_positions,
  get_player_profile_by_id,
}
use durak.Lobby.Invariant.{
  IsWellFormed, find_profile-count, located_queue, located_seat, located_member,
}

-- The first player comes out of the queue: the two exchange places.
pub swap_from-queue :
    (first second : ℕ) (seat : ℤ) (l : Lobby)
    → IsWellFormed l
    → get_seat_position_by_id l first ≡ some queue_seat
    → get_seat_position_by_id l second ≡ some seat
    → seat ≢ queue_seat
    → (l' : Lobby) × (swap_from first queue_seat second seat l ≡ ok l')
      × IsWellFormed l'
      × (seat_of l'.seats first ≡ some seat)
      × (count second l'.queue ≡ 1)
unfolding swap_from
swap_from-queue first second seat l w e f n =
    let (q, nowhere) = located_queue first l w e in
    let (nq, seated) = located_seat second seat l w f n in
    (
      record l {
        queue = replace_first first second l.queue;
        seats = (assign_seat first seat l.seats).0;
      },
      rw (if_pos _ refl),
      record {
        roster = w.roster;
        consistent = assign_seat-IsConsistent first seat l.seats w.consistent;
        placed = λ r. ground (
          arith,
          count-replace_first first second r l.queue,
          q,
          nowhere,
          nq,
          seated,
          seat_of-assign_seat first seat r l.seats w.consistent,
          w.placed r,
          w.consistent.player_to_seat seat second,
        );
        real_seats = λ r k h. ground (
          arith,
          seat_of-assign_seat first seat r l.seats w.consistent,
          w.real_seats r k,
          w.real_seats second seat seated,
          h,
        );
      },
      ground (arith, seat_of-assign_seat first seat first l.seats w.consistent),
      ground (arith, count-replace_first first second second l.queue, q, nq, nowhere, seated),
    )

-- Two seated players exchange their seats.
pub swap_from-seats :
    (first second : ℕ) (j k : ℤ) (l : Lobby)
    → IsWellFormed l
    → get_seat_position_by_id l first ≡ some j
    → get_seat_position_by_id l second ≡ some k
    → j ≢ queue_seat
    → k ≢ queue_seat
    → (l' : Lobby) × (swap_from first j second k l ≡ ok l')
      × IsWellFormed l'
      × (seat_of l'.seats first ≡ some k)
      × (seat_of l'.seats second ≡ some j)
unfolding swap_from swap_players
swap_from-seats first second j k l w e f nj nk =
    let (q, ej) = located_seat first j l w e nj in
    let (r, ek) = located_seat second k l w f nk in
    (
      record l { seats = cross first j second k l.seats },
      rw (if_neg _ nj, if_neg _ nk, ej, ek),
      record {
        roster = w.roster;
        consistent = cross-IsConsistent first second j k l.seats w.consistent ej ek;
        placed = λ a. ground (arith, seat_of-cross first second a j k l.seats, w.placed a, ej, ek);
        real_seats = λ a i h. ground (
          arith,
          seat_of-cross first second a j k l.seats,
          w.real_seats a i,
          w.real_seats first j ej,
          w.real_seats second k ek,
          h,
        );
      },
      ground (arith, seat_of-cross first second first j k l.seats, ej, ek),
      ground (arith, seat_of-cross first second second j k l.seats, ej, ek),
    )

-- The first player sits and the second waits in the queue: the branch assigns the second player to
-- the queue's position instead of the first player's seat.
pub swap_from-lost :
    (first second : ℕ) (j : ℤ) (l : Lobby)
    → IsWellFormed l
    → get_seat_position_by_id l first ≡ some j
    → get_seat_position_by_id l second ≡ some queue_seat
    → j ≢ queue_seat
    → (l' : Lobby) × (swap_from first j second queue_seat l ≡ ok l')
      × (seat_of l'.seats second ≡ some queue_seat)
      × (count second l'.queue ≡ 0)
      × (seat_of l'.seats first ≡ some j)
      × (count first l'.queue ≡ 1)
unfolding swap_from
swap_from-lost first second j l w e f nj =
    let (nq, seated) = located_seat first j l w e nj in
    let (q, nowhere) = located_queue second l w f in
    (
      record l {
        queue = replace_first second first l.queue;
        seats = (assign_seat second queue_seat l.seats).0;
      },
      rw (if_neg _ nj, if_pos _ refl),
      ground (arith, seat_of-assign_seat second queue_seat second l.seats w.consistent),
      ground (arith, count-replace_first second first second l.queue, q, seated, nowhere),
      ground (
        arith,
        seat_of-assign_seat second queue_seat first l.seats w.consistent,
        seated,
        nowhere,
        w.consistent.seat_to_player queue_seat first,
        nj,
      ),
      ground (arith, count-replace_first second first first l.queue, q, nq, seated, nowhere),
    )

-- In a well-formed lobby a swap of two players at different places gets as far as the branches.
pub swap_players_seat_positions-swap_from :
    (first second : ℕ) (j k : ℤ) (l : Lobby)
    → IsWellFormed l
    → get_seat_position_by_id l first ≡ some j
    → get_seat_position_by_id l second ≡ some k
    → j ≢ k
    → swap_players_seat_positions first second l ≡ swap_from first j second k l
unfolding swap_players_seat_positions get_player_profile_by_id
swap_players_seat_positions-swap_from first second j k l w e f n =
    let one = (find_profile-count first l.profiles).1 (located_member first j l w e) in
    let two = (find_profile-count second l.profiles).1 (located_member second k l w f) in
    ground (arith, one, two, e, f, n)

-- In a well-formed lobby a swap of two players at different places, the second of them not in the
-- queue, succeeds and leads to a well-formed lobby.
pub swap_players_seat_positions-IsWellFormed :
    (first second : ℕ) (j k : ℤ) (l : Lobby)
    → IsWellFormed l
    → get_seat_position_by_id l first ≡ some j
    → get_seat_position_by_id l second ≡ some k
    → j ≢ k
    → k ≢ queue_seat
    → (l' : Lobby) × (swap_players_seat_positions first second l ≡ ok l') × IsWellFormed l'
swap_players_seat_positions-IsWellFormed first second j k l w e f n nk =
    let step = swap_players_seat_positions-swap_from first second j k l w e f n in
    elim (ℤ_discrete j queue_seat) [
      | yes q ↦
          let (l', r, w', _, _) = swap_from-queue first second k l w (e ∙ ap some q) f nk in
          (l', step ∙ ap (λ i. swap_from first i second k l) q ∙ r, w')
      | no nj ↦
          let (l', r, w', _, _) = swap_from-seats first second j k l w e f nj nk in
          (l', step ∙ r, w')
    ]
