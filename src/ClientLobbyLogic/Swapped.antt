-- ===== src/ClientLobbyLogic/Swapped.antt =====
-- `applySeatPositionsSwapped` and `swapPlayersSeatPositions` of the client, beside the server's swap.
use durak.Base.{
  ℕ, ◌≡◌, ◌≢◌, refl, true, none, some, ℤ, ℤ_discrete, count, arith, ok, replace_first,
  count-replace_first, if_pos, if_neg, ap, sym, ◌∙◌, subst,
}
use durak.Seats.{swap_players, cross, assign_seat}
use durak.Seats.Views.{seat_of, seat_of-cross}
use durak.Seats.Consistent.{cross-IsConsistent, assign_seat-IsConsistent, seat_of-assign_seat}
use durak.Lobby.{Lobby, get_seat_position_by_id, queue_seat}
use durak.Lobby as Lobby
use durak.Lobby.Invariant.{IsWellFormed, located_seat, located_queue}
use durak.Lobby.Swap.{
  swap_players_seat_positions-swap_from, swap_players_seat_positions-IsWellFormed,
}
use durak.LobbyLogic.{apply_seat_positions_swap_request}
use durak.LobbyLogic.Swapping.{MaySwap, swap_request_made}
use durak.ClientLobby.{
  ClientLobby, get_client_player_data_by_id, get_player_seat_index, swap_from,
  swap_players_seat_positions,
}
use durak.ClientLobby.Mirror.{Mirrors, same_place, same_occupant}
use durak.ClientLobbyLogic.{apply_seat_positions_swapped}
use durak.ClientLobbyLogic.Follow.{located_known}

-- Out of the queue onto the seat of the second player.
swap_from_queue-Mirrors :
    (first second : ℕ) (k : ℤ) (l l' : Lobby) (c : ClientLobby)
    → IsWellFormed l
    → Mirrors l c
    → Lobby.swap_from first queue_seat second k l ≡ ok l'
    → (c' : ClientLobby) × (swap_from first queue_seat second k c ≡ ok c') × Mirrors l' c'
unfolding Lobby.swap_from swap_from get_client_player_data_by_id
swap_from_queue-Mirrors first second k l l' c w m h =
    let c' : ClientLobby = record c {
      queue = replace_first first second c.queue;
      seats = (assign_seat first k c.seats).0;
    } in
    let result : record l {
      queue = replace_first first second l.queue;
      seats = (assign_seat first k l.seats).0;
    }
        ≡ l' =
      ground (arith, h) in
    (
      c',
      rw (if_pos _ refl),
      subst (λ x. Mirrors x c') result
          (record {
            consistent = assign_seat-IsConsistent first k c.seats m.consistent;
            same_seats = λ r. ground (
              arith,
              m.same_seats r,
              same_occupant l c k w m,
              seat_of-assign_seat first k r c.seats m.consistent,
              seat_of-assign_seat first k r l.seats w.consistent,
            );
            same_queue = ap (replace_first first second) m.same_queue;
            same_members = m.same_members;
            same_size = m.same_size;
            same_open = m.same_open;
          }),
    )

-- Two seated players.
swap_from_seats-Mirrors :
    (first second : ℕ) (j k : ℤ) (l l' : Lobby) (c : ClientLobby)
    → Mirrors l c
    → seat_of l.seats first ≡ some j
    → seat_of l.seats second ≡ some k
    → j ≢ queue_seat
    → k ≢ queue_seat
    → Lobby.swap_from first j second k l ≡ ok l'
    → (c' : ClientLobby) × (swap_from first j second k c ≡ ok c') × Mirrors l' c'
unfolding Lobby.swap_from swap_from swap_players get_client_player_data_by_id
swap_from_seats-Mirrors first second j k l l' c m ej ek nj nk h =
    let cj : seat_of c.seats first ≡ some j = m.same_seats first ∙ ej in
    let ck : seat_of c.seats second ≡ some k = m.same_seats second ∙ ek in
    let result : record l { seats = cross first j second k l.seats } ≡ l' =
      ground (arith, h, nj, nk, ej, ek) in
    (
      record c { seats = cross first j second k c.seats },
      rw (if_neg _ nj, if_neg _ nk, cj, ck),
      subst (λ x. Mirrors x (record c { seats = cross first j second k c.seats })) result
          (record {
            consistent = cross-IsConsistent first second j k c.seats m.consistent cj ck;
            same_seats = λ r. ground (
              arith,
              m.same_seats r,
              seat_of-cross first second r j k c.seats,
              seat_of-cross first second r j k l.seats,
            );
            same_queue = m.same_queue;
            same_members = m.same_members;
            same_size = m.same_size;
            same_open = m.same_open;
          }),
    )

swap_from-Mirrors :
    (first second : ℕ) (j k : ℤ) (l l' : Lobby) (c : ClientLobby)
    → IsWellFormed l
    → Mirrors l c
    → get_seat_position_by_id l first ≡ some j
    → get_seat_position_by_id l second ≡ some k
    → k ≢ queue_seat
    → Lobby.swap_from first j second k l ≡ ok l'
    → (c' : ClientLobby) × (swap_from first j second k c ≡ ok c') × Mirrors l' c'
swap_from-Mirrors first second j k l l' c w m e f n h = elim (ℤ_discrete j queue_seat) [
  | yes q ↦ rw q (swap_from_queue-Mirrors first second k l l' c w m (rw q at h))
  | no nj ↦
      swap_from_seats-Mirrors first second j k l l' c m (located_seat first j l w e nj).1
        (located_seat second k l w f n).1 nj n h
]

-- What passes the tests of `applySeatPositionsSwapped` and the asserts behind it.
swapped-swap_from :
    (first second : ℕ) (j k : ℤ) (c c' : ClientLobby)
    → get_player_seat_index c first ≡ some j
    → get_player_seat_index c second ≡ some k
    → j ≢ k
    → swap_from first j second k c ≡ ok c'
    → apply_seat_positions_swapped first second c ≡ ok (true, c')
unfolding apply_seat_positions_swapped swap_players_seat_positions
swapped-swap_from first second j k c c' e f n h =
    let apart : first ≢ second = λ q. ground (arith, q, e, f, n) in
    ground (arith, e, f, n, h, apart, located_known first j c e, located_known second k c f)

-- A swap that the host asks for, of two players at different places, the second of them not in the
-- queue, is granted in a well-formed lobby; a client whose lobby mirrors the server's accepts the
-- notification of it, and its lobby mirrors the server's again.
pub swap_request-Mirrors :
    (first second initiator : ℕ) (j k : ℤ) (l : Lobby) (c : ClientLobby)
    → IsWellFormed l
    → Mirrors l c
    → MaySwap l first second initiator j k
    → k ≢ queue_seat
    → (l' : Lobby) × (c' : ClientLobby) × (apply_seat_positions_swap_request first second initiator
          l
        ≡ ok (true, l'))
      × (apply_seat_positions_swapped first second c ≡ ok (true, c'))
      × IsWellFormed l'
      × Mirrors l' c'
swap_request-Mirrors first second initiator j k l c w m may n =
    let (l', made, w') =
      swap_players_seat_positions-IsWellFormed first second j k l w may.first_place may.second_place
        may.apart n in
    let inner : Lobby.swap_from first j second k l ≡ ok l' =
      sym (
        swap_players_seat_positions-swap_from first second j k l w may.first_place may.second_place
          may.apart)
      ∙ made in
    let (c', done, m') =
      swap_from-Mirrors first second j k l l' c w m may.first_place may.second_place n inner in
    (
      l',
      c',
      swap_request_made first second initiator j k l l' w may made,
      swapped-swap_from first second j k c c' (same_place l c first w m ∙ may.first_place)
          (same_place l c second w m ∙ may.second_place) may.apart done,
      w',
      m',
    )

-- In a client whose lobby mirrors a well-formed one, the notification that a seated player was
-- swapped with a second one in the queue is accepted, but the second player ends with no place at
-- all, and the first one both on its old seat and in the queue.
pub swapped_loses_second :
    (first second : ℕ) (j : ℤ) (l : Lobby) (c : ClientLobby)
    → IsWellFormed l
    → Mirrors l c
    → get_seat_position_by_id l first ≡ some j
    → get_seat_position_by_id l second ≡ some queue_seat
    → j ≢ queue_seat
    → (c' : ClientLobby) × (apply_seat_positions_swapped first second c ≡ ok (true, c'))
      × (get_player_seat_index c' second ≡ none)
      × (get_player_seat_index c' first ≡ some j)
      × (count first c'.queue ≡ 1)
unfolding swap_from get_player_seat_index get_client_player_data_by_id
swapped_loses_second first second j l c w m e f n =
    let (nq, seated) = located_seat first j l w e n in
    let (q, nowhere) = located_queue second l w f in
    let here = located_known first j c (same_place l c first w m ∙ e) in
    let two = located_known second queue_seat c (same_place l c second w m ∙ f) in
    let qc : count second c.queue ≡ 1 = rw m.same_queue q in
    let nqc : count first c.queue ≡ 0 = rw m.same_queue nq in
    let keeps = seat_of-assign_seat first j first c.seats m.consistent in
    let none_two = seat_of-assign_seat first j second c.seats m.consistent in
    let c' : ClientLobby = record c {
      queue = replace_first second first c.queue;
      seats = (assign_seat first j c.seats).0;
    } in
    (
      c',
      swapped-swap_from first second j queue_seat c c' (same_place l c first w m ∙ e)
          (same_place l c second w m ∙ f) n (rw (if_neg _ n, if_pos _ refl)),
      ground (
        arith,
        two,
        none_two,
        qc,
        nowhere,
        m.same_seats second,
        seated,
        nqc,
        count-replace_first second first second c.queue,
      ),
      ground (arith, here, keeps),
      ground (arith, qc, nqc, seated, nowhere, count-replace_first second first first c.queue),
    )
