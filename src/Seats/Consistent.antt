-- ===== src/Seats/Consistent.antt =====
-- The two maps mirror one another: the invariant of SeatPositionsState, kept by every operation.
use durak.Base.{
  ℕ, ℤ, ◌≡◌, ◌≢◌, ite, Option, none, some, arith, ℕ_discrete, Option-cases, inl, inr, ok, fault,
  out_of_range, ◌↔◌, ◌⊎◌,
}
use durak.Seats.{
  Seats, erase_from_maps, put_in_maps, cross, erase_player, erase_seat, displace, assign_seat,
  swap_players,
}
use durak.Seats.Views.{
  at, seat_of, at-erase_from_maps, seat_of-erase_from_maps, at-put_in_maps, seat_of-put_in_maps,
  at-cross, seat_of-cross, seat_of-erase_player, Option_discrete, at-erase_player,
}

pub record IsConsistent (s : Seats) : Type 0 where
  pub seat_to_player : (k : ℤ) (p : ℕ) → at s k ≡ some p → seat_of s p ≡ some k
  pub player_to_seat : (k : ℤ) (p : ℕ) → seat_of s p ≡ some k → at s k ≡ some p

erase_from_maps-IsConsistent :
    (k : ℤ) (p : ℕ) (s : Seats)
    → IsConsistent s
    → at s k ≡ some p
    → IsConsistent (erase_from_maps k p s)
erase_from_maps-IsConsistent k p s c e = record {
  seat_to_player = λ j q h. ground (
    arith,
    at-erase_from_maps k j p s,
    seat_of-erase_from_maps k p q s,
    c.seat_to_player j q,
    c.seat_to_player k p,
    c.player_to_seat k p,
    h,
  );
  player_to_seat = λ j q h. ground (
    arith,
    at-erase_from_maps k j p s,
    seat_of-erase_from_maps k p q s,
    c.player_to_seat j q,
    c.seat_to_player k p,
    h,
  );
}

pub erase_player-IsConsistent :
    (p : ℕ) (s : Seats) → IsConsistent s → IsConsistent (erase_player p s)
unfolding erase_player
erase_player-IsConsistent p s c = elim (Option-cases (seat_of s p)) [
  | inl e ↦ rw (e, erase_player) c
  | inr (k, e) ↦
      rw (e, erase_player) (erase_from_maps-IsConsistent k p s c (c.player_to_seat k p e))
]

erase_seat-IsConsistent : (k : ℤ) (s : Seats) → IsConsistent s → IsConsistent (erase_seat k s)
unfolding erase_seat
erase_seat-IsConsistent k s c = elim (Option-cases (at s k)) [
  | inl e ↦ rw (e, erase_seat) c
  | inr (p, e) ↦ rw (e, erase_seat) (erase_from_maps-IsConsistent k p s c e)
]

put_in_maps-IsConsistent :
    (p : ℕ) (k : ℤ) (s : Seats)
    → IsConsistent s
    → seat_of s p ≡ none
    → at s k ≡ none
    → IsConsistent (put_in_maps p k s)
put_in_maps-IsConsistent p k s c np nk = record {
  seat_to_player = λ j q h.
      ground (arith, at-put_in_maps p k j s, seat_of-put_in_maps p q k s, c.seat_to_player j q, h);
  player_to_seat = λ j q h.
      ground (arith, at-put_in_maps p k j s, seat_of-put_in_maps p q k s, c.player_to_seat j q, h);
}

pub cross-IsConsistent :
    (p q : ℕ) (j k : ℤ) (s : Seats)
    → IsConsistent s
    → seat_of s p ≡ some j
    → seat_of s q ≡ some k
    → IsConsistent (cross p j q k s)
cross-IsConsistent p q j k s c ep eq = record {
  seat_to_player = λ i r h. ground (
    arith,
    at-cross p q j k i s,
    seat_of-cross p q r j k s,
    c.seat_to_player i r,
    c.player_to_seat j p,
    c.player_to_seat k q,
    h,
  );
  player_to_seat = λ i r h. ground (
    arith,
    at-cross p q j k i s,
    seat_of-cross p q r j k s,
    c.player_to_seat i r,
    c.player_to_seat j p,
    c.player_to_seat k q,
    h,
  );
}

displace-empties : (k : ℤ) (s : Seats) → IsConsistent s → at (displace (at s k) s) k ≡ none
unfolding displace
displace-empties k s c = elim (Option-cases (at s k)) [
  | inl e ↦ rw (e, displace) e
  | inr (q, e) ↦
      rw (e, displace)
        (ground (arith, at-erase_player q k s, c.seat_to_player k q, c.player_to_seat k q, e))
]

displace-IsConsistent : (o : Option ℕ) (s : Seats) → IsConsistent s → IsConsistent (displace o s)
unfolding displace
displace-IsConsistent none s c = c
displace-IsConsistent (some q) s c = erase_player-IsConsistent q s c

displace-seat_of :
    (o : Option ℕ) (p : ℕ) (s : Seats) → seat_of s p ≡ none → seat_of (displace o s) p ≡ none
unfolding displace
displace-seat_of none p s e = e
displace-seat_of (some q) p s e = ground (arith, seat_of-erase_player q p s, e)

-- If the two maps mirror one another, they do so after `assignSeat` as well.
pub assign_seat-IsConsistent :
    (p : ℕ) (k : ℤ) (s : Seats) → IsConsistent s → IsConsistent (assign_seat p k s).0
unfolding assign_seat
assign_seat-IsConsistent p k s c =
    let s' = erase_player p s in
    let c' = erase_player-IsConsistent p s c in
    put_in_maps-IsConsistent p k (displace (at s' k) s') (displace-IsConsistent (at s' k) s' c')
      (displace-seat_of (at s' k) p s' (ground (arith, seat_of-erase_player p p s)))
      (displace-empties k s' c')

displace-seat_of_other :
    (o : Option ℕ) (r : ℕ) (s : Seats)
    → seat_of (displace o s) r ≡ ite (Option_discrete o (some r)) none (seat_of s r)
unfolding displace
displace-seat_of_other none r s = ground arith
displace-seat_of_other (some q) r s = ground (arith, seat_of-erase_player q r s)

-- With maps that mirror one another, after `assignSeat` the player has the seat, another player
-- that sat there has none, and everybody else has the seat as before.
pub seat_of-assign_seat :
    (p : ℕ) (k : ℤ) (r : ℕ) (s : Seats)
    → IsConsistent s
    → seat_of (assign_seat p k s).0 r
      ≡ ite (ℕ_discrete p r) (some k) (ite (Option_discrete (at s k) (some r)) none (seat_of s r))
unfolding assign_seat
seat_of-assign_seat p k r s c =
    let s' = erase_player p s in
    ground (
      arith,
      seat_of-put_in_maps p r k (displace (at s' k) s'),
      displace-seat_of_other (at s' k) r s',
      at-erase_player p k s (c.seat_to_player k p) (c.player_to_seat k p),
      seat_of-erase_player p r s,
      c.seat_to_player k p,
      c.seat_to_player k r,
    )

-- With maps that mirror one another, `assignSeat` reports the player that sat on the seat, and
-- nobody if that is the player that is assigned.
pub assign_seat_displaced :
    (p : ℕ) (k : ℤ) (s : Seats)
    → IsConsistent s
    → (assign_seat p k s).1 ≡ ite (Option_discrete (at s k) (some p)) none (at s k)
unfolding assign_seat
assign_seat_displaced p k s c = at-erase_player p k s (c.seat_to_player k p) (c.player_to_seat k p)

-- With maps that mirror one another, a swap of two seated players succeeds: the maps still mirror
-- one another, the two seats are exchanged, and everybody else keeps the seat.
pub swap_players-exchanges :
    (p q : ℕ) (j k : ℤ) (s : Seats)
    → IsConsistent s
    → seat_of s p ≡ some j
    → seat_of s q ≡ some k
    → (t : Seats) × (swap_players p q s ≡ ok t)
      × IsConsistent t
      × (seat_of t p ≡ some k)
      × (seat_of t q ≡ some j)
      × ((r : ℕ) → r ≢ p → r ≢ q → seat_of t r ≡ seat_of s r)
unfolding swap_players
swap_players-exchanges p q j k s c ep eq = (
  cross p j q k s,
  rw (ep, eq),
  cross-IsConsistent p q j k s c ep eq,
  ground (arith, seat_of-cross p q p j k s, ep, eq),
  ground (arith, seat_of-cross p q q j k s, ep, eq),
  λ r np nq. ground (arith, seat_of-cross p q r j k s, np, nq),
)

-- A swap throws `out_of_range` exactly if one of the two players has no seat.
pub swap_players-out_of_range :
    (p q : ℕ) (s : Seats)
    → (swap_players p q s ≡ fault out_of_range) ↔ ((seat_of s p ≡ none) ⊎ (seat_of s q ≡ none))
unfolding swap_players
swap_players-out_of_range p q s = ground arith
