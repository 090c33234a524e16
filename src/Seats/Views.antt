-- ===== src/Seats/Views.antt =====
-- What each operation of `Seats` does to the two lookups, whatever the state. The proofs about lobbies
-- use these laws and leave the maps shut.
use durak.Base.{
  ℕ, ℤ, ◌≡◌, ite, Option, none, some, arith, lookup-insert, lookup-erase, ℕ_discrete, ℤ_discrete,
  Option-cases, inl, inr,
}
use durak.Seats.{
  Seats, get_player_id_by_seat_position, get_seat_position_by_player_id, erase_from_maps,
  put_in_maps, cross, erase_player,
}

unfoldable pub Option_discrete : Discrete (Option ℕ)
Option_discrete = hlevel ℕ_discrete

abbrev pub at : Seats → ℤ → Option ℕ
at = get_player_id_by_seat_position

abbrev pub seat_of : Seats → ℕ → Option ℤ
seat_of = get_seat_position_by_player_id

pub at-erase_from_maps :
    (seat k : ℤ) (player : ℕ) (s : Seats)
    → at (erase_from_maps seat player s) k ≡ ite (ℤ_discrete seat k) none (at s k)
unfolding get_player_id_by_seat_position erase_from_maps
at-erase_from_maps seat k player s = lookup-erase ℤ_discrete seat k s.player_id_by_seat_position

pub seat_of-erase_from_maps :
    (seat : ℤ) (player p : ℕ) (s : Seats)
    → seat_of (erase_from_maps seat player s) p ≡ ite (ℕ_discrete player p) none (seat_of s p)
unfolding get_seat_position_by_player_id erase_from_maps
seat_of-erase_from_maps seat player p s =
    lookup-erase ℕ_discrete player p s.seat_position_by_player_id

pub at-put_in_maps :
    (player : ℕ) (seat k : ℤ) (s : Seats)
    → at (put_in_maps player seat s) k ≡ ite (ℤ_discrete seat k) (some player) (at s k)
unfolding get_player_id_by_seat_position put_in_maps
at-put_in_maps player seat k s = lookup-insert ℤ_discrete seat k player s.player_id_by_seat_position

pub seat_of-put_in_maps :
    (player p : ℕ) (seat : ℤ) (s : Seats)
    → seat_of (put_in_maps player seat s) p ≡ ite (ℕ_discrete player p) (some seat) (seat_of s p)
unfolding get_seat_position_by_player_id put_in_maps
seat_of-put_in_maps player p seat s =
    lookup-insert ℕ_discrete player p seat s.seat_position_by_player_id

pub at-cross :
    (first second : ℕ) (first_seat second_seat k : ℤ) (s : Seats)
    → at (cross first first_seat second second_seat s) k
      ≡ ite
          (ℤ_discrete second_seat k)
          (some first)
          (ite (ℤ_discrete first_seat k) (some second) (at s k))
unfolding get_player_id_by_seat_position cross
at-cross first second first_seat second_seat k s =
    rw (lookup-insert ℤ_discrete second_seat k, lookup-insert ℤ_discrete first_seat k)

pub seat_of-cross :
    (first second p : ℕ) (first_seat second_seat : ℤ) (s : Seats)
    → seat_of (cross first first_seat second second_seat s) p
      ≡ ite
          (ℕ_discrete second p)
          (some first_seat)
          (ite (ℕ_discrete first p) (some second_seat) (seat_of s p))
unfolding get_seat_position_by_player_id cross
seat_of-cross first second p first_seat second_seat s =
    rw (lookup-insert ℕ_discrete second p, lookup-insert ℕ_discrete first p)

-- In `erase(playerId)` the entry of the player goes, whatever the seats say.
pub seat_of-erase_player :
    (player p : ℕ) (s : Seats)
    → seat_of (erase_player player s) p ≡ ite (ℕ_discrete player p) none (seat_of s p)
unfolding erase_player
seat_of-erase_player player p s = elim (Option-cases (seat_of s player)) [
  | inl e ↦ rw (e, erase_player) (ground (arith, e))
  | inr (k, e) ↦ rw (e, erase_player) (seat_of-erase_from_maps k player p s)
]

-- On consistent maps the seat of the player empties, and no other changes.
pub at-erase_player :
    (player : ℕ) (k : ℤ) (s : Seats)
    → (at s k ≡ some player → seat_of s player ≡ some k)
    → (seat_of s player ≡ some k → at s k ≡ some player)
    → at (erase_player player s) k ≡ ite (Option_discrete (at s k) (some player)) none (at s k)
unfolding erase_player
at-erase_player player k s there back = elim (Option-cases (seat_of s player)) [
  | inl e ↦ rw (e, erase_player) (ground (arith, e))
  | inr (j, e) ↦ rw (e, erase_player) (ground (arith, e, at-erase_from_maps j k player s))
]
