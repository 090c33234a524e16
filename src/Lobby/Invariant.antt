-- ===== src/Lobby/Invariant.antt =====
-- The invariant of LobbyState: every player of the lobby is in the queue or on one seat, never both.
use durak.Base.{
  ℕ, ◌+◌, ◌≤◌, ◌<◌, ◌≡◌, ◌≢◌, ◌↔◌, refl, true, false, List, [], ◌∷◌, Option, none, some, is_some, ℤ,
  is_negative, length, count, arith, suc, length-lt_of_count, ap, lookup,
}
use durak.Seats.{get_player_id_by_seat_position, no_seats, get_seat_position_by_player_id}
use durak.Seats.Views.{seat_of}
use durak.Seats.Consistent.{IsConsistent}
use durak.Protocol.{Profile}
use durak.Lobby.{
  Lobby, new_lobby, ids, find_profile, is_queued, max_players_in_lobby, max_players_per_game,
  min_players_per_game, get_seat_position_by_id, queue_seat,
}

-- 1 for a player with a seat, 0 for one without.
abbrev pub on_seat : Option ℤ → ℕ
on_seat none = 0
on_seat (some k) = 1

-- The players of the lobby and the size of the game, which moves leave alone.
pub record IsRoster (profiles : List Profile) (players_per_game : ℕ) : Type 0 where
  pub once : (p : ℕ) → count p (ids profiles) ≤ 1
  pub room : length profiles ≤ max_players_in_lobby
  pub at_least : min_players_per_game ≤ players_per_game
  pub at_most : players_per_game ≤ max_players_per_game

pub record IsWellFormed (l : Lobby) : Type 0 where
  pub roster : IsRoster l.profiles l.players_per_game
  pub consistent : IsConsistent l.seats
  -- In the queue and on a seat together exactly as often as in the lobby.
  pub placed : (p : ℕ) → count p l.queue + on_seat (seat_of l.seats p) ≡ count p (ids l.profiles)
  -- The queue's position, -1, is nobody's seat.
  pub real_seats : (p : ℕ) (k : ℤ) → seat_of l.seats p ≡ some k → is_negative k ≡ false

-- The same while one player of the lobby is on the way from one place to another.
pub record IsAway (player : ℕ) (l : Lobby) : Type 0 where
  pub roster : IsRoster l.profiles l.players_per_game
  pub consistent : IsConsistent l.seats
  pub present : count player (ids l.profiles) ≡ 1
  pub unplaced : count player l.queue + on_seat (seat_of l.seats player) ≡ 0
  pub placed :
      (p : ℕ)
      → p ≢ player
      → count p l.queue + on_seat (seat_of l.seats p) ≡ count p (ids l.profiles)
  pub real_seats : (p : ℕ) (k : ℤ) → seat_of l.seats p ≡ some k → is_negative k ≡ false

pub is_queued-count : (p : ℕ) (xs : List ℕ) → (is_queued p xs ≡ true) ↔ (0 < count p xs)
unfolding is_queued
is_queued-count p [] = ground arith
is_queued-count p (x ∷ xs) = ground (arith, is_queued-count p xs)

pub find_profile-count :
    (p : ℕ) (ps : List Profile) → (is_some (find_profile p ps) ≡ true) ↔ (0 < count p (ids ps))
unfolding find_profile
find_profile-count p [] = ground arith
find_profile-count p (x ∷ xs) = ground (arith, find_profile-count p xs)

pub length-ids : (ps : List Profile) → length (ids ps) ≡ length ps
length-ids [] = refl
length-ids (p ∷ ps) = ap suc (length-ids ps)

-- The queue has room while somebody sits.
pub queue_has_room :
    (l : Lobby) (p : ℕ) (k : ℤ)
    → IsWellFormed l
    → seat_of l.seats p ≡ some k
    → length l.queue < max_players_in_lobby
queue_has_room l p k w e =
    let short : length l.queue < length (ids l.profiles) =
      length-lt_of_count p l.queue (ids l.profiles) (λ b. omega (arith, w.placed b))
        (ground (arith, w.placed p, e)) in
    omega (arith, length-ids l.profiles, w.roster.room)

no_seats-IsConsistent : IsConsistent no_seats
unfolding get_player_id_by_seat_position get_seat_position_by_player_id lookup
no_seats-IsConsistent = record { seat_to_player = λ k p h. cc; player_to_seat = λ k p h. cc }

pub new_lobby-IsWellFormed : IsWellFormed new_lobby
unfolding new_lobby get_seat_position_by_player_id lookup
new_lobby-IsWellFormed = record {
  roster = record {
    once = λ p. omega arith;
    room = omega arith;
    at_least = omega arith;
    at_most = omega arith;
  };
  consistent = no_seats-IsConsistent;
  placed = λ p. refl;
  real_seats = λ p k h. cc;
}

-- Who has a place is a player of the lobby, and the other way round.
pub located_member :
    (p : ℕ) (seat : ℤ) (l : Lobby)
    → IsWellFormed l
    → get_seat_position_by_id l p ≡ some seat
    → 0 < count p (ids l.profiles)
unfolding get_seat_position_by_id
located_member p seat l w e = ground (arith, w.placed p, is_queued-count p l.queue, e)

pub member_located :
    (p : ℕ) (l : Lobby)
    → IsWellFormed l
    → 0 < count p (ids l.profiles)
    → is_some (get_seat_position_by_id l p) ≡ true
unfolding get_seat_position_by_id
member_located p l w h = ground (arith, w.placed p, is_queued-count p l.queue)

-- The position -1 means the queue, and any other the seat.
pub located_queue :
    (p : ℕ) (l : Lobby)
    → IsWellFormed l
    → get_seat_position_by_id l p ≡ some queue_seat
    → (count p l.queue ≡ 1) × (seat_of l.seats p ≡ none)
unfolding get_seat_position_by_id
located_queue p l w e =
    ground
      (arith, w.placed p, w.roster.once p, is_queued-count p l.queue, e, w.real_seats p queue_seat)

pub located_seat :
    (p : ℕ) (seat : ℤ) (l : Lobby)
    → IsWellFormed l
    → get_seat_position_by_id l p ≡ some seat
    → seat ≢ queue_seat
    → (count p l.queue ≡ 0) × (seat_of l.seats p ≡ some seat)
unfolding get_seat_position_by_id
located_seat p seat l w e n =
    ground (arith, w.placed p, w.roster.once p, is_queued-count p l.queue, e, n)
