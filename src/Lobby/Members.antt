-- ===== src/Lobby/Members.antt =====
-- Players enter and leave, and the size of the game changes: `addPlayer`, `deletePlayer` and
-- `setPlayersPerGame`.
use durak.Base.{
  ℕ, ◌+◌, ◌≤◌, ◌<◌, ◌≡◌, true, ite, List, [], ◌∷◌, ◌++◌, ℤ, ℕ_discrete, length, count, arith,
  count-without, ok, length-append, ◌-◌,
}
use durak.Seats.Views.{seat_of-erase_player}
use durak.Seats.Consistent.{erase_player-IsConsistent}
use durak.Lobby.{
  Lobby, ids, max_players_in_lobby, take_seat, add_player, delete_player, erase_profile,
  set_players_per_game, seats_free, max_players_per_game, min_players_per_game,
  is_seat_position_correct,
}
use durak.Lobby.Invariant.{IsWellFormed, IsAway}
use durak.Lobby.Moves.{IsFree, take_seat-IsWellFormed}
use durak.Protocol.{Profile}

count-ids-append :
    (a : ℕ) (ps : List Profile) (p : Profile)
    → count a (ids (ps ++ (p ∷ []))) ≡ count a (ids ps) + ite (ℕ_discrete p.id a) 1 0
count-ids-append a [] p = ground arith
count-ids-append a (q ∷ ps) p = ground (arith, count-ids-append a ps p)

pub count-ids-erase_profile :
    (a b : ℕ) (ps : List Profile)
    → count b (ids (erase_profile a ps)) ≡ ite (ℕ_discrete a b) 0 (count b (ids ps))
unfolding erase_profile
count-ids-erase_profile a b [] = ground arith
count-ids-erase_profile a b (p ∷ ps) = ground (arith, count-ids-erase_profile a b ps)

length-erase_profile : (a : ℕ) (ps : List Profile) → length (erase_profile a ps) ≤ length ps
unfolding erase_profile
length-erase_profile a [] = omega arith
length-erase_profile a (p ∷ ps) = ground (arith, length-erase_profile a ps)

-- A newcomer, on the list of players and not yet at a place.
arrived-IsAway :
    (p : Profile) (l : Lobby)
    → IsWellFormed l
    → count p.id (ids l.profiles) ≡ 0
    → length l.profiles < max_players_in_lobby
    → IsAway p.id (record l { profiles = l.profiles ++ (p ∷ []) })
arrived-IsAway p l w new room = record {
  roster = record {
    once = λ a. ground (arith, count-ids-append a l.profiles p, w.roster.once a, new);
    room = omega (arith, length-append l.profiles (p ∷ []));
    at_least = w.roster.at_least;
    at_most = w.roster.at_most;
  };
  consistent = w.consistent;
  present = ground (arith, count-ids-append p.id l.profiles p, new);
  unplaced = ground (arith, w.placed p.id, new);
  placed = λ a ne. ground (arith, count-ids-append a l.profiles p, w.placed a, ne);
  real_seats = w.real_seats;
}

-- A newcomer to a well-formed lobby with room, at a correct place that is the queue or a free seat
-- that is not negative, is added: the lobby stays well formed and the newcomer is the last of the
-- list.
pub add_player-IsWellFormed :
    (p : Profile) (seat : ℤ) (l : Lobby)
    → IsWellFormed l
    → count p.id (ids l.profiles) ≡ 0
    → length l.profiles < max_players_in_lobby
    → IsFree l seat
    → is_seat_position_correct l seat ≡ true
    → (l' : Lobby) × (add_player p seat l ≡ ok l')
      × IsWellFormed l'
      × (l'.profiles ≡ l.profiles ++ (p ∷ []))
unfolding add_player take_seat
add_player-IsWellFormed p seat l w new room f c = (
  take_seat p.id seat (record l { profiles = l.profiles ++ (p ∷ []) }),
  rw c,
  take_seat-IsWellFormed p.id seat (record l { profiles = l.profiles ++ (p ∷ []) })
      (arrived-IsAway p l w new room) (record { free = f.free; real = f.real }),
  ground arith,
)

-- A well-formed lobby stays well formed when any player is deleted.
pub delete_player-IsWellFormed :
    (a : ℕ) (l : Lobby) → IsWellFormed l → IsWellFormed (delete_player a l)
unfolding delete_player
delete_player-IsWellFormed a l w = record {
  roster = record {
    once = λ b. ground (arith, count-ids-erase_profile a b l.profiles, w.roster.once b);
    room = omega (arith, length-erase_profile a l.profiles, w.roster.room);
    at_least = w.roster.at_least;
    at_most = w.roster.at_most;
  };
  consistent = erase_player-IsConsistent a l.seats w.consistent;
  placed = λ b. ground (
    arith,
    count-ids-erase_profile a b l.profiles,
    count-without a b l.queue,
    seat_of-erase_player a b l.seats,
    w.placed b,
  );
  real_seats = λ b k h. ground (arith, seat_of-erase_player a b l.seats, w.real_seats b k, h);
}

-- What passes the asserts of `setPlayersPerGame`.
pub set_players_per_game-result :
    (value : ℕ) (l l' : Lobby)
    → set_players_per_game value l ≡ ok l'
    → (min_players_per_game ≤ value)
      × (value ≤ max_players_per_game)
      × (seats_free (l.players_per_game - value) value l.seats ≡ true)
      × (l' ≡ record l { players_per_game = value })
unfolding set_players_per_game
set_players_per_game-result value l l' h = ground arith

-- A new size of the game that passes the asserts keeps the lobby well formed.
pub set_players_per_game-IsWellFormed :
    (value : ℕ) (l l' : Lobby)
    → IsWellFormed l
    → set_players_per_game value l ≡ ok l'
    → IsWellFormed l'
set_players_per_game-IsWellFormed value l l' w h =
    let (low, high, clear, e) = set_players_per_game-result value l l' h in
    rw e (record {
      roster = record {
        once = w.roster.once;
        room = w.roster.room;
        at_least = low;
        at_most = high;
      };
      consistent = w.consistent;
      placed = w.placed;
      real_seats = w.real_seats;
    })
