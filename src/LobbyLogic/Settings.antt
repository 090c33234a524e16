-- ===== src/LobbyLogic/Settings.antt =====
-- `applyPlayersPerGameChangeRequest` and `applyLobbyOpenState`: the host's settings.
use durak.Base.{
  ℕ, zero, suc, ◌+◌, ◌-◌, ◌≤◌, ◌<◌, ◌≡◌, ◌≢◌, ◌⊎◌, refl, true, false, ite, none, some, ℤ, pos,
  ℤ_discrete, arith, Option-cases, inl, inr, ok, ◌∙◌,
}
use durak.Seats.Views.{at, at-erase_player}
use durak.Lobby.{
  Lobby, queue_seat, is_seat_position_correct, is_seat_position_occupied, get_seat_position_by_id,
  get_player_profile_by_id, change_player_seat_position, take_seat, leave_seat, seats_free,
  set_players_per_game, max_players_per_game, min_players_per_game,
}
use durak.Lobby.Invariant.{IsWellFormed, queue_has_room}
use durak.Lobby.Moves.{
  leave_seat-IsAway, take_seat-IsWellFormed, change_player_seat_position-succeeds,
}
use durak.Lobby.Members.{set_players_per_game-IsWellFormed}
use durak.LobbyLogic.{
  is_host, vacate, apply_players_per_game_change_request, apply_lobby_open_state, as_number,
}

-- Sending a seated player to the queue succeeds, frees that seat and no other, and changes neither
-- the size of the game nor the host.
pub record Unseated (k : ℤ) (l l' : Lobby) : Type 0 where
  pub sound : IsWellFormed l'
  pub freed : (j : ℤ) → at l'.seats j ≡ ite (ℤ_discrete k j) none (at l.seats j)
  pub same_size : l'.players_per_game ≡ l.players_per_game

pub unseated :
    (player i : ℕ) (l : Lobby)
    → IsWellFormed l
    → at l.seats (pos i) ≡ some player
    → Unseated (pos i) l (take_seat player queue_seat (leave_seat player (pos i) l))
unfolding get_seat_position_by_id leave_seat take_seat
unseated player i l w e =
    let seated = w.consistent.seat_to_player (pos i) player e in
    record {
      sound =
          take_seat-IsWellFormed player queue_seat (leave_seat player (pos i) l)
            (leave_seat-IsAway player (pos i) l w (ground (arith, seated)))
            (record { free = λ n. absurd (n refl); real = λ n. absurd (n refl) });
      freed = λ j. ground (
        arith,
        e,
        seated,
        at-erase_player player j l.seats (w.consistent.seat_to_player j player)
            (w.consistent.player_to_seat j player),
        w.consistent.seat_to_player j player,
      );
      same_size = ground arith;
    }

pub send_to_queue :
    (player i : ℕ) (l : Lobby)
    → IsWellFormed l
    → at l.seats (pos i) ≡ some player
    → change_player_seat_position player queue_seat l
      ≡ ok (take_seat player queue_seat (leave_seat player (pos i) l))
unfolding is_seat_position_occupied is_seat_position_correct get_seat_position_by_id
send_to_queue player i l w e =
    let seated = w.consistent.seat_to_player (pos i) player e in
    let here : get_seat_position_by_id l player ≡ some (pos i) = ground (arith, seated) in
    let room = queue_has_room l player (pos i) w seated in
    change_player_seat_position-succeeds player (pos i) queue_seat l w here (λ q. cc)
      (ground (arith, room))

-- The loop over the seats from `i` on empties those `n` and no other.
pub record Vacated (n i : ℕ) (l l' : Lobby) : Type 0 where
  pub sound : IsWellFormed l'
  pub cleared : (j : ℕ) → i ≤ j → j < i + n → at l'.seats (pos j) ≡ none
  pub kept : (j : ℕ) → (j < i) ⊎ (i + n ≤ j) → at l'.seats (pos j) ≡ at l.seats (pos j)
  pub same_size : l'.players_per_game ≡ l.players_per_game

pub vacate-Vacated :
    (n i : ℕ) (l : Lobby)
    → IsWellFormed l
    → (l' : Lobby) × (vacate n i l ≡ ok l') × Vacated n i l l'
unfolding vacate
vacate-Vacated zero i l w = (
  l,
  refl,
  record {
    sound = w;
    cleared = λ j lo hi. absurd (omega arith);
    kept = λ j h. refl;
    same_size = refl;
  },
)
vacate-Vacated (suc n) i l w = elim (Option-cases (at l.seats (pos i))) [
  | inl e ↦
      let (l', r, v) = vacate-Vacated n (i + 1) l w in
      (
        l',
        rw (e, vacate) r,
        record {
          sound = v.sound;
          cleared = λ j lo hi. ground (arith, v.cleared j, v.kept i, e, lo, hi);
          kept = λ j h. ground (arith, v.kept j, h);
          same_size = v.same_size;
        },
      )
  | inr (player, e) ↦
      let m = take_seat player queue_seat (leave_seat player (pos i) l) in
      let u = unseated player i l w e in
      let (l', r, v) = vacate-Vacated n (i + 1) m u.sound in
      (
        l',
        rw (e, vacate, send_to_queue player i l w e) r,
        record {
          sound = v.sound;
          cleared = λ j lo hi. ground (arith, v.cleared j, v.kept i, u.freed (pos i), lo, hi);
          kept = λ j h. ground (arith, v.kept j, u.freed (pos j), h);
          same_size = v.same_size ∙ u.same_size;
        },
      )
]

cleared-seats_free :
    (n i : ℕ) (l : Lobby)
    → ((j : ℕ) → i ≤ j → j < i + n → at l.seats (pos j) ≡ none)
    → seats_free n i l.seats ≡ true
unfolding seats_free
cleared-seats_free zero i l h = refl
cleared-seats_free (suc n) i l h =
    ground (arith, h i, cleared-seats_free n (i + 1) l (λ j lo hi. h j (omega arith) (omega arith)))

set_players_per_game-succeeds :
    (value : ℕ) (l : Lobby)
    → seats_free (l.players_per_game - value) value l.seats ≡ true
    → min_players_per_game ≤ value
    → value ≤ max_players_per_game
    → set_players_per_game value l ≡ ok (record l { players_per_game = value })
unfolding set_players_per_game
set_players_per_game-succeeds value l clear low high = ground (arith, clear)

-- In a well-formed lobby a request of a player with the host's role for another size of the game,
-- from two to four, is granted: the lobby stays well formed and has that size, the seats from that
-- size up to the old size are empty, and the seats below keep their players.
pub players_per_game_request_granted :
    (value initiator : ℕ) (l : Lobby)
    → IsWellFormed l
    → is_host (get_player_profile_by_id l initiator) ≡ true
    → value ≢ l.players_per_game
    → min_players_per_game ≤ value
    → value ≤ max_players_per_game
    → (l' : Lobby) × (apply_players_per_game_change_request value initiator l ≡ ok (true, l'))
      × IsWellFormed l'
      × (l'.players_per_game ≡ value)
      × ((j : ℕ) → value ≤ j → j < l.players_per_game → at l'.seats (pos j) ≡ none)
      × ((j : ℕ) → j < value → at l'.seats (pos j) ≡ at l.seats (pos j))
unfolding apply_players_per_game_change_request
players_per_game_request_granted value initiator l w host ne low high =
    let (m, r, v) = vacate-Vacated (l.players_per_game - value) value l w in
    let clear : seats_free (m.players_per_game - value) value m.seats ≡ true =
      rw v.same_size (cleared-seats_free (l.players_per_game - value) value m v.cleared) in
    let l' : Lobby = record m { players_per_game = value } in
    let size = set_players_per_game-succeeds value m clear low high in
    (
      l',
      ground (arith, host, ne, low, high, r, size),
      set_players_per_game-IsWellFormed value m l' v.sound size,
      refl,
      λ j lo hi. v.cleared j lo (omega arith),
      λ j lt. v.kept j (inl lt),
    )

-- A request for a size of the game is refused and leaves the lobby as it was if it does not come
-- from a player with the host's role, asks for the size the game has, or for fewer than two or more
-- than four players.
pub players_per_game_request_refused :
    (value initiator : ℕ) (l : Lobby)
    → (is_host (get_player_profile_by_id l initiator) ≡ false)
      ⊎ (value ≡ l.players_per_game)
      ⊎ (value < min_players_per_game)
      ⊎ (max_players_per_game < value)
    → apply_players_per_game_change_request value initiator l ≡ ok (false, l)
unfolding apply_players_per_game_change_request
players_per_game_request_refused value initiator l h = ground arith

-- A request to open or close the lobby, by a value below 2, that is granted came from the host's id
-- and changed whether the lobby is open, to what it asks for, and nothing else.
pub lobby_open_request_granted :
    (value initiator : ℕ) (l l' : Lobby)
    → value < 2
    → apply_lobby_open_state value initiator l ≡ ok (true, l')
    → (l.host_id ≡ some initiator)
      × (as_number l'.is_lobby_open ≡ value)
      × (l.is_lobby_open ≢ l'.is_lobby_open)
      × (l' ≡ record l { is_lobby_open = l'.is_lobby_open })
unfolding apply_lobby_open_state
lobby_open_request_granted value initiator l l' small h = ground arith
