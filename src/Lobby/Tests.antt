-- ===== src/Lobby/Tests.antt =====
-- Lobbies with a host and a guest, and the operations of LobbyState on them.
use durak.Base.{
  ◌≡◌, subst, ◌↔◌, ◌⊎◌, ◌<◌, refl, true, false, [], ◌∷◌, none, some, ℤ, pos, arith, ok, ℕ_discrete,
  ℤ_discrete, lookup, insert, erase, count, length, is_negative,
}
use durak.Protocol.{Profile, host, regular, classic_rules}
use durak.Seats.{
  no_seats, assign_seat, get_player_id_by_seat_position, get_seat_position_by_player_id,
  erase_player, erase_from_maps, put_in_maps, displace,
}
use durak.Lobby.{
  Lobby, new_lobby, ids, queue_seat, add_player, take_seat, is_seat_position_correct,
  get_seat_position_by_id, is_queued, max_players_in_lobby,
}
use durak.Lobby.Invariant.{IsWellFormed, new_lobby-IsWellFormed}
use durak.Lobby.Moves.{IsFree, seat_correct_iff}
use durak.Lobby.Members.{add_player-IsWellFormed}

abbrev pub ann : Profile
ann = record { id = 0; token = 11; nickname = 65 ∷ []; role = host }

abbrev pub bob : Profile
bob = record { id = 1; token = 12; nickname = 66 ∷ []; role = regular }

abbrev pub cem : Profile
cem = record { id = 2; token = 13; nickname = 67 ∷ []; role = regular }

-- Nobody is in yet; Ann is to be the host.
abbrev pub hosted_lobby : Lobby
hosted_lobby = record {
  seats = no_seats;
  is_lobby_open = true;
  can_move_to_another_seat = true;
  profiles = [];
  queue = [];
  rules_type = classic_rules;
  players_per_game = 2;
  host_id = some 0;
}

-- Ann on the first seat.
abbrev pub ann_alone : Lobby
ann_alone = record hosted_lobby {
  seats = record {
    player_id_by_seat_position = (pos 0, 0) ∷ [];
    seat_position_by_player_id = (0, pos 0) ∷ [];
  };
  profiles = ann ∷ [];
}

-- Ann on the first seat, and Bob in the queue.
abbrev pub bob_waits : Lobby
bob_waits = record ann_alone { profiles = ann ∷ bob ∷ []; queue = 1 ∷ [] }

-- Ann on the first seat, and Bob on the second.
abbrev pub both_sit : Lobby
both_sit = record ann_alone {
  seats = record {
    player_id_by_seat_position = (pos 0, 0) ∷ (pos 1, 1) ∷ [];
    seat_position_by_player_id = (0, pos 0) ∷ (1, pos 1) ∷ [];
  };
  profiles = ann ∷ bob ∷ [];
}

-- A player that is let in leads to a well-formed lobby.
added-IsWellFormed :
    (p : Profile) (seat : ℤ) (l l' : Lobby)
    → IsWellFormed l
    → count p.id (ids l.profiles) ≡ 0
    → length l.profiles < max_players_in_lobby
    → IsFree l seat
    → is_seat_position_correct l seat ≡ true
    → add_player p seat l ≡ ok l'
    → IsWellFormed l'
added-IsWellFormed p seat l l' w new room free correct e =
    let (m, r, wm, _) = add_player-IsWellFormed p seat l w new room free correct in
    let same : m ≡ l' = cc in subst IsWellFormed same wm

hosted_lobby-IsWellFormed : IsWellFormed hosted_lobby
unfolding new_lobby
hosted_lobby-IsWellFormed = record {
  roster = new_lobby-IsWellFormed.roster;
  consistent = new_lobby-IsWellFormed.consistent;
  placed = new_lobby-IsWellFormed.placed;
  real_seats = new_lobby-IsWellFormed.real_seats;
}

pub ann_alone-IsWellFormed : IsWellFormed ann_alone
unfolding add_player is_seat_position_correct take_seat assign_seat get_player_id_by_seat_position
    get_seat_position_by_player_id erase_player erase_from_maps put_in_maps displace lookup insert
    erase ℕ_discrete ℤ_discrete
ann_alone-IsWellFormed =
    added-IsWellFormed ann (pos 0) hosted_lobby ann_alone hosted_lobby-IsWellFormed refl
      (omega arith) (record { free = λ _. refl; real = λ _. refl }) refl refl

pub bob_waits-IsWellFormed : IsWellFormed bob_waits
unfolding add_player is_seat_position_correct take_seat assign_seat get_player_id_by_seat_position
    get_seat_position_by_player_id erase_player erase_from_maps put_in_maps displace lookup insert
    erase ℕ_discrete ℤ_discrete
bob_waits-IsWellFormed =
    added-IsWellFormed bob queue_seat ann_alone bob_waits ann_alone-IsWellFormed refl (omega arith)
      (record { free = λ n. absurd (n refl); real = λ n. absurd (n refl) }) refl refl

pub both_sit-IsWellFormed : IsWellFormed both_sit
unfolding add_player is_seat_position_correct take_seat assign_seat get_player_id_by_seat_position
    get_seat_position_by_player_id erase_player erase_from_maps put_in_maps displace lookup insert
    erase ℕ_discrete ℤ_discrete
both_sit-IsWellFormed =
    added-IsWellFormed bob (pos 1) ann_alone both_sit ann_alone-IsWellFormed refl (omega arith)
      (record { free = λ _. refl; real = λ _. refl }) refl refl

-- Player 1 in the queue, and player 0 on seat 0.
places :
    (get_seat_position_by_id bob_waits 1 ≡ some queue_seat)
    × (get_seat_position_by_id bob_waits 0 ≡ some (pos 0))
    × (get_seat_position_by_id bob_waits 2 ≡ none)
unfolding get_seat_position_by_id get_seat_position_by_player_id lookup is_queued ℕ_discrete
places = (refl, refl, refl)

seat_correct_iff_example :
    (is_seat_position_correct bob_waits (pos 9) ≡ true)
    ↔ ((pos 9 ≡ queue_seat) ⊎ (is_negative (pos 9) ≡ false))
seat_correct_iff_example = seat_correct_iff bob_waits (pos 9) (omega arith) bob_waits-IsWellFormed
