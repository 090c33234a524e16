-- ===== src/LobbyLogic/Joining.antt =====
-- `applyPlayerConnectRequest`: who may come in, and where a newcomer stands.
use durak.Base.{
  ℕ, ◌≤◌, ◌<◌, ◌≡◌, ◌⊎◌, refl, true, false, Option, none, some, pos, arith, Option-cases,
  Bool-cases, inl, inr, ok, count, ◌==◌, if◌then◌else◌, [], ◌∷◌, ◌++◌, length, leb,
}
use durak.Protocol.{Profile, host, server_is_full, server_is_closed}
use durak.Seats.Views.{at}
use durak.Lobby.{
  Lobby, ids, queue_seat, is_seat_position_correct, is_seat_position_occupied,
  get_player_profile_by_id, is_new_player_can_join, max_players_in_lobby,
}
use durak.Lobby.Invariant.{IsWellFormed, find_profile-count}
use durak.Lobby.Moves.{IsFree}
use durak.Lobby.Members.{add_player-IsWellFormed}
use durak.LobbyLogic.{admit_host, admit, apply_player_connect_request}

-- With the host's id set the lobby is as sound as before.
host_id-IsWellFormed :
    (l : Lobby) (h : Option ℕ) → IsWellFormed l → IsWellFormed (record l { host_id = h })
host_id-IsWellFormed l h w = record {
  roster = w.roster;
  consistent = w.consistent;
  placed = w.placed;
  real_seats = w.real_seats;
}

queue_place-IsFree : (l : Lobby) → IsFree l queue_seat
queue_place-IsFree l = record { free = λ n. absurd (n refl); real = λ n. absurd (n refl) }

admit_host-IsWellFormed :
    (p : Profile) (l : Lobby)
    → IsWellFormed l
    → count p.id (ids l.profiles) ≡ 0
    → length l.profiles < max_players_in_lobby
    → (l' : Lobby) × (admit_host p l ≡ ok l')
      × IsWellFormed l'
      × (l'.profiles ≡ l.profiles ++ (p ∷ []))
unfolding admit_host is_seat_position_occupied is_seat_position_correct
admit_host-IsWellFormed p l w new room = elim (Option-cases (at l.seats (pos 0))) [
  | inl e ↦
      let (l', r, w', last) =
        add_player-IsWellFormed p (pos 0) l w new room (record { free = λ _. e; real = λ _. refl })
          (ground arith) in
      (l', ground (arith, e, r), w', last)
  | inr (q, e) ↦
      let (l', r, w', last) =
        add_player-IsWellFormed p queue_seat l w new room (queue_place-IsFree l) (ground arith) in
      (l', ground (arith, e, r), w', last)
]

-- The newcomer as it is entered: the player with id 0 as the host.
abbrev pub entered : Profile → Profile
entered p = if p.id == 0 then record p { role = host } else p

admit-IsWellFormed :
    (p : Profile) (l : Lobby)
    → IsWellFormed l
    → count p.id (ids l.profiles) ≡ 0
    → length l.profiles < max_players_in_lobby
    → (l' : Lobby) × (admit p l ≡ ok (entered p, l'))
      × IsWellFormed l'
      × (l'.profiles ≡ l.profiles ++ (entered p ∷ []))
unfolding admit is_seat_position_correct
admit-IsWellFormed p l w new room = elim (Bool-cases (p.id == 0)) [
  | inl e ↦
      let p' : Profile = record p { role = host } in
      let (l', r, w', last) =
        admit_host-IsWellFormed p' (record l { host_id = some p.id })
          (host_id-IsWellFormed l (some p.id) w) new room in
      (l', ground (arith, e, r), w', ground (arith, e, last))
  | inr e ↦
      let (l', r, w', last) =
        add_player-IsWellFormed p queue_seat l w new room (queue_place-IsFree l) (ground arith) in
      (l', ground (arith, e, r), w', ground (arith, e, last))
]

-- In a well-formed lobby that is open and has room, a newcomer is let in: the lobby stays well
-- formed, and the newcomer, with the host's role if its id is 0, is the last of the list.
pub connect_request_admitted :
    (p : Profile) (l : Lobby)
    → IsWellFormed l
    → get_player_profile_by_id l p.id ≡ none
    → length l.profiles < max_players_in_lobby
    → l.is_lobby_open ≡ true
    → (l' : Lobby) × (apply_player_connect_request p l ≡ ok (none, entered p, l'))
      × IsWellFormed l'
      × (l'.profiles ≡ l.profiles ++ (entered p ∷ []))
unfolding apply_player_connect_request get_player_profile_by_id is_new_player_can_join
connect_request_admitted p l w new room open_lobby =
    let (l', r, w', last) =
      admit-IsWellFormed p l w (ground (arith, new, find_profile-count p.id l.profiles)) room in
    (l', ground (arith, new, room, open_lobby, r), w', last)

-- A newcomer to a lobby that is full or closed is refused, the lobby and the profile stay as they
-- were, and the reason is that the lobby is full if it is full, and otherwise that it is closed.
pub connect_request_refused :
    (p : Profile) (l : Lobby)
    → get_player_profile_by_id l p.id ≡ none
    → (max_players_in_lobby ≤ length l.profiles) ⊎ (l.is_lobby_open ≡ false)
    → apply_player_connect_request p l
      ≡ ok (
        some (
            if leb max_players_in_lobby (length l.profiles)
            then server_is_full
            else server_is_closed),
        p,
        l,
      )
unfolding apply_player_connect_request is_new_player_can_join
connect_request_refused p l new h = ground arith
