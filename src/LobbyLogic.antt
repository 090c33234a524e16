-- ===== src/LobbyLogic.antt =====
-- source/game/LobbyLogic.{h,cpp}: which requests of players the server grants, and what they change.
-- `requireState` holds: the server sets the state before the first call.
pub mod Joining
pub mod Seating
pub mod Swapping
pub mod Settings
pub mod Tests
use durak.Base.{
  ℕ, zero, suc, ◌-◌, ◌+◌, Bool, true, false, not, ◌&&◌, ◌||◌, ltb, ◌==◌, if◌then◌else◌, ite, Option,
  none, some, is_some, ℤ, pos, ℤ_discrete, ℕ_discrete, Outcome, ok, fault, Fault, logic_error,
  bad_optional, ◌>>=◌, ◌>>◌, require, value_or_fault,
}
use durak.Seats.{get_player_id_by_seat_position}
use durak.Protocol.{Profile, ClientRole, host, regular, set_role, DisconnectReason}
use durak.Lobby.{
  Lobby, queue_seat, max_players_per_game, min_players_per_game, get_player_profile_by_id,
  is_new_player_can_join, is_seat_position_correct, is_seat_position_occupied,
  get_seat_position_by_id, add_player, delete_player, change_player_seat_position,
  swap_players_seat_positions, set_players_per_game, set_host_id, set_lobby_open,
}

abbrev pub is_host_role : ClientRole → Bool
is_host_role host = true
is_host_role regular = false

-- `initiatorOpt && initiatorOpt->getRole() == Host`.
abbrev pub is_host : Option Profile → Bool
is_host none = false
is_host (some p) = is_host_role p.role

-- `initiatorId == m_lobbyState->getHostId()`, a number against an optional number.
abbrev pub is_host_id : Option ℕ → ℕ → Bool
is_host_id none player = false
is_host_id (some h) player = player == h

-- `return false`, with the state as it is.
abbrev pub refuse : Lobby → Outcome (Bool × Lobby)
refuse l = ok (false, l)

abbrev pub grant : Lobby → Outcome (Bool × Lobby)
grant l = ok (true, l)

-- The player with id 0 is made the host, and gets the first seat if it is free.
unfoldable pub admit_host : Profile → Lobby → Outcome Lobby
admit_host p l = do
  occupied ← is_seat_position_occupied l (pos 0)
  add_player p (if occupied then queue_seat else pos 0) l

unfoldable pub admit : Profile → Lobby → Outcome (Profile × Lobby)
unfolding admit_host
admit p l =
    let p' = set_role host p in
    if p.id == 0
    then (admit_host p' (set_host_id p.id l) >>= λ l'. ok (p', l'))
    else (add_player p queue_seat l >>= λ l'. ok (p, l'))

-- The reason of a refusal, the profile, whose role may change, and the lobby.
unfoldable pub apply_player_connect_request :
    Profile → Lobby → Outcome (Option DisconnectReason × Profile × Lobby)
unfolding admit
apply_player_connect_request p l = do
  require (not (is_some (get_player_profile_by_id l p.id))) logic_error
  elim (is_new_player_can_join l) [
    | some reason ↦ ok (some reason, p, l)
    | none ↦ admit p l >>= λ r. ok (none, r.0, r.1)
  ]

unfoldable pub apply_player_disconnected : ℕ → Lobby → Lobby
apply_player_disconnected = delete_player

-- The last test and the change of `applySeatPositionsChangeRequest`.
unfoldable pub move_for : ℕ → ℤ → ℕ → Lobby → Outcome (Bool × Lobby)
move_for player seat initiator l =
    let move = change_player_seat_position player seat l >>= λ l'. grant l' in
    if player == initiator then move else elim (get_player_profile_by_id l initiator) [
      | none ↦ fault logic_error
      | some p ↦ if is_host_role p.role then move else refuse l
    ]

unfoldable pub apply_seat_positions_change_request : ℕ → ℤ → ℕ → Lobby → Outcome (Bool × Lobby)
unfolding move_for
apply_seat_positions_change_request player seat initiator l =
    if not l.can_move_to_another_seat && not (is_host_id l.host_id initiator)
    then refuse l
    else if not (is_seat_position_correct l seat)
    then refuse l
    else (is_seat_position_occupied l seat >>= λ occupied.
        if occupied then refuse l else elim (get_seat_position_by_id l player) [
          | none ↦ refuse l
          | some current ↦ ite (ℤ_discrete current seat) (refuse l) (
              if not (is_some (get_player_profile_by_id l player))
              then refuse l
              else move_for player seat initiator l)
        ])

-- The tests on the two places, and the swap.
unfoldable pub swap_located : ℕ → ℕ → Option ℤ → Option ℤ → Lobby → Outcome (Bool × Lobby)
swap_located first second none second_seat l = refuse l
swap_located first second (some first_seat) none l = refuse l
swap_located first second (some first_seat) (some second_seat) l =
    ite (ℤ_discrete first_seat second_seat) (refuse l)
      (swap_players_seat_positions first second l >>= λ l'. grant l')

-- A player other than the initiator is looked up.
abbrev pub known : Lobby → ℕ → ℕ → Bool
known l player initiator = player == initiator || is_some (get_player_profile_by_id l player)

unfoldable pub apply_seat_positions_swap_request : ℕ → ℕ → ℕ → Lobby → Outcome (Bool × Lobby)
unfolding swap_located
apply_seat_positions_swap_request first second initiator l =
    if not (is_host (get_player_profile_by_id l initiator))
    then refuse l
    else if not (known l first initiator) || not (known l second initiator)
    then refuse l
    else swap_located first second (get_seat_position_by_id l first)
        (get_seat_position_by_id l second) l

-- The loop over `n` seats from `i` on, which sends who sits there to the queue.
unfoldable pub vacate : ℕ → ℕ → Lobby → Outcome Lobby
vacate zero i l = ok l
vacate (suc n) i l = elim (get_player_id_by_seat_position l.seats (pos i)) [
  | none ↦ vacate n (i + 1) l
  | some player ↦ change_player_seat_position player queue_seat l >>= vacate n (i + 1)
]

unfoldable pub apply_players_per_game_change_request : ℕ → ℕ → Lobby → Outcome (Bool × Lobby)
apply_players_per_game_change_request value initiator l =
    if not (is_host (get_player_profile_by_id l initiator))
    then refuse l
    else if value == l.players_per_game
    then refuse l
    else if ltb max_players_per_game value || ltb value min_players_per_game
    then refuse l
    else (vacate (l.players_per_game - value) value l >>= λ l'.
        set_players_per_game value l' >>= λ l''. grant l'')

abbrev pub as_number : Bool → ℕ
as_number true = 1
as_number false = 0

-- `value()` of an empty optional throws.
unfoldable pub apply_lobby_open_state : ℕ → ℕ → Lobby → Outcome (Bool × Lobby)
apply_lobby_open_state value initiator l =
    if value == as_number l.is_lobby_open
    then refuse l
    else (value_or_fault l.host_id bad_optional >>= λ h.
        if initiator == h then grant (set_lobby_open (not (value == 0)) l) else refuse l)
