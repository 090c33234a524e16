-- ===== src/ClientLobbyLogic/Resized.antt =====
-- A new size of the game on the server and on a client whose lobby mirrors the server's.
use durak.Base.{
  ℕ, zero, suc, ◌+◌, ◌-◌, ◌≤◌, ◌<◌, ◌≡◌, refl, true, List, [], ◌∷◌, some, pos, ℤ_discrete,
  ℕ_discrete, arith, Option-cases, Outcome-cases, inl, inr, ok, sym, subst,
}
use durak.Seats.Views.{at}
use durak.Lobby.{
  Lobby, ids, find_profile, get_seat_position_by_id, get_player_profile_by_id, queue_seat,
  erase_profile, delete_player, is_seat_position_occupied, seats_free,
}
use durak.Lobby as Lobby
use durak.Lobby.Invariant.{IsWellFormed}
use durak.Lobby.Moves.{leave_seat-IsAway}
use durak.Lobby.Members.{set_players_per_game-result, set_players_per_game-IsWellFormed}
use durak.LobbyLogic.{
  apply_seat_positions_change_request, apply_players_per_game_change_request,
  apply_lobby_open_state, as_number, is_host,
}
use durak.LobbyLogic.Settings.{vacate-Vacated, unseated, send_to_queue}
use durak.LobbyLogic as LobbyLogic
use durak.ClientLobby.{
  ClientLobby, get_client_player_data_by_id, is_valid_seat_position, get_player_id_by_seat_index,
  set_players_per_game,
}
use durak.ClientLobby.Mirror.{Mirrors, same_occupant, move-Mirrors}
use durak.ClientLobbyLogic.{SeatChange, apply_players_per_game_change, vacate}
use durak.ClientLobbyLogic.Follow.{queue_clear}

-- A client reads the seats of the game as the server does.
seat_of_game :
    (i : ℕ) (l : Lobby) (c : ClientLobby)
    → IsWellFormed l
    → Mirrors l c
    → i < l.players_per_game
    → get_player_id_by_seat_index c (pos i) ≡ at l.seats (pos i)
unfolding get_player_id_by_seat_index is_valid_seat_position
seat_of_game i l c w m lt =
    ground (arith, m.same_size, w.roster.at_most, same_occupant l c (pos i) w m, lt)

queue_valid : (c : ClientLobby) → is_valid_seat_position c queue_seat ≡ true
unfolding is_valid_seat_position ℤ_discrete ℕ_discrete
queue_valid c = refl

-- The client's loop over seats of the game sends the same players to the queue as the server's.
vacate-Mirrors :
    (n i : ℕ) (l : Lobby) (c : ClientLobby)
    → IsWellFormed l
    → Mirrors l c
    → (0 < n → i + n ≤ l.players_per_game)
    → (l' : Lobby) × (r : List SeatChange × ClientLobby) × (LobbyLogic.vacate n i l ≡ ok l')
      × (vacate n i c ≡ ok r)
      × Mirrors l' r.1
unfolding vacate LobbyLogic.vacate get_seat_position_by_id
vacate-Mirrors zero i l c w m small = (l, ([], c), refl, refl, m)
vacate-Mirrors (suc n) i l c w m small =
    let read = seat_of_game i l c w m (omega (arith, small)) in
    elim (Option-cases (at l.seats (pos i))) [
      | inl e ↦
          let (l', r, el, ec, m') = vacate-Mirrors n (i + 1) l c w m (λ h. omega (arith, small)) in
          (l', r, rw (e, LobbyLogic.vacate) el, rw (read, e, vacate) ec, m')
      | inr (player, e) ↦
          let there : get_seat_position_by_id l player ≡ some (pos i) =
            ground (arith, w.consistent.seat_to_player (pos i) player e) in
          let u = unseated player i l w e in
          let away = leave_seat-IsAway player (pos i) l w there in
          let (c', moved, m') =
            move-Mirrors player (pos i) queue_seat l c w away.consistent m (queue_valid c) there
              (λ q. cc) (queue_clear l w) in
          let (l'', r, el, ec, m'') =
            vacate-Mirrors n (i + 1) _ c' u.sound m' (λ h. omega (arith, small, u.same_size)) in
          (
            l'',
            (record { player_id = player; to_seat_index = queue_seat } ∷ r.0, r.1),
            rw (e, LobbyLogic.vacate, send_to_queue player i l w e) el,
            rw (read, e, vacate, moved, ec),
            m'',
          )
    ]

seats_free-Mirrors :
    (n i : ℕ) (l : Lobby) (c : ClientLobby)
    → IsWellFormed l
    → Mirrors l c
    → seats_free n i c.seats ≡ seats_free n i l.seats
unfolding seats_free
seats_free-Mirrors zero i l c w m = refl
seats_free-Mirrors (suc n) i l c w m =
    rw (same_occupant l c (pos i) w m, seats_free-Mirrors n (i + 1) l c w m)

-- What a granted request for another size did.
pub resized :
    (value initiator : ℕ) (l l' : Lobby)
    → apply_players_per_game_change_request value initiator l ≡ ok (true, l')
    → (m : Lobby) × (LobbyLogic.vacate (l.players_per_game - value) value l ≡ ok m)
      × (Lobby.set_players_per_game value m ≡ ok l')
unfolding apply_players_per_game_change_request
resized value initiator l l' h =
    elim (Outcome-cases (LobbyLogic.vacate (l.players_per_game - value) value l)) [
      | inr (e, f) ↦ absurd (ground (arith, f, h))
      | inl (m, f) ↦ elim (Outcome-cases (Lobby.set_players_per_game value m)) [
        | inr (e, g) ↦ absurd (ground (arith, f, g, h))
        | inl (k, g) ↦ (m, f, ground (arith, f, g, h))
      ]
    ]

set_players_per_game-Mirrors :
    (value : ℕ) (l l' : Lobby) (c : ClientLobby)
    → IsWellFormed l
    → Mirrors l c
    → Lobby.set_players_per_game value l ≡ ok l'
    → (c' : ClientLobby) × (set_players_per_game value c ≡ ok c') × Mirrors l' c'
unfolding set_players_per_game get_client_player_data_by_id
set_players_per_game-Mirrors value l l' c w m h =
    let (low, high, clear, e) = set_players_per_game-result value l l' h in
    (
      record c { players_per_game = value },
      ground (
        arith,
        low,
        high,
        clear,
        m.same_size,
        seats_free-Mirrors (l.players_per_game - value) value l c w m,
      ),
      rw e (record {
        consistent = m.consistent;
        same_seats = m.same_seats;
        same_queue = m.same_queue;
        same_members = m.same_members;
        same_size = refl;
        same_open = m.same_open;
      }),
    )

resized_client :
    (value : ℕ) (c : ClientLobby) (r : List SeatChange × ClientLobby) (c' : ClientLobby)
    → vacate (c.players_per_game - value) value c ≡ ok r
    → set_players_per_game value r.1 ≡ ok c'
    → apply_players_per_game_change value c ≡ ok (r.0, c')
unfolding apply_players_per_game_change
resized_client value c r c' e f = rw (e, f)

-- If the server grants a request for another size of the game, a client whose lobby mirrors the
-- server's accepts the notification of the size, without a failed assert, and its lobby mirrors the
-- server's again: the same players have gone to the queue, in the same order.
pub players_per_game_request-Mirrors :
    (value initiator : ℕ) (l l' : Lobby) (c : ClientLobby)
    → IsWellFormed l
    → Mirrors l c
    → apply_players_per_game_change_request value initiator l ≡ ok (true, l')
    → (r : List SeatChange × ClientLobby) × (apply_players_per_game_change value c ≡ ok r)
      × Mirrors l' r.1
players_per_game_request-Mirrors value initiator l l' c w m h =
    let (k, emptied, sized) = resized value initiator l l' h in
    let (k', r, el, ec, mr) =
      vacate-Mirrors (l.players_per_game - value) value l c w m (λ g. omega arith) in
    let (k'', ek, v) = vacate-Vacated (l.players_per_game - value) value l w in
    let mk : Mirrors k r.1 = let same : k' ≡ k = cc in subst (λ x. Mirrors x r.1) same mr in
    let wk : IsWellFormed k = let same : k'' ≡ k = cc in subst IsWellFormed same v.sound in
    let (c', ed, m') = set_players_per_game-Mirrors value k l' r.1 wk mk sized in
    let ec' : vacate (c.players_per_game - value) value c ≡ ok r =
      subst (λ x. vacate (x - value) value c ≡ ok r) (sym m.same_size) ec in
    ((r.0, c'), resized_client value c r c' ec' ed, m')

-- A new size keeps the server's lobby well formed.
pub resized-IsWellFormed :
    (value initiator : ℕ) (l l' : Lobby)
    → IsWellFormed l
    → apply_players_per_game_change_request value initiator l ≡ ok (true, l')
    → IsWellFormed l'
resized-IsWellFormed value initiator l l' w h =
    let (m, emptied, set) = resized value initiator l l' h in
    let (m', e, v) = vacate-Vacated (l.players_per_game - value) value l w in
    let same : m' ≡ m = cc in
    set_players_per_game-IsWellFormed value m l' (subst IsWellFormed same v.sound) set
