-- ===== src/ClientLobbyLogic/Steps.antt =====
-- Sequences of granted requests, and a client that gets a notification of each in turn.
use durak.Base.{
  ℕ, ◌<◌, ◌≡◌, ◌≢◌, refl, Bool, true, not, ◌==◌, List, [], ◌∷◌, ℤ, arith, Outcome, ok, ◌>>=◌, sym,
  subst, inl, inr, ◌⊎◌, pos, ap, ℤ_discrete, ℕ_discrete,
}
use durak.Lobby.{Lobby, queue_seat, delete_player}
use durak.Lobby.Invariant.{IsWellFormed}
use durak.Lobby.Moves.{IsInt, Moved-IsWellFormed}
use durak.Lobby.Members.{delete_player-IsWellFormed}
use durak.LobbyLogic.{
  apply_seat_positions_change_request, apply_seat_positions_swap_request,
  apply_players_per_game_change_request,
}
use durak.LobbyLogic as LobbyLogic
use durak.LobbyLogic.Seating.{change_request_MayMove}
use durak.LobbyLogic.Swapping.{MaySwap}
use durak.LobbyLogic.Settings.{lobby_open_request_granted}
use durak.ClientLobby.{ClientLobby, get_client_player_data_by_id, is_valid_seat_position}
use durak.ClientLobby.Mirror.{Mirrors}
use durak.ClientLobbyLogic.{
  apply_seat_positions_changed, apply_seat_positions_swapped, apply_player_disconnected,
  apply_players_per_game_change, apply_lobby_open_state,
}
use durak.ClientLobbyLogic.Follow.{change_request-Mirrors, disconnected-Mirrors}
use durak.ClientLobbyLogic.Resized.{players_per_game_request-Mirrors, resized-IsWellFormed}
use durak.ClientLobbyLogic.Swapped.{swap_request-Mirrors}

-- The notifications about the lobby that the server sends to the players that did not ask.
pub data Notice : Type 0 where
  seat_changed : ℕ → ℤ → Notice
  seats_swapped : ℕ → ℕ → Notice
  disconnected : ℕ → Notice
  size_changed : ℕ → Notice
  open_changed : Bool → Notice

-- What the handler of a notification does to the client's lobby.
unfoldable pub apply_notice : Notice → ClientLobby → Outcome ClientLobby
apply_notice (seat_changed player seat) c =
    apply_seat_positions_changed player seat c >>= λ r. ok r.1
apply_notice (seats_swapped first second) c =
    apply_seat_positions_swapped first second c >>= λ r. ok r.1
apply_notice (disconnected player) c = ok (apply_player_disconnected player c)
apply_notice (size_changed value) c = apply_players_per_game_change value c >>= λ r. ok r.1
apply_notice (open_changed value) c = ok (apply_lobby_open_state value c).1

unfoldable pub apply_notices : List Notice → ClientLobby → Outcome ClientLobby
apply_notices [] c = ok c
apply_notices (n ∷ ns) c = apply_notice n c >>= apply_notices ns

-- A seat of the game, or the queue.
abbrev pub IsPlace : Lobby → ℤ → Type 0
IsPlace l seat = (seat ≡ queue_seat) ⊎ ((i : ℕ) × (seat ≡ pos i) × (i < l.players_per_game))

-- One change of the server's lobby, and the notification of it. Swaps with a second player in the
-- queue, seats beyond the game and newcomers are left out: a client does not keep up with those.
pub data Granted (l : Lobby) : Notice → Lobby → Type 0 where
  moved :
      (player : ℕ) (seat : ℤ) (initiator : ℕ) (l' : Lobby)
      → IsInt seat
      → IsPlace l seat
      → apply_seat_positions_change_request player seat initiator l ≡ ok (true, l')
      → Granted l (seat_changed player seat) l'
  swapped :
      (first second initiator : ℕ) (j k : ℤ) (l' : Lobby)
      → MaySwap l first second initiator j k
      → k ≢ queue_seat
      → apply_seat_positions_swap_request first second initiator l ≡ ok (true, l')
      → Granted l (seats_swapped first second) l'
  left : (player : ℕ) → Granted l (disconnected player) (delete_player player l)
  sized :
      (value initiator : ℕ) (l' : Lobby)
      → apply_players_per_game_change_request value initiator l ≡ ok (true, l')
      → Granted l (size_changed value) l'
  opened :
      (value initiator : ℕ) (l' : Lobby)
      → value < 2
      → LobbyLogic.apply_lobby_open_state value initiator l ≡ ok (true, l')
      → Granted l (open_changed (not (value == 0))) l'

-- What a change comes to on both sides.
pub record Followed (n : Notice) (l' : Lobby) (c : ClientLobby) : Type 0 where
  new : ClientLobby
  applied : apply_notice n c ≡ ok new
  sound : IsWellFormed l'
  mirrored : Mirrors l' new

opened-Followed :
    (value initiator : ℕ) (l l' : Lobby) (c : ClientLobby)
    → IsWellFormed l
    → Mirrors l c
    → value < 2
    → LobbyLogic.apply_lobby_open_state value initiator l ≡ ok (true, l')
    → Followed (open_changed (not (value == 0))) l' c
unfolding apply_notice apply_lobby_open_state get_client_player_data_by_id
opened-Followed value initiator l l' c w m small h =
    let (_, as_asked, other, e) = lobby_open_request_granted value initiator l l' small h in
    let goes : (apply_lobby_open_state (not (value == 0)) c).1
        ≡ record c { is_lobby_open = l'.is_lobby_open } =
      ground (arith, as_asked, other, m.same_open, small) in
    let c' : ClientLobby = record c { is_lobby_open = l'.is_lobby_open } in
    let same : record l { is_lobby_open = l'.is_lobby_open } ≡ l' = sym e in
    record {
      new = c';
      applied = ap ok goes;
      sound = subst IsWellFormed same (record {
        roster = w.roster;
        consistent = w.consistent;
        placed = w.placed;
        real_seats = w.real_seats;
      });
      mirrored =
          subst (λ x. Mirrors x c') same
            (record {
              consistent = m.consistent;
              same_seats = m.same_seats;
              same_queue = m.same_queue;
              same_members = m.same_members;
              same_size = m.same_size;
              same_open = refl;
            });
    }

place-valid :
    (l : Lobby) (c : ClientLobby) (seat : ℤ)
    → IsWellFormed l
    → Mirrors l c
    → IsPlace l seat
    → is_valid_seat_position c seat ≡ true
unfolding is_valid_seat_position ℤ_discrete ℕ_discrete
place-valid l c seat w m (inl q) = rw q
place-valid l c seat w m (inr (i, e, lt)) = rw e (ground (arith, lt, m.same_size, w.roster.at_most))

Granted-Followed :
    (l : Lobby) (n : Notice) (l' : Lobby) (c : ClientLobby)
    → IsWellFormed l
    → Mirrors l c
    → Granted l n l'
    → Followed n l' c
unfolding apply_notice
Granted-Followed l _ _ c w m (moved player seat initiator l' int place h) =
    let (c', r, m') =
      change_request-Mirrors player seat initiator l l' c w m (place-valid l c seat w m place) h in
    let (current, _, went) = change_request_MayMove player seat initiator l l' h in
    record {
      new = c';
      applied = rw r;
      sound = Moved-IsWellFormed player current seat l l' int w went;
      mirrored = m';
    }
Granted-Followed l _ _ c w m (swapped first second initiator j k l' may n h) =
    let (l'', c', r, done, w', m') =
      swap_request-Mirrors first second initiator j k l c w m may n in
    let same : l'' ≡ l' = cc in
    record {
      new = c';
      applied = rw done;
      sound = subst IsWellFormed same w';
      mirrored = subst (λ x. Mirrors x c') same m';
    }
Granted-Followed l _ _ c w m (left player) = record {
  new = apply_player_disconnected player c;
  applied = refl;
  sound = delete_player-IsWellFormed player l w;
  mirrored = disconnected-Mirrors player l c w m;
}
Granted-Followed l _ _ c w m (sized value initiator l' h) =
    let (r, done, m') = players_per_game_request-Mirrors value initiator l l' c w m h in
    record {
      new = r.1;
      applied = rw done;
      sound = resized-IsWellFormed value initiator l l' w h;
      mirrored = m';
    }
Granted-Followed l _ _ c w m (opened value initiator l' small h) =
    opened-Followed value initiator l l' c w m small h

-- A sequence of changes of the server's lobby, with their notifications.
pub data History : Lobby → List Notice → Lobby → Type 0 where
  still : (l : Lobby) → History l [] l
  step :
      (l : Lobby) (n : Notice) (m : Lobby) (ns : List Notice) (l' : Lobby)
      → Granted l n m
      → History m ns l'
      → History l (n ∷ ns) l'

-- Take any sequence of changes that the server makes to a well-formed lobby: moves to seats of the
-- game or to the queue, swaps whose second player is not in the queue, departures, new sizes of the
-- game, and openings and closings. A client whose lobby mirrors the server's at the start, and that
-- applies the notifications of all these changes in their order, comes through without an exception
-- or a failed assert, and its lobby mirrors the server's, which is still well formed.
pub notices-refine :
    (l : Lobby) (ns : List Notice) (l' : Lobby) (c : ClientLobby)
    → IsWellFormed l
    → Mirrors l c
    → History l ns l'
    → (c' : ClientLobby) × (apply_notices ns c ≡ ok c') × IsWellFormed l' × Mirrors l' c'
unfolding apply_notices
notices-refine l _ _ c w m (still _) = (c, refl, w, m)
notices-refine l _ _ c w m (step _ n k ns l' g h) =
    let f = Granted-Followed l n k c w m g in
    let (c', r, w', m') = notices-refine k ns l' f.new f.sound f.mirrored h in
    (c', rw f.applied r, w', m')
