-- ===== src/Server/Serving.antt =====
-- Every handler keeps the lobby of the server well formed, the one for swap requests left aside, and so
-- does every run of the server.
use durak.Base.{
  ℕ, ◌≡◌, ◌≢◌, refl, Bool, true, false, not, if◌then◌else◌, List, to_int, arith, Outcome, ok, fault,
  ◌>>=◌, >>=-eq-ok, Bool-cases, inl, inr, subst, ==_iff,
}
use durak.Lobby.{Lobby}
use durak.Lobby.Invariant.{IsWellFormed, new_lobby-IsWellFormed}
use durak.LobbyLogic.{
  apply_seat_positions_change_request, apply_players_per_game_change_request,
  apply_lobby_open_state, as_number,
}
use durak.Packet.{Packet, read_uint, read_bool}
use durak.Packet.Kinds.{packet_code, seat_positions_swap_request}
use durak.Packet.Factory.{
  make_notify_seat_positions_changed_packet, make_notify_players_per_game_changed_packet,
  make_notify_lobby_open_state_changed_packet,
}
use durak.Session.{Session}
use durak.Server.{
  Server, new_server, update_server, update_clients, accept_new_clients, erase_clients,
}
use durak.Server.Handlers.{
  at_client, on_snapshot_ack_packet, on_seat_positions_change_request_packet,
  on_players_per_game_change_request_packet, on_lobby_open_state_change_request_packet, answer,
  get_client_id, in_lobby,
}
use durak.Server.Loops.{dispatch}
use durak.Server.Sound.{
  to_int-IsInt, size_request-IsWellFormed, change_request-IsWellFormed, open_request-IsWellFormed,
  answer-IsWellFormed,
}
use durak.Server.Handled.{on_hello_packet-Sound, on_player_disconnected_packet-Sound, Sound}

-- What the request handlers share: the request is made in the lobby's phase, and then answered.
answered-Sound :
    (i client : ℕ) (notice : Packet) (request : Outcome (Bool × Lobby)) (s s' : Server)
    → Sound s
    → ((granted : Bool) (l : Lobby) → request ≡ ok (granted, l) → IsWellFormed l)
    → (if not (in_lobby s.phase) then ok s else (request >>= λ r. answer i client notice r s))
      ≡ ok s'
    → Sound s'
answered-Sound i client notice (fault x) s s' w keeps h =
    let same : s.lobby ≡ s'.lobby = ground (arith, h) in subst IsWellFormed same w
answered-Sound i client notice (ok (granted, l)) s s' w keeps h =
    elim (Bool-cases (in_lobby s.phase)) [
      | inl f ↦
          answer-IsWellFormed i client notice granted l s s' (keeps granted l refl)
            (ground (arith, f, h))
      | inr f ↦ let same : s.lobby ≡ s'.lobby = ground (arith, f, h) in subst IsWellFormed same w
    ]

on_seat_positions_change_request_packet-Sound :
    (i : ℕ) (packet : Packet) (s s' : Server)
    → Sound s
    → on_seat_positions_change_request_packet i packet s ≡ ok s'
    → Sound s'
unfolding on_seat_positions_change_request_packet
on_seat_positions_change_request_packet-Sound i packet s s' w h =
    let (player, _, rest) = >>=-eq-ok (read_uint 4 packet) _ h in
    let (seat, _, rest') = >>=-eq-ok (read_uint 4 player.1) _ rest in
    let (client, _, last) = >>=-eq-ok (get_client_id i s) _ rest' in
    answered-Sound i client (make_notify_seat_positions_changed_packet player.0 (to_int seat.0))
      (apply_seat_positions_change_request player.0 (to_int seat.0) client s.lobby) s s' w
      (λ granted l e.
        change_request-IsWellFormed player.0 (to_int seat.0) client granted s.lobby l
          (to_int-IsInt seat.0) w e)
      last

on_players_per_game_change_request_packet-Sound :
    (i : ℕ) (packet : Packet) (s s' : Server)
    → Sound s
    → on_players_per_game_change_request_packet i packet s ≡ ok s'
    → Sound s'
unfolding on_players_per_game_change_request_packet
on_players_per_game_change_request_packet-Sound i packet s s' w h =
    let (value, _, rest) = >>=-eq-ok (read_uint 4 packet) _ h in
    let (client, _, last) = >>=-eq-ok (get_client_id i s) _ rest in
    answered-Sound i client (make_notify_players_per_game_changed_packet value.0)
      (apply_players_per_game_change_request value.0 client s.lobby) s s' w
      (λ granted l e. size_request-IsWellFormed value.0 client granted s.lobby l w e) last

on_lobby_open_state_change_request_packet-Sound :
    (i : ℕ) (packet : Packet) (s s' : Server)
    → Sound s
    → on_lobby_open_state_change_request_packet i packet s ≡ ok s'
    → Sound s'
unfolding on_lobby_open_state_change_request_packet
on_lobby_open_state_change_request_packet-Sound i packet s s' w h =
    let (value, _, rest) = >>=-eq-ok (read_bool packet) _ h in
    let (client, _, rest') = >>=-eq-ok (get_client_id i s) _ rest in
    let ((granted, l), e, last) =
      >>=-eq-ok (apply_lobby_open_state (as_number value.0) client s.lobby) _ rest' in
    answer-IsWellFormed i client (make_notify_lobby_open_state_changed_packet value.0) granted l s
      s' (open_request-IsWellFormed (as_number value.0) client granted s.lobby l w e) last

on_snapshot_ack_packet-Sound :
    (i : ℕ) (packet : Packet) (s s' : Server)
    → Sound s
    → on_snapshot_ack_packet i packet s ≡ ok s'
    → Sound s'
unfolding on_snapshot_ack_packet at_client
on_snapshot_ack_packet-Sound i packet s s' w h =
    let same : s.lobby ≡ s'.lobby = ground (arith, h) in subst IsWellFormed same w

ended-Sound : (s s' : Server) → Sound s → ok s ≡ ok s' → Sound s'
ended-Sound s s' w h = let same : s ≡ s' = cc in subst Sound same w

-- One test of the dispatcher.
tested-Sound :
    (test : Bool) (handled others : Outcome Server) (s' : Server)
    → (test ≡ true → handled ≡ ok s' → Sound s')
    → (others ≡ ok s' → Sound s')
    → (if test then handled else others) ≡ ok s'
    → Sound s'
tested-Sound true handled others s' here there h = here refl h
tested-Sound false handled others s' here there h = there h

-- A packet of any kind but a swap request, if its handler comes to its end, leaves the server with a
-- well-formed lobby if it had one.
pub dispatch-Sound :
    (i : ℕ) (packet : Packet) (s s' : Server)
    → Sound s
    → packet.kind ≢ packet_code seat_positions_swap_request
    → dispatch i packet s ≡ ok s'
    → Sound s'
unfolding dispatch
dispatch-Sound i packet s s' w n =
    tested-Sound _ _ _ s' (λ _. on_hello_packet-Sound i packet s s' w)
      (tested-Sound _ _ _ s' (λ _. on_player_disconnected_packet-Sound i packet s s' w)
        (tested-Sound _ _ _ s' (λ _. on_snapshot_ack_packet-Sound i packet s s' w)
          (tested-Sound _ _ _ s'
            (λ _. on_seat_positions_change_request_packet-Sound i packet s s' w)
            (tested-Sound _ _ _ s' (λ e _. absurd (n ((==_iff _ _).0 e)))
              (tested-Sound _ _ _ s'
                (λ _. on_players_per_game_change_request_packet-Sound i packet s s' w)
                (tested-Sound _ _ _ s'
                  (λ _. on_lobby_open_state_change_request_packet-Sound i packet s s' w)
                  (ended-Sound s s' w)))))))

-- What the server may come to: rounds of its loop, packets other than swap requests, and whatever
-- sending and receiving do to the sessions.
pub data Serves (s : Server) : Server → Type 0 where
  started : Serves s s
  updated :
      (m : Server) (accepted : Bool) (dt : ℕ) → Serves s m → Serves s (update_server accepted dt m)
  erased : (m : Server) → Serves s m → Serves s (erase_clients m)
  connected :
      (m : Server) (clients : List Session) → Serves s m → Serves s (record m { clients = clients })
  handled :
      (m m' : Server) (i : ℕ) (packet : Packet)
      → packet.kind ≢ packet_code seat_positions_swap_request
      → Serves s m
      → dispatch i packet m ≡ ok m'
      → Serves s m'

-- From a start with a well-formed lobby, such as that of a new server, the lobby stays well formed
-- through any run of updates, of handled packets other than swap requests, of erasures of clients,
-- and of changes of the sessions.
pub serves-Sound : (s s' : Server) → Sound s → Serves s s' → Sound s'
unfolding update_server update_clients accept_new_clients erase_clients
serves-Sound s _ w started = w
serves-Sound s _ w (updated m true dt r) = serves-Sound s m w r
serves-Sound s _ w (updated m false dt r) = serves-Sound s m w r
serves-Sound s _ w (erased m r) = serves-Sound s m w r
serves-Sound s _ w (connected m clients r) = serves-Sound s m w r
serves-Sound s s' w (handled m _ i packet n r e) =
    dispatch-Sound i packet m s' (serves-Sound s m w r) n e

pub new_server-Sound : Sound new_server
unfolding new_server
new_server-Sound = new_lobby-IsWellFormed
