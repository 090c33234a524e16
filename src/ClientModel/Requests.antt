-- ===== src/ClientModel/Requests.antt =====
-- ClientModel.cpp: the events of the user interface, which the client applies before it asks the server.
use durak.Base.{
  ℕ, Bool, if◌then◌else◌, List, [], ◌∷◌, is_empty, Option, none, some, ℤ, Outcome, ok, bad_optional,
  ◌>>=◌, value_or_fault,
}
use durak.Packet.Factory.{
  make_seat_positions_change_request_packet, make_seat_positions_swap_request_packet,
  make_players_per_game_change_request_packet, make_lobby_open_state_change_request_packet,
}
use durak.ClientLobbyLogic.{
  SeatChange, apply_seat_positions_change_request, apply_seat_positions_swap_request,
  apply_players_per_game_change, apply_lobby_open_state,
}
use durak.ClientModel.{
  ClientModel, send, publish, logic_lobby, put_logic_lobby, seat_positions_changed,
  seat_positions_swapped, players_per_game_changed, lobby_open_state_changed, lobby_state_sync,
}

-- The initiator of an event may be nobody, whose `value()` throws.
unfoldable pub on_seat_positions_change_request_event :
    ℕ → ℤ → Option ℕ → ClientModel → Outcome ClientModel
unfolding put_logic_lobby
on_seat_positions_change_request_event player seat initiator m =
    value_or_fault initiator bad_optional >>= λ asker.
    apply_seat_positions_change_request player seat asker (logic_lobby m) >>= λ r.
    let m' = put_logic_lobby r.1 m in
    elim r.0 [
      | none ↦ ok (publish (lobby_state_sync m.local_context) m')
      | some change ↦ ok (
          send (make_seat_positions_change_request_packet change.player_id change.to_seat_index)
            (publish (seat_positions_changed change.player_id change.to_seat_index) m'))
    ]

unfoldable pub on_seat_positions_swap_request_event :
    ℕ → ℕ → Option ℕ → ClientModel → Outcome ClientModel
unfolding put_logic_lobby
on_seat_positions_swap_request_event first second initiator m =
    value_or_fault initiator bad_optional >>= λ asker.
    apply_seat_positions_swap_request first second asker (logic_lobby m) >>= λ r.
    let m' = put_logic_lobby r.1 m in
    if is_empty r.0
    then ok (publish (lobby_state_sync m.local_context) m')
    else ok (
        send (make_seat_positions_swap_request_packet first second)
          (publish (seat_positions_swapped first second) m'))

-- The loop over the players that had to leave their seats.
unfoldable pub tell_changes : List SeatChange → ClientModel → ClientModel
tell_changes [] m = m
tell_changes (change ∷ changes) m = tell_changes changes (
    send (make_seat_positions_change_request_packet change.player_id change.to_seat_index)
      (publish (seat_positions_changed change.player_id change.to_seat_index) m))

unfoldable pub on_players_per_game_change_request_event : ℕ → ClientModel → Outcome ClientModel
unfolding tell_changes put_logic_lobby
on_players_per_game_change_request_event value m =
    apply_players_per_game_change value (logic_lobby m) >>= λ r. ok (
      send (make_players_per_game_change_request_packet value)
        (publish (players_per_game_changed value) (tell_changes r.0 (put_logic_lobby r.1 m))))

unfoldable pub on_lobby_open_state_change_request_event : Bool → ClientModel → ClientModel
unfolding put_logic_lobby
on_lobby_open_state_change_request_event value m =
    let r = apply_lobby_open_state value (logic_lobby m) in
    let m' = put_logic_lobby r.1 m in
    if r.0
    then publish (lobby_open_state_changed value)
        (send (make_lobby_open_state_change_request_packet value) m')
    else publish (lobby_state_sync m.local_context) m'
