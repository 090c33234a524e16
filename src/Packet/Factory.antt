-- ===== src/Packet/Factory.antt =====
-- source/network/PacketFactory.{h,cpp}: the packets of every kind, field by field.
use durak.Base.{ℕ, List, [], ◌∷◌, Bool, ℤ, to_u32, length}
use durak.Protocol.{ClientRole, SessionPhase, DisconnectReason, SnapshotType, RulesType}
use durak.GameState.{Phase, phase_number}
use durak.Packet.{
  Packet, new_packet, write_uint, write_bool, write_string, role_code, session_phase_code,
  reason_code, snapshot_code, rules_code,
}
use durak.Packet.Kinds.{
  welcome, notify_player_connected, notify_player_reconnected, notify_player_disconnected,
  server_disconnect, notify_connection_with_player_lost, notify_player_nickname_changed,
  notify_seat_positions_changed, notify_seat_positions_swapped, notify_players_per_game_changed,
  notify_lobby_open_state_changed, start_game, deal_card, show_card, notify_identified_trump_card,
  notify_new_phase, notify_new_main_attacker_player, notify_deal_to_others, notify_player_tossed,
  notify_player_beat, notify_pass_action, notify_clear_table, player_winner, player_loser, end_game,
  snapshot_begin, snapshot_end, snapshot_lobby_settings, snapshot_lobby_player_info,
  snapshot_lobby_seat_positions, snapshot_lobby_queue_positions, hello, update_request,
  snapshot_ack, player_disconnected, seat_positions_change_request, seat_positions_swap_request,
  players_per_game_change_request, lobby_open_state_change_request, player_toss, player_beat,
  player_pass_action,
}

-- The loops that write a list.
unfoldable pub write_all : List ℕ → Packet → Packet
write_all [] p = p
write_all (i ∷ is) p = write_all is (write_uint 4 i p)

unfoldable pub write_seats : List (ℤ × ℕ) → Packet → Packet
write_seats [] p = p
write_seats ((seat, player) ∷ rest) p =
    write_seats rest (write_uint 4 player (write_uint 4 (to_u32 seat) p))

unfoldable pub make_start_game : Packet
make_start_game = new_packet start_game

unfoldable pub make_end_game : Packet
make_end_game = new_packet end_game

unfoldable pub make_update_request_packet : Packet
make_update_request_packet = new_packet update_request

unfoldable pub make_snapshot_ack_packet : Packet
make_snapshot_ack_packet = new_packet snapshot_ack

unfoldable pub make_hello_packet : ℕ → List ℕ → Packet
make_hello_packet token nickname = write_string nickname (write_uint 8 token (new_packet hello))

unfoldable pub make_welcome_packet : ℕ → List ℕ → ClientRole → SessionPhase → Packet
make_welcome_packet id nickname role phase =
    write_uint 1 (session_phase_code phase)
      (write_uint 1 (role_code role) (write_string nickname (write_uint 4 id (new_packet welcome))))

unfoldable pub make_notify_player_connected_packet : ℕ → List ℕ → ClientRole → ℤ → Packet
make_notify_player_connected_packet player_id nickname role seat_position =
    write_uint 4 (to_u32 seat_position) (
      write_uint 1 (role_code role)
        (write_string nickname (write_uint 4 player_id (new_packet notify_player_connected))))

unfoldable pub make_notify_player_reconnected_packet : ℕ → Packet
make_notify_player_reconnected_packet player_id =
    write_uint 4 player_id (new_packet notify_player_reconnected)

unfoldable pub make_server_disconnect_packet : DisconnectReason → Packet
make_server_disconnect_packet reason =
    write_uint 1 (reason_code reason) (new_packet server_disconnect)

unfoldable pub make_player_disconnected_packet : Packet
make_player_disconnected_packet = new_packet player_disconnected

unfoldable pub make_notify_player_disconnected_packet : ℕ → DisconnectReason → Packet
make_notify_player_disconnected_packet player_id reason =
    write_uint 1 (reason_code reason)
      (write_uint 4 player_id (new_packet notify_player_disconnected))

unfoldable pub make_notify_player_nickname_changed_packet : ℕ → List ℕ → Packet
make_notify_player_nickname_changed_packet player_id nickname =
    write_string nickname (write_uint 4 player_id (new_packet notify_player_nickname_changed))

unfoldable pub make_notify_connection_with_player_lost_packet : ℕ → Packet
make_notify_connection_with_player_lost_packet player_id =
    write_uint 4 player_id (new_packet notify_connection_with_player_lost)

unfoldable pub make_seat_positions_change_request_packet : ℕ → ℤ → Packet
make_seat_positions_change_request_packet player_id new_seat_position =
    write_uint 4 (to_u32 new_seat_position)
      (write_uint 4 player_id (new_packet seat_positions_change_request))

unfoldable pub make_seat_positions_swap_request_packet : ℕ → ℕ → Packet
make_seat_positions_swap_request_packet first_player_id second_player_id =
    write_uint 4 second_player_id
      (write_uint 4 first_player_id (new_packet seat_positions_swap_request))

unfoldable pub make_notify_seat_positions_changed_packet : ℕ → ℤ → Packet
make_notify_seat_positions_changed_packet player_id seat_position =
    write_uint 4 (to_u32 seat_position)
      (write_uint 4 player_id (new_packet notify_seat_positions_changed))

unfoldable pub make_notify_seat_positions_swapped_packet : ℕ → ℕ → Packet
make_notify_seat_positions_swapped_packet first_player_id second_player_id =
    write_uint 4 second_player_id
      (write_uint 4 first_player_id (new_packet notify_seat_positions_swapped))

unfoldable pub make_players_per_game_change_request_packet : ℕ → Packet
make_players_per_game_change_request_packet value =
    write_uint 4 value (new_packet players_per_game_change_request)

unfoldable pub make_notify_players_per_game_changed_packet : ℕ → Packet
make_notify_players_per_game_changed_packet value =
    write_uint 4 value (new_packet notify_players_per_game_changed)

unfoldable pub make_lobby_open_state_change_request_packet : Bool → Packet
make_lobby_open_state_change_request_packet value =
    write_bool value (new_packet lobby_open_state_change_request)

unfoldable pub make_notify_lobby_open_state_changed_packet : Bool → Packet
make_notify_lobby_open_state_changed_packet value =
    write_bool value (new_packet notify_lobby_open_state_changed)

unfoldable pub make_deal_card_packet : ℕ → ℕ → Packet
make_deal_card_packet player_id card_id =
    write_uint 4 card_id (write_uint 4 player_id (new_packet deal_card))

unfoldable pub make_notify_deal_card_to_others_packet : ℕ → Packet
make_notify_deal_card_to_others_packet player_id =
    write_uint 4 player_id (new_packet notify_deal_to_others)

unfoldable pub make_player_toss_packet : ℕ → Packet
make_player_toss_packet card_id = write_uint 4 card_id (new_packet player_toss)

unfoldable pub make_notify_player_tossed_packet : ℕ → ℕ → ℤ → Packet
make_notify_player_tossed_packet player_id card_id table_position =
    write_uint 4 (to_u32 table_position)
      (write_uint 4 card_id (write_uint 4 player_id (new_packet notify_player_tossed)))

unfoldable pub make_player_beat_packet : ℕ → ℤ → Packet
make_player_beat_packet card_id table_position =
    write_uint 4 (to_u32 table_position) (write_uint 4 card_id (new_packet player_beat))

unfoldable pub make_notify_player_beat_packet : ℕ → ℕ → ℤ → Packet
make_notify_player_beat_packet player_id card_id table_position =
    write_uint 4 (to_u32 table_position)
      (write_uint 4 card_id (write_uint 4 player_id (new_packet notify_player_beat)))

unfoldable pub make_player_pass_action_packet : Bool → Packet
make_player_pass_action_packet value = write_bool value (new_packet player_pass_action)

unfoldable pub make_notify_player_pass_action_packet : ℕ → Bool → Packet
make_notify_player_pass_action_packet player_id value =
    write_bool value (write_uint 4 player_id (new_packet notify_pass_action))

unfoldable pub make_player_winner_packet : ℕ → Bool → Packet
make_player_winner_packet player_id value =
    write_bool value (write_uint 4 player_id (new_packet player_winner))

unfoldable pub make_player_loser_packet : ℕ → Bool → Packet
make_player_loser_packet player_id value =
    write_bool value (write_uint 4 player_id (new_packet player_loser))

unfoldable pub make_show_card_packet : ℕ → Packet
make_show_card_packet card_id = write_uint 4 card_id (new_packet show_card)

unfoldable pub make_notify_identified_trump_card_packet : ℕ → Packet
make_notify_identified_trump_card_packet card_id =
    write_uint 4 card_id (new_packet notify_identified_trump_card)

unfoldable pub make_notify_new_main_attacker_player_packet : ℕ → Packet
make_notify_new_main_attacker_player_packet player_id =
    write_uint 4 player_id (new_packet notify_new_main_attacker_player)

unfoldable pub make_notify_new_defender_player_packet : ℕ → Packet
make_notify_new_defender_player_packet player_id =
    write_uint 4 player_id (new_packet notify_new_main_attacker_player)

unfoldable pub make_notify_clear_table_packet : ℕ → List ℕ → Packet
make_notify_clear_table_packet destination_id card_ids =
    write_all card_ids
      (write_uint 8 (length card_ids) (write_uint 4 destination_id (new_packet notify_clear_table)))

unfoldable pub make_notify_new_game_phase_packet : Phase → Packet
make_notify_new_game_phase_packet phase =
    write_uint 1 (phase_number phase) (new_packet notify_new_phase)

unfoldable pub make_snapshot_begin_packet : SnapshotType → Packet
make_snapshot_begin_packet kind = write_uint 1 (snapshot_code kind) (new_packet snapshot_begin)

unfoldable pub make_snapshot_end_packet : SnapshotType → Packet
make_snapshot_end_packet kind = write_uint 1 (snapshot_code kind) (new_packet snapshot_end)

unfoldable pub make_snapshot_lobby_settings_packet :
    ℕ → ClientRole → Bool → Bool → RulesType → ℕ → Packet
make_snapshot_lobby_settings_packet client_id client_role is_lobby_open can_move_to_another_seat
      rules_type players_per_game =
    write_uint 4 players_per_game (
      write_uint 1 (rules_code rules_type) (
        write_bool can_move_to_another_seat (
          write_bool is_lobby_open (
            write_uint 1 (role_code client_role)
              (write_uint 4 client_id (new_packet snapshot_lobby_settings))))))

unfoldable pub make_snapshot_lobby_player_info_packet : ℕ → List ℕ → ClientRole → Packet
make_snapshot_lobby_player_info_packet player_id player_nickname player_role =
    write_uint 1 (role_code player_role) (
      write_string player_nickname (write_uint 4 player_id (new_packet snapshot_lobby_player_info)))

unfoldable pub make_snapshot_lobby_seat_positions_packet : List (ℤ × ℕ) → Packet
make_snapshot_lobby_seat_positions_packet seat_positions =
    write_seats seat_positions
      (write_uint 1 (length seat_positions) (new_packet snapshot_lobby_seat_positions))

unfoldable pub make_snapshot_lobby_queue_positions_packet : List ℕ → Packet
make_snapshot_lobby_queue_positions_packet queue_positions =
    write_all queue_positions
      (write_uint 1 (length queue_positions) (new_packet snapshot_lobby_queue_positions))
