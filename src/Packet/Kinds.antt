-- ===== src/Packet/Kinds.antt =====
-- source/protocol/PacketType.h: the kinds of packets and their numbers.
use durak.Base.{ℕ}

pub data PacketType : Type 0 where
  welcome notify_player_connected notify_player_reconnected notify_player_disconnected
        server_disconnect :
      PacketType
  notify_connection_with_player_lost notify_player_nickname_changed notify_seat_positions_changed
        notify_seat_positions_swapped notify_players_per_game_changed :
      PacketType
  notify_lobby_open_state_changed start_game deal_card show_card notify_identified_trump_card :
      PacketType
  notify_new_phase notify_new_main_attacker_player notify_new_defender_player notify_deal_to_others
        notify_player_tossed :
      PacketType
  notify_player_beat notify_pass_action notify_clear_table card_placed_on_table player_winner :
      PacketType
  player_loser end_game snapshot_begin snapshot_end snapshot_lobby_settings : PacketType
  snapshot_lobby_player_info snapshot_lobby_seat_positions snapshot_lobby_queue_positions hello
        update_request :
      PacketType
  snapshot_ack player_disconnected seat_positions_change_request seat_positions_swap_request
        players_per_game_change_request :
      PacketType
  lobby_open_state_change_request player_toss player_beat player_pass_action : PacketType

unfoldable pub packet_code : PacketType → ℕ
packet_code welcome = 1
packet_code notify_player_connected = 2
packet_code notify_player_reconnected = 3
packet_code notify_player_disconnected = 4
packet_code server_disconnect = 5
packet_code notify_connection_with_player_lost = 6
packet_code notify_player_nickname_changed = 7
packet_code notify_seat_positions_changed = 8
packet_code notify_seat_positions_swapped = 9
packet_code notify_players_per_game_changed = 10
packet_code notify_lobby_open_state_changed = 11
packet_code start_game = 12
packet_code deal_card = 13
packet_code show_card = 14
packet_code notify_identified_trump_card = 15
packet_code notify_new_phase = 16
packet_code notify_new_main_attacker_player = 17
packet_code notify_new_defender_player = 18
packet_code notify_deal_to_others = 19
packet_code notify_player_tossed = 20
packet_code notify_player_beat = 21
packet_code notify_pass_action = 22
packet_code notify_clear_table = 23
packet_code card_placed_on_table = 24
packet_code player_winner = 25
packet_code player_loser = 26
packet_code end_game = 27
packet_code snapshot_begin = 80
packet_code snapshot_end = 81
packet_code snapshot_lobby_settings = 82
packet_code snapshot_lobby_player_info = 83
packet_code snapshot_lobby_seat_positions = 84
packet_code snapshot_lobby_queue_positions = 85
packet_code hello = 128
packet_code update_request = 129
packet_code snapshot_ack = 130
packet_code player_disconnected = 131
packet_code seat_positions_change_request = 132
packet_code seat_positions_swap_request = 133
packet_code players_per_game_change_request = 134
packet_code lobby_open_state_change_request = 135
packet_code player_toss = 136
packet_code player_beat = 137
packet_code player_pass_action = 138
