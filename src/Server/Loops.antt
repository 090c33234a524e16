-- ===== src/Server/Loops.antt =====
-- Server.cpp and ServerPacketDispatcher.h: the dispatcher, and the loops over the clients.
use durak.Base.{ℕ, suc, ◌==◌, if◌then◌else◌, List, [], ◌∷◌, length, Outcome, ok, ◌>>=◌}
use durak.Packet.{Packet}
use durak.Packet.Kinds.{
  packet_code, hello, player_disconnected, snapshot_ack, seat_positions_change_request,
  seat_positions_swap_request, players_per_game_change_request, lobby_open_state_change_request,
}
use durak.Connection.{Connection, Socket, receive_packets, send_pending_packets}
use durak.Session.{Session}
use durak.Server.{Server, get_client}
use durak.Server.Handlers.{
  at_client, on_hello_packet, on_player_disconnected_packet, on_snapshot_ack_packet,
  on_seat_positions_change_request_packet, on_seat_positions_swap_request_packet,
  on_players_per_game_change_request_packet, on_lobby_open_state_change_request_packet,
}

-- The handlers that `registerHandlers` puts into the dispatcher's map; other kinds are passed over.
unfoldable pub dispatch : ℕ → Packet → Server → Outcome Server
unfolding on_hello_packet on_player_disconnected_packet on_snapshot_ack_packet
    on_seat_positions_change_request_packet on_seat_positions_swap_request_packet
    on_players_per_game_change_request_packet on_lobby_open_state_change_request_packet
dispatch i packet s =
    if packet.kind == packet_code hello
    then on_hello_packet i packet s
    else if packet.kind == packet_code player_disconnected
    then on_player_disconnected_packet i packet s
    else if packet.kind == packet_code snapshot_ack
    then on_snapshot_ack_packet i packet s
    else if packet.kind == packet_code seat_positions_change_request
    then on_seat_positions_change_request_packet i packet s
    else if packet.kind == packet_code seat_positions_swap_request
    then on_seat_positions_swap_request_packet i packet s
    else if packet.kind == packet_code players_per_game_change_request
    then on_players_per_game_change_request_packet i packet s
    else if packet.kind == packet_code lobby_open_state_change_request
    then on_lobby_open_state_change_request_packet i packet s
    else ok s

unfoldable pub dispatch_all : ℕ → List Packet → Server → Outcome Server
unfolding dispatch
dispatch_all i [] s = ok s
dispatch_all i (p ∷ ps) s = dispatch i p s >>= dispatch_all i ps

abbrev pub put_connection : Connection → Session → Session
put_connection connection client = record client { connection = connection }

-- What the socket of the client hands over is a list of chunks.
unfoldable pub process_receiving_packets : ℕ → List (List ℕ) → Server → Outcome Server
unfolding dispatch_all at_client
process_receiving_packets i chunks s = get_client i s >>= λ client.
    receive_packets (packet_code hello) chunks client.connection >>= λ r.
    dispatch_all i r.0 (at_client i (put_connection r.1) s)

-- The loop over the clients, from index `i` on.
unfoldable pub process_all_receiving_packets : ℕ → List (List (List ℕ)) → Server → Outcome Server
unfolding process_receiving_packets
process_all_receiving_packets i [] s = ok s
process_all_receiving_packets i (chunks ∷ rest) s =
    process_receiving_packets i chunks s >>= process_all_receiving_packets (suc i) rest

-- The loop has as many rounds as there are packets to send, and one more.
unfoldable pub process_sending_packets : Socket → Session → Outcome (List ℕ × Session)
process_sending_packets socket client =
    send_pending_packets socket (suc (length client.connection.outgoing)) 0 client.connection
    >>= λ r. ok (r.0, put_connection r.1 client)

unfoldable pub send_sessions : List (Socket × Session) → Outcome (List Session)
unfolding process_sending_packets
send_sessions [] = ok []
send_sessions ((socket, client) ∷ rest) =
    process_sending_packets socket client >>= λ r. send_sessions rest >>= λ rs. ok (r.1 ∷ rs)
