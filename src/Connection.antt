-- ===== src/Connection.antt =====
-- source/network/ClientSession.cpp and Client.cpp, which share the code of a connection: the buffer
-- that cuts the bytes of a socket into packets, and the queue of packets to send. The socket is a
-- parameter: what it hands over is a list of chunks, and what it does with a buffer to send is a
-- function of the number of the call and of the bytes left. `size_t` has 64 bits.
pub mod Frames
pub mod Bounds
pub mod Stuck
pub mod Sending
pub mod Splitting
pub mod Delivery
pub mod Arrival
pub mod Tests
use durak.Base.{
  ℕ, zero, suc, ◌+◌, ◌-◌, ◌%◌, ◌^◌, Bool, true, false, ltb, leb, ◌==◌, if◌then◌else◌, List, [], ◌∷◌,
  ◌++◌, length, take, drop, Option, none, some, Outcome, ok, fault, out_of_fuel, ◌>>=◌,
}
use durak.Packet.{Packet, serialize, from_buffer, read_from}

pub record Pending : Type 0 where
  pub bytes : List ℕ
  pub sent : ℕ

pub data ConnectionState : Type 0 where
  disconnected connecting ready : ConnectionState

-- sf::Socket::Status.
pub data SocketStatus : Type 0 where
  done partial not_ready socket_disconnected socket_error : SocketStatus

pub record Connection : Type 0 where
  pub buffer : List ℕ
  pub buffer_start_offset : ℕ
  pub outgoing : List Pending
  pub connection_state : ConnectionState

-- `bodyLen + 4` in `int32_t`, where it may wrap, and from there in `size_t`.
unfoldable pub frame_size : ℕ → ℕ
frame_size n =
    if ltb ((n + 4) % 2 ^ 32) (2 ^ 31)
    then (n + 4) % 2 ^ 32
    else (n + 4) % 2 ^ 32 + (2 ^ 64 - 2 ^ 32)

-- The bytes of the buffer that no packet has taken.
abbrev pub unread : Connection → List ℕ
unread c = drop c.buffer_start_offset c.buffer

-- The first packet of the greeting's kind makes the connection ready.
unfoldable pub greet : ℕ → Packet → ConnectionState → ConnectionState
greet greeting p connecting = if p.kind == greeting then ready else connecting
greet greeting p disconnected = disconnected
greet greeting p ready = ready

-- One round of the inner loop of `receivePackets`; `none` where it ends.
unfoldable pub read_packet : ℕ → Connection → Outcome (Option (Packet × Connection))
read_packet greeting c =
    let size = length c.buffer - c.buffer_start_offset in
    if ltb size 4
    then ok none
    else (read_from 4 c.buffer_start_offset c.buffer 0 >>= λ n.
        if ltb size (frame_size n)
        then ok none
        else (from_buffer (take (frame_size n) (unread c)) >>= λ p. ok (
            some (
              p,
              record c {
                connection_state = greet greeting p c.connection_state;
                buffer_start_offset = c.buffer_start_offset + frame_size n;
              },
            ))))

-- The inner loop.
unfoldable pub read_packets : ℕ → ℕ → Connection → Outcome (List Packet × Connection)
read_packets zero greeting c = fault out_of_fuel
read_packets (suc fuel) greeting c = read_packet greeting c >>= λ r. elim r [
  | none ↦ ok ([], c)
  | some (p, c') ↦ read_packets fuel greeting c' >>= λ rest. ok (p ∷ rest.0, rest.1)
]

-- The bytes read are dropped once they are more than 1024.
unfoldable pub compact : Connection → Connection
compact c =
    if ltb 1024 c.buffer_start_offset
    then record c { buffer = unread c; buffer_start_offset = 0 }
    else c

abbrev pub put_chunk : List ℕ → Connection → Connection
put_chunk chunk c = record c { buffer = c.buffer ++ chunk }

-- `receivePackets`, over the chunks that the socket hands over before it has no more.
unfoldable pub receive_packets : ℕ → List (List ℕ) → Connection → Outcome (List Packet × Connection)
receive_packets greeting [] c = ok ([], c)
receive_packets greeting (chunk ∷ chunks) c =
    let c' = put_chunk chunk c in
    read_packets (suc (length (unread c'))) greeting c' >>= λ r.
    receive_packets greeting chunks (compact r.1) >>= λ rest. ok (r.0 ++ rest.0, rest.1)

unfoldable pub send_packet : Packet → Connection → Connection
send_packet p c = record c {
  outgoing = c.outgoing ++ (record { bytes = serialize p; sent = 0 } ∷ []);
}

-- What the socket says of the bytes in call `n`, and how many of them it took.
abbrev pub Socket : Type 0
Socket = ℕ → List ℕ → SocketStatus × ℕ

abbrev pub left_to_send : Pending → List ℕ
left_to_send q = drop q.sent q.bytes

abbrev pub took : ℕ → Pending → Pending
took n q = record q { sent = q.sent + n }

-- What one call of `send` leads to: whether the loop goes on, and the connection.
unfoldable pub after_send :
    SocketStatus → ℕ → Pending → List Pending → Connection → Bool × Connection
after_send done n q queue c = (
  true,
  record c { outgoing = if leb (length q.bytes) (q.sent + n) then queue else took n q ∷ queue },
)
after_send partial n q queue c = (false, record c { outgoing = took n q ∷ queue })
after_send not_ready n q queue c = (false, c)
after_send socket_disconnected n q queue c = (false, record c { connection_state = disconnected })
after_send socket_error n q queue c = (false, record c { connection_state = disconnected })

-- The bytes that the socket keeps.
unfoldable pub accepted : SocketStatus → ℕ → List ℕ → List ℕ
accepted done n bytes = take n bytes
accepted partial n bytes = take n bytes
accepted not_ready n bytes = []
accepted socket_disconnected n bytes = []
accepted socket_error n bytes = []

-- The loop of `sendPendingPackets` from call `i` on, with the bytes that went into the socket.
unfoldable pub send_pending_packets : Socket → ℕ → ℕ → Connection → Outcome (List ℕ × Connection)
unfolding after_send accepted
send_pending_packets socket zero i c = fault out_of_fuel
send_pending_packets socket (suc fuel) i c = elim c.outgoing [
  | [] ↦ ok ([], c)
  | q ∷ queue ↦
      let (status, n) = socket i (left_to_send q) in
      let (again, c') = after_send status n q queue c in
      let bytes = accepted status n (left_to_send q) in
      elim again [
        | true ↦ send_pending_packets socket fuel (suc i) c' >>= λ r. ok (bytes ++ r.0, r.1)
        | false ↦ ok (bytes, c')
      ]
]

-- `ClientSession::init` and the constructor, and `Client::init`.
abbrev pub new_connection : ConnectionState → Connection
new_connection state = record {
  buffer = [];
  buffer_start_offset = 0;
  outgoing = [];
  connection_state = state;
}

-- `Client::connect`, on the status of the socket's own `connect`.
unfoldable pub connect : SocketStatus → Connection → Connection
connect done c = record c { connection_state = connecting }
connect not_ready c = record c { connection_state = connecting }
connect partial c = record c { connection_state = disconnected }
connect socket_disconnected c = record c { connection_state = disconnected }
connect socket_error c = record c { connection_state = disconnected }
