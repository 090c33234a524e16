-- ===== src/Connection/Tests.antt =====
-- A greeting on its way through two connections.
use durak.Base.{
  ℕ, ◌≡◌, ◌≢◌, ◌⊎◌, ◌≤◌, List, [], ◌∷◌, ◌++◌, length, map, refl, ok, fault, Fault, out_of_fuel,
  arith, take, drop, ap, ◌∙◌, take-append-drop,
}
use mathlib.Core.List.{append-nil}
use durak.Packet.{Packet, serialize, to_bytes}
use durak.Connection.{
  Connection, new_connection, connecting, Socket, done, unread, send_packet, send_pending_packets,
  receive_packets,
}
use durak.Connection.Frames.{stream, arrived}
use durak.Connection.Bounds.{IsInside, receive_packets-ends}
use durak.Connection.Stuck.{receive_calls, negative_length_blocks}
use durak.Connection.Sending.{IsSocket, send_all, Sent, send_pending_packets-Sent}
use durak.Connection.Frames.{concat}
use durak.Connection.Delivery.{Received, stream-Received}
use durak.Connection.Arrival.{sent_packets_arrive}

abbrev greeting : Packet
greeting = record { kind = 1; payload = 7 ∷ 8 ∷ []; read_position = 0 }

abbrev goodbye : Packet
goodbye = record { kind = 5; payload = 0 ∷ []; read_position = 0 }

abbrev fresh : Connection
fresh = new_connection connecting

-- A socket that takes all that it is given.
abbrev wide : Socket
wide i bytes = (done, length bytes)

wide-IsSocket : IsSocket wide
wide-IsSocket = record { no_more = λ i bytes. omega arith; all_if_done = λ i bytes h. refl }

-- The two packets in three chunks, cut inside both.
abbrev three_chunks : List (List ℕ)
three_chunks = (0 ∷ 0 ∷ []) ∷ (0 ∷ 3 ∷ 1 ∷ 7 ∷ 8 ∷ 0 ∷ 0 ∷ 0 ∷ []) ∷ (2 ∷ 5 ∷ 0 ∷ []) ∷ []

three_chunks_cut : concat three_chunks ≡ stream (greeting ∷ goodbye ∷ [])
unfolding stream serialize to_bytes
three_chunks_cut = refl

stream-Received_example : Received 1 three_chunks (greeting ∷ goodbye ∷ []) fresh
stream-Received_example =
    stream-Received 1 three_chunks (greeting ∷ goodbye ∷ []) fresh (omega arith, (omega arith, tt))
      (omega arith) refl three_chunks_cut

two_sent : length (send_all (greeting ∷ goodbye ∷ []) fresh).outgoing ≡ 2
unfolding send_all send_packet
two_sent = refl

abbrev in_two : List ℕ → List (List ℕ)
in_two xs = take 5 xs ∷ drop 5 xs ∷ []

in_two-cuts : (xs : List ℕ) → concat (in_two xs) ≡ xs
in_two-cuts xs = ap (λ ys. take 5 xs ++ ys) (append-nil (drop 5 xs)) ∙ take-append-drop 5 xs

sent_packets_arrive_example :
    (bytes : List ℕ) × (after end : Connection) × (send_pending_packets wide 3 0
        (send_all (greeting ∷ goodbye ∷ []) fresh)
      ≡ ok (bytes, after))
    × (after.outgoing ≡ [])
    × (receive_packets 1 (in_two bytes) fresh ≡ ok (map arrived (greeting ∷ goodbye ∷ []), end))
sent_packets_arrive_example =
    sent_packets_arrive wide in_two 3 1 (greeting ∷ goodbye ∷ []) fresh fresh wide-IsSocket
      (λ i xs. refl) in_two-cuts (omega arith, (omega arith, tt)) refl (omega (arith, two_sent))
      (omega arith) refl

-- A length of -1 and 4 bytes more leaves no room for the kind.
receive_packets-ends_example :
    ((r : List Packet × Connection) × (receive_packets 1 ((255 ∷ 255 ∷ 255 ∷ 255 ∷ []) ∷ []) fresh
        ≡ ok r)
      × IsInside r.1
      × (r.1.buffer_start_offset ≤ 1024))
    ⊎ ((x : Fault) × (receive_packets 1 ((255 ∷ 255 ∷ 255 ∷ 255 ∷ []) ∷ []) fresh ≡ fault x)
        × (x ≢ out_of_fuel))
receive_packets-ends_example =
    receive_packets-ends 1 ((255 ∷ 255 ∷ 255 ∷ 255 ∷ []) ∷ []) fresh (omega arith) (omega arith)

abbrev blocked : Connection
blocked = record fresh { buffer = 128 ∷ 0 ∷ 0 ∷ 0 ∷ [] }

negative_length : unread blocked ≡ to_bytes 4 2_147_483_648 ++ []
unfolding to_bytes
negative_length = refl

negative_length_blocks_example :
    (c' : Connection) × (receive_calls 1 (((1 ∷ 2 ∷ []) ∷ []) ∷ ((3 ∷ []) ∷ []) ∷ []) blocked
      ≡ ok ([], c'))
    × (unread c' ≡ unread blocked ++ (1 ∷ 2 ∷ 3 ∷ []))
negative_length_blocks_example =
    negative_length_blocks 1 2_147_483_648 [] (((1 ∷ 2 ∷ []) ∷ []) ∷ ((3 ∷ []) ∷ []) ∷ []) blocked
      (omega arith) (omega arith) (omega arith) negative_length (omega arith)

send_pending_packets-Sent_example : Sent wide 2 0 (send_packet greeting fresh)
unfolding send_packet
send_pending_packets-Sent_example =
    send_pending_packets-Sent wide 2 0 (send_packet greeting fresh) wide-IsSocket (omega arith, tt)
      (omega arith)
