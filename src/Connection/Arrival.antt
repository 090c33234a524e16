-- ===== src/Connection/Arrival.antt =====
-- From one end of a connection to the other: `sendPacket`, `sendPendingPackets`, `receivePackets`.
use durak.Base.{ℕ, ◌<◌, ◌≡◌, List, [], ◌++◌, length, map, ok, ap, sym, ◌∙◌, All, subst, inl, inr}
use mathlib.Core.List.{append-nil}
use durak.Packet.{Packet}
use durak.Connection.{Connection, Socket, done, unread, send_pending_packets, receive_packets}
use durak.Connection.Frames.{stream, arrived, IsSmall}
use durak.Connection.Bounds.{IsInside}
use durak.Connection.Sending.{
  IsSocket, IsWithin, send_all, unsent, unsent-send_all, send_all-IsWithin,
  send_pending_packets-Sent,
}
use durak.Connection.Frames.{concat}
use durak.Connection.Delivery.{stream-Received}

-- Packets, each of a length below 2 ^ 31 with 4 added, are sent on a connection that has nothing
-- else to send, with a socket that keeps the promises of sf::TcpSocket::send and always takes all
-- that it is given. Then the loop of `sendPendingPackets` ends with nothing left to send, and
-- however the bytes that went into the socket are cut into chunks, the other end, with nothing
-- unread, receives exactly these packets in their order.
pub sent_packets_arrive :
    (socket : Socket) (cut : List ℕ → List (List ℕ)) (fuel greeting : ℕ) (ps : List Packet)
    (sender receiver : Connection)
    → IsSocket socket
    → ((i : ℕ) (xs : List ℕ) → (socket i xs).0 ≡ done)
    → ((xs : List ℕ) → concat (cut xs) ≡ xs)
    → All IsSmall ps
    → sender.outgoing ≡ []
    → length (send_all ps sender).outgoing < fuel
    → IsInside receiver
    → unread receiver ≡ []
    → (bytes : List ℕ) × (after end : Connection) × (send_pending_packets socket fuel 0
          (send_all ps sender)
        ≡ ok (bytes, after))
      × (after.outgoing ≡ [])
      × (receive_packets greeting (cut bytes) receiver ≡ ok (map arrived ps, end))
unfolding unsent
sent_packets_arrive socket cut fuel greeting ps sender receiver s always cuts small idle lt i
      fresh =
    let queued = send_all-IsWithin ps sender (subst (All IsWithin) (sym idle) tt) in
    let r = send_pending_packets-Sent socket fuel 0 (send_all ps sender) s queued lt in
    let emptied : r.after.outgoing ≡ [] = elim r.stopped [
      | inl e ↦ e
      | inr (j, xs, n) ↦ absurd (n (always j xs))
    ] in
    let all_sent : r.bytes ≡ stream ps =
      sym (append-nil r.bytes)
      ∙ ap (λ q. r.bytes ++ unsent q) (sym emptied)
      ∙ r.conserved
      ∙ unsent-send_all ps sender
      ∙ ap (λ q. unsent q ++ stream ps) idle in
    let d =
      stream-Received greeting (cut r.bytes) ps receiver small i fresh (cuts r.bytes ∙ all_sent) in
    (r.bytes, r.after, d.after, r.ends, emptied, d.packets)
