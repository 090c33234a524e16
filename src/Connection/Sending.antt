-- ===== src/Connection/Sending.antt =====
-- The loop of `sendPendingPackets`: it ends, sends the bytes in their order, and loses none.
use durak.Base.{
  ℕ, zero, suc, ◌+◌, ◌≤◌, ◌<◌, ◌≡◌, ◌≢◌, ◌⊎◌, refl, true, false, List, [], ◌∷◌, ◌++◌, length, take,
  drop, ok, arith, ap, sym, ◌∙◌, subst, All, Bool-cases, inl, inr, length-drop, drop-drop,
  take-append-drop, take-length,
}
use mathlib.Core.List.{append_assoc, append-nil}
use durak.Packet.{Packet, serialize}
use durak.Connection.{
  Connection, Pending, SocketStatus, done, partial, not_ready, socket_disconnected, socket_error,
  Socket, left_to_send, took, after_send, accepted, send_pending_packets, send_packet,
}
use durak.Connection.Frames.{stream}

-- What sf::TcpSocket::send promises: it takes no more bytes than it is given, and all if it is done.
pub record IsSocket (socket : Socket) : Type 0 where
  pub no_more : (i : ℕ) (bytes : List ℕ) → (socket i bytes).1 ≤ length bytes
  pub all_if_done :
      (i : ℕ) (bytes : List ℕ) → (socket i bytes).0 ≡ done → (socket i bytes).1 ≡ length bytes

-- The bytes that are still to be sent.
unfoldable pub unsent : List Pending → List ℕ
unsent [] = []
unsent (q ∷ queue) = left_to_send q ++ unsent queue

abbrev pub IsWithin : Pending → Type 0
IsWithin q = q.sent ≤ length q.bytes

-- One call of `send`, and what it leaves.
record Called (status : SocketStatus) (n : ℕ) (q : Pending) (queue : List Pending) (c : Connection)
    : Type 0 where
  within : All IsWithin (after_send status n q queue c).1.outgoing
  conserved :
      accepted status n (left_to_send q) ++ unsent (after_send status n q queue c).1.outgoing
      ≡ left_to_send q ++ unsent queue
  goes_on :
      ((after_send status n q queue c).0 ≡ true)
      → (status ≡ done) × ((after_send status n q queue c).1.outgoing ≡ queue)
  stops : ((after_send status n q queue c).0 ≡ false) → status ≢ done

dropped : (n : ℕ) (q : Pending) → drop (q.sent + n) q.bytes ≡ drop n (left_to_send q)
dropped n q = sym (drop-drop q.sent n q.bytes)

moved_on :
    (n : ℕ) (q : Pending) (queue : List Pending)
    → take n (left_to_send q) ++ unsent (took n q ∷ queue) ≡ left_to_send q ++ unsent queue
unfolding unsent
moved_on n q queue =
    ap (λ xs. take n (left_to_send q) ++ (xs ++ unsent queue)) (dropped n q)
    ∙ sym (append_assoc (take n (left_to_send q)) (drop n (left_to_send q)) (unsent queue))
    ∙ ap (λ xs. xs ++ unsent queue) (take-append-drop n (left_to_send q))

took-IsWithin :
    (n : ℕ) (q : Pending) → IsWithin q → n ≤ length (left_to_send q) → q.sent + n ≤ length q.bytes
took-IsWithin n q w le = omega (arith, w, le, length-drop q.sent q.bytes)

whole : (xs : List ℕ) (n : ℕ) → n ≡ length xs → take n xs ≡ xs
whole xs n h = ap (take n) (sym (append-nil xs)) ∙ take-length n xs [] h

send-Called :
    (status : SocketStatus) (n : ℕ) (q : Pending) (queue : List Pending) (c : Connection)
    → c.outgoing ≡ q ∷ queue
    → IsWithin q
    → All IsWithin queue
    → n ≤ length (left_to_send q)
    → (status ≡ done → n ≡ length (left_to_send q))
    → Called status n q queue c
unfolding after_send accepted unsent
send-Called done n q queue c e w ws le all =
    let full : q.sent + n ≡ length q.bytes =
      omega (arith, w, all refl, length-drop q.sent q.bytes) in
    let popped : (after_send done n q queue c).1.outgoing ≡ queue = ground (arith, full) in
    record {
      within = subst (All IsWithin) (sym popped) ws;
      conserved =
          ap (λ xs. take n (left_to_send q) ++ unsent xs) popped
          ∙ ap (λ xs. xs ++ unsent queue) (whole (left_to_send q) n (all refl));
      goes_on = λ h. (refl, popped);
      stops = λ h. cc;
    }
send-Called partial n q queue c e w ws le all = record {
  within = (took-IsWithin n q w le, ws);
  conserved = moved_on n q queue;
  goes_on = λ h. cc;
  stops = λ h. λ k. cc;
}
send-Called not_ready n q queue c e w ws le all = record {
  within = subst (All IsWithin) (sym e) (w, ws);
  conserved = ap unsent e;
  goes_on = λ h. cc;
  stops = λ h. λ k. cc;
}
send-Called socket_disconnected n q queue c e w ws le all = record {
  within = subst (All IsWithin) (sym e) (w, ws);
  conserved = ap unsent e;
  goes_on = λ h. cc;
  stops = λ h. λ k. cc;
}
send-Called socket_error n q queue c e w ws le all = record {
  within = subst (All IsWithin) (sym e) (w, ws);
  conserved = ap unsent e;
  goes_on = λ h. cc;
  stops = λ h. λ k. cc;
}

-- What a call of `sendPendingPackets` comes to.
pub record Sent (socket : Socket) (fuel i : ℕ) (c : Connection) : Type 0 where
  pub bytes : List ℕ
  pub after : Connection
  pub ends : send_pending_packets socket fuel i c ≡ ok (bytes, after)
  pub conserved : bytes ++ unsent after.outgoing ≡ unsent c.outgoing
  pub within : All IsWithin after.outgoing
  pub stopped : (after.outgoing ≡ []) ⊎ ((j : ℕ) × (xs : List ℕ) × ((socket j xs).0 ≢ done))

-- One round of the loop, where it goes on and where it stops.
round_again :
    (socket : Socket) (fuel i : ℕ) (q : Pending) (queue : List Pending) (c after : Connection)
    (bytes : List ℕ)
    → c.outgoing ≡ q ∷ queue
    → (after_send (socket i (left_to_send q)).0 (socket i (left_to_send q)).1 q queue c).0 ≡ true
    → send_pending_packets socket fuel
        (suc i)
        (after_send (socket i (left_to_send q)).0 (socket i (left_to_send q)).1 q queue c).1
      ≡ ok (bytes, after)
    → send_pending_packets socket (suc fuel) i c
      ≡ ok (
        accepted (socket i (left_to_send q)).0 (socket i (left_to_send q)).1 (left_to_send q)
            ++ bytes,
        after,
      )
unfolding send_pending_packets
round_again socket fuel i q queue c after bytes e again rest = ground (arith, e, again, rest)

round_stops :
    (socket : Socket) (fuel i : ℕ) (q : Pending) (queue : List Pending) (c : Connection)
    → c.outgoing ≡ q ∷ queue
    → (after_send (socket i (left_to_send q)).0 (socket i (left_to_send q)).1 q queue c).0 ≡ false
    → send_pending_packets socket (suc fuel) i c
      ≡ ok (
        accepted (socket i (left_to_send q)).0 (socket i (left_to_send q)).1 (left_to_send q),
        (after_send (socket i (left_to_send q)).0 (socket i (left_to_send q)).1 q queue c).1,
      )
unfolding send_pending_packets
round_stops socket fuel i q queue c e stop = ground (arith, e, stop)

send_queue-Sent :
    (socket : Socket) (fuel i : ℕ) (queue : List Pending) (c : Connection)
    → IsSocket socket
    → c.outgoing ≡ queue
    → All IsWithin queue
    → length queue < fuel
    → Sent socket fuel i c
unfolding send_pending_packets unsent
send_queue-Sent socket zero i queue c s e w lt = absurd (omega arith)
send_queue-Sent socket (suc fuel) i [] c s e w lt = record {
  bytes = [];
  after = c;
  ends = rw e;
  conserved = refl;
  within = subst (All IsWithin) (sym e) tt;
  stopped = inl e;
}
send_queue-Sent socket (suc fuel) i (q ∷ queue) c s e w lt =
    let (status, n) = socket i (left_to_send q) in
    let d = (after_send status n q queue c).1 in
    let call =
      send-Called status n q queue c e w.0 w.1 (s.no_more i (left_to_send q))
        (s.all_if_done i (left_to_send q)) in
    elim (Bool-cases (after_send status n q queue c).0) [
      | inl again ↦
          let (_, rest) = call.goes_on again in
          let r = send_queue-Sent socket fuel (suc i) queue d s rest w.1 (omega arith) in
          record {
            bytes = accepted status n (left_to_send q) ++ r.bytes;
            after = r.after;
            ends = round_again socket fuel i q queue c r.after r.bytes e again r.ends;
            conserved =
                append_assoc (accepted status n (left_to_send q)) r.bytes (unsent r.after.outgoing)
                ∙ ap (λ xs. accepted status n (left_to_send q) ++ xs) r.conserved
                ∙ call.conserved
                ∙ sym (ap unsent e);
            within = r.within;
            stopped = r.stopped;
          }
      | inr stop ↦ record {
        bytes = accepted status n (left_to_send q);
        after = d;
        ends = round_stops socket fuel i q queue c e stop;
        conserved = call.conserved ∙ sym (ap unsent e);
        within = call.within;
        stopped = inr (i, left_to_send q, call.stops stop);
      }
    ]

-- With a socket that keeps the promises of sf::TcpSocket::send, and more rounds than packets wait,
-- the loop of `sendPendingPackets` comes to its end: what went into the socket followed by what is
-- still to be sent are the bytes that were to be sent before, in their order; and nothing is left
-- to send, or the socket did not take all that it was given in some call.
pub send_pending_packets-Sent :
    (socket : Socket) (fuel i : ℕ) (c : Connection)
    → IsSocket socket
    → All IsWithin c.outgoing
    → length c.outgoing < fuel
    → Sent socket fuel i c
send_pending_packets-Sent socket fuel i c s w lt =
    send_queue-Sent socket fuel i c.outgoing c s refl w lt

-- `sendPacket` for one packet after another.
unfoldable pub send_all : List Packet → Connection → Connection
send_all [] c = c
send_all (p ∷ ps) c = send_all ps (send_packet p c)

unsent-append : (qs rs : List Pending) → unsent (qs ++ rs) ≡ unsent qs ++ unsent rs
unfolding unsent
unsent-append [] rs = refl
unsent-append (q ∷ qs) rs =
    ap (λ xs. left_to_send q ++ xs) (unsent-append qs rs)
    ∙ sym (append_assoc (left_to_send q) (unsent qs) (unsent rs))

pub unsent-send_all :
    (ps : List Packet) (c : Connection)
    → unsent (send_all ps c).outgoing ≡ unsent c.outgoing ++ stream ps
unfolding send_all send_packet unsent stream
unsent-send_all [] c = sym (append-nil (unsent c.outgoing))
unsent-send_all (p ∷ ps) c =
    unsent-send_all ps (send_packet p c)
    ∙ ap (λ xs. xs ++ stream ps)
        (unsent-append c.outgoing (record { bytes = serialize p; sent = 0 } ∷ []))
    ∙ append_assoc (unsent c.outgoing) (serialize p ++ []) (stream ps)
    ∙ ap (λ xs. unsent c.outgoing ++ (xs ++ stream ps)) (append-nil (serialize p))

All-append :
    (qs : List Pending) (r : Pending) → All IsWithin qs → IsWithin r → All IsWithin (qs ++ (r ∷ []))
All-append [] r w h = (h, tt)
All-append (q ∷ qs) r w h = (w.0, All-append qs r w.1 h)

pub send_all-IsWithin :
    (ps : List Packet) (c : Connection)
    → All IsWithin c.outgoing
    → All IsWithin (send_all ps c).outgoing
unfolding send_all send_packet
send_all-IsWithin [] c w = w
send_all-IsWithin (p ∷ ps) c w =
    send_all-IsWithin ps (send_packet p c) (All-append c.outgoing _ w (omega arith))
