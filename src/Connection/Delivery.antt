-- ===== src/Connection/Delivery.antt =====
-- What is received is what was sent, in whatever chunks it arrives.
use durak.Base.{
  ℕ, suc, ◌≤◌, ◌<◌, ◌≡◌, ◌⊎◌, refl, List, [], ◌∷◌, ◌++◌, map, length, ok, arith, ap, sym, ◌∙◌,
  subst, inl, inr, All, length-append,
}
use mathlib.Core.List.{append_assoc, append-nil}
use durak.Packet.{Packet, serialize}
use durak.Connection.{
  Connection, ConnectionState, unread, read_packets, receive_packets, compact, put_chunk,
}
use durak.Connection.Bounds.{IsInside, put_chunk-IsInside, compact-IsInside, read_packets-Taken}
use durak.Connection.Stuck.{unread-compact, unread-put_chunk}
use durak.Connection.Frames.{
  concat, stream, arrived, greet_all, IsSmall, length-serialize, read_packets-stream,
}
use durak.Connection.Splitting.{split}

map-append : (ps qs : List Packet) → map arrived (ps ++ qs) ≡ map arrived ps ++ map arrived qs
map-append [] qs = refl
map-append (p ∷ ps) qs = ap (◌∷◌ (arrived p)) (map-append ps qs)

greet_all-append :
    (greeting : ℕ) (ps qs : List Packet) (state : ConnectionState)
    → greet_all greeting (ps ++ qs) state ≡ greet_all greeting qs (greet_all greeting ps state)
unfolding greet_all
greet_all-append greeting [] qs state = refl
greet_all-append greeting (p ∷ ps) qs state = greet_all-append greeting ps qs _

length-le-stream : (ps : List Packet) → length ps ≤ length (stream ps)
unfolding stream
length-le-stream [] = omega arith
length-le-stream (p ∷ ps) =
    omega (arith, length-le-stream ps, length-append (serialize p) (stream ps), length-serialize p)

-- The connection and the packets after chunks that make up a stream.
pub record Received (greeting : ℕ) (chunks : List (List ℕ)) (ps : List Packet) (c : Connection)
    : Type 0 where
  pub after : Connection
  pub packets : receive_packets greeting chunks c ≡ ok (map arrived ps, after)
  pub all_read : unread after ≡ []
  pub state : after.connection_state ≡ greet_all greeting ps c.connection_state
  pub untouched : after.outgoing ≡ c.outgoing

compact-keeps :
    (c : Connection)
    → ((compact c).connection_state ≡ c.connection_state) × ((compact c).outgoing ≡ c.outgoing)
unfolding compact
compact-keeps c = ground arith

receive_packets-step :
    (greeting : ℕ) (chunk : List ℕ) (chunks : List (List ℕ)) (c e after : Connection)
    (ps qs : List Packet)
    → read_packets (suc (length (unread (put_chunk chunk c)))) greeting (put_chunk chunk c)
      ≡ ok (ps, e)
    → receive_packets greeting chunks (compact e) ≡ ok (qs, after)
    → receive_packets greeting (chunk ∷ chunks) c ≡ ok (ps ++ qs, after)
unfolding receive_packets
receive_packets-step greeting chunk chunks c e after ps qs read rest = rw (read, rest)

nothing-Received : (greeting : ℕ) (c : Connection) → unread c ++ [] ≡ [] → Received greeting [] [] c
unfolding receive_packets greet_all
nothing-Received greeting c h = record {
  after = c;
  packets = refl;
  all_read = sym (append-nil (unread c)) ∙ h;
  state = refl;
  untouched = refl;
}

receive_packets-Received :
    (greeting : ℕ) (chunks : List (List ℕ)) (ps : List Packet) (c : Connection)
    → All IsSmall ps
    → IsInside c
    → unread c ++ concat chunks ≡ stream ps
    → (ps ≡ []) ⊎ (0 < length (concat chunks))
    → Received greeting chunks ps c
unfolding stream
receive_packets-Received greeting [] ps c small i h (inr none_more) = absurd (omega arith)
receive_packets-Received greeting [] ps c small i h (inl none_sent) =
    subst (λ qs. Received greeting [] qs c) (sym none_sent)
      (nothing-Received greeting c (h ∙ ap stream none_sent))
receive_packets-Received greeting (chunk ∷ chunks) ps c small i h more =
    let d = put_chunk chunk c in
    let held : unread d ++ concat chunks ≡ stream ps =
      ap (λ xs. xs ++ concat chunks) (unread-put_chunk chunk c i)
      ∙ append_assoc (unread c) chunk (concat chunks)
      ∙ h in
    let s = split (unread d) (concat chunks) ps small held in
    let enough : length s.first < suc (length (unread d)) = omega (
      arith,
      length-le-stream s.first,
      ap length s.before,
      length-append (stream s.first) s.rest,
    ) in
    let (e, read, left, state, queue) =
      read_packets-stream (suc (length (unread d))) greeting s.first s.rest d s.small_first s.part
        s.before enough in
    let t =
      read_packets-Taken (suc (length (unread d))) greeting d e (map arrived s.first)
        (put_chunk-IsInside chunk c i) read in
    let (same_state, same_queue) = compact-keeps e in
    let r =
      receive_packets-Received greeting chunks s.second (compact e) s.small_second
        (compact-IsInside e t.inside)
        (ap (λ xs. xs ++ concat chunks) (unread-compact e ∙ left) ∙ s.behind) s.ends in
    let whole = ap (map arrived) s.parts ∙ map-append s.first s.second in
    record {
      after = r.after;
      packets =
          receive_packets-step greeting chunk chunks c e r.after (map arrived s.first)
            (map arrived s.second) read r.packets
          ∙ ap (λ qs. ok (qs, r.after)) (sym whole);
      all_read = r.all_read;
      state =
          r.state
          ∙ ap (greet_all greeting s.second) (same_state ∙ state)
          ∙ sym (
              ap (λ qs. greet_all greeting qs c.connection_state) s.parts
              ∙ greet_all-append greeting s.first s.second c.connection_state);
      untouched = r.untouched ∙ same_queue ∙ queue;
    }

-- However the bytes of packets that were sent one after another are cut into chunks, a connection
-- with nothing unread yields these packets in their order, with nothing of them read, and has no
-- byte unread afterwards; the packets to send are as before, and one of the greeting's kind, if
-- there is any, has made a connecting connection ready. The length of each packet and 4 is below 2
-- ^ 31.
pub stream-Received :
    (greeting : ℕ) (chunks : List (List ℕ)) (ps : List Packet) (c : Connection)
    → All IsSmall ps
    → IsInside c
    → unread c ≡ []
    → concat chunks ≡ stream ps
    → Received greeting chunks ps c
unfolding stream
stream-Received greeting chunks [] c small i h e =
    receive_packets-Received greeting chunks [] c small i (ap (λ xs. xs ++ concat chunks) h ∙ e)
      (inl refl)
stream-Received greeting chunks (p ∷ ps) c small i h e =
    receive_packets-Received greeting chunks (p ∷ ps) c small i
      (ap (λ xs. xs ++ concat chunks) h ∙ e)
      (inr
        (omega (arith, ap length e, length-append (serialize p) (stream ps), length-serialize p)))
