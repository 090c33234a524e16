-- ===== src/Connection/Frames.antt =====
-- The inner loop of `receivePackets` on bytes that begin with serialized packets.
use durak.Base.{
  ℕ, zero, suc, ◌+◌, ◌-◌, ◌%◌, ◌^◌, ◌≤◌, ◌<◌, ◌≡◌, refl, List, [], ◌∷◌, ◌++◌, map, length, take,
  drop, none, some, ok, arith, ap, sym, ◌∙◌, subst, length-append, length-drop, drop-drop,
  take-append, take-length, take-append, take-append-drop, All, Bool-cases, inl, inr, ltb,
  drop-length, take-append-drop,
}
use mathlib.Core.List.{append_assoc}
use durak.Packet.{Packet, serialize, from_buffer, to_bytes, read_from}
use durak.Packet.RoundTrip.{read_from-to_bytes}
use durak.Connection.{
  Connection, ConnectionState, unread, greet, frame_size, read_packet, read_packets,
}

-- The bytes of packets sent one after another.
unfoldable pub stream : List Packet → List ℕ
stream [] = []
stream (p ∷ ps) = serialize p ++ stream ps

-- A packet as it arrives: nothing of it is read yet.
abbrev pub arrived : Packet → Packet
arrived p = record p { read_position = 0 }

unfoldable pub greet_all : ℕ → List Packet → ConnectionState → ConnectionState
greet_all greeting [] state = state
greet_all greeting (p ∷ ps) state = greet_all greeting ps (greet greeting (arrived p) state)

-- A packet whose length, as `bodyLen + 4`, is a positive `int32_t`.
abbrev pub IsSmall : Packet → Type 0
IsSmall p = length p.payload + 5 < 2 ^ 31

pub length-serialize : (p : Packet) → length (serialize p) ≡ length p.payload + 5
unfolding serialize to_bytes
length-serialize p = omega arith

frame_size-small :
    (p : Packet) → IsSmall p → frame_size ((1 + length p.payload) % 2 ^ 32) ≡ length p.payload + 5
unfolding frame_size
frame_size-small p h = ground (arith, h)

-- The connection when a packet has been taken off the buffer.
abbrev next : ℕ → Packet → Connection → Connection
next greeting p c = record c {
  connection_state = greet greeting (arrived p) c.connection_state;
  buffer_start_offset = c.buffer_start_offset + (length p.payload + 5);
}

from_buffer-serialize : (p : Packet) → from_buffer (serialize p) ≡ ok (arrived p)
unfolding from_buffer serialize to_bytes
from_buffer-serialize p = refl

header :
    (p : Packet) (post : List ℕ)
    → serialize p ++ post
      ≡ to_bytes 4 ((1 + length p.payload) % 2 ^ 32) ++ (p.kind ∷ p.payload ++ post)
unfolding serialize
header p post =
    append_assoc (to_bytes 4 ((1 + length p.payload) % 2 ^ 32)) (p.kind ∷ p.payload) post

-- The four bytes of the length, wherever the buffer holds them.
read_length :
    (c : Connection) (p : Packet) (rest : List ℕ)
    → unread c ≡ to_bytes 4 ((1 + length p.payload) % 2 ^ 32) ++ rest
    → read_from 4 c.buffer_start_offset c.buffer 0 ≡ ok ((1 + length p.payload) % 2 ^ 32)
read_length c p rest h =
    let (value, _) =
      read_from-to_bytes 4 ((1 + length p.payload) % 2 ^ 32) c.buffer_start_offset c.buffer rest 0
        h in
    let same : 0 + (1 + length p.payload) % 2 ^ 32 % 256 ^ 4 ≡ (1 + length p.payload) % 2 ^ 32 =
      omega arith in
    value ∙ ap ok same

read_packet-serialize :
    (greeting : ℕ) (c : Connection) (p : Packet) (post : List ℕ)
    → IsSmall p
    → unread c ≡ serialize p ++ post
    → (read_packet greeting c ≡ ok (some (arrived p, next greeting p c)))
      × (unread (next greeting p c) ≡ post)
unfolding read_packet
read_packet-serialize greeting c p post small h =
    let size : length c.buffer - c.buffer_start_offset ≡ length p.payload + 5 + length post =
      sym (length-drop c.buffer_start_offset c.buffer)
      ∙ ap length h
      ∙ length-append (serialize p) post
      ∙ ap (λ k. k + length post) (length-serialize p) in
    let value = read_length c p (p.kind ∷ p.payload ++ post) (h ∙ header p post) in
    let frame = frame_size-small p small in
    let slice : take (length p.payload + 5) (unread c) ≡ serialize p =
      ap (take (length p.payload + 5)) h
      ∙ take-length (length p.payload + 5) (serialize p) post (sym (length-serialize p)) in
    (
      ground (arith, size, value, frame, slice, from_buffer-serialize p),
      sym (drop-drop c.buffer_start_offset (length p.payload + 5) c.buffer)
          ∙ ap (drop (length p.payload + 5)) h
          ∙ drop-length (length p.payload + 5) (serialize p) post (sym (length-serialize p)),
    )

-- Four bytes that a packet begins with are its length.
first_four :
    (xs : List ℕ) (p : Packet) (more : List ℕ)
    → serialize p ≡ xs ++ more
    → 4 ≤ length xs
    → xs ≡ to_bytes 4 ((1 + length p.payload) % 2 ^ 32) ++ drop 4 xs
unfolding serialize to_bytes
first_four xs p more h long =
    sym (take-append-drop 4 xs)
    ∙ ap (λ ys. ys ++ drop 4 xs) (sym (take-append 4 xs more long) ∙ ap (take 4) (sym h))

-- Bytes that some packet begins with and that are not all of it.
pub record IsPart (rest : List ℕ) : Type 0 where
  pub whole : Packet
  pub missing : List ℕ
  pub small : IsSmall whole
  pub begins : serialize whole ≡ rest ++ missing
  pub lacks : 0 < length missing

read_packet-part :
    (greeting : ℕ) (c : Connection) → IsPart (unread c) → read_packet greeting c ≡ ok none
unfolding read_packet
read_packet-part greeting c part =
    elim (Bool-cases (ltb (length c.buffer - c.buffer_start_offset) 4)) [
      | inl short ↦ rw short
      | inr long ↦
          let p = part.whole in
          let held : length (unread c) ≡ length c.buffer - c.buffer_start_offset =
            length-drop c.buffer_start_offset c.buffer in
          let size : length (unread c) + length part.missing ≡ length p.payload + 5 =
            sym (length-append (unread c) part.missing)
            ∙ sym (ap length part.begins)
            ∙ length-serialize p in
          let value =
            read_length c p (drop 4 (unread c))
              (first_four (unread c) p part.missing part.begins (ground (arith, long, held))) in
          ground (arith, long, value, size, held, part.lacks, frame_size-small p part.small)
    ]

-- The rounds for packets that are all there, followed by a part of another.
pub read_packets-stream :
    (fuel greeting : ℕ) (ps : List Packet) (rest : List ℕ) (c : Connection)
    → All IsSmall ps
    → IsPart rest
    → unread c ≡ stream ps ++ rest
    → length ps < fuel
    → (c' : Connection) × (read_packets fuel greeting c ≡ ok (map arrived ps, c'))
      × (unread c' ≡ rest)
      × (c'.connection_state ≡ greet_all greeting ps c.connection_state)
      × (c'.outgoing ≡ c.outgoing)
unfolding read_packets stream greet_all
read_packets-stream zero greeting ps rest c small part h lt = absurd (omega arith)
read_packets-stream (suc fuel) greeting [] rest c small part h lt =
    (c, rw (read_packet-part greeting c (subst IsPart (sym h) part)), h, refl, refl)
read_packets-stream (suc fuel) greeting (p ∷ ps) rest c small part h lt =
    let (r, behind) =
      read_packet-serialize greeting c p (stream ps ++ rest) small.0
        (h ∙ append_assoc (serialize p) (stream ps) rest) in
    let (c', rs, left, state, queue) =
      read_packets-stream fuel greeting ps rest (next greeting p c) small.1 part behind
        (omega arith) in
    (c', rw (r, rs), left, state, queue)

abbrev pub concat : List (List ℕ) → List ℕ
concat [] = []
concat (xs ∷ xss) = xs ++ concat xss
