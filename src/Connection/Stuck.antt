-- ===== src/Connection/Stuck.antt =====
-- A length field that is a negative `bodyLen + 4` stops a connection for good.
use durak.Base.{
  ℕ, ◌+◌, ◌-◌, ◌≤◌, ◌<◌, ◌^◌, ◌%◌, ◌≡◌, refl, List, [], ◌∷◌, ◌++◌, length, none, ok, arith,
  length-append, length-drop, drop-append, ◌∙◌, ap, sym, Outcome, ◌>>=◌,
}
use mathlib.Core.List.{append_assoc, append-nil}
use durak.Packet.{Packet, to_bytes}
use durak.Packet.RoundTrip.{read_from-to_bytes}
use durak.Connection.{
  Connection, unread, read_packet, read_packets, receive_packets, compact, put_chunk, frame_size,
}
use durak.Connection.Frames.{concat}
use durak.Connection.Bounds.{IsInside, put_chunk-IsInside, compact-IsInside}

pub unread-compact : (c : Connection) → unread (compact c) ≡ unread c
unfolding compact
unread-compact c = ground arith

pub unread-put_chunk :
    (chunk : List ℕ) (c : Connection) → IsInside c → unread (put_chunk chunk c) ≡ unread c ++ chunk
unread-put_chunk chunk c i = drop-append c.buffer_start_offset c.buffer chunk i

frame_size-negative : (n : ℕ) → 2 ^ 31 - 4 ≤ n → n < 2 ^ 32 - 4 → 2 ^ 63 ≤ frame_size n
unfolding frame_size
frame_size-negative n low high = ground (arith, low, high)

read_packet-blocked :
    (greeting n : ℕ) (rest : List ℕ) (c : Connection)
    → 2 ^ 31 - 4 ≤ n
    → n < 2 ^ 32 - 4
    → unread c ≡ to_bytes 4 n ++ rest
    → length (unread c) < 2 ^ 63
    → read_packet greeting c ≡ ok none
unfolding read_packet
read_packet-blocked greeting n rest c low high h small =
    let (value, _) = read_from-to_bytes 4 n c.buffer_start_offset c.buffer rest 0 h in
    let same : 0 + n % 256 ^ 4 ≡ n = omega arith in
    ground (
      arith,
      value ∙ ap ok same,
      frame_size-negative n low high,
      length-drop c.buffer_start_offset c.buffer,
      small,
    )

-- One call, after which the length field stands in front as before.
pub call_blocked :
    (greeting n : ℕ) (rest : List ℕ) (chunks : List (List ℕ)) (c : Connection)
    → IsInside c
    → 2 ^ 31 - 4 ≤ n
    → n < 2 ^ 32 - 4
    → unread c ≡ to_bytes 4 n ++ rest
    → length (unread c) + length (concat chunks) < 2 ^ 63
    → (c' : Connection) × (receive_packets greeting chunks c ≡ ok ([], c'))
      × IsInside c'
      × (unread c' ≡ unread c ++ concat chunks)
unfolding receive_packets read_packets
call_blocked greeting n rest [] c i low high h small = (c, refl, i, sym (append-nil (unread c)))
call_blocked greeting n rest (chunk ∷ chunks) c i low high h small =
    let d = put_chunk chunk c in
    let added : unread d ≡ unread c ++ chunk = unread-put_chunk chunk c i in
    let held : unread d ≡ to_bytes 4 n ++ (rest ++ chunk) =
      added ∙ ap (λ xs. xs ++ chunk) h ∙ append_assoc (to_bytes 4 n) rest chunk in
    let size : length (unread d) ≡ length (unread c) + length chunk =
      ap length added ∙ length-append (unread c) chunk in
    let whole = length-append chunk (concat chunks) in
    let blocked =
      read_packet-blocked greeting n (rest ++ chunk) d low high held
        (omega (arith, size, small, whole)) in
    let (c', r, i', kept) =
      call_blocked greeting n (rest ++ chunk) chunks (compact d)
        (compact-IsInside d (put_chunk-IsInside chunk c i)) low high (unread-compact d ∙ held)
        (omega (arith, small, size, whole, ap length (unread-compact d))) in
    (
      c',
      rw (blocked, r),
      i',
      kept
          ∙ ap (λ xs. xs ++ concat chunks) (unread-compact d ∙ added)
          ∙ append_assoc (unread c) chunk (concat chunks),
    )

-- `receivePackets` once and again, each call with the chunks that the socket hands over.
unfoldable pub receive_calls :
    ℕ → List (List (List ℕ)) → Connection → Outcome (List Packet × Connection)
receive_calls greeting [] c = ok ([], c)
receive_calls greeting (chunks ∷ calls) c = receive_packets greeting chunks c >>= λ r.
    receive_calls greeting calls r.1 >>= λ rest. ok (r.0 ++ rest.0, rest.1)

-- All that the socket hands over in these calls.
abbrev pub handed : List (List (List ℕ)) → List ℕ
handed [] = []
handed (chunks ∷ calls) = concat chunks ++ handed calls

-- Once the next length field in the buffer is a number from 2 ^ 31 - 4 up to 2 ^ 32 - 5, which as
-- an `int32_t` and with 4 added is negative, no further call of `receivePackets` yields a packet,
-- however many calls there are and whatever the socket hands over, up to 2 ^ 63 bytes: all of these
-- bytes stay in the buffer unread.
pub negative_length_blocks :
    (greeting n : ℕ) (rest : List ℕ) (calls : List (List (List ℕ))) (c : Connection)
    → IsInside c
    → 2 ^ 31 - 4 ≤ n
    → n < 2 ^ 32 - 4
    → unread c ≡ to_bytes 4 n ++ rest
    → length (unread c) + length (handed calls) < 2 ^ 63
    → (c' : Connection) × (receive_calls greeting calls c ≡ ok ([], c'))
      × (unread c' ≡ unread c ++ handed calls)
unfolding receive_calls
negative_length_blocks greeting n rest [] c i low high h small =
    (c, refl, sym (append-nil (unread c)))
negative_length_blocks greeting n rest (chunks ∷ calls) c i low high h small =
    let whole = length-append (concat chunks) (handed calls) in
    let (d, r, i', kept) =
      call_blocked greeting n rest chunks c i low high h (omega (arith, small, whole)) in
    let held : unread d ≡ to_bytes 4 n ++ (rest ++ concat chunks) =
      kept ∙ ap (λ xs. xs ++ concat chunks) h ∙ append_assoc (to_bytes 4 n) rest (concat chunks) in
    let size = ap length kept ∙ length-append (unread c) (concat chunks) in
    let (c', rs, all) =
      negative_length_blocks greeting n (rest ++ concat chunks) calls d i' low high held
        (omega (arith, small, whole, size)) in
    (
      c',
      rw (r, rs),
      all
          ∙ ap (λ xs. xs ++ handed calls) kept
          ∙ append_assoc (unread c) (concat chunks) (handed calls),
    )
