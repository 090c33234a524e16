-- ===== src/Connection/Bounds.antt =====
-- On any bytes at all: the loops of `receivePackets` end, and the offset stays inside the buffer.
use durak.Base.{
  ℕ, zero, suc, ◌+◌, ◌-◌, ◌*◌, ◌^◌, ◌⊎◌, ◌≤◌, ◌<◌, ◌≡◌, ◌≢◌, refl, List, [], ◌∷◌, ◌++◌, length,
  take, get_elem?, none, some, ok, fault, Fault, out_of_fuel, arith, Outcome-cases, Bool-cases,
  Option-cases, inl, inr, ltb, length-append, length-drop, length-take, subst, ◌∙◌, ap,
}
use durak.Packet.{Packet, from_buffer, read_from}
use durak.Connection.{
  Connection, unread, read_packet, read_packets, receive_packets, compact, put_chunk, frame_size,
}

-- The offset does not pass the end of the buffer.
abbrev pub IsInside : Connection → Type 0
IsInside c = c.buffer_start_offset ≤ length c.buffer

-- A packet that was read is taken off the buffer.
record Read (c c' : Connection) : Type 0 where
  inside : IsInside c'
  same_buffer : c'.buffer ≡ c.buffer
  further : length (unread c') < length (unread c)

-- A packet has five bytes at least.
from_buffer-long : (bytes : List ℕ) (p : Packet) → from_buffer bytes ≡ ok p → 5 ≤ length bytes
unfolding from_buffer
from_buffer-long (a ∷ b ∷ c ∷ d ∷ e ∷ bytes) p h = omega arith
from_buffer-long [] p h = cc
from_buffer-long (a ∷ []) p h = cc
from_buffer-long (a ∷ b ∷ []) p h = cc
from_buffer-long (a ∷ b ∷ c ∷ []) p h = cc
from_buffer-long (a ∷ b ∷ c ∷ d ∷ []) p h = cc

read_packet-Read :
    (greeting : ℕ) (c c' : Connection) (p : Packet)
    → IsInside c
    → read_packet greeting c ≡ ok (some (p, c'))
    → Read c c'
unfolding read_packet
read_packet-Read greeting c c' p i h =
    elim (Bool-cases (ltb (length c.buffer - c.buffer_start_offset) 4)) [
      | inl short ↦ absurd (ground (arith, short, h))
      | inr long ↦ elim (Outcome-cases (read_from 4 c.buffer_start_offset c.buffer 0)) [
        | inr (e, f) ↦ absurd (ground (arith, long, f, h))
        | inl (n, f) ↦
            elim (Bool-cases (ltb (length c.buffer - c.buffer_start_offset) (frame_size n))) [
              | inl few ↦ absurd (ground (arith, long, f, few, h))
              | inr enough ↦ elim (Outcome-cases (from_buffer (take (frame_size n) (unread c)))) [
                | inr (e, g) ↦ absurd (ground (arith, long, f, enough, g, h))
                | inl (q, g) ↦
                    let held = length-drop c.buffer_start_offset c.buffer in
                    let fits : frame_size n ≤ length (unread c) = ground (arith, enough, held) in
                    let five : 5 ≤ frame_size n =
                      omega (
                        arith,
                        from_buffer-long _ q g,
                        length-take (frame_size n) (unread c) fits,
                      ) in
                    let same : record c {
                      connection_state = c'.connection_state;
                      buffer_start_offset = c.buffer_start_offset + frame_size n;
                    }
                        ≡ c' =
                      ground (arith, long, f, enough, g, h) in
                    subst (Read c) same (record {
                      inside = omega (arith, fits, held, i);
                      same_buffer = refl;
                      further = omega (
                        arith,
                        five,
                        fits,
                        held,
                        i,
                        length-drop (c.buffer_start_offset + frame_size n) c.buffer,
                      );
                    })
              ]
            ]
      ]
    ]

-- What the rounds leave.
pub record Taken (c c' : Connection) : Type 0 where
  pub inside : IsInside c'
  pub same_buffer : c'.buffer ≡ c.buffer

pub read_packets-Taken :
    (fuel greeting : ℕ) (c c' : Connection) (ps : List Packet)
    → IsInside c
    → read_packets fuel greeting c ≡ ok (ps, c')
    → Taken c c'
unfolding read_packets
read_packets-Taken zero greeting c c' ps i h = cc
read_packets-Taken (suc fuel) greeting c c' ps i h = elim (Outcome-cases (read_packet greeting c)) [
  | inr (x, e) ↦ absurd (ground (arith, e, h))
  | inl (none, e) ↦
      let same : c ≡ c' = ground (arith, e, h) in
      subst (Taken c) same (record { inside = i; same_buffer = refl })
  | inl (some (p, d), e) ↦
      let r = read_packet-Read greeting c d p i e in
      elim (Outcome-cases (read_packets fuel greeting d)) [
        | inr (x, f) ↦ absurd (ground (arith, e, f, h))
        | inl ((qs, d'), f) ↦
            let t = read_packets-Taken fuel greeting d d' qs r.inside f in
            let same : d' ≡ c' = ground (arith, e, f, h) in
            subst (Taken c) same
              (record { inside = t.inside; same_buffer = t.same_buffer ∙ r.same_buffer })
      ]
]

read_from-ne-out_of_fuel :
    (n position value : ℕ) (bytes : List ℕ) → read_from n position bytes value ≢ fault out_of_fuel
unfolding read_from
read_from-ne-out_of_fuel zero position value bytes h = cc
read_from-ne-out_of_fuel (suc n) position value bytes h =
    elim (Option-cases (get_elem? bytes position)) [
      | inl e ↦ ground (arith, e, h)
      | inr (b, e) ↦
          read_from-ne-out_of_fuel n (position + 1) (value + b * 256 ^ n) bytes (rw e at h)
    ]

read_packet-ne-out_of_fuel :
    (greeting : ℕ) (c : Connection) → read_packet greeting c ≢ fault out_of_fuel
unfolding read_packet from_buffer
read_packet-ne-out_of_fuel greeting c h =
    elim (Outcome-cases (read_from 4 c.buffer_start_offset c.buffer 0)) [
      | inr (x, e) ↦
          ground (arith, e, h, read_from-ne-out_of_fuel 4 c.buffer_start_offset 0 c.buffer)
      | inl (n, e) ↦ elim (Option-cases (get_elem? (take (frame_size n) (unread c)) 4)) [
        | inl f ↦ ground (arith, e, f, h)
        | inr (k, f) ↦ ground (arith, e, f, h)
      ]
    ]

read_packets-ne-out_of_fuel :
    (fuel greeting : ℕ) (c : Connection)
    → IsInside c
    → length (unread c) < fuel
    → read_packets fuel greeting c ≢ fault out_of_fuel
unfolding read_packets
read_packets-ne-out_of_fuel zero greeting c i lt h = absurd (omega arith)
read_packets-ne-out_of_fuel (suc fuel) greeting c i lt h =
    elim (Outcome-cases (read_packet greeting c)) [
      | inr (x, e) ↦ ground (arith, e, h, read_packet-ne-out_of_fuel greeting c)
      | inl (none, e) ↦ ground (arith, e, h)
      | inl (some (p, d), e) ↦
          let r = read_packet-Read greeting c d p i e in
          let rest =
            read_packets-ne-out_of_fuel fuel greeting d r.inside (omega (arith, r.further)) in
          elim (Outcome-cases (read_packets fuel greeting d)) [
            | inr (x, f) ↦ ground (arith, e, f, h, rest)
            | inl (qs, f) ↦ ground (arith, e, f, h)
          ]
    ]

pub compact-IsInside : (c : Connection) → IsInside c → IsInside (compact c)
unfolding compact
compact-IsInside c i = ground arith

pub put_chunk-IsInside :
    (chunk : List ℕ) (c : Connection) → IsInside c → IsInside (put_chunk chunk c)
put_chunk-IsInside chunk c i = omega (arith, length-append c.buffer chunk)

pub compact-bounded : (c : Connection) → (compact c).buffer_start_offset ≤ 1024
unfolding compact
compact-bounded c = ground arith

-- Whatever bytes arrive, in whatever chunks, a call of `receivePackets` on a connection whose
-- offset is inside the buffer and at most 1024 comes to an end: with such a connection again, or in
-- a fault of another kind than that the loops went on.
pub receive_packets-ends :
    (greeting : ℕ) (chunks : List (List ℕ)) (c : Connection)
    → IsInside c
    → c.buffer_start_offset ≤ 1024
    → ((r : List Packet × Connection) × (receive_packets greeting chunks c ≡ ok r)
        × IsInside r.1
        × (r.1.buffer_start_offset ≤ 1024))
      ⊎ ((x : Fault) × (receive_packets greeting chunks c ≡ fault x) × (x ≢ out_of_fuel))
unfolding receive_packets
receive_packets-ends greeting [] c i small = inl (([], c), refl, i, small)
receive_packets-ends greeting (chunk ∷ chunks) c i small =
    let c' = put_chunk chunk c in
    let i' = put_chunk-IsInside chunk c i in
    let fuel = suc (length (unread c')) in
    elim (Outcome-cases (read_packets fuel greeting c')) [
      | inr (x, e) ↦ inr (
        x,
        rw e,
        λ q. read_packets-ne-out_of_fuel fuel greeting c' i' (omega arith) (e ∙ ap fault q),
      )
      | inl ((ps, d), e) ↦
          let t = read_packets-Taken fuel greeting c' d ps i' e in
          elim (receive_packets-ends greeting chunks (compact d) (compact-IsInside d t.inside)
            (compact-bounded d)) [
              | inl (r, f, j, k) ↦ inl ((ps ++ r.0, r.1), rw (e, f), j, k)
              | inr (x, f, n) ↦ inr (x, rw (e, f), n)
            ]
    ]
