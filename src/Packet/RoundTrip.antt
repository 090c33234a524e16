-- ===== src/Packet/RoundTrip.antt =====
-- What was written is read back.
use durak.Base.{
  ℕ, zero, suc, ◌+◌, ◌*◌, ◌/◌, ◌%◌, ◌^◌, ◌<◌, ◌≡◌, refl, sym, ap, ◌∙◌, subst, List, [], ◌∷◌, ◌++◌,
  length, get_elem?, take, drop, some, arith, ok, ◌>>=◌, length-append,
}
use native.Mathlib.Nat.{mod-add-div', div-div-eq-div-mul, mod-eq_of_lt}
use mathlib.Core.List.{append-nil}
use durak.Packet.Factory.{make_hello_packet}
use durak.Packet.Kinds.{packet_code}
use durak.Packet.{
  Packet, new_packet, serialize, from_buffer, read_hello, to_bytes, read_from, read_uint,
  write_uint, read_string, write_string,
}

-- The digits of a number add up.
spread : (b c q : ℕ) → (c + b * 256) * q ≡ c * q + b * (q * 256)
spread b c q = grind arith

digit : (q v : ℕ) → v % (q * 256) ≡ v / q % 256 * q + v % q
digit q v =
    let high : v / q / 256 ≡ v / (q * 256) = div-div-eq-div-mul v q 256 in
    let whole = mod-add-div' v (q * 256) in
    let low = mod-add-div' v q in
    let middle = mod-add-div' (v / q) 256 in
    let parts : v / q * q ≡ v / q % 256 * q + v / q / 256 * (q * 256) =
      ap (λ (t : ℕ). t * q) (sym middle) ∙ spread (v / q / 256) (v / q % 256) q in
    let whole' : v % (q * 256) + v / q / 256 * (q * 256) ≡ v = rw high whole in
    omega (arith, parts, whole', low)

-- What stands at a position, and what is behind it.
pub drop-head :
    (i : ℕ) (xs : List ℕ) (x : ℕ) (rest : List ℕ)
    → drop i xs ≡ x ∷ rest
    → (get_elem? xs i ≡ some x) × (drop (i + 1) xs ≡ rest)
drop-head zero [] x rest h = cc
drop-head zero (y ∷ ys) x rest h = (cc, cc)
drop-head (suc i) [] x rest h = cc
drop-head (suc i) (y ∷ ys) x rest h =
    let (a, b) = drop-head i ys x rest h in
    let next : suc (i + 1) ≡ suc i + 1 = omega arith in
    (a, subst (λ (t : ℕ). drop t (y ∷ ys) ≡ rest) next b)

pub read_from-to_bytes :
    (n v position : ℕ) (payload post : List ℕ) (value : ℕ)
    → drop position payload ≡ to_bytes n v ++ post
    → (read_from n position payload value ≡ ok (value + v % 256 ^ n))
      × (drop (position + n) payload ≡ post)
unfolding read_from to_bytes
read_from-to_bytes zero v position payload post value h = ground (arith, h)
read_from-to_bytes (suc n) v position payload post value h =
    let (here, behind) = drop-head position payload (v / 256 ^ n % 256) (to_bytes n v ++ post) h in
    let (rest, end) =
      read_from-to_bytes n v (position + 1) payload post (value + v / 256 ^ n % 256 * 256 ^ n)
        behind in
    let next : position + 1 + n ≡ position + suc n = omega arith in
    (
      ground (arith, here, rest, digit (256 ^ n) v),
      subst (λ (t : ℕ). drop t payload ≡ post) next end,
    )

-- The packet further on.
abbrev pub advance : ℕ → Packet → Packet
advance n p = record p { read_position = p.read_position + n }

pub read_uint-to_bytes :
    (n v : ℕ) (p : Packet) (post : List ℕ)
    → v < 256 ^ n
    → drop p.read_position p.payload ≡ to_bytes n v ++ post
    → (read_uint n p ≡ ok (v, advance n p)) × (drop (p.read_position + n) p.payload ≡ post)
unfolding read_uint
read_uint-to_bytes n v p post small h =
    let (value, end) = read_from-to_bytes n v p.read_position p.payload post 0 h in
    (ground (arith, value, mod-eq_of_lt small), end)

length-drop :
    (i : ℕ) (xs : List ℕ) (x : ℕ) (rest : List ℕ)
    → drop i xs ≡ x ∷ rest
    → i + length (x ∷ rest) ≡ length xs
length-drop zero xs x rest h = omega (arith, ap length h)
length-drop (suc i) [] x rest h = cc
length-drop (suc i) (y ∷ ys) x rest h = omega (arith, length-drop i ys x rest h)

take-length : (xs post : List ℕ) → take (length xs) (xs ++ post) ≡ xs
take-length [] post = refl
take-length (x ∷ xs) post = ap (◌∷◌ x) (take-length xs post)

has_room :
    (string : List ℕ) (i : ℕ) (payload post : List ℕ)
    → drop i payload ≡ to_bytes 4 (length string) ++ (string ++ post)
    → i + 4 + length string + length post ≡ length payload
unfolding to_bytes
has_room string i payload post h =
    omega (arith, length-drop i payload _ _ h, length-append string post)

pub read_string-written :
    (string : List ℕ) (p : Packet) (post : List ℕ)
    → length string < 2 ^ 31
    → drop p.read_position p.payload ≡ to_bytes 4 (length string) ++ (string ++ post)
    → read_string p ≡ ok (string, advance (length string) (advance 4 p))
unfolding read_string
read_string-written string p post small h =
    let (value, end) = read_uint-to_bytes 4 (length string) p (string ++ post) (omega arith) h in
    let room = has_room string p.read_position p.payload post h in
    let same : take (length string) (drop (p.read_position + 4) p.payload) ≡ string =
      ap (take (length string)) end ∙ take-length string post in
    ground (arith, value, room, same)

-- The packet as it arrives.
abbrev hello_packet : ℕ → List ℕ → Packet
hello_packet token nickname = record {
  kind = 128;
  payload = to_bytes 8 token ++ (to_bytes 4 (length nickname) ++ nickname);
  read_position = 0;
}

arrives :
    (token : ℕ) (nickname : List ℕ)
    → from_buffer (serialize (make_hello_packet token nickname)) ≡ ok (hello_packet token nickname)
unfolding serialize from_buffer make_hello_packet write_uint write_string new_packet to_bytes
    packet_code
arrives token nickname = refl

hello_ahead :
    (token : ℕ) (nickname : List ℕ)
    → (hello_packet token nickname).payload
      ≡ to_bytes 8 token ++ (to_bytes 4 (length nickname) ++ (nickname ++ []))
hello_ahead token nickname = rw (append-nil nickname) refl

-- What the server reads from the bytes of a hello packet is the token and the nickname that the
-- packet was made from, for every token below 2 ^ 64 and every nickname of fewer than 2 ^ 31 bytes.
pub read_hello-make_hello_packet :
    (token : ℕ) (nickname : List ℕ)
    → token < 2 ^ 64
    → length nickname < 2 ^ 31
    → (from_buffer (serialize (make_hello_packet token nickname)) >>= read_hello)
      ≡ ok (token, nickname)
unfolding read_hello
read_hello-make_hello_packet token nickname small short =
    let p = hello_packet token nickname in
    let (first, ahead) =
      read_uint-to_bytes 8 token p (to_bytes 4 (length nickname) ++ (nickname ++ [])) small
        (hello_ahead token nickname) in
    let second = read_string-written nickname (advance 8 p) [] short ahead in
    ground (arith, arrives token nickname, first, second)
