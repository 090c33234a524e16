-- ===== src/Connection/Splitting.antt =====
-- Where a cut through a stream of packets falls: behind whole packets and inside the next.
use durak.Base.{
  ℕ, ◌≤◌, ◌<◌, ◌≡◌, ◌⊎◌, refl, List, [], ◌∷◌, ◌++◌, length, take, drop, arith, ap, sym, ◌∙◌, subst,
  inl, inr, ltb, All, Bool-cases, length-append, take-append, take-length, drop-append, drop-length,
  length-drop, take-append-drop,
}
use mathlib.Core.List.{append_assoc}
use durak.Packet.{Packet, serialize}
use durak.Connection.Frames.{stream, IsSmall, IsPart, length-serialize}

-- The first bytes of a stream are whole packets and a part of the next.
pub record Split (xs ys : List ℕ) (ps : List Packet) : Type 0 where
  pub first : List Packet
  pub second : List Packet
  pub rest : List ℕ
  pub parts : ps ≡ first ++ second
  pub before : xs ≡ stream first ++ rest
  pub behind : rest ++ ys ≡ stream second
  pub part : IsPart rest
  pub small_first : All IsSmall first
  pub small_second : All IsSmall second
  pub ends : (second ≡ []) ⊎ (0 < length ys)

nothing-IsPart : IsPart []
nothing-IsPart = record {
  whole = record { kind = 0; payload = []; read_position = 0 };
  missing = serialize (record { kind = 0; payload = []; read_position = 0 });
  small = omega arith;
  begins = refl;
  lacks = omega (arith, length-serialize (record { kind = 0; payload = []; read_position = 0 }));
}

-- A prefix of `serialize p ++ more` that is shorter than the packet is a part of it.
short-IsPart :
    (xs ys more : List ℕ) (p : Packet)
    → IsSmall p
    → xs ++ ys ≡ serialize p ++ more
    → length xs < length (serialize p)
    → IsPart xs
short-IsPart xs ys more p small h lt = record {
  whole = p;
  missing = drop (length xs) (serialize p);
  small = small;
  begins =
      let same : take (length xs) (serialize p) ≡ xs =
        sym (take-append (length xs) (serialize p) more (omega (arith, lt)))
        ∙ ap (take (length xs)) (sym h)
        ∙ take-length (length xs) xs ys refl in
      sym (take-append-drop (length xs) (serialize p))
      ∙ ap (λ zs. zs ++ drop (length xs) (serialize p)) same;
  lacks = omega (arith, lt, length-drop (length xs) (serialize p));
}

-- A prefix that is as long holds the packet, and goes on with a prefix of the rest.
long-begins :
    (xs ys more : List ℕ) (p : Packet)
    → xs ++ ys ≡ serialize p ++ more
    → length (serialize p) ≤ length xs
    → (xs ≡ serialize p ++ drop (length (serialize p)) xs)
      × (drop (length (serialize p)) xs ++ ys ≡ more)
long-begins xs ys more p h le =
    let n = length (serialize p) in
    let same : take n xs ≡ serialize p =
      sym (take-append n xs ys le) ∙ ap (take n) h ∙ take-length n (serialize p) more refl in
    (
      sym (take-append-drop n xs) ∙ ap (λ zs. zs ++ drop n xs) same,
      sym (drop-append n xs ys le) ∙ ap (drop n) h ∙ drop-length n (serialize p) more refl,
    )

nothing_before : (xs ys : List ℕ) → xs ++ ys ≡ [] → xs ≡ []
nothing_before [] ys h = refl
nothing_before (x ∷ xs) ys h = cc

pub split :
    (xs ys : List ℕ) (ps : List Packet) → All IsSmall ps → xs ++ ys ≡ stream ps → Split xs ys ps
unfolding stream
split xs ys [] small h = record {
  first = [];
  second = [];
  rest = xs;
  parts = refl;
  before = refl;
  behind = h;
  part = subst IsPart (sym (nothing_before xs ys h)) nothing-IsPart;
  small_first = tt;
  small_second = tt;
  ends = inl refl;
}
split xs ys (p ∷ ps) small h = elim (Bool-cases (ltb (length xs) (length (serialize p)))) [
  | inl lt ↦ record {
    first = [];
    second = p ∷ ps;
    rest = xs;
    parts = refl;
    before = refl;
    behind = h;
    part = short-IsPart xs ys (stream ps) p small.0 h (ground (arith, lt));
    small_first = tt;
    small_second = small;
    ends = inr (
        ground
          (arith, lt, ap length h, length-append xs ys, length-append (serialize p) (stream ps)));
  }
  | inr ge ↦
      let (here, on) = long-begins xs ys (stream ps) p h (ground (arith, ge)) in
      let s = split (drop (length (serialize p)) xs) ys ps small.1 on in
      record {
        first = p ∷ s.first;
        second = s.second;
        rest = s.rest;
        parts = ap (◌∷◌ p) s.parts;
        before =
            here
            ∙ ap (λ zs. serialize p ++ zs) s.before
            ∙ sym (append_assoc (serialize p) (stream s.first) s.rest);
        behind = s.behind;
        part = s.part;
        small_first = (small.0, s.small_first);
        small_second = s.small_second;
        ends = s.ends;
      }
]
