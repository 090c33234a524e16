-- ===== src/Cards/Hands.antt =====
-- Laws of hands: nothing is lost when a card is taken, and the lowest card of a suit is the lowest.
use durak.Base.{
  ℕ, ◌+◌, ◌≤◌, ◌≡◌, refl, Bool, true, false, ltb, if◌then◌else◌, List, [], ◌∷◌, ◌++◌, none, some,
  arith, All, Bool-cases, Option-cases, inl, inr, ◌⊎◌, length,
}
use durak.Cards.{Card, Suit, take_card, find_card, same_suit, lowest_from, rank_value}

-- How many cards of a list satisfy a test.
abbrev pub tally : (Card → Bool) → List Card → ℕ
tally t [] = 0
tally t (c ∷ cs) = (if t c then 1 else 0) + tally t cs

pub tally-append :
    (t : Card → Bool) (xs ys : List Card) → tally t (xs ++ ys) ≡ tally t xs + tally t ys
tally-append t [] ys = omega arith
tally-append t (x ∷ xs) ys = omega (arith, tally-append t xs ys)

-- A taken card has the id that was asked for, and together with the rest it makes the hand.
pub take_card-some :
    (t : Card → Bool) (i : ℕ) (cs : List Card) (c : Card) (rest : List Card)
    → take_card i cs ≡ some (c, rest)
    → (c.id ≡ i)
      × (tally t cs ≡ (if t c then 1 else 0) + tally t rest)
      × (length cs ≡ length rest + 1)
unfolding take_card
take_card-some t i [] c rest h = cc
take_card-some t i (x ∷ xs) c rest h = elim (Option-cases (take_card i xs)) [
  | inl e ↦ ground (arith, h, e)
  | inr ((d, ds), e) ↦ ground (arith, h, e, take_card-some t i xs d ds e)
]

-- Taking succeeds exactly where finding does, and on the same card.
pub take_card-find_card :
    (i : ℕ) (cs : List Card)
    → find_card i cs ≡ elim (take_card i cs) [ none ↦ none | some (c, rest) ↦ some c ]
unfolding take_card find_card
take_card-find_card i [] = refl
take_card-find_card i (x ∷ xs) = ground (arith, take_card-find_card i xs)

-- `c` is of the suit, and no card of the suit in the list ranks lower.
abbrev pub NoneLower : Suit → Card → List Card → Type 0
NoneLower s c = All (λ d. same_suit d.suit s ≡ true → rank_value c.rank ≤ rank_value d.rank)

abbrev pub NoSuit : Suit → List Card → Type 0
NoSuit s = All (λ d. same_suit d.suit s ≡ false)

NoneLower-trans :
    (s : Suit) (b c : Card) (cs : List Card)
    → rank_value b.rank ≤ rank_value c.rank
    → NoneLower s c cs
    → NoneLower s b cs
NoneLower-trans s b c [] h a = tt
NoneLower-trans s b c (d ∷ ds) h (a, rest) =
    (λ e. omega (arith, a e), NoneLower-trans s b c ds h rest)

-- The search from a candidate returns one that is at most as high, of the suit, and lowest.
lowest_from-some :
    (s : Suit) (b : Card) (cs : List Card)
    → same_suit b.suit s ≡ true
    → (c : Card) × (lowest_from s (some b) cs ≡ some c)
      × (same_suit c.suit s ≡ true)
      × (rank_value c.rank ≤ rank_value b.rank)
      × NoneLower s c cs
unfolding lowest_from
lowest_from-some s b [] h = (b, refl, h, omega arith, tt)
lowest_from-some s b (d ∷ ds) h = elim (Bool-cases (same_suit d.suit s)) [
  | inr other ↦
      let (c, r, sc, le, low) = lowest_from-some s b ds h in
      (c, rw other r, sc, le, (λ e. ground (arith, e, other), low))
  | inl same ↦ elim (Bool-cases (ltb (rank_value d.rank) (rank_value b.rank))) [
    | inl lt ↦
        let (c, r, sc, le, low) = lowest_from-some s d ds same in
        (c, rw (same, lt) r, sc, ground (arith, lt, le), (λ e. le, low))
    | inr ge ↦
        let (c, r, sc, le, low) = lowest_from-some s b ds h in
        (c, rw (same, ge) r, sc, le, (λ e. ground (arith, ge, le), low))
  ]
]

-- The search for the lowest card of a suit finds nothing if the hand has no card of that suit, and
-- otherwise a card of that suit than which no card of that suit in the hand ranks lower.
pub lowest_from-none :
    (s : Suit) (cs : List Card)
    → ((lowest_from s none cs ≡ none) × NoSuit s cs)
      ⊎ ((c : Card) × (lowest_from s none cs ≡ some c)
          × (same_suit c.suit s ≡ true)
          × NoneLower s c cs)
unfolding lowest_from
lowest_from-none s [] = inl (refl, tt)
lowest_from-none s (d ∷ ds) = elim (Bool-cases (same_suit d.suit s)) [
  | inl same ↦
      let (c, r, sc, le, low) = lowest_from-some s d ds same in
      inr (c, rw same r, sc, ((λ e. le), low))
  | inr other ↦ elim (lowest_from-none s ds) [
    | inl (r, no_suit) ↦ inl (rw other r, (other, no_suit))
    | inr (c, r, sc, low) ↦ inr (c, rw other r, sc, ((λ e. ground (arith, e, other)), low))
  ]
]
