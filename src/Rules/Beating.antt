-- ===== src/Rules/Beating.antt =====
-- `canBeat` against the rules of Durak: a trump beats any plain card, and a higher card one of its suit.
use durak.Base.{
  ℕ, ◌<◌, ◌≡◌, ◌≢◌, ◌↔◌, ◌⊎◌, true, false, [], ◌∷◌, some, ℤ, arith, Option-cases, inl, inr, ok,
}
use durak.Cards.{Card, Suit, Player, get_card_by_id, rank_value, suit_value}
use durak.GameState.{
  GameState, Phase, row, cards_on_table_position_size, get_table_cards_at_position,
  get_current_defender_player_data,
}
use durak.Rules.Moves.{is_move_phase, beats, can_beat}

-- The rule, by the suits' and ranks' numbers.
pub data Outranks (trump : Suit) (card table_card : Card) : Type 0 where
  by_trump :
      suit_value card.suit ≡ suit_value trump
      → suit_value table_card.suit ≢ suit_value trump
      → Outranks trump card table_card
  by_rank :
      suit_value card.suit ≡ suit_value table_card.suit
      → rank_value table_card.rank < rank_value card.rank
      → Outranks trump card table_card

-- Two cards of a deck are not of the same suit and rank.
abbrev pub Differ : Card → Card → Type 0
Differ c d = (suit_value c.suit ≢ suit_value d.suit) ⊎ (rank_value c.rank ≢ rank_value d.rank)

beats-true :
    (trump : Suit) (c d : Card)
    → Differ c d
    → beats trump c d ≡ true
    → ((suit_value c.suit ≡ suit_value trump) × (suit_value d.suit ≢ suit_value trump))
      ⊎ ((suit_value c.suit ≡ suit_value d.suit) × (rank_value d.rank < rank_value c.rank))
unfolding beats
beats-true trump c d diff h = ground arith

Outranks-beats : (trump : Suit) (c d : Card) → Outranks trump c d → beats trump c d ≡ true
unfolding beats
Outranks-beats trump c d (by_trump e n) = ground arith
Outranks-beats trump c d (by_rank e lt) = ground arith

-- For two cards that differ in suit or rank, the comparison of `canBeat` holds exactly if the first
-- is a trump and the second is not, or both have one suit and the first has the higher rank.
pub beats-Outranks :
    (trump : Suit) (c d : Card) → Differ c d → (beats trump c d ≡ true) ↔ Outranks trump c d
beats-Outranks trump c d diff = (
  λ h. elim (beats-true trump c d diff h) [
    | inl (e, n) ↦ by_trump e n
    | inr (e, lt) ↦ by_rank e lt
  ],
  Outranks-beats trump c d,
)

-- Of two cards that differ in suit or rank, if the first beats the second, the second does not beat
-- the first.
pub beats_asymmetric :
    (trump : Suit) (c d : Card) → Differ c d → beats trump c d ≡ true → beats trump d c ≡ false
unfolding beats
beats_asymmetric trump c d diff h = ground arith

-- A move that `canBeat` accepts: in a phase of moves the defender covers the one card of a position
-- by a card of the hand that beats it.
pub record MayBeat (phase : Phase) (seat position : ℤ) (card : ℕ) (g : GameState) (d : Player)
    (c table_card : Card) (trump : Suit) : Type 0 where
  pub in_move : is_move_phase phase ≡ true
  pub defends : seat ≡ g.current_defender_seat_position
  pub defender : get_current_defender_player_data g ≡ some d
  pub uncovered : row g.table position ≡ some (table_card ∷ [])
  pub held : get_card_by_id card d ≡ some c
  pub trumps : g.trump_suit ≡ some trump
  pub higher : beats trump c table_card ≡ true

pub MayBeat-can_beat :
    (phase : Phase) (seat position : ℤ) (card : ℕ) (g : GameState) (d : Player)
    (c table_card : Card) (trump : Suit)
    → MayBeat phase seat position card g d c table_card trump
    → can_beat phase seat position card g ≡ ok true
unfolding can_beat cards_on_table_position_size get_table_cards_at_position
MayBeat-can_beat phase seat position card g d c table_card trump m =
    ground (arith, m.in_move, m.defends, m.defender, m.uncovered, m.held, m.trumps, m.higher)

pub can_beat-MayBeat :
    (phase : Phase) (seat position : ℤ) (card : ℕ) (g : GameState)
    → can_beat phase seat position card g ≡ ok true
    → (d : Player) × (c : Card) × (table_card : Card) × (trump : Suit) × MayBeat phase seat position
        card g d c table_card trump
unfolding can_beat cards_on_table_position_size get_table_cards_at_position
can_beat-MayBeat phase seat position card g h = elim (Option-cases (row g.table position)) [
  | inl e ↦ absurd (ground (arith, e, h))
  | inr ([], e) ↦ absurd (ground (arith, e, h))
  | inr (t ∷ u ∷ ts, e) ↦ absurd (ground (arith, e, h))
  | inr (t ∷ [], e) ↦ elim (Option-cases (get_current_defender_player_data g)) [
    | inl f ↦ absurd (ground (arith, e, f, h))
    | inr (d, f) ↦ elim (Option-cases (get_card_by_id card d)) [
      | inl k ↦ absurd (ground (arith, e, f, k, h))
      | inr (c, k) ↦ elim (Option-cases g.trump_suit) [
        | inl s ↦ absurd (ground (arith, e, f, k, s, h))
        | inr (trump, s) ↦ (d, c, t, trump, ground (arith, e, f, k, s, h))
      ]
    ]
  ]
]

-- `canBeat` accepts a move exactly if the phase is one of moves, the seat is the defender's, the
-- position holds one card, the trump suit is known, and the named card is in the defender's hand
-- and passes the comparison with that card under the trump suit.
pub can_beat_iff :
    (phase : Phase) (seat position : ℤ) (card : ℕ) (g : GameState)
    → (can_beat phase seat position card g ≡ ok true) ↔ (
        (d : Player) × (c : Card) × (table_card : Card) × (trump : Suit) × MayBeat phase seat
          position card g d c table_card trump)
can_beat_iff phase seat position card g = (
  can_beat-MayBeat phase seat position card g,
  λ (d, c, t, trump, m). MayBeat-can_beat phase seat position card g d c t trump m,
)
