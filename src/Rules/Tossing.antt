-- ===== src/Rules/Tossing.antt =====
-- `canToss`: what it accepts, and that its test of the defender's hand refuses at one number only.
use durak.Base.{
  ℕ, ◌+◌, ◌^◌, ◌<◌, ◌≡◌, ◌≢◌, ◌↔◌, true, List, [], ◌∷◌, some, ℤ, arith, Option-cases, Bool-cases,
  inl, inr, ok, length, ltb,
}
use durak.Cards.{Card, Rank, Player, get_card_by_id, rank_value}
use durak.GameState.{
  GameState, Phase, max_table_positions, attacker_cards_on_table_size, defender_cards_on_table_size,
  cards_on_table_size, get_table_cards, get_player_data_by_seat_position,
  get_current_defender_player_data,
}
use durak.Rules.Moves.{is_move_phase, has_rank, no_room, matches_table, can_toss}

-- Some card of the list has the rank.
pub data RankAmong (k : Rank) : List Card → Type 0 where
  here : {c : Card} {cs : List Card} → rank_value k ≡ rank_value c.rank → RankAmong k (c ∷ cs)
  there : {c : Card} {cs : List Card} → RankAmong k cs → RankAmong k (c ∷ cs)

has_rank-RankAmong : (k : Rank) (cs : List Card) → has_rank k cs ≡ true → RankAmong k cs
unfolding has_rank
has_rank-RankAmong k [] h = cc
has_rank-RankAmong k (c ∷ cs) h = elim (Bool-cases (has_rank k cs)) [
  | inl e ↦ there (has_rank-RankAmong k cs e)
  | inr e ↦ here (ground (arith, e, h))
]

RankAmong-has_rank : (k : Rank) (cs : List Card) → RankAmong k cs → has_rank k cs ≡ true
unfolding has_rank
RankAmong-has_rank k _ (here e) = ground (arith, e)
RankAmong-has_rank k _ (there {c = c} {cs = cs} r) = ground (arith, RankAmong-has_rank k cs r)

-- The `size_t` test is true of one size of the hand, and of none below it.
pub no_room-eq :
    (hand attackers defenders : ℕ)
    → hand + defenders < 2 ^ 63
    → attackers < 2 ^ 63
    → (no_room hand attackers defenders ≡ true) ↔ (hand + defenders ≡ attackers)
no_room-eq hand attackers defenders small small' = ground arith

-- The first card of a turn, or one of a rank that lies on the table.
pub data Fits (seat : ℤ) (card : ℕ) (g : GameState) : Type 0 where
  opening : cards_on_table_size g ≡ 0 → Fits seat card g
  same_rank_as :
      (p : Player) (c : Card)
      → get_player_data_by_seat_position g seat ≡ some p
      → get_card_by_id card p ≡ some c
      → RankAmong c.rank (get_table_cards g)
      → Fits seat card g

Fits-matches_table :
    (seat : ℤ) (card : ℕ) (g : GameState) → Fits seat card g → matches_table seat card g ≡ ok true
unfolding matches_table
Fits-matches_table seat card g (opening e) = ground (arith, e)
Fits-matches_table seat card g (same_rank_as p c e f r) =
    ground (arith, e, f, RankAmong-has_rank c.rank (get_table_cards g) r)

matches_table-Fits :
    (seat : ℤ) (card : ℕ) (g : GameState) → matches_table seat card g ≡ ok true → Fits seat card g
unfolding matches_table
matches_table-Fits seat card g h = elim (Bool-cases (ltb 0 (cards_on_table_size g))) [
  | inr e ↦ opening (ground (arith, e))
  | inl e ↦ elim (Option-cases (get_player_data_by_seat_position g seat)) [
    | inl f ↦ absurd (ground (arith, e, f, h))
    | inr (p, f) ↦ elim (Option-cases (get_card_by_id card p)) [
      | inl k ↦ absurd (ground (arith, e, f, k, h))
      | inr (c, k) ↦
          same_rank_as p c f k
            (has_rank-RankAmong c.rank (get_table_cards g) (ground (arith, e, f, k, h)))
    ]
  ]
]

-- A toss that `canToss` accepts.
pub record MayToss (phase : Phase) (seat : ℤ) (card : ℕ) (g : GameState) (d : Player) : Type 0 where
  pub in_move : is_move_phase phase ≡ true
  pub position_left : attacker_cards_on_table_size g < max_table_positions
  pub defender : get_current_defender_player_data g ≡ some d
  pub room : length d.hand + defender_cards_on_table_size g ≢ attacker_cards_on_table_size g
  pub fits : Fits seat card g

MayToss-can_toss :
    (phase : Phase) (seat : ℤ) (card : ℕ) (g : GameState) (d : Player)
    → length d.hand + defender_cards_on_table_size g < 2 ^ 63
    → MayToss phase seat card g d
    → can_toss phase seat card g ≡ ok true
unfolding can_toss
MayToss-can_toss phase seat card g d small m = ground (
  arith,
  small,
  m.in_move,
  m.position_left,
  m.defender,
  m.room,
  no_room-eq (length d.hand) (attacker_cards_on_table_size g) (defender_cards_on_table_size g),
  Fits-matches_table seat card g m.fits,
)

can_toss-MayToss :
    (phase : Phase) (seat : ℤ) (card : ℕ) (g : GameState) (d : Player)
    → get_current_defender_player_data g ≡ some d
    → length d.hand + defender_cards_on_table_size g < 2 ^ 63
    → can_toss phase seat card g ≡ ok true
    → MayToss phase seat card g d
unfolding can_toss
can_toss-MayToss phase seat card g d e small h = record {
  in_move = ground (arith, h);
  position_left = ground (arith, h);
  defender = e;
  room = ground (
    arith,
    h,
    e,
    small,
    no_room-eq (length d.hand) (attacker_cards_on_table_size g) (defender_cards_on_table_size g),
  );
  fits = matches_table-Fits seat card g (ground (arith, h, e));
}

-- Where there is a defender, whose cards in the hand together with the covered positions are fewer
-- than 2 ^ 63, `canToss` accepts a card exactly if the phase is one of moves, a table position is
-- left, the number of cards to beat differs from the size of the defender's hand, and the table is
-- empty or the card is in the player's hand and has the rank of a card on the table.
pub can_toss_iff :
    (phase : Phase) (seat : ℤ) (card : ℕ) (g : GameState) (d : Player)
    → get_current_defender_player_data g ≡ some d
    → length d.hand + defender_cards_on_table_size g < 2 ^ 63
    → (can_toss phase seat card g ≡ ok true) ↔ MayToss phase seat card g d
can_toss_iff phase seat card g d e small =
    (can_toss-MayToss phase seat card g d e small, MayToss-can_toss phase seat card g d small)

-- In a phase of moves with a table position left, a card that fits the table is accepted also if
-- the cards to beat already outnumber the defender's hand.
pub can_toss_overcommits :
    (phase : Phase) (seat : ℤ) (card : ℕ) (g : GameState) (d : Player)
    → get_current_defender_player_data g ≡ some d
    → is_move_phase phase ≡ true
    → attacker_cards_on_table_size g < max_table_positions
    → Fits seat card g
    → length d.hand + defender_cards_on_table_size g < attacker_cards_on_table_size g
    → can_toss phase seat card g ≡ ok true
can_toss_overcommits phase seat card g d e in_move left fits few =
    MayToss-can_toss phase seat card g d (omega arith) (record {
      in_move = in_move;
      position_left = left;
      defender = e;
      room = omega arith;
      fits = fits;
    })
