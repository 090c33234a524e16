-- ===== src/GameLogic.antt =====
-- source/game/GameLogic.{h,cpp}: the moves of cards. `requireState` holds, as a logic object is made
-- for a state; `shuffleDeck` is empty in the source.
pub mod Conservation
pub mod Clearing
pub mod Phase
pub mod Tests
use durak.Base.{
  ℕ, zero, suc, ◌+◌, ◌-◌, ◌≡◌, Bool, true, false, not, ◌&&◌, ltb, ◌==◌, if◌then◌else◌, ite, List,
  [], ◌∷◌, Option, none, some, is_some, ℤ, pos, negsuc, length, Outcome, ok, fault, Fault,
  runtime_error, out_of_range, null_pointer, out_of_fuel, ◌>>=◌, ◌>>◌, require, value_or_fault,
}
use durak.Cards.{Card, Player, add_card, take_card_by_id}
use durak.GameState.{
  GameState, set_trump_suit, set_main_trump_card_id, set_players_lowest_trump_card,
  get_player_data_by_seat_position, update_player, take_deck_card, get_card_from_deck_by_index,
  move_in_deck, find_player_with_lowest_trump, add_card_to_table, cards_on_table_position_size,
  attacker_cards_on_table_size, remove_card_from_table_position, add_card_to_boneyard,
  add_card_to_player,
}

-- The index `size() - 1` as an `int`; it is -1 for an empty deck.
abbrev pub last_index : List Card → ℤ
last_index [] = negsuc 0
last_index (c ∷ cs) = pos (length cs)

-- The seat must hold a player, and the deck a card; the id of the dealt card is returned.
unfoldable pub deal_one_card : ℤ → GameState → Outcome (ℕ × GameState)
deal_one_card seat g = elim g.deck [
  | [] ↦ fault runtime_error
  | c ∷ cs ↦ value_or_fault (get_player_data_by_seat_position g seat) runtime_error >>= λ p.
      take_deck_card g >>= λ r. ok (r.0.id, update_player p.id (add_card r.0) r.1)
]

unfoldable pub identify_trump_card : GameState → Outcome (ℕ × GameState)
identify_trump_card g = do
  c ← get_card_from_deck_by_index g (last_index g.deck)
  g' ←
      move_in_deck (last_index g.deck) (pos 0)
        (set_trump_suit c.suit (set_main_trump_card_id c.id g))
  ok (c.id, g')

unfoldable pub identify_first_move : GameState → Outcome (Option (ℤ × ℕ) × GameState)
identify_first_move g = elim g.players_lowest_trump_card [
  | some found ↦ ok (some found, g)
  | none ↦ find_player_with_lowest_trump g >>= λ candidate.
      ok (
        candidate,
        elim candidate [ none ↦ g | some found ↦ set_players_lowest_trump_card found g ],
      )
]

-- The player as `takeCardById` leaves it: it is changed through the pointer before the tests.
abbrev pub keep_hand : Player → Player → Player
keep_hand new old = record old { hand = new.hand }

unfoldable pub put_on_table : (ℕ → Bool) → ℤ → ℤ → ℕ → GameState → Outcome (Bool × GameState)
put_on_table fits seat position card g =
    value_or_fault (get_player_data_by_seat_position g seat) null_pointer >>= λ p.
    elim (take_card_by_id card p) [
      | none ↦ ok (false, g)
      | some (c, p') ↦
          let g' = update_player p.id (keep_hand p') g in
          cards_on_table_position_size g' position >>= λ n.
          if fits n
          then (add_card_to_table position c g' >>= λ g''. ok (true, g''))
          else ok (false, g')
    ]

-- `toss` wants an empty position, `beat` one card there.
unfoldable pub toss : ℤ → ℤ → ℕ → GameState → Outcome (Bool × GameState)
toss = put_on_table (λ n. not (ltb 0 n))

unfoldable pub beat : ℤ → ℤ → ℕ → GameState → Outcome (Bool × GameState)
beat = put_on_table (λ n. n == 1)

-- The inner loop of both moves of table cards: `n` cards of a position, the last one first.
unfoldable pub drain :
    (Card → GameState → Outcome GameState) → ℕ → ℤ → GameState → Outcome GameState
drain put zero i g = ok g
drain put (suc n) i g =
    remove_card_from_table_position i (pos n) g >>= λ r. put r.0 r.1 >>= drain put n i

-- The outer loop, which asks for the number of attacking cards anew in each round.
unfoldable pub drain_rows :
    (Card → GameState → Outcome GameState) → ℕ → ℕ → GameState → Outcome GameState
drain_rows put zero i g = fault out_of_fuel
drain_rows put (suc fuel) i g = elim (ltb i (attacker_cards_on_table_size g)) [
  | false ↦ ok g
  | true ↦ cards_on_table_position_size g (pos i) >>= λ n.
      drain put n (pos i) g >>= drain_rows put fuel (i + 1)
]

-- The round after the last position ends the loop, so one more than the table is long is enough.
unfoldable pub move_table_cards_to_boneyard : GameState → Outcome GameState
move_table_cards_to_boneyard g =
    drain_rows (λ c g'. ok (add_card_to_boneyard c g')) (suc (length g.table)) 0 g

unfoldable pub move_table_cards_to_hand : ℤ → GameState → Outcome GameState
move_table_cards_to_hand seat g =
    drain_rows (λ c g'. add_card_to_player seat c g') (suc (length g.table)) 0 g
