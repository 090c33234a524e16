-- ===== src/Rules/Moves.antt =====
-- ClassicRules.cpp: `canToss` and `canBeat`, against the rules of the game.
use durak.Base.{
  ℕ, ◌+◌, ◌-◌, ◌%◌, ◌^◌, Bool, true, false, not, ◌||◌, ltb, leb, ◌==◌, if◌then◌else◌, ite, List, [],
  ◌∷◌, none, some, ℤ, ℤ_discrete, length, Outcome, ok, fault, null_pointer, out_of_range, ◌>>=◌,
  value_or_fault,
}
use durak.Cards.{Card, Suit, Rank, get_card_by_id, same_suit, same_rank, lower_rank}
use durak.GameState.{
  GameState, Phase, no_phase, waiting_for_players, starting_game, main_player_move,
  every_player_move, refill_phase, game_over, attacker_cards_on_table_size,
  defender_cards_on_table_size, cards_on_table_size, cards_on_table_position_size,
  get_player_data_by_seat_position, get_table_cards, get_table_cards_at_position,
  get_current_defender_player_data, max_table_positions,
}

abbrev pub is_move_phase : Phase → Bool
is_move_phase main_player_move = true
is_move_phase every_player_move = true
is_move_phase no_phase = false
is_move_phase waiting_for_players = false
is_move_phase starting_game = false
is_move_phase refill_phase = false
is_move_phase game_over = false

unfoldable pub has_rank : Rank → List Card → Bool
has_rank k [] = false
has_rank k (c ∷ cs) = same_rank k c.rank || has_rank k cs

-- `hand.size() - (attackers - defenders) <= 0` in `size_t`, whose difference wraps.
abbrev pub no_room : ℕ → ℕ → ℕ → Bool
no_room hand attackers defenders = (hand + 2 ^ 64 + defenders - attackers) % 2 ^ 64 == 0

-- The tests on the card, once there are cards on the table.
unfoldable pub matches_table : ℤ → ℕ → GameState → Outcome Bool
unfolding has_rank
matches_table seat card g =
    if ltb 0 (cards_on_table_size g)
    then (value_or_fault (get_player_data_by_seat_position g seat) null_pointer >>= λ p.
        elim (get_card_by_id card p) [
          | none ↦ ok false
          | some c ↦ ok (has_rank c.rank (get_table_cards g))
        ])
    else ok true

unfoldable pub can_toss : Phase → ℤ → ℕ → GameState → Outcome Bool
can_toss phase seat card g =
    if not (is_move_phase phase)
    then ok false
    else if leb max_table_positions (attacker_cards_on_table_size g)
    then ok false
    else (value_or_fault (get_current_defender_player_data g) null_pointer >>= λ d.
        if no_room (length d.hand) (attacker_cards_on_table_size g) (defender_cards_on_table_size g)
        then ok false
        else matches_table seat card g)

-- The comparison of a card with the card on the table, under a trump suit.
unfoldable pub beats : Suit → Card → Card → Bool
beats trump card table_card =
    if same_suit card.suit trump
    then (if not (same_suit table_card.suit trump)
        then true
        else if lower_rank table_card.rank card.rank
        then true
        else false)
    else if not (same_suit card.suit table_card.suit) || lower_rank card.rank table_card.rank
    then false
    else true

abbrev pub front : List Card → Outcome Card
front [] = fault out_of_range
front (c ∷ cs) = ok c

unfoldable pub can_beat : Phase → ℤ → ℤ → ℕ → GameState → Outcome Bool
can_beat phase seat position card g =
    if not (is_move_phase phase)
    then ok false
    else (cards_on_table_position_size g position >>= λ n.
        if not (n == 1) || not (ite (ℤ_discrete seat g.current_defender_seat_position) true false)
        then ok false
        else (value_or_fault (get_current_defender_player_data g) null_pointer >>= λ d.
            elim (get_card_by_id card d) [
              | none ↦ ok false
              | some c ↦ get_table_cards_at_position g position >>= λ row.
                  front row >>= λ table_card. elim g.trump_suit [
                    | none ↦ ok false
                    | some trump ↦ ok (beats trump c table_card)
                  ]
            ]))
