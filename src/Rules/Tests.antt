-- ===== src/Rules/Tests.antt =====
-- Moves and turns of a game of two players.
use durak.Base.{
  ◌⊎◌, ◌≡◌, ◌↔◌, refl, true, false, [], ◌∷◌, pos, arith, ok, ℕ_discrete, ℤ_discrete, lookup, inr,
  zero, suc,
}
use durak.Seats.{get_player_id_by_seat_position}
use durak.Cards.{Card, Suit, clubs, Player, set_player_pass_action, find_card, get_card_by_id}
use durak.GameState.{
  GameState, main_player_move, refill_phase, starting_game, find_player, update_player,
  modify_player, get_player_data_by_seat_position, attacker_cards_on_table_size, attacker_rows,
  defender_cards_on_table_size, defender_rows, get_table_cards, concat,
}
use durak.GameLogic.Tests.{duel, tossed, six_of_hearts, nine_of_hearts, attacker, defender}
use durak.Rules.{Rules, set_new_phase, new_phase_event}
use durak.Rules.Turns.{
  new_rules, fresh_rules, init, reset_turn, withdraw_pass, set_pass_action, update, update_phase,
  main_player_move_update, main_move_decision, refill_phase_update, clear_table_first, refill_steps,
  after_dealing, check_winners, reward_winners, starting_game_update, starting_steps,
}
use durak.Rules.Winners.{check_for_winners_and_loser, win_and_lose_events}
use durak.Rules.Phases.{Follows}
use durak.Rules.Phases.Reachable.{now, update-Follows}
use durak.Rules.Undealt.Updates.{update_deals_nothing, starting_phase_leaves_dealt}
use durak.Rules.Moves.{beats, can_beat, can_toss}
use durak.Rules.Beating.{Outranks, MayBeat, beats-Outranks, can_beat_iff}
use durak.Rules.Tossing.{MayToss, can_toss_iff, can_toss_overcommits, same_rank_as, here}
use durak.Rules.Roles.{is_winner_at, determine_next_turn_roles}
use durak.Rules.Roles.Search.{AllSeated, TwoRoles, determine_next_turn_roles_finds_two}

beats-Outranks_example :
    (beats clubs nine_of_hearts six_of_hearts ≡ true) ↔ Outranks clubs nine_of_hearts six_of_hearts
beats-Outranks_example = beats-Outranks clubs nine_of_hearts six_of_hearts (inr (omega arith))

can_beat_iff_example : (can_beat main_player_move (pos 1) (pos 0) 2 tossed ≡ ok true) ↔ (
    (d : Player) × (c : Card) × (table_card : Card) × (trump : Suit) × MayBeat main_player_move
      (pos 1)
      (pos 0)
      2
      tossed
      d
      c
      table_card
      trump)
can_beat_iff_example = can_beat_iff main_player_move (pos 1) (pos 0) 2 tossed

can_toss_iff_example :
    (can_toss main_player_move (pos 0) 1 duel ≡ ok true)
    ↔ MayToss main_player_move (pos 0) 1 duel defender
unfolding get_player_data_by_seat_position get_player_id_by_seat_position lookup find_player
    defender_cards_on_table_size defender_rows ℕ_discrete ℤ_discrete
can_toss_iff_example = can_toss_iff main_player_move (pos 0) 1 duel defender refl (omega arith)

-- Two cards are to be beaten by a defender with one card, and the attacker holds a third of that rank.
abbrev pressed : GameState
pressed = record duel {
  table = (six_of_hearts ∷ []) ∷ (six_of_hearts ∷ []) ∷ [] ∷ [] ∷ [] ∷ [] ∷ [];
}

can_toss_overcommits_example : can_toss main_player_move (pos 0) 1 pressed ≡ ok true
unfolding get_player_data_by_seat_position get_player_id_by_seat_position lookup find_player
    defender_cards_on_table_size defender_rows attacker_cards_on_table_size attacker_rows
    get_card_by_id find_card get_table_cards concat ℕ_discrete ℤ_discrete
can_toss_overcommits_example =
    can_toss_overcommits main_player_move (pos 0) 1 pressed defender refl refl (omega arith)
      (same_rank_as attacker six_of_hearts refl refl (here refl)) (omega arith)

abbrev turn_over : Rules
turn_over = new_rules duel

turn_over-AllSeated : AllSeated turn_over.game
unfolding new_rules reset_turn withdraw_pass set_pass_action update_player modify_player
    get_player_data_by_seat_position get_player_id_by_seat_position lookup find_player
    set_player_pass_action ℕ_discrete ℤ_discrete
turn_over-AllSeated zero lt = (attacker, refl)
turn_over-AllSeated (suc zero) lt = (defender, refl)
turn_over-AllSeated (suc (suc i)) lt = absurd (omega arith)

determine_next_turn_roles_finds_two_example :
    (after : Rules) × (determine_next_turn_roles turn_over ≡ ok after) × TwoRoles turn_over after
unfolding new_rules reset_turn withdraw_pass set_pass_action update_player modify_player
    is_winner_at get_player_data_by_seat_position get_player_id_by_seat_position lookup find_player
    set_player_pass_action ℕ_discrete ℤ_discrete
determine_next_turn_roles_finds_two_example =
    determine_next_turn_roles_finds_two turn_over 1 0 1 turn_over-AllSeated refl (omega arith)
      (omega arith) (omega arith) (omega arith) refl refl

abbrev waiting : Rules
waiting = record turn_over { timer = 10 }

update-Follows_example :
    (waiting.game.current_phase ≡ turn_over.game.current_phase)
    ⊎ Follows turn_over.game.current_phase waiting.game.current_phase
unfolding init update update_phase main_player_move_update main_move_decision new_rules reset_turn
    withdraw_pass set_pass_action update_player modify_player get_player_data_by_seat_position
    get_player_id_by_seat_position lookup find_player set_player_pass_action ℕ_discrete ℤ_discrete
update-Follows_example = update-Follows duel turn_over turn_over waiting 10 refl now refl

-- The first refill, with both hands short of cards and one card in the deck.
abbrev refilling : Rules
refilling = record (fresh_rules (record duel { current_phase = refill_phase })) {
  deal_cards_done = true;
  clear_table_done = true;
  clear_table_event_done = true;
}

update_deals_nothing_example : (record refilling { timer = 1 }).game.deck ≡ refilling.game.deck
unfolding update update_phase refill_phase_update clear_table_first refill_steps after_dealing
    check_winners reward_winners check_for_winners_and_loser win_and_lose_events ℤ_discrete
    ℕ_discrete
update_deals_nothing_example =
    update_deals_nothing 1 refilling (record refilling { timer = 1 }) (λ e. cc) refl refl

-- The starting phase at its end.
abbrev starting : Rules
starting = record (fresh_rules (record duel { current_phase = starting_game })) {
  deal_cards_done = true;
  identify_trump_card_done = true;
  identify_first_move_done = true;
}

abbrev started : Rules
started = record starting {
  game = duel;
  published = new_phase_event main_player_move ∷ [];
  prepare_phase_change_done = false;
}

starting_phase_leaves_dealt_example : started.deal_cards_done ≡ true
unfolding update update_phase starting_game_update after_dealing starting_steps set_new_phase
starting_phase_leaves_dealt_example =
    starting_phase_leaves_dealt 3000 starting started refl refl refl
