-- ===== src/Rules/Turns.antt =====
-- ClassicRules.cpp: `update`, which calls the routine of each phase, and `init`.
mod Passes
mod Starting
mod Moving
mod Refilling
unfoldable pub use Passes.*
unfoldable pub use Starting.*
unfoldable pub use Moving.*
unfoldable pub use Refilling.*
use durak.Base.{
  ℕ, ◌+◌, Bool, true, false, not, ◌&&◌, ◌||◌, ltb, leb, ◌==◌, if◌then◌else◌, ite, List, [], ◌∷◌,
  none, some, is_some, ℤ, pos, ℤ_discrete, length, is_empty, Outcome, ok, fault, length_error,
  null_pointer, ◌>>=◌, value_or_fault,
}
use durak.Cards.{Player, set_player_pass_action}
use durak.GameState.{
  GameState, Phase, no_phase, waiting_for_players, starting_game, main_player_move,
  every_player_move, refill_phase, game_over, update_player, total_cards_in_hands,
  max_table_positions, get_current_main_attacker_player_data, get_current_defender_player_data,
  attacker_cards_on_table_size, defender_cards_on_table_size,
}
use durak.GameLogic.{identify_trump_card, identify_first_move}
use durak.Rules.{
  Rules, main_trump_card_identified, extra_cards_to_deal, show_player_trump_card,
  pass_action_to_player, publish, with_game, reset_timer, prepare_phase_change, set_new_phase,
  set_roles, set_defended, switch_prepared_phase, seat_after, no_seat, standard_delay_time,
  showing_card_delay_time, deal_delay_time, standard_switching_phase_delay_time,
  fast_switching_phase_delay_time, clear_table_delay_time, awarding_delay_time,
}
use durak.Rules.Roles.{determine_next_turn_roles}
use durak.Rules.Dealing.{deal_cards, clear_table}
use durak.Rules.Winners.{check_for_winners_and_loser, win_and_lose_events}

unfoldable pub update_phase : Phase → Rules → Outcome Rules
update_phase starting_game r = starting_game_update r
update_phase main_player_move r = main_player_move_update r
update_phase every_player_move r = every_player_move_update r
update_phase refill_phase r = refill_phase_update r
update_phase game_over r = ok r
update_phase no_phase r = ok r
update_phase waiting_for_players r = ok r

unfoldable pub update : ℕ → Rules → Outcome Rules
unfolding update_phase
update dt r = update_phase r.game.current_phase (record r { timer = r.timer + dt })

-- The fields as `init` sets them.
abbrev pub fresh_rules : GameState → Rules
fresh_rules g = record {
  game = g;
  timer = 0;
  all_attacker_players_pass_action = false;
  all_cards_are_beaten = true;
  defended = false;
  is_limit_attacker_cards_reached = false;
  max_cards_in_players_hands_at_start = total_cards_in_hands;
  switching_phase_timer = standard_switching_phase_delay_time;
  deal_card_seat_position = pos 0;
  new_phase = no_phase;
  extra_attacker_tossed = false;
  attackers_order = [];
  win_candidates = [];
  real_winners = [];
  loser_seat_position = no_seat;
  count_winners_awarded = 0;
  prepare_phase_change_done = false;
  deal_cards_done = false;
  identify_trump_card_done = false;
  identify_first_move_done = false;
  clear_table_done = false;
  clear_table_event_done = false;
  check_for_winners_and_loser_done = false;
  win_and_lose_events_done = false;
  published = [];
}

-- The rest of `init`: the turn is reset.
unfoldable pub new_rules : GameState → Rules
unfolding reset_turn
new_rules g = reset_turn (fresh_rules g)

-- `init`: `reserve(size() - 1)` asks for too much where there are no players.
unfoldable pub init : GameState → Outcome Rules
unfolding new_rules
init g = if is_empty g.players then fault length_error else ok (new_rules g)
