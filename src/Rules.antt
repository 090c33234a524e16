-- ===== src/Rules.antt =====
-- source/game/ClassicRules.{h,cpp}: the rules of classic Durak as a machine that `update` drives.
-- Times are milliseconds in place of `float` seconds; published events are kept in a list.
pub mod Roles
pub mod Dealing
pub mod Winners
pub mod Turns
pub mod Moves
pub mod Beating
pub mod Tossing
pub mod Schedule
pub mod Phases
pub mod Undealt
pub mod Tests
use durak.Base.{
  ℕ, zero, suc, ◌+◌, ◌-◌, ◌%◌, ◌^◌, ◌≡◌, Bool, true, false, not, ◌&&◌, ◌||◌, ltb, leb, ◌==◌,
  if◌then◌else◌, ite, List, [], ◌∷◌, ◌++◌, Option, none, some, ℤ, pos, negsuc, ℤ_discrete, length,
  get_elem?, is_empty, Outcome, ok, fault, Fault, runtime_error, null_pointer, bad_optional,
  out_of_fuel, out_of_range, ◌>>=◌, value_or_fault,
}
use durak.Cards.{Card, Player}
use durak.GameState.{
  GameState, Phase, set_current_phase, set_current_attacker_seat_position,
  set_current_defender_seat_position,
}

-- Constants::Timers
abbrev pub standard_delay_time : ℕ
standard_delay_time = 3000

abbrev pub showing_card_delay_time : ℕ
showing_card_delay_time = 3000

abbrev pub deal_delay_time : ℕ
deal_delay_time = 250

abbrev pub standard_switching_phase_delay_time : ℕ
standard_switching_phase_delay_time = 1500

abbrev pub fast_switching_phase_delay_time : ℕ
fast_switching_phase_delay_time = 500

abbrev pub clear_table_delay_time : ℕ
clear_table_delay_time = 2000

abbrev pub awarding_delay_time : ℕ
awarding_delay_time = 2000

-- Constants::Game::BoneyardId
abbrev pub boneyard_id : ℤ
boneyard_id = negsuc 10

-- source/game/events/game: what the rules publish.
pub data Event : Type 0 where
  main_trump_card_identified : ℕ → Event
  extra_cards_to_deal : Event
  show_player_trump_card deal_card_event : ℤ → ℕ → Event
  identify_new_roles_position : ℤ → ℤ → Event
  pass_action_to_player : ℤ → Bool → Event
  new_phase_event : Phase → Event
  clear_table_event reward_player : ℤ → Event

pub record Rules : Type 0 where
  pub game : GameState
  pub timer : ℕ
  pub all_attacker_players_pass_action : Bool
  pub all_cards_are_beaten : Bool
  pub defended : Bool
  pub is_limit_attacker_cards_reached : Bool
  pub max_cards_in_players_hands_at_start : ℕ
  pub switching_phase_timer : ℕ
  pub deal_card_seat_position : ℤ
  pub new_phase : Phase
  pub extra_attacker_tossed : Bool
  pub attackers_order : List ℤ
  pub win_candidates : List ℤ
  pub real_winners : List ℤ
  pub loser_seat_position : ℤ
  pub count_winners_awarded : ℕ
  pub prepare_phase_change_done : Bool
  pub deal_cards_done : Bool
  pub identify_trump_card_done : Bool
  pub identify_first_move_done : Bool
  pub clear_table_done : Bool
  pub clear_table_event_done : Bool
  pub check_for_winners_and_loser_done : Bool
  pub win_and_lose_events_done : Bool
  pub published : List Event

abbrev pub no_seat : ℤ
no_seat = negsuc 0

abbrev pub publish : Event → Rules → Rules
publish e r = record r { published = r.published ++ (e ∷ []) }

abbrev pub with_game : GameState → Rules → Rules
with_game g r = record r { game = g }

unfoldable pub reset_timer : Rules → Rules
reset_timer r = record r { timer = 0 }

unfoldable pub prepare_phase_change : Phase → ℕ → Rules → Rules
prepare_phase_change phase delay r = record r {
  prepare_phase_change_done = true;
  new_phase = phase;
  switching_phase_timer = delay;
  timer = 0;
}

unfoldable pub set_new_phase : Phase → Rules → Rules
set_new_phase phase r = record r {
  game = set_current_phase phase r.game;
  published = r.published ++ (new_phase_event phase ∷ []);
  prepare_phase_change_done = false;
  timer = 0;
}

unfoldable pub set_roles : ℤ → ℤ → Rules → Rules
set_roles attacker defender r = record r {
  game =
      set_current_defender_seat_position defender
        (set_current_attacker_seat_position attacker r.game);
  published = r.published ++ (identify_new_roles_position attacker defender ∷ []);
}

unfoldable pub set_defended : Bool → Rules → Rules
set_defended value r = record r { defended = value }

-- The phase change that was prepared, once its delay is over.
unfoldable pub switch_prepared_phase : Rules → Rules
unfolding set_new_phase
switch_prepared_phase r =
    if leb r.switching_phase_timer r.timer then set_new_phase r.new_phase r else r

-- The seat after another in a game of `n` players: `(seat + 1) % n` in `size_t`.
abbrev pub seat_after : ℤ → ℕ → ℤ
seat_after (pos i) n = pos ((i + 1) % n)
seat_after (negsuc i) n = pos ((2 ^ 64 - i) % 2 ^ 64 % n)
