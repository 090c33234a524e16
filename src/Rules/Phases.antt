-- ===== src/Rules/Phases.antt =====
-- ClassicRules.cpp: `update` as a machine of phases, and the phases that may follow one another.
pub mod Start
pub mod Moves
pub mod Refill
pub mod Reachable
use durak.Base.{
  ℕ, ◌+◌, ◌≡◌, ◌⊎◌, refl, ◌∙◌, sym, subst, Option, none, some, value_or_fault, null_pointer, Bool,
  true, false, not, ◌==◌, ◌||◌, is_empty, arith, Bool-cases, inl, inr, Outcome, Outcome-cases, ok,
  fault, ◌>>=◌, >>=-eq-ok, leb, length, ite, ℤ_discrete, if◌then◌else◌,
}
use durak.Cards.{Player}
use durak.GameState.{
  GameState, Phase, no_phase, waiting_for_players, starting_game, main_player_move,
  every_player_move, refill_phase, game_over, get_current_main_attacker_player_data,
  get_current_defender_player_data, update_player,
}
use durak.Rules.{
  Rules, reset_timer, prepare_phase_change, set_new_phase, set_defended, switch_prepared_phase,
  deal_delay_time, awarding_delay_time, no_seat,
}
use durak.Rules.Roles.{determine_next_turn_roles}
use durak.Rules.Dealing.{deal_cards, clear_table}
use durak.Rules.Winners.{check_for_winners_and_loser, win_and_lose_events}
use durak.Rules.Turns.{
  set_pass_action, withdraw_pass, reset_turn, show_trump_card, find_first_move, starting_steps,
  after_dealing, starting_game_update, main_move_decision, main_player_move_update,
  every_move_decision, every_player_move_update, end_turn, reward_winners, check_winners,
  clear_table_first, refill_steps, refill_phase_update, update_phase, update, new_rules,
  fresh_rules, init,
}
use durak.Rules.Schedule.{
  Kept, Kept-refl, Kept-trans, deal_cards-Kept, clear_table-Kept, check_for_winners_and_loser-Kept,
  win_and_lose_events-Kept, determine_next_turn_roles-Kept, withdraw_pass-Kept, reset_turn-Kept,
  show_trump_card-Kept, find_first_move-Kept,
}

-- The changes of phase of a game.
pub data Follows : Phase → Phase → Type 0 where
  start : Follows starting_game main_player_move
  let_all_in : Follows main_player_move every_player_move
  attacker_again : Follows every_player_move main_player_move
  main_refill : Follows main_player_move refill_phase
  every_refill : Follows every_player_move refill_phase
  next_turn : Follows refill_phase main_player_move

-- A prepared change of phase is one of those.
pub record IsScheduled (r : Rules) : Type 0 where
  pub prepared : r.prepare_phase_change_done ≡ true → Follows r.game.current_phase r.new_phase

-- One step: the phase stays or a phase follows, and what is prepared is sound again.
pub record Stepped (r r' : Rules) : Type 0 where
  pub moves :
      (r'.game.current_phase ≡ r.game.current_phase)
      ⊎ Follows r.game.current_phase r'.game.current_phase
  pub sound : IsScheduled r'

Kept-Stepped : (r r' : Rules) → IsScheduled r → Kept r r' → Stepped r r'
Kept-Stepped r r' s k = record {
  moves = inl k.phase;
  sound = record { prepared = λ e. rw (k.phase, k.next) (s.prepared (sym k.prepared ∙ e)) };
}

-- A change of phase that is prepared from the phase that the state is in.
prepared-Stepped :
    (next : Phase) (delay : ℕ) (r m : Rules)
    → m.game.current_phase ≡ r.game.current_phase
    → Follows r.game.current_phase next
    → Stepped r (prepare_phase_change next delay m)
unfolding prepare_phase_change
prepared-Stepped next delay r m e f = record {
  moves = inl e;
  sound = record { prepared = λ _. rw e f };
}

-- A new phase, with nothing prepared.
set_new_phase-Stepped :
    (phase : Phase) (r m : Rules)
    → Follows r.game.current_phase phase
    → Stepped r (set_new_phase phase m)
unfolding set_new_phase
set_new_phase-Stepped phase r m f = record { moves = inr f; sound = record { prepared = λ e. cc } }

switch_prepared_phase-Stepped :
    (r : Rules)
    → IsScheduled r
    → r.prepare_phase_change_done ≡ true
    → Stepped r (switch_prepared_phase r)
unfolding switch_prepared_phase
switch_prepared_phase-Stepped r s e = elim (Bool-cases (leb r.switching_phase_timer r.timer)) [
  | inl over ↦ rw over (set_new_phase-Stepped r.new_phase r r (s.prepared e))
  | inr early ↦ rw early (Kept-Stepped r r s (Kept-refl r))
]
