-- ===== src/Rules/Turns/Moving.antt =====
-- ClassicRules.cpp: the routines of the two phases of moves.
use durak.Base.{
  ℕ, Bool, true, false, not, ◌&&◌, ◌||◌, ◌==◌, if◌then◌else◌, length, is_empty, Outcome, ok,
  null_pointer, ◌>>=◌, value_or_fault,
}
use durak.Cards.{Player}
use durak.GameState.{
  main_player_move, every_player_move, refill_phase, get_current_main_attacker_player_data,
  get_current_defender_player_data,
}
use durak.Rules.{
  Rules, prepare_phase_change, set_defended, switch_prepared_phase,
  standard_switching_phase_delay_time, fast_switching_phase_delay_time,
}
use durak.Rules.Turns.Passes.{set_pass_action, withdraw_pass}

abbrev pub to_refill : Bool → Rules → Rules
to_refill value r =
    prepare_phase_change refill_phase standard_switching_phase_delay_time (set_defended value r)

-- The decision of `mainPlayerMoveUpdate` on the two pass flags.
unfoldable pub main_move_decision : ℕ → Player → Player → Rules → Rules
unfolding prepare_phase_change set_defended set_pass_action
main_move_decision players attacker defender r =
    let passed = attacker.pass_action in
    let gave_up = defender.pass_action in
    if players == 2
    then (if gave_up && (passed || r.is_limit_attacker_cards_reached)
        then to_refill false r
        else if passed && r.all_cards_are_beaten
        then to_refill true r
        else r)
    else if r.all_attacker_players_pass_action && r.all_cards_are_beaten
    then to_refill true r
    else if r.all_attacker_players_pass_action && gave_up
    then to_refill false r
    else if passed
        && not r.all_attacker_players_pass_action
        && not r.is_limit_attacker_cards_reached
    then prepare_phase_change every_player_move fast_switching_phase_delay_time
        (set_pass_action attacker.id false r)
    else r

unfoldable pub main_player_move_update : Rules → Outcome Rules
unfolding switch_prepared_phase main_move_decision
main_player_move_update r =
    if r.prepare_phase_change_done
    then ok (switch_prepared_phase r)
    else (value_or_fault (get_current_main_attacker_player_data r.game) null_pointer >>= λ attacker.
        value_or_fault (get_current_defender_player_data r.game) null_pointer >>= λ defender.
        ok (main_move_decision (length r.game.players) attacker defender r))

unfoldable pub every_move_decision : Player → Player → Rules → Rules
unfolding prepare_phase_change set_defended withdraw_pass
every_move_decision attacker defender r =
    if r.all_attacker_players_pass_action && r.all_cards_are_beaten
    then to_refill true r
    else if defender.pass_action
    then (if r.all_attacker_players_pass_action || r.is_limit_attacker_cards_reached
        then to_refill false r
        else r)
    else if r.extra_attacker_tossed
        && not (is_empty attacker.hand)
        && not r.is_limit_attacker_cards_reached
    then prepare_phase_change main_player_move fast_switching_phase_delay_time (
        withdraw_pass (λ p. not (p.id == defender.id || is_empty p.hand)) r.game.players
          (record r { extra_attacker_tossed = false }))
    else r

unfoldable pub every_player_move_update : Rules → Outcome Rules
unfolding switch_prepared_phase every_move_decision
every_player_move_update r =
    if r.prepare_phase_change_done
    then ok (switch_prepared_phase r)
    else (value_or_fault (get_current_main_attacker_player_data r.game) null_pointer >>= λ attacker.
        value_or_fault (get_current_defender_player_data r.game) null_pointer >>= λ defender.
        ok (every_move_decision attacker defender r))
