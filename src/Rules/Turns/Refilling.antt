-- ===== src/Rules/Turns/Refilling.antt =====
-- ClassicRules.cpp: the routine of the refill.
use durak.Base.{true, not, leb, if◌then◌else◌, ite, ℤ_discrete, Outcome, ok, ◌>>=◌}
use durak.GameState.{main_player_move}
use durak.Rules.{
  Rules, reset_timer, prepare_phase_change, switch_prepared_phase, no_seat,
  standard_switching_phase_delay_time, clear_table_delay_time, awarding_delay_time,
}
use durak.Rules.Roles.{determine_next_turn_roles}
use durak.Rules.Dealing.{clear_table}
use durak.Rules.Winners.{check_for_winners_and_loser, win_and_lose_events}
use durak.Rules.Turns.Passes.{reset_turn}
use durak.Rules.Turns.Starting.{after_dealing}

-- The end of a turn, while nobody has lost.
unfoldable pub end_turn : Rules → Outcome Rules
unfolding prepare_phase_change reset_turn reset_timer
end_turn r =
    ite (ℤ_discrete r.loser_seat_position no_seat)
      (determine_next_turn_roles r >>= λ r'. ok (
        reset_timer (
          reset_turn
            (prepare_phase_change main_player_move standard_switching_phase_delay_time r'))))
      (ok r)

unfoldable pub reward_winners : Rules → Outcome Rules
unfolding end_turn reset_timer
reward_winners r =
    if r.win_and_lose_events_done
    then end_turn r
    else (win_and_lose_events awarding_delay_time r >>= λ w.
        if w.0
        then end_turn (reset_timer (record w.1 { win_and_lose_events_done = true }))
        else ok w.1)

unfoldable pub check_winners : Rules → Outcome Rules
unfolding reward_winners
check_winners r =
    (if r.check_for_winners_and_loser_done then ok r else check_for_winners_and_loser r)
    >>= reward_winners

unfoldable pub clear_table_first : Rules → Outcome Rules
unfolding reset_timer
clear_table_first r =
    if r.clear_table_done
    then ok r
    else (clear_table r >>= λ r'. ok (reset_timer (record r' { clear_table_done = true })))

unfoldable pub refill_steps : Rules → Outcome Rules
unfolding reset_timer after_dealing check_winners
refill_steps r =
    if not r.clear_table_event_done
    then ok (
        if leb clear_table_delay_time r.timer
        then reset_timer (record r { clear_table_event_done = true })
        else r)
    else after_dealing check_winners r

unfoldable pub refill_phase_update : Rules → Outcome Rules
unfolding switch_prepared_phase clear_table_first refill_steps
refill_phase_update r =
    if r.prepare_phase_change_done
    then ok (switch_prepared_phase r)
    else (clear_table_first r >>= refill_steps)
