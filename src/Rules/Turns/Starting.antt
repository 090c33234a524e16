-- ===== src/Rules/Turns/Starting.antt =====
-- ClassicRules.cpp: the routine of the starting phase.
use durak.Base.{
  ◌+◌, true, false, not, ltb, leb, if◌then◌else◌, none, some, is_some, length, Outcome, ok, ◌>>=◌,
}
use durak.GameState.{main_player_move, total_cards_in_hands}
use durak.GameLogic.{identify_trump_card, identify_first_move}
use durak.Rules.{
  Rules, main_trump_card_identified, extra_cards_to_deal, show_player_trump_card, publish,
  with_game, reset_timer, set_new_phase, set_roles, seat_after, standard_delay_time,
  showing_card_delay_time, deal_delay_time,
}
use durak.Rules.Dealing.{deal_cards}

-- The three steps of the starting phase, each left by a `return`.
unfoldable pub show_trump_card : Rules → Outcome Rules
unfolding reset_timer
show_trump_card r =
    (if is_some r.game.main_trump_card_id
      then ok r
      else (identify_trump_card r.game >>= λ t.
          ok (reset_timer (publish (main_trump_card_identified t.0) (with_game t.1 r)))))
    >>= λ r'.
        if ltb r'.timer showing_card_delay_time
        then ok r'
        else ok (reset_timer (record r' { identify_trump_card_done = true }))

unfoldable pub find_first_move : Rules → Outcome Rules
unfolding reset_timer set_roles
find_first_move r = identify_first_move r.game >>= λ m.
    let r' = with_game m.1 r in
    elim m.0 [
      | none ↦ ok (
          reset_timer (
            publish extra_cards_to_deal (record r' {
              max_cards_in_players_hands_at_start = r'.max_cards_in_players_hands_at_start + 1;
              deal_cards_done = false;
            })))
      | some (seat, card) ↦ ok (
          reset_timer
            (record (set_roles seat (seat_after seat (length r'.game.players)) (
              publish (show_player_trump_card seat card)
                (record r' { max_cards_in_players_hands_at_start = total_cards_in_hands }))) {
                  identify_first_move_done = true;
                }))
    ]

unfoldable pub starting_steps : Rules → Outcome Rules
unfolding show_trump_card find_first_move set_new_phase
starting_steps r =
    if not r.identify_trump_card_done
    then show_trump_card r
    else if not r.identify_first_move_done
    then find_first_move r
    else if leb standard_delay_time r.timer
    then ok (set_new_phase main_player_move r)
    else ok r

-- `if (!dealCardsDone)`: deal, and come back until that is done.
unfoldable pub after_dealing : (Rules → Outcome Rules) → Rules → Outcome Rules
after_dealing next r =
    if r.deal_cards_done
    then next r
    else (deal_cards deal_delay_time r >>= λ d.
        if d.0 then next (record d.1 { deal_cards_done = true }) else ok d.1)

unfoldable pub starting_game_update : Rules → Outcome Rules
unfolding after_dealing starting_steps
starting_game_update = after_dealing starting_steps
