-- ===== src/Rules/Turns/Passes.antt =====
-- ClassicRules.cpp: the flags that players set and that a turn starts with.
use durak.Base.{
  ℕ, Bool, true, false, not, ◌&&◌, ◌||◌, ◌==◌, if◌then◌else◌, List, [], ◌∷◌, ℤ, pos, is_empty,
  Outcome, ok, null_pointer, ◌>>=◌, value_or_fault,
}
use durak.Cards.{Player, set_player_pass_action}
use durak.GameState.{
  GameState, update_player, max_table_positions, get_current_defender_player_data,
  attacker_cards_on_table_size, defender_cards_on_table_size,
}
use durak.Rules.{Rules, pass_action_to_player, publish, with_game}

abbrev pub as_seat : Bool → ℤ
as_seat true = pos 1
as_seat false = pos 0

-- The event is built from the flag in place of the player's seat.
unfoldable pub set_pass_action : ℕ → Bool → Rules → Rules
set_pass_action player value r =
    publish (pass_action_to_player (as_seat value) value)
      (with_game (update_player player (set_player_pass_action value) r.game) r)

-- Every player but the defender has passed.
unfoldable pub all_attackers_pass : ℕ → List Player → Bool
all_attackers_pass defender [] = true
all_attackers_pass defender (p ∷ ps) =
    (p.id == defender || p.pass_action) && all_attackers_pass defender ps

-- The defender is looked at only if there is a player to compare.
unfoldable pub attackers_pass : GameState → Outcome Bool
unfolding all_attackers_pass
attackers_pass g =
    if is_empty g.players
    then ok true
    else (value_or_fault (get_current_defender_player_data g) null_pointer >>= λ d.
        ok (all_attackers_pass d.id g.players))

unfoldable pub recalculate_rule_state : Rules → Outcome Rules
unfolding attackers_pass
recalculate_rule_state r =
    let g = r.game in
    attackers_pass g >>= λ passes. ok (record r {
      all_cards_are_beaten = attacker_cards_on_table_size g == defender_cards_on_table_size g;
      is_limit_attacker_cards_reached = attacker_cards_on_table_size g == max_table_positions;
      all_attacker_players_pass_action = passes;
    })

-- The loops that take the pass back from the players that a test picks.
unfoldable pub withdraw_pass : (Player → Bool) → List Player → Rules → Rules
withdraw_pass picks [] r = r
withdraw_pass picks (p ∷ ps) r =
    withdraw_pass picks ps (if picks p then set_pass_action p.id false r else r)

unfoldable pub reset_turn : Rules → Rules
unfolding withdraw_pass
reset_turn r =
    withdraw_pass (λ p. not p.winner) r.game.players
      (record r {
        clear_table_done = false;
        clear_table_event_done = false;
        deal_cards_done = false;
        check_for_winners_and_loser_done = false;
        win_and_lose_events_done = false;
        extra_attacker_tossed = false;
      })
