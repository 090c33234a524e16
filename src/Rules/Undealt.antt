-- ===== src/Rules/Undealt.antt =====
-- ClassicRules.cpp: the mark `dealCardsDone`, which the starting phase sets and the end of a refill
-- takes back.
pub mod Updates
use durak.Base.{
  ℕ, ◌+◌, ◌≡◌, ◌≢◌, refl, ◌∙◌, sym, ap, subst, Bool, true, false, not, List, [], ◌∷◌, ℤ, arith,
  Bool-cases, inl, inr, Outcome-cases, ok, ◌>>=◌, >>=-eq-ok, length, if◌then◌else◌, ◌==◌, ◌||◌,
  is_empty, value_or_fault, null_pointer,
}
use durak.Cards.{Player}
use durak.GameState.{
  Phase, no_phase, waiting_for_players, starting_game, main_player_move, every_player_move,
  refill_phase, game_over, get_current_main_attacker_player_data, get_current_defender_player_data,
  update_player,
}
use durak.Rules.{
  Rules, reset_timer, set_roles, prepare_phase_change, set_new_phase, set_defended,
  switch_prepared_phase, deal_delay_time, awarding_delay_time,
}
use durak.Rules.Roles.{determine_next_turn_roles}
use durak.Rules.Dealing.{deal_cards, clear_table}
use durak.Rules.Winners.{
  name_loser, award, award_all, check_for_winners_and_loser, win_and_lose_events,
}
use durak.Rules.Turns.{
  set_pass_action, withdraw_pass, reset_turn, starting_steps, after_dealing, starting_game_update,
  main_move_decision, main_player_move_update, every_move_decision, every_player_move_update,
  end_turn, reward_winners, check_winners, clear_table_first, refill_steps, refill_phase_update,
  update_phase, update,
}
use durak.Rules.Schedule.{
  Undealt, clear_table-Kept, deal_cards-Kept, show_trump_card-Kept, find_first_move-Kept,
}
use durak.Rules.Phases.Moves.{both_players}

Undealt-trans : {r s t : Rules} → Undealt r s → Undealt s t → Undealt r t
Undealt-trans a b = record { deck = b.deck ∙ a.deck; done = b.done ∙ a.done }

Undealt-refl : (r : Rules) → Undealt r r
Undealt-refl r = record { deck = refl; done = refl }

award-Undealt : (seat : ℤ) (r r' : Rules) → award seat r ≡ ok r' → Undealt r r'
unfolding award name_loser update_player
award-Undealt seat r r' h = ground (arith, h)

award_all-Undealt : (seats : List ℤ) (r r' : Rules) → award_all seats r ≡ ok r' → Undealt r r'
unfolding award_all
award_all-Undealt [] r r' h = ground (arith, h)
award_all-Undealt (s ∷ seats) r r' h =
    let (m, e, h') = >>=-eq-ok (award s r) _ h in
    Undealt-trans (award-Undealt s r m e) (award_all-Undealt seats m r' h')

check_for_winners_and_loser-Undealt :
    (r r' : Rules) → check_for_winners_and_loser r ≡ ok r' → Undealt r r'
unfolding check_for_winners_and_loser reset_timer
check_for_winners_and_loser-Undealt r r' h = elim (Outcome-cases (award_all r.win_candidates r)) [
  | inl (m, e) ↦
      let k = award_all-Undealt r.win_candidates r m e in ground (arith, h, e, k.deck, k.done)
  | inr (x, e) ↦ ground (arith, h, e)
]

win_and_lose_events-Undealt :
    (delay : ℕ) (r r' : Rules) (b : Bool) → win_and_lose_events delay r ≡ ok (b, r') → Undealt r r'
unfolding win_and_lose_events reset_timer
win_and_lose_events-Undealt delay r r' b h = ground (arith, h)

if_passed-Undealt :
    (b : Bool) (player : ℕ) (r : Rules)
    → Undealt r (if b then set_pass_action player false r else r)
unfolding set_pass_action update_player
if_passed-Undealt b player r = ground arith

withdraw_pass-Undealt :
    (picks : Player → Bool) (ps : List Player) (r : Rules) → Undealt r (withdraw_pass picks ps r)
unfolding withdraw_pass
withdraw_pass-Undealt picks [] r = Undealt-refl r
withdraw_pass-Undealt picks (p ∷ ps) r =
    Undealt-trans (if_passed-Undealt (picks p) p.id r) (withdraw_pass-Undealt picks ps _)

reset_turn-deck : (r : Rules) → (reset_turn r).game.deck ≡ r.game.deck
unfolding reset_turn
reset_turn-deck r = (withdraw_pass-Undealt _ r.game.players _).deck

determine_next_turn_roles-deck :
    (r m : Rules) → determine_next_turn_roles r ≡ ok m → m.game.deck ≡ r.game.deck
unfolding determine_next_turn_roles set_roles
determine_next_turn_roles-deck r m e = ground (arith, e)

-- The end of a turn takes the mark back, and leaves the deck.
end_turn-deck : (r r' : Rules) → end_turn r ≡ ok r' → r'.game.deck ≡ r.game.deck
unfolding end_turn prepare_phase_change reset_timer
end_turn-deck r r' h = elim (Outcome-cases (determine_next_turn_roles r)) [
  | inr (x, e) ↦ ground (arith, h, e)
  | inl (m, e) ↦ ground (
    arith,
    h,
    e,
    determine_next_turn_roles-deck r m e,
    reset_turn-deck (prepare_phase_change main_player_move 1500 m),
  )
]

reward_winners-deck : (r r' : Rules) → reward_winners r ≡ ok r' → r'.game.deck ≡ r.game.deck
unfolding reward_winners reset_timer
reward_winners-deck r r' h = elim (Bool-cases r.win_and_lose_events_done) [
  | inl e ↦ end_turn-deck r r' (ground (arith, e, h))
  | inr e ↦ elim (Outcome-cases (win_and_lose_events awarding_delay_time r)) [
    | inr (x, f) ↦ absurd (ground (arith, e, f, h))
    | inl ((false, n), f) ↦
        let k = win_and_lose_events-Undealt awarding_delay_time r n false f in
        ground (arith, e, f, h, k.deck)
    | inl ((true, n), f) ↦
        let k = win_and_lose_events-Undealt awarding_delay_time r n true f in
        end_turn-deck (record n { win_and_lose_events_done = true; timer = 0 }) r'
          (ground (arith, e, f, h))
        ∙ k.deck
  ]
]

check_winners-deck : (r r' : Rules) → check_winners r ≡ ok r' → r'.game.deck ≡ r.game.deck
unfolding check_winners
check_winners-deck r r' h = elim (Bool-cases r.check_for_winners_and_loser_done) [
  | inl e ↦ reward_winners-deck r r' (ground (arith, e, h))
  | inr e ↦ elim (Outcome-cases (check_for_winners_and_loser r)) [
    | inr (x, f) ↦ absurd (ground (arith, e, f, h))
    | inl (n, f) ↦
        reward_winners-deck n r' (ground (arith, e, f, h))
        ∙ (check_for_winners_and_loser-Undealt r n f).deck
  ]
]

clear_table_first-Undealt : (r m : Rules) → clear_table_first r ≡ ok m → Undealt r m
unfolding clear_table_first reset_timer
clear_table_first-Undealt r m h = elim (Outcome-cases (clear_table r)) [
  | inr (x, f) ↦ ground (arith, f, h)
  | inl (n, f) ↦ let (_, k) = clear_table-Kept r n f in ground (arith, f, h, k.deck, k.done)
]
