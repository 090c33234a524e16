-- ===== src/Rules/Undealt/Updates.antt =====
-- ClassicRules.cpp: the deck and the mark `dealCardsDone` along updates.
use durak.Base.{
  ℕ, ◌+◌, ◌≡◌, ◌≢◌, refl, ◌∙◌, sym, ap, subst, true, false, not, arith, Bool-cases, inl, inr,
  Outcome-cases, ok, ◌>>=◌, length, if◌then◌else◌, ◌==◌, ◌||◌, is_empty, value_or_fault,
  null_pointer,
}
use durak.Cards.{Player}
use durak.GameState.{
  Phase, no_phase, waiting_for_players, starting_game, main_player_move, every_player_move,
  refill_phase, game_over, get_current_main_attacker_player_data, get_current_defender_player_data,
  update_player,
}
use durak.Rules.{
  Rules, reset_timer, prepare_phase_change, set_new_phase, set_defended, switch_prepared_phase,
  deal_delay_time,
}
use durak.Rules.Dealing.{deal_cards}
use durak.Rules.Turns.{
  set_pass_action, starting_steps, after_dealing, starting_game_update, main_move_decision,
  main_player_move_update, every_move_decision, every_player_move_update, clear_table_first,
  refill_steps, refill_phase_update, update_phase, update,
}
use durak.Rules.Schedule.{deal_cards-Kept, show_trump_card-Kept, find_first_move-Kept}
use durak.Rules.Phases.Moves.{both_players}
use durak.Rules.Undealt.{withdraw_pass-Undealt, check_winners-deck, clear_table_first-Undealt}

refill_phase_update-deck :
    (r r' : Rules)
    → r.deal_cards_done ≡ true
    → refill_phase_update r ≡ ok r'
    → r'.game.deck ≡ r.game.deck
unfolding refill_phase_update refill_steps switch_prepared_phase set_new_phase reset_timer
    after_dealing
refill_phase_update-deck r r' done h = elim (Bool-cases r.prepare_phase_change_done) [
  | inl e ↦ ground (arith, e, h)
  | inr e ↦ elim (Outcome-cases (clear_table_first r)) [
    | inr (x, f) ↦ absurd (ground (arith, e, f, h))
    | inl (n, f) ↦
        let k = clear_table_first-Undealt r n f in
        elim (Bool-cases n.clear_table_event_done) [
          | inr x ↦ ground (arith, e, f, x, h, k.deck)
          | inl x ↦ check_winners-deck n r' (ground (arith, e, f, x, h, k.done, done)) ∙ k.deck
        ]
  ]
]

main_move_decision-deck :
    (players : ℕ) (attacker defender : Player) (r : Rules)
    → (main_move_decision players attacker defender r).game.deck ≡ r.game.deck
unfolding main_move_decision prepare_phase_change set_defended set_pass_action update_player
main_move_decision-deck players attacker defender r = ground arith

every_move_decision-deck :
    (attacker defender : Player) (r : Rules)
    → (every_move_decision attacker defender r).game.deck ≡ r.game.deck
unfolding every_move_decision prepare_phase_change set_defended
every_move_decision-deck attacker defender r =
    let k =
      withdraw_pass-Undealt (λ p. not (p.id == defender.id || is_empty p.hand)) r.game.players
        (record r { extra_attacker_tossed = false }) in
    ground (arith, k.deck)

-- A phase with a prepared change waits for it, and its own routine keeps the deck.
switch_or_decide-deck :
    (decide : Player → Player → Rules) (r r' : Rules)
    → ((a d : Player) → (decide a d).game.deck ≡ r.game.deck)
    → (if r.prepare_phase_change_done
        then ok (switch_prepared_phase r)
        else (value_or_fault (get_current_main_attacker_player_data r.game) null_pointer >>= λ a.
            value_or_fault (get_current_defender_player_data r.game) null_pointer >>= λ d.
            ok (decide a d)))
      ≡ ok r'
    → r'.game.deck ≡ r.game.deck
unfolding switch_prepared_phase set_new_phase
switch_or_decide-deck decide r r' keeps h = elim (Bool-cases r.prepare_phase_change_done) [
  | inl e ↦ ground (arith, e, h)
  | inr e ↦
      let (a, d, same) =
        both_players (get_current_main_attacker_player_data r.game)
          (get_current_defender_player_data r.game) decide r' (ground (arith, e, h)) in
      sym (ap (λ (x : Rules). x.game.deck) same) ∙ keeps a d
]

update_phase-deck :
    (phase : Phase) (r r' : Rules)
    → phase ≢ starting_game
    → r.deal_cards_done ≡ true
    → update_phase phase r ≡ ok r'
    → r'.game.deck ≡ r.game.deck
unfolding update_phase main_player_move_update every_player_move_update
update_phase-deck starting_game r r' ne done h = absurd (ne refl)
update_phase-deck main_player_move r r' ne done h =
    switch_or_decide-deck (λ a d. main_move_decision (length r.game.players) a d r) r r'
      (λ a d. main_move_decision-deck _ a d r) h
update_phase-deck every_player_move r r' ne done h =
    switch_or_decide-deck (λ a d. every_move_decision a d r) r r'
      (λ a d. every_move_decision-deck a d r) h
update_phase-deck refill_phase r r' ne done h = refill_phase_update-deck r r' done h
update_phase-deck game_over r r' ne done h = ground (arith, h)
update_phase-deck no_phase r r' ne done h = ground (arith, h)
update_phase-deck waiting_for_players r r' ne done h = ground (arith, h)

-- Outside the starting phase and with the mark `dealCardsDone` set, an update that ends leaves the
-- deck as it was, also in the refill.
pub update_deals_nothing :
    (dt : ℕ) (r r' : Rules)
    → r.game.current_phase ≢ starting_game
    → r.deal_cards_done ≡ true
    → update dt r ≡ ok r'
    → r'.game.deck ≡ r.game.deck
unfolding update
update_deals_nothing dt r r' ne done h =
    update_phase-deck r.game.current_phase (record r { timer = r.timer + dt }) r' ne done h

starting_steps-dealt :
    (m r' : Rules)
    → m.deal_cards_done ≡ true
    → m.game.current_phase ≡ starting_game
    → r'.game.current_phase ≡ main_player_move
    → starting_steps m ≡ ok r'
    → r'.deal_cards_done ≡ true
unfolding starting_steps set_new_phase
starting_steps-dealt m r' done at moved h = elim (Bool-cases m.identify_trump_card_done) [
  | inr a ↦
      absurd (ground (arith, at, moved, (show_trump_card-Kept m r' (ground (arith, a, h))).phase))
  | inl a ↦ elim (Bool-cases m.identify_first_move_done) [
    | inr b ↦
        absurd
          (ground (arith, at, moved, (find_first_move-Kept m r' (ground (arith, a, b, h))).phase))
    | inl b ↦ ground (arith, a, b, h, done)
  ]
]

starting_game_update-dealt :
    (r r' : Rules)
    → r.game.current_phase ≡ starting_game
    → starting_game_update r ≡ ok r'
    → r'.game.current_phase ≡ main_player_move
    → r'.deal_cards_done ≡ true
unfolding starting_game_update after_dealing
starting_game_update-dealt r r' at h moved = elim (Bool-cases r.deal_cards_done) [
  | inl e ↦ starting_steps-dealt r r' e at moved (ground (arith, e, h))
  | inr e ↦ elim (Outcome-cases (deal_cards deal_delay_time r)) [
    | inr (x, f) ↦ absurd (ground (arith, e, f, h))
    | inl ((false, m), f) ↦
        absurd
          (ground (arith, e, f, h, at, moved, (deal_cards-Kept deal_delay_time r m false f).phase))
    | inl ((true, m), f) ↦
        starting_steps-dealt (record m { deal_cards_done = true }) r' refl
          ((deal_cards-Kept deal_delay_time r m true f).phase ∙ at) moved (ground (arith, e, f, h))
  ]
]

-- An update that takes the starting phase to the main player's move leaves the mark `dealCardsDone`
-- set.
pub starting_phase_leaves_dealt :
    (dt : ℕ) (r r' : Rules)
    → r.game.current_phase ≡ starting_game
    → update dt r ≡ ok r'
    → r'.game.current_phase ≡ main_player_move
    → r'.deal_cards_done ≡ true
unfolding update update_phase
starting_phase_leaves_dealt dt r r' at h moved =
    starting_game_update-dealt (record r { timer = r.timer + dt }) r' at
      (subst (λ (p : Phase). update_phase p (record r { timer = r.timer + dt }) ≡ ok r') at h) moved
