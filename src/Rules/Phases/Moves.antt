-- ===== src/Rules/Phases/Moves.antt =====
-- ClassicRules.cpp: what `mainPlayerMoveUpdate` and `everyPlayerMoveUpdate` decide.
use durak.Base.{
  ℕ, ◌≡◌, ◌⊎◌, subst, Option, none, some, value_or_fault, null_pointer, false, not, ◌==◌, ◌||◌,
  is_empty, arith, Bool-cases, inl, inr, Outcome, ok, ◌>>=◌, length, if◌then◌else◌,
}
use durak.Cards.{Player}
use durak.GameState.{
  Phase, main_player_move, every_player_move, refill_phase, get_current_main_attacker_player_data,
  get_current_defender_player_data, update_player,
}
use durak.Rules.{Rules, prepare_phase_change, set_defended, switch_prepared_phase}
use durak.Rules.Turns.{
  set_pass_action, main_move_decision, main_player_move_update, every_move_decision,
  every_player_move_update,
}
use durak.Rules.Schedule.{withdraw_pass-Kept}
use durak.Rules.Phases.{
  Follows, let_all_in, attacker_again, main_refill, every_refill, IsScheduled, Stepped,
  Kept-Stepped, switch_prepared_phase-Stepped,
}

-- What a phase of moves decides: the phase stays for now, and if the schedule is another one, the
-- phase to come is the next of the two phases of moves or the refill.
abbrev Decides : Phase → Rules → Rules → Type 0
Decides other r m =
    (m.game.current_phase ≡ r.game.current_phase)
    × (((m.prepare_phase_change_done ≡ r.prepare_phase_change_done) × (m.new_phase ≡ r.new_phase))
        ⊎ ((m.new_phase ≡ refill_phase) ⊎ (m.new_phase ≡ other)))

Decides-Stepped :
    (other : Phase) (r m : Rules)
    → IsScheduled r
    → Follows r.game.current_phase refill_phase
    → Follows r.game.current_phase other
    → Decides other r m
    → Stepped r m
Decides-Stepped other r m s refill next (e, inl (a, b)) =
    Kept-Stepped r m s (record { phase = e; prepared = a; next = b })
Decides-Stepped other r m s refill next (e, inr (inl b)) = record {
  moves = inl e;
  sound = record { prepared = λ _. rw (e, b) refill };
}
Decides-Stepped other r m s refill next (e, inr (inr b)) = record {
  moves = inl e;
  sound = record { prepared = λ _. rw (e, b) next };
}

main_move_decision-Decides :
    (players : ℕ) (attacker defender : Player) (r : Rules)
    → Decides every_player_move r (main_move_decision players attacker defender r)
unfolding main_move_decision prepare_phase_change set_defended set_pass_action update_player
main_move_decision-Decides players attacker defender r = ground arith

every_move_decision-Decides :
    (attacker defender : Player) (r : Rules)
    → Decides main_player_move r (every_move_decision attacker defender r)
unfolding every_move_decision prepare_phase_change set_defended
every_move_decision-Decides attacker defender r =
    let k =
      withdraw_pass-Kept (λ p. not (p.id == defender.id || is_empty p.hand)) r.game.players
        (record r { extra_attacker_tossed = false }) in
    ground (arith, k.phase, k.prepared, k.next)

-- A phase with a prepared change waits for it; otherwise it goes on by its own routine.
pub switch_or :
    (decide : Outcome Rules) (r r' : Rules)
    → IsScheduled r
    → ((m : Rules) → decide ≡ ok m → Stepped r m)
    → (if r.prepare_phase_change_done then ok (switch_prepared_phase r) else decide) ≡ ok r'
    → Stepped r r'
switch_or decide r r' s goes h = elim (Bool-cases r.prepare_phase_change_done) [
  | inl e ↦
      let same : switch_prepared_phase r ≡ r' = ground (arith, e, h) in
      subst (Stepped r) same (switch_prepared_phase-Stepped r s e)
  | inr e ↦ goes r' (ground (arith, e, h))
]

-- A decision that is reached had both players.
pub both_players :
    (attacker defender : Option Player) (decide : Player → Player → Rules) (m : Rules)
    → (value_or_fault attacker null_pointer >>= λ a.
        value_or_fault defender null_pointer >>= λ d. ok (decide a d))
      ≡ ok m
    → (a : Player) × (d : Player) × (decide a d ≡ m)
both_players none defender decide m h = cc
both_players (some a) none decide m h = cc
both_players (some a) (some d) decide m h = (a, d, cc)

pub main_player_move_update-Stepped :
    (r r' : Rules)
    → IsScheduled r
    → r.game.current_phase ≡ main_player_move
    → main_player_move_update r ≡ ok r'
    → Stepped r r'
unfolding main_player_move_update
main_player_move_update-Stepped r r' s at h =
    switch_or _ r r' s
      (λ m e.
        let (a, d, same) =
          both_players (get_current_main_attacker_player_data r.game)
            (get_current_defender_player_data r.game)
            (λ a d. main_move_decision (length r.game.players) a d r) m e in
        subst (Stepped r) same (
          Decides-Stepped every_player_move r _ s (rw at main_refill) (rw at let_all_in)
            (main_move_decision-Decides _ a d r)))
      h

pub every_player_move_update-Stepped :
    (r r' : Rules)
    → IsScheduled r
    → r.game.current_phase ≡ every_player_move
    → every_player_move_update r ≡ ok r'
    → Stepped r r'
unfolding every_player_move_update
every_player_move_update-Stepped r r' s at h =
    switch_or _ r r' s
      (λ m e.
        let (a, d, same) =
          both_players (get_current_main_attacker_player_data r.game)
            (get_current_defender_player_data r.game) (λ a d. every_move_decision a d r) m e in
        subst (Stepped r) same (
          Decides-Stepped main_player_move r _ s (rw at every_refill) (rw at attacker_again)
            (every_move_decision-Decides a d r)))
      h
