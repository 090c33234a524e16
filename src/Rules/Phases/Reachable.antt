-- ===== src/Rules/Phases/Reachable.antt =====
-- ClassicRules.cpp: all that `update` may lead to, from `init` on.
use durak.Base.{ℕ, ◌+◌, ◌≡◌, ◌⊎◌, refl, subst, arith, ok}
use durak.GameState.{
  GameState, Phase, no_phase, waiting_for_players, starting_game, main_player_move,
  every_player_move, refill_phase, game_over,
}
use durak.Rules.{Rules}
use durak.Rules.Turns.{
  reset_turn, starting_steps, starting_game_update, update_phase, update, new_rules, fresh_rules,
  init,
}
use durak.Rules.Schedule.{Kept-refl, reset_turn-Kept}
use durak.Rules.Phases.{Follows, IsScheduled, Stepped, Kept-Stepped}
use durak.Rules.Phases.Start.{after_dealing-Stepped, starting_steps-Stepped}
use durak.Rules.Phases.Moves.{main_player_move_update-Stepped, every_player_move_update-Stepped}
use durak.Rules.Phases.Refill.{refill_phase_update-Stepped}

starting_game_update-Stepped :
    (r r' : Rules)
    → IsScheduled r
    → r.game.current_phase ≡ starting_game
    → starting_game_update r ≡ ok r'
    → Stepped r r'
unfolding starting_game_update
starting_game_update-Stepped r r' s at h =
    after_dealing-Stepped starting_steps r r r' s (Kept-refl r)
      (λ a b ka. starting_steps-Stepped r a b s at ka) h

unmoved : (r r' : Rules) → IsScheduled r → ok r ≡ ok r' → Stepped r r'
unmoved r r' s h =
    let same : r ≡ r' = cc in subst (Stepped r) same (Kept-Stepped r r s (Kept-refl r))

update_phase-Stepped :
    (phase : Phase) (r r' : Rules)
    → IsScheduled r
    → r.game.current_phase ≡ phase
    → update_phase phase r ≡ ok r'
    → Stepped r r'
unfolding update_phase
update_phase-Stepped starting_game r r' s at h = starting_game_update-Stepped r r' s at h
update_phase-Stepped main_player_move r r' s at h = main_player_move_update-Stepped r r' s at h
update_phase-Stepped every_player_move r r' s at h = every_player_move_update-Stepped r r' s at h
update_phase-Stepped refill_phase r r' s at h = refill_phase_update-Stepped r r' s at h
update_phase-Stepped game_over r r' s at h = unmoved r r' s h
update_phase-Stepped no_phase r r' s at h = unmoved r r' s h
update_phase-Stepped waiting_for_players r r' s at h = unmoved r r' s h

-- An update is a step.
update-Stepped : (dt : ℕ) (r r' : Rules) → IsScheduled r → update dt r ≡ ok r' → Stepped r r'
unfolding update
update-Stepped dt r r' s h =
    let t = record r { timer = r.timer + dt } in
    let st =
      update_phase-Stepped r.game.current_phase t r' (record { prepared = s.prepared }) refl h in
    record { moves = st.moves; sound = st.sound }

-- What a number of updates leads to.
pub data Reaches (r : Rules) : Rules → Type 0 where
  now : Reaches r r
  later : (m r' : Rules) (dt : ℕ) → Reaches r m → update dt m ≡ ok r' → Reaches r r'

new_rules-IsScheduled : (g : GameState) → IsScheduled (new_rules g)
unfolding new_rules
new_rules-IsScheduled g =
    (Kept-Stepped (fresh_rules g) (reset_turn (fresh_rules g)) (record { prepared = λ e. cc })
      (reset_turn-Kept (fresh_rules g))).sound

reached-IsScheduled : (g : GameState) (r : Rules) → Reaches (new_rules g) r → IsScheduled r
reached-IsScheduled g r now = new_rules-IsScheduled g
reached-IsScheduled g _ (later m r dt p e) =
    (update-Stepped dt m r (reached-IsScheduled g m p) e).sound

-- In every state that updates lead to from a completed `init`, an update that ends keeps the phase
-- or changes it from the start to the main player's move, between the main player's and every
-- player's move, from one of these to the refill, or from the refill to the main player's move.
pub update-Follows :
    (g : GameState) (first r r' : Rules) (dt : ℕ)
    → init g ≡ ok first
    → Reaches first r
    → update dt r ≡ ok r'
    → (r'.game.current_phase ≡ r.game.current_phase)
      ⊎ Follows r.game.current_phase r'.game.current_phase
unfolding init
update-Follows g first r r' dt made p e =
    let same : first ≡ new_rules g = ground (arith, made) in
    (update-Stepped dt r r' (reached-IsScheduled g r (subst (λ (x : Rules). Reaches x r) same p))
      e).moves
