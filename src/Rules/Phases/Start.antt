-- ===== src/Rules/Phases/Start.antt =====
-- ClassicRules.cpp: the steps of the starting phase, and the dealing that comes before steps.
use durak.Base.{
  ◌≡◌, subst, true, false, arith, Bool-cases, inl, inr, Outcome, Outcome-cases, ok, leb,
}
use durak.GameState.{starting_game, main_player_move}
use durak.Rules.{Rules, set_new_phase, deal_delay_time}
use durak.Rules.Dealing.{deal_cards}
use durak.Rules.Turns.{starting_steps, after_dealing}
use durak.Rules.Schedule.{
  Kept, Kept-trans, deal_cards-Kept, show_trump_card-Kept, find_first_move-Kept,
}
use durak.Rules.Phases.{start, IsScheduled, Stepped, Kept-Stepped, set_new_phase-Stepped}

-- Dealing first changes nothing about the steps that come after it.
pub after_dealing-Stepped :
    (next : Rules → Outcome Rules) (r n r' : Rules)
    → IsScheduled r
    → Kept r n
    → ((m m' : Rules) → Kept r m → next m ≡ ok m' → Stepped r m')
    → after_dealing next n ≡ ok r'
    → Stepped r r'
unfolding after_dealing
after_dealing-Stepped next r n r' s k steps h = elim (Bool-cases n.deal_cards_done) [
  | inl e ↦ steps n r' k (ground (arith, e, h))
  | inr e ↦ elim (Outcome-cases (deal_cards deal_delay_time n)) [
    | inr (x, f) ↦ absurd (ground (arith, e, f, h))
    | inl ((false, m), f) ↦
        let km = Kept-trans k (deal_cards-Kept deal_delay_time n m false f) in
        let same : m ≡ r' = ground (arith, e, f, h) in
        subst (Stepped r) same (Kept-Stepped r m s km)
    | inl ((true, m), f) ↦
        let km = Kept-trans k (deal_cards-Kept deal_delay_time n m true f) in
        steps (record m { deal_cards_done = true }) r'
          (record { phase = km.phase; prepared = km.prepared; next = km.next })
          (ground (arith, e, f, h))
  ]
]

pub starting_steps-Stepped :
    (r m r' : Rules)
    → IsScheduled r
    → r.game.current_phase ≡ starting_game
    → Kept r m
    → starting_steps m ≡ ok r'
    → Stepped r r'
unfolding starting_steps
starting_steps-Stepped r m r' s at k h = elim (Bool-cases m.identify_trump_card_done) [
  | inr a ↦ Kept-Stepped r r' s (Kept-trans k (show_trump_card-Kept m r' (ground (arith, a, h))))
  | inl a ↦ elim (Bool-cases m.identify_first_move_done) [
    | inr b ↦
        Kept-Stepped r r' s (Kept-trans k (find_first_move-Kept m r' (ground (arith, a, b, h))))
    | inl b ↦ elim (Bool-cases (leb 3000 m.timer)) [
      | inr c ↦
          let same : m ≡ r' = ground (arith, a, b, c, h) in
          subst (Stepped r) same (Kept-Stepped r m s k)
      | inl c ↦
          let same : set_new_phase main_player_move m ≡ r' = ground (arith, a, b, c, h) in
          subst (Stepped r) same (set_new_phase-Stepped main_player_move r m (rw at start))
    ]
  ]
]
