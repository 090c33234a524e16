-- ===== src/Rules/Phases/Refill.antt =====
-- ClassicRules.cpp: the steps of the refill phase.
use durak.Base.{
  ◌≡◌, ◌∙◌, sym, subst, true, false, arith, Bool-cases, inl, inr, Outcome-cases, ok, ◌>>=◌,
  >>=-eq-ok, ℤ_discrete,
}
use durak.GameState.{main_player_move, refill_phase}
use durak.Rules.{Rules, reset_timer, prepare_phase_change, awarding_delay_time, no_seat}
use durak.Rules.Roles.{determine_next_turn_roles}
use durak.Rules.Dealing.{clear_table}
use durak.Rules.Winners.{check_for_winners_and_loser, win_and_lose_events}
use durak.Rules.Turns.{
  reset_turn, end_turn, reward_winners, check_winners, clear_table_first, refill_steps,
  refill_phase_update,
}
use durak.Rules.Schedule.{
  Kept, Kept-trans, clear_table-Kept, check_for_winners_and_loser-Kept, win_and_lose_events-Kept,
  determine_next_turn_roles-Kept, reset_turn-Kept,
}
use durak.Rules.Phases.{next_turn, IsScheduled, Stepped, Kept-Stepped, prepared-Stepped}
use durak.Rules.Phases.Start.{after_dealing-Stepped}
use durak.Rules.Phases.Moves.{switch_or}

-- A step stays one when more is done that keeps the schedule.
then_Kept : {r m r' : Rules} → Stepped r m → Kept m r' → Stepped r r'
then_Kept {r} {m} {r'} go k = record {
  moves = rw (sym k.phase) at go.moves;
  sound = (Kept-Stepped m r' go.sound k).sound;
}

end_turn-Stepped :
    (r m r' : Rules)
    → IsScheduled r
    → r.game.current_phase ≡ refill_phase
    → Kept r m
    → end_turn m ≡ ok r'
    → Stepped r r'
unfolding end_turn reset_timer
end_turn-Stepped r m r' s at k h = elim (ℤ_discrete m.loser_seat_position no_seat) [
  | no n ↦ let same : m ≡ r' = ground (arith, h, n) in subst (Stepped r) same (Kept-Stepped r m s k)
  | yes y ↦ elim (Outcome-cases (determine_next_turn_roles m)) [
    | inr (x, e) ↦ absurd (ground (arith, y, e, h))
    | inl (n, e) ↦
        let d = determine_next_turn_roles-Kept m n e in
        let p = prepare_phase_change main_player_move 1500 n in
        let q = reset_turn-Kept p in
        let last : record (reset_turn p) { timer = 0 } ≡ r' = ground (arith, y, e, h) in
        let go = prepared-Stepped main_player_move 1500 r n (d.phase ∙ k.phase) (rw at next_turn) in
        subst (Stepped r) last
          (then_Kept go (record { phase = q.phase; prepared = q.prepared; next = q.next }))
  ]
]

reward_winners-Stepped :
    (r m r' : Rules)
    → IsScheduled r
    → r.game.current_phase ≡ refill_phase
    → Kept r m
    → reward_winners m ≡ ok r'
    → Stepped r r'
unfolding reward_winners reset_timer
reward_winners-Stepped r m r' s at k h = elim (Bool-cases m.win_and_lose_events_done) [
  | inl e ↦ end_turn-Stepped r m r' s at k (ground (arith, e, h))
  | inr e ↦ elim (Outcome-cases (win_and_lose_events awarding_delay_time m)) [
    | inr (x, f) ↦ absurd (ground (arith, e, f, h))
    | inl ((false, n), f) ↦
        let same : n ≡ r' = ground (arith, e, f, h) in
        let kn = win_and_lose_events-Kept awarding_delay_time m n false f in
        subst (Stepped r) same (Kept-Stepped r n s (Kept-trans k kn))
    | inl ((true, n), f) ↦
        let kn = Kept-trans k (win_and_lose_events-Kept awarding_delay_time m n true f) in
        end_turn-Stepped r (record n { win_and_lose_events_done = true; timer = 0 }) r' s at
          (record { phase = kn.phase; prepared = kn.prepared; next = kn.next })
          (ground (arith, e, f, h))
  ]
]

check_winners-Stepped :
    (r m r' : Rules)
    → IsScheduled r
    → r.game.current_phase ≡ refill_phase
    → Kept r m
    → check_winners m ≡ ok r'
    → Stepped r r'
unfolding check_winners
check_winners-Stepped r m r' s at k h = elim (Bool-cases m.check_for_winners_and_loser_done) [
  | inl e ↦ reward_winners-Stepped r m r' s at k (ground (arith, e, h))
  | inr e ↦ elim (Outcome-cases (check_for_winners_and_loser m)) [
    | inr (x, f) ↦ absurd (ground (arith, e, f, h))
    | inl (n, f) ↦
        reward_winners-Stepped r n r' s at (Kept-trans k (check_for_winners_and_loser-Kept m n f))
          (ground (arith, e, f, h))
  ]
]

clear_table_first-Kept : (r m : Rules) → clear_table_first r ≡ ok m → Kept r m
unfolding clear_table_first reset_timer
clear_table_first-Kept r m h = elim (Outcome-cases (clear_table r)) [
  | inr (x, f) ↦ ground (arith, f, h)
  | inl (n, f) ↦
      let (k, _) = clear_table-Kept r n f in ground (arith, f, h, k.phase, k.prepared, k.next)
]

pub refill_phase_update-Stepped :
    (r r' : Rules)
    → IsScheduled r
    → r.game.current_phase ≡ refill_phase
    → refill_phase_update r ≡ ok r'
    → Stepped r r'
unfolding refill_phase_update refill_steps reset_timer
refill_phase_update-Stepped r r' s at h =
    switch_or (clear_table_first r >>= refill_steps) r r' s
      (λ m e.
        let (n, f, g) = >>=-eq-ok (clear_table_first r) refill_steps e in
        let k = clear_table_first-Kept r n f in
        elim (Bool-cases n.clear_table_event_done) [
          | inr x ↦ Kept-Stepped r m s (Kept-trans k (ground (arith, x, g)))
          | inl x ↦
              after_dealing-Stepped check_winners r n m s k
                (λ a b ka. check_winners-Stepped r a b s at ka) (ground (arith, x, g))
        ])
      h
