-- ===== src/Rules/Schedule.antt =====
-- What the steps of the phases do to the schedule: the phase, whether a change of it is prepared, and
-- the phase prepared.
use durak.Base.{
  ℕ, ◌≡◌, refl, ◌∙◌, ap, Bool, false, List, [], ◌∷◌, none, some, ℤ, arith, Bool-cases, inl, inr,
  Outcome-cases, ok, if◌then◌else◌, >>=-eq-ok,
}
use durak.Cards.{Player, Card}
use durak.GameState.{
  Phase, update_player, starting_game, refill_phase, no_phase, waiting_for_players,
  main_player_move, every_player_move, game_over,
}
use durak.GameLogic.{
  deal_one_card, identify_trump_card, identify_first_move, move_table_cards_to_boneyard,
  move_table_cards_to_hand,
}
use durak.GameLogic.Phase.{
  deal_one_card-phase, identify_trump_card-phase, identify_first_move-phase,
  move_table_cards_to_boneyard_keeps, move_table_cards_to_hand_keeps,
}
use durak.Rules.{Rules, reset_timer, set_roles}
use durak.Rules.Roles.{determine_next_turn_roles}
use durak.Rules.Dealing.{deal_to, deal_in_phase, deal_cards, clear_table, refill_seat}
use durak.Rules.Winners.{
  name_loser, award, award_all, check_for_winners_and_loser, win_and_lose_events,
}
use durak.Rules.Turns.{set_pass_action, withdraw_pass, reset_turn, show_trump_card, find_first_move}

-- Two states with the same schedule.
pub record Kept (r r' : Rules) : Type 0 where
  pub phase : r'.game.current_phase ≡ r.game.current_phase
  pub prepared : r'.prepare_phase_change_done ≡ r.prepare_phase_change_done
  pub next : r'.new_phase ≡ r.new_phase

pub Kept-refl : (r : Rules) → Kept r r
Kept-refl r = record { phase = refl; prepared = refl; next = refl }

pub Kept-trans : {r s t : Rules} → Kept r s → Kept s t → Kept r t
Kept-trans a b = record {
  phase = b.phase ∙ a.phase;
  prepared = b.prepared ∙ a.prepared;
  next = b.next ∙ a.next;
}

deal_to-Kept : (seat next : ℤ) (r r' : Rules) → deal_to seat next r ≡ ok r' → Kept r r'
unfolding deal_to reset_timer
deal_to-Kept seat next r r' h =
    let ((i, g), e, h') = >>=-eq-ok (deal_one_card seat r.game) _ h in
    let same = deal_one_card-phase seat r.game g i e in ground (arith, h', same)

deal_in_phase-Kept : (phase : Phase) (r r' : Rules) → deal_in_phase phase r ≡ ok r' → Kept r r'
unfolding deal_in_phase
deal_in_phase-Kept starting_game r r' h = deal_to-Kept _ _ r r' h
deal_in_phase-Kept refill_phase r r' h =
    let (seat, e, h') = >>=-eq-ok (refill_seat r) _ h in deal_to-Kept seat seat r r' h'
deal_in_phase-Kept no_phase r r' h = cc
deal_in_phase-Kept waiting_for_players r r' h = cc
deal_in_phase-Kept main_player_move r r' h = cc
deal_in_phase-Kept every_player_move r r' h = cc
deal_in_phase-Kept game_over r r' h = cc

pub deal_cards-Kept :
    (delay : ℕ) (r r' : Rules) (b : Bool) → deal_cards delay r ≡ ok (b, r') → Kept r r'
unfolding deal_cards
deal_cards-Kept delay r r' b h =
    ground (arith, h, Kept-refl r, deal_in_phase-Kept r.game.current_phase r r')

-- The table is cleared without a look at the deck.
pub record Undealt (r r' : Rules) : Type 0 where
  pub deck : r'.game.deck ≡ r.game.deck
  pub done : r'.deal_cards_done ≡ r.deal_cards_done

pub clear_table-Kept : (r r' : Rules) → clear_table r ≡ ok r' → Kept r r' × Undealt r r'
unfolding clear_table
clear_table-Kept r r' h =
    let seat = r.game.current_defender_seat_position in
    elim (Bool-cases r.defended) [
      | inl d ↦ elim (Outcome-cases (move_table_cards_to_boneyard r.game)) [
        | inl (g, e) ↦
            let both = move_table_cards_to_boneyard_keeps r.game g e in
            ground (
              arith,
              d,
              h,
              e,
              ap (λ (x : Phase × List Card). x.0) both,
              ap (λ (x : Phase × List Card). x.1) both,
            )
        | inr (x, e) ↦ ground (arith, d, h, e)
      ]
      | inr d ↦ elim (Outcome-cases (move_table_cards_to_hand seat r.game)) [
        | inl (g, e) ↦
            let both = move_table_cards_to_hand_keeps seat r.game g e in
            ground (
              arith,
              d,
              h,
              e,
              ap (λ (x : Phase × List Card). x.0) both,
              ap (λ (x : Phase × List Card). x.1) both,
            )
        | inr (x, e) ↦ ground (arith, d, h, e)
      ]
    ]

award-Kept : (seat : ℤ) (r r' : Rules) → award seat r ≡ ok r' → Kept r r'
unfolding award name_loser update_player
award-Kept seat r r' h = ground (arith, h)

award_all-Kept : (seats : List ℤ) (r r' : Rules) → award_all seats r ≡ ok r' → Kept r r'
unfolding award_all
award_all-Kept [] r r' h = ground (arith, h)
award_all-Kept (s ∷ seats) r r' h =
    let (m, e, h') = >>=-eq-ok (award s r) _ h in
    Kept-trans (award-Kept s r m e) (award_all-Kept seats m r' h')

pub check_for_winners_and_loser-Kept :
    (r r' : Rules) → check_for_winners_and_loser r ≡ ok r' → Kept r r'
unfolding check_for_winners_and_loser reset_timer
check_for_winners_and_loser-Kept r r' h = elim (Outcome-cases (award_all r.win_candidates r)) [
  | inl (m, e) ↦
      let k = award_all-Kept r.win_candidates r m e in
      ground (arith, h, e, k.phase, k.prepared, k.next)
  | inr (x, e) ↦ ground (arith, h, e)
]

pub win_and_lose_events-Kept :
    (delay : ℕ) (r r' : Rules) (b : Bool) → win_and_lose_events delay r ≡ ok (b, r') → Kept r r'
unfolding win_and_lose_events reset_timer
win_and_lose_events-Kept delay r r' b h = ground (arith, h)

pub determine_next_turn_roles-Kept :
    (r r' : Rules) → determine_next_turn_roles r ≡ ok r' → Kept r r'
unfolding determine_next_turn_roles set_roles
determine_next_turn_roles-Kept r r' h = ground (arith, h)

if_passed-Kept :
    (b : Bool) (player : ℕ) (r : Rules) → Kept r (if b then set_pass_action player false r else r)
unfolding set_pass_action update_player
if_passed-Kept b player r = ground arith

pub withdraw_pass-Kept :
    (picks : Player → Bool) (ps : List Player) (r : Rules) → Kept r (withdraw_pass picks ps r)
unfolding withdraw_pass
withdraw_pass-Kept picks [] r = Kept-refl r
withdraw_pass-Kept picks (p ∷ ps) r =
    Kept-trans (if_passed-Kept (picks p) p.id r) (withdraw_pass-Kept picks ps _)

pub reset_turn-Kept : (r : Rules) → Kept r (reset_turn r)
unfolding reset_turn
reset_turn-Kept r =
    let k = withdraw_pass-Kept _ r.game.players _ in
    record { phase = k.phase; prepared = k.prepared; next = k.next }

pub show_trump_card-Kept : (r r' : Rules) → show_trump_card r ≡ ok r' → Kept r r'
unfolding show_trump_card reset_timer
show_trump_card-Kept r r' h = elim (Outcome-cases (identify_trump_card r.game)) [
  | inl ((i, g), e) ↦ ground (arith, h, e, identify_trump_card-phase r.game g i e)
  | inr (x, e) ↦ ground (arith, h, e)
]

pub find_first_move-Kept : (r r' : Rules) → find_first_move r ≡ ok r' → Kept r r'
unfolding find_first_move reset_timer set_roles
find_first_move-Kept r r' h = elim (Outcome-cases (identify_first_move r.game)) [
  | inl ((none, g), e) ↦ ground (arith, h, e, identify_first_move-phase r.game g none e)
  | inl ((some (i, c), g), e) ↦
      ground (arith, h, e, identify_first_move-phase r.game g (some (i, c)) e)
  | inr (x, e) ↦ ground (arith, h, e)
]
