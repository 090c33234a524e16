-- ===== src/Rules/Dealing.antt =====
-- ClassicRules.cpp: `dealCards` and `clearTable`.
use durak.Base.{
  ℕ, Bool, true, false, not, ◌||◌, ltb, leb, if◌then◌else◌, ite, List, [], ◌∷◌, ℤ, ℤ_discrete,
  length, is_empty, Outcome, ok, fault, null_pointer, bad_optional, ◌>>=◌, value_or_fault,
}
use durak.Cards.{Player}
use durak.GameState.{
  GameState, Phase, starting_game, refill_phase, no_phase, waiting_for_players, main_player_move,
  every_player_move, game_over, get_player_data_by_seat_position, total_cards_in_hands,
}
use durak.GameLogic.{deal_one_card, move_table_cards_to_boneyard, move_table_cards_to_hand}
use durak.Rules.{
  Rules, deal_card_event, clear_table_event, publish, with_game, reset_timer, seat_after, no_seat,
  boneyard_id,
}

unfoldable pub need_to_deal : ℕ → List Player → Bool
need_to_deal most [] = false
need_to_deal most (p ∷ ps) = ltb (length p.hand) most || need_to_deal most ps

-- The last attacker of the order with too few cards; `seat` if there is none.
unfoldable pub attacker_to_deal : GameState → ℤ → List ℤ → Outcome ℤ
attacker_to_deal g seat [] = ok seat
attacker_to_deal g seat (a ∷ rest) =
    value_or_fault (get_player_data_by_seat_position g a) null_pointer >>= λ p.
    attacker_to_deal g (if leb total_cards_in_hands (length p.hand) then seat else a) rest

unfoldable pub refill_seat : Rules → Outcome ℤ
unfolding attacker_to_deal
refill_seat r = attacker_to_deal r.game no_seat r.attackers_order >>= λ seat.
    ok (ite (ℤ_discrete seat no_seat) r.game.current_defender_seat_position seat)

-- A card for the seat, its event, and the seat to go on with.
unfoldable pub deal_to : ℤ → ℤ → Rules → Outcome Rules
unfolding reset_timer
deal_to seat next r = deal_one_card seat r.game >>= λ d. ok (
    reset_timer (
      publish (deal_card_event seat d.0) (record r { game = d.1; deal_card_seat_position = next })))

unfoldable pub deal_in_phase : Phase → Rules → Outcome Rules
unfolding deal_to refill_seat
deal_in_phase starting_game r =
    let seat = r.deal_card_seat_position in deal_to seat (seat_after seat (length r.game.players)) r
deal_in_phase refill_phase r = refill_seat r >>= λ seat. deal_to seat seat r
deal_in_phase no_phase r = fault bad_optional
deal_in_phase waiting_for_players r = fault bad_optional
deal_in_phase main_player_move r = fault bad_optional
deal_in_phase every_player_move r = fault bad_optional
deal_in_phase game_over r = fault bad_optional

-- Whether the dealing is done, and the state.
unfoldable pub deal_cards : ℕ → Rules → Outcome (Bool × Rules)
unfolding need_to_deal deal_in_phase
deal_cards delay r =
    if ltb r.timer delay
    then ok (false, r)
    else if is_empty r.game.deck
    then ok (true, r)
    else if not (need_to_deal r.max_cards_in_players_hands_at_start r.game.players)
    then ok (true, r)
    else (deal_in_phase r.game.current_phase r >>= λ r'. ok (false, r'))

unfoldable pub clear_table : Rules → Outcome Rules
clear_table r =
    if r.defended
    then (move_table_cards_to_boneyard r.game >>= λ g.
        ok (publish (clear_table_event boneyard_id) (with_game g r)))
    else (let seat = r.game.current_defender_seat_position in
        move_table_cards_to_hand seat r.game >>= λ g.
        ok (publish (clear_table_event seat) (with_game g r)))
