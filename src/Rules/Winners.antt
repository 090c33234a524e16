-- ===== src/Rules/Winners.antt =====
-- ClassicRules.cpp: `checkForWinnersAndLoser` and `winAndLoseEvents`.
use durak.Base.{
  ℕ, suc, ◌+◌, Bool, true, false, not, ◌||◌, ltb, ◌==◌, if◌then◌else◌, ite, List, [], ◌∷◌, ◌++◌, ℤ,
  ℤ_discrete, length, get_elem?, is_empty, Option, none, some, Outcome, ok, null_pointer,
  out_of_range, ◌>>=◌, value_or_fault,
}
use durak.Cards.{Player, set_winner}
use durak.GameState.{
  GameState, get_player_data_by_seat_position, get_seat_position_by_player_data, update_player,
}
use durak.Rules.{Rules, reward_player, publish, reset_timer, no_seat}

-- The seat of the first player that has not won.
unfoldable pub find_loser : GameState → List Player → Outcome (Option ℤ)
find_loser g [] = ok none
find_loser g (p ∷ ps) =
    if p.winner
    then find_loser g ps
    else (get_seat_position_by_player_data g p >>= λ seat. ok (some seat))

-- `realWinnersSeatPosition.size() == players.size() - 1`, in `size_t`.
abbrev pub all_but_one : ℕ → ℕ → Bool
all_but_one winners players = suc winners == players

unfoldable pub name_loser : Rules → Outcome Rules
unfolding find_loser
name_loser r =
    if all_but_one (length r.real_winners) (length r.game.players)
    then (find_loser r.game r.game.players >>= λ loser. elim loser [
      | none ↦ ok r
      | some seat ↦ ok (record r { loser_seat_position = seat })
    ])
    else ok r

-- The round of the loop for the candidate on a seat.
unfoldable pub award : ℤ → Rules → Outcome Rules
unfolding name_loser
award seat r = value_or_fault (get_player_data_by_seat_position r.game seat) null_pointer >>= λ p.
    if is_empty p.hand
    then name_loser (record r {
      game = update_player p.id (set_winner true) r.game;
      real_winners = r.real_winners ++ (seat ∷ []);
    })
    else ok r

unfoldable pub award_all : List ℤ → Rules → Outcome Rules
award_all [] r = ok r
award_all (seat ∷ seats) r = award seat r >>= award_all seats

unfoldable pub check_for_winners_and_loser : Rules → Outcome Rules
unfolding award_all reset_timer
check_for_winners_and_loser r =
    let skip =
      not (ite (ℤ_discrete r.loser_seat_position no_seat) true false)
      || is_empty r.win_candidates
      || not (is_empty r.game.deck) in
    if skip
    then ok r
    else (award_all r.win_candidates r >>= λ r'.
        ok (
          reset_timer (record r' { win_candidates = []; check_for_winners_and_loser_done = true })))

-- Whether all rewards are out, and the state.
unfoldable pub win_and_lose_events : ℕ → Rules → Outcome (Bool × Rules)
unfolding reset_timer
win_and_lose_events delay r =
    if ltb r.timer delay
    then ok (false, r)
    else if r.count_winners_awarded == length r.real_winners
    then ok (true, r)
    else (value_or_fault (get_elem? r.real_winners r.count_winners_awarded) out_of_range >>= λ seat.
        ok (
          false,
          reset_timer (record (publish (reward_player seat) r) {
            count_winners_awarded = r.count_winners_awarded + 1;
          }),
        ))
