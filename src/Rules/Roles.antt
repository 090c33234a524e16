-- ===== src/Rules/Roles.antt =====
-- ClassicRules.cpp: `determineNextTurnRoles`, the search for the next attacker and defender.
pub mod Search
use durak.Base.{
  ℕ, zero, suc, ◌+◌, ◌-◌, ◌%◌, ◌≡◌, Bool, true, false, if◌then◌else◌, ite, ℤ, pos, ℤ_discrete,
  length, Outcome, ok, fault, runtime_error, null_pointer, out_of_fuel, ◌>>=◌, value_or_fault,
}
use durak.GameState.{GameState, get_player_data_by_seat_position}
use durak.Rules.{Rules, set_roles, seat_after}

unfoldable pub is_winner_at : GameState → ℤ → Outcome Bool
is_winner_at g seat =
    value_or_fault (get_player_data_by_seat_position g seat) null_pointer >>= λ p. ok p.winner

-- `if` a winner sits there, `do` go on `while` a winner sits there: on while a winner sits there.
unfoldable pub skip_winners : ℕ → ℤ → GameState → Outcome ℤ
skip_winners zero seat g = fault out_of_fuel
skip_winners (suc fuel) seat g = is_winner_at g seat >>= λ winner. elim winner [
  | false ↦ ok seat
  | true ↦ skip_winners fuel (seat_after seat (length g.players)) g
]

-- A round over all seats is enough where anybody is left in the game.
abbrev pub rounds : GameState → ℕ
rounds g = suc (length g.players)

unfoldable pub determine_next_turn_roles : Rules → Outcome Rules
unfolding set_roles
determine_next_turn_roles r =
    let g = r.game in
    let defender = g.current_defender_seat_position in
    let start = if r.defended then defender else seat_after defender (length g.players) in
    skip_winners (rounds g) start g >>= λ new_attacker.
    skip_winners (rounds g) (seat_after new_attacker (length g.players)) g >>= λ new_defender.
    ite (ℤ_discrete new_attacker new_defender) (fault runtime_error)
      (ok (record (set_roles new_attacker new_defender r) { defended = false }))
