-- ===== src/Rules/Roles/Search.antt =====
-- `determineNextTurnRoles` ends, and finds two different players that are still in the game.
use durak.Base.{
  ℕ, ℕ_discrete, zero, suc, ◌+◌, ◌-◌, ◌%◌, ◌≤◌, ◌<◌, ◌≡◌, ◌≢◌, refl, Bool, true, false,
  if◌then◌else◌, pos, length, ok, some, arith, Bool-cases, inl, inr, ◌∙◌, sym, ap, leb,
}
use native.Mathlib.Nat.{add-zero, add-mod_left, mod-add-mod, mod-lt, mod-eq_of_lt, mod-eq-sub-mod}
use durak.Cards.{Player}
use durak.GameState.{GameState, get_player_data_by_seat_position}
use durak.Rules.{Rules, set_roles, seat_after}
use durak.Rules.Roles.{is_winner_at, skip_winners, rounds, determine_next_turn_roles}

-- Every seat of the game has a player.
abbrev pub AllSeated : GameState → Type 0
AllSeated g =
    (i : ℕ)
    → i < length g.players
    → (p : Player) × (get_player_data_by_seat_position g (pos i) ≡ some p)

abbrev pub StillIn : GameState → ℕ → Type 0
StillIn g i = is_winner_at g (pos i) ≡ ok false

-- The search from seat `i` stops `e` seats on.
pub record Found (g : GameState) (i limit j e : ℕ) (fuel : ℕ) : Type 0 where
  pub result : skip_winners fuel (pos i) g ≡ ok (pos j)
  pub still_in : StillIn g j
  pub near : e ≤ limit
  pub place : j ≡ (i + e) % length g.players

winner_or_not :
    (g : GameState) (i : ℕ)
    → AllSeated g
    → i < length g.players
    → (b : Bool) × (is_winner_at g (pos i) ≡ ok b)
unfolding is_winner_at
winner_or_not g i seated lt = let (p, e) = seated i lt in (p.winner, ground (arith, e))

step_on : (i e n : ℕ) → ((i + 1) % n + e) % n ≡ (i + suc e) % n
step_on i e n = mod-add-mod (i + 1) n e ∙ ap (λ (t : ℕ). t % n) (omega arith)

stay : (i n : ℕ) → i < n → (i + 0) % n ≡ i
stay i n h = rw add-zero (mod-eq_of_lt h)

Found-here :
    (fuel i limit : ℕ) (g : GameState)
    → i < length g.players
    → StillIn g i
    → Found g i limit i 0 (suc fuel)
unfolding skip_winners
Found-here fuel i limit g lt s = record {
  result = rw (s, skip_winners);
  still_in = s;
  near = omega arith;
  place = sym (stay i (length g.players) lt);
}

-- From any seat the search reaches a player at distance `d` that is still in, or one before.
skip_winners-Found :
    (fuel i d : ℕ) (g : GameState)
    → AllSeated g
    → i < length g.players
    → StillIn g ((i + d) % length g.players)
    → d < fuel
    → (j : ℕ) × (e : ℕ) × Found g i d j e fuel
unfolding skip_winners
skip_winners-Found zero i d g seated lt s h = absurd (omega arith)
skip_winners-Found (suc fuel) i zero g seated lt s h =
    (i, 0, Found-here fuel i 0 g lt (rw (stay i (length g.players) lt) at s))
skip_winners-Found (suc fuel) i (suc d) g seated lt s h =
    let (b, w) = winner_or_not g i seated lt in
    elim (Bool-cases b) [
      | inr out ↦ (i, 0, Found-here fuel i (suc d) g lt (w ∙ ap ok out))
      | inl won ↦
          let n = length g.players in
          let (j, e, f) =
            skip_winners-Found fuel ((i + 1) % n) d g seated (mod-lt (i + 1) (omega arith))
              (rw (step_on i d n) s) (omega arith) in
          (
            j,
            suc e,
            record {
              result = rw (w ∙ ap ok won, skip_winners) f.result;
              still_in = f.still_in;
              near = omega (arith, f.near);
              place = f.place ∙ step_on i e n;
            },
          )
    ]

-- The distance from one seat to another, going up and around.
distance : ℕ → ℕ → ℕ → ℕ
distance i k n = if leb i k then k - i else n + k - i

up_to : (i k : ℕ) → leb i k ≡ true → i + (k - i) ≡ k
up_to i k le = ground arith

around : (i k n : ℕ) → i < n → leb i k ≡ false → i + (n + k - i) ≡ n + k
around i k n hi gt = ground arith

distance_lem : (i k n : ℕ) → i < n → k < n → (distance i k n < n) × ((i + distance i k n) % n ≡ k)
unfolding distance
distance_lem i k n hi hk = elim (Bool-cases (leb i k)) [
  | inl le ↦ rw le (ground (arith, le), rw (up_to i k le) (mod-eq_of_lt hk))
  | inr gt ↦
      rw gt (ground (arith, gt), rw (around i k n hi gt) (add-mod_left n k ∙ mod-eq_of_lt hk))
]

-- Some seats on, but less than a round, is another seat.
not_around : (j x n : ℕ) → j < n → 0 < x → x < n → (j + x) % n ≢ j
not_around j x n hj pos_x hx e = grind (arith, mod-eq_of_lt, mod-eq-sub-mod)

-- Less than a round from the seat after `j`, one never comes back to `j`, unless at the end.
not_back :
    (j k e d n : ℕ)
    → j < n
    → k ≢ j
    → d < n
    → e ≤ d
    → ((j + 1) % n + d) % n ≡ k
    → ((j + 1) % n + e) % n ≢ j
not_back j k e d n hj ne short near goal back = elim (ℕ_discrete e d) [
  | yes same ↦ ne (sym goal ∙ ap (λ (t : ℕ). ((j + 1) % n + t) % n) (sym same) ∙ back)
  | no other ↦
      not_around j (suc e) n hj (omega arith) (ground (arith, other)) (sym (step_on j e n) ∙ back)
]

-- A search for somebody else than `j`, from the seat after it, finds another seat.
next_to :
    (j k : ℕ) (g : GameState)
    → AllSeated g
    → j < length g.players
    → k < length g.players
    → k ≢ j
    → StillIn g k
    → (m : ℕ) × (skip_winners (rounds g) (seat_after (pos j) (length g.players)) g ≡ ok (pos m))
      × StillIn g m
      × (m < length g.players)
      × (m ≢ j)
next_to j k g seated hj hk ne s =
    let n = length g.players in
    let from = (j + 1) % n in
    let at_from : from < n = mod-lt (j + 1) (omega arith) in
    let (short, goal) = distance_lem from k n at_from hk in
    let (m, e, f) =
      skip_winners-Found (rounds g) from (distance from k n) g seated at_from (rw goal s)
        (omega (arith, short)) in
    (
      m,
      f.result,
      f.still_in,
      rw f.place (mod-lt (from + e) (omega arith)),
      λ same. not_back j k e (distance from k n) n hj ne short f.near goal (sym f.place ∙ same),
    )

-- What a search for the next roles from seat `i` on comes to.
pub record TwoRoles (r : Rules) (after : Rules) : Type 0 where
  pub attacker : ℕ
  pub defender : ℕ
  pub roles_set : after ≡ record (set_roles (pos attacker) (pos defender) r) { defended = false }
  pub different : attacker ≢ defender
  pub attacker_in : StillIn r.game attacker
  pub defender_in : StillIn r.game defender

start_of : Bool → ℕ → ℕ → ℕ
start_of defended d n = if defended then d else (d + 1) % n

-- With two players left, one of them is not `j`.
other_than :
    (j k1 k2 : ℕ) (g : GameState)
    → k1 ≢ k2
    → k1 < length g.players
    → k2 < length g.players
    → StillIn g k1
    → StillIn g k2
    → (k : ℕ) × (k ≢ j) × (k < length g.players) × StillIn g k
other_than j k1 k2 g ne h1 h2 s1 s2 = elim (ℕ_discrete k1 j) [
  | yes same ↦ (k2, λ e. ne (same ∙ sym e), h2, s2)
  | no other ↦ (k1, other, h1, s1)
]

start_of-lt : (b : Bool) (d n : ℕ) → d < n → start_of b d n < n
unfolding start_of
start_of-lt true d n h = h
start_of-lt false d n h = mod-lt (d + 1) (omega arith)

-- The search in one step, from where both of its parts arrive.
determine_next_turn_roles-from :
    (r : Rules) (d j m : ℕ)
    → r.game.current_defender_seat_position ≡ pos d
    → skip_winners (rounds r.game) (pos (start_of r.defended d (length r.game.players))) r.game
      ≡ ok (pos j)
    → skip_winners (rounds r.game) (seat_after (pos j) (length r.game.players)) r.game ≡ ok (pos m)
    → m ≢ j
    → determine_next_turn_roles r ≡ ok (record (set_roles (pos j) (pos m) r) { defended = false })
unfolding determine_next_turn_roles start_of set_roles
determine_next_turn_roles-from r d j m at_d first second other = elim (Bool-cases r.defended) [
  | inl held ↦ rw (at_d, held) (ground (arith, first, second, other, held, at_d))
  | inr beaten ↦ rw (at_d, beaten) (ground (arith, first, second, other, beaten, at_d))
]

-- In a game where every seat has a player, the defender's seat is one of the game's and two
-- different players are not winners yet, the search for the next roles ends: it sets an attacker
-- and a defender that are different and both not winners, and clears the mark that the defence
-- held.
pub determine_next_turn_roles_finds_two :
    (r : Rules) (d k1 k2 : ℕ)
    → AllSeated r.game
    → r.game.current_defender_seat_position ≡ pos d
    → d < length r.game.players
    → k1 ≢ k2
    → k1 < length r.game.players
    → k2 < length r.game.players
    → StillIn r.game k1
    → StillIn r.game k2
    → (after : Rules) × (determine_next_turn_roles r ≡ ok after) × TwoRoles r after
determine_next_turn_roles_finds_two r d k1 k2 seated at_d hd ne h1 h2 s1 s2 =
    let n = length r.game.players in
    let i = start_of r.defended d n in
    let hi : i < n = start_of-lt r.defended d n hd in
    let (short, goal) = distance_lem i k1 n hi h1 in
    let (j, e, f) =
      skip_winners-Found (rounds r.game) i (distance i k1 n) r.game seated hi (rw goal s1)
        (omega (arith, short)) in
    let hj : j < n = rw f.place (mod-lt (i + e) (omega arith)) in
    let (k, k_other, hk, sk) = other_than j k1 k2 r.game ne h1 h2 s1 s2 in
    let (m, found, m_in, hm, m_other) = next_to j k r.game seated hj hk k_other sk in
    let step = determine_next_turn_roles-from r d j m at_d f.result found m_other in
    (
      record (set_roles (pos j) (pos m) r) { defended = false },
      step,
      record {
        attacker = j;
        defender = m;
        roles_set = refl;
        different = λ same. m_other (sym same);
        attacker_in = f.still_in;
        defender_in = m_in;
      },
    )
