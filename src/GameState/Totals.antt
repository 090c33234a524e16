-- ===== src/GameState/Totals.antt =====
-- The cards of a game wherever they lie, counted by any test: what each operation adds or takes.
use durak.Base.{
  ℕ, zero, suc, ◌+◌, ◌≡◌, refl, Bool, ◌==◌, if◌then◌else◌, List, [], ◌∷◌, ◌++◌, none, some, ℤ, pos,
  negsuc, arith, Option-cases, Bool-cases, inl, inr, length, get_elem?, set, ok,
}
use durak.Seats.{get_player_id_by_seat_position}
use durak.Cards.{Card, Player}
use durak.Cards.Hands.{tally, tally-append}
use durak.GameState.{
  GameState, find_player, modify_player, update_player, take_back, remove_at, insert_at,
  add_card_to_table, remove_card_from_table_position, add_card_to_boneyard,
  get_player_data_by_seat_position,
}

abbrev pub tally_rows : (Card → Bool) → List (List Card) → ℕ
tally_rows t [] = 0
tally_rows t (r ∷ rs) = tally t r + tally_rows t rs

abbrev pub tally_hands : (Card → Bool) → List Player → ℕ
tally_hands t [] = 0
tally_hands t (p ∷ ps) = tally t p.hand + tally_hands t ps

-- All cards of the game that satisfy a test.
abbrev pub total : (Card → Bool) → GameState → ℕ
total t g = tally t g.deck + tally_rows t g.table + tally t g.boneyard + tally_hands t g.players

take_back-none : (cs : List Card) → take_back cs ≡ none → cs ≡ []
unfolding take_back
take_back-none [] h = refl
take_back-none (c ∷ cs) h = absurd (ground arith)

pub take_back-some :
    (t : Card → Bool) (cs : List Card) (c : Card) (rest : List Card)
    → take_back cs ≡ some (c, rest)
    → (cs ≡ rest ++ (c ∷ [])) × (tally t cs ≡ (if t c then 1 else 0) + tally t rest)
unfolding take_back
take_back-some t [] c rest h = cc
take_back-some t (x ∷ xs) c rest h = elim (Option-cases (take_back xs)) [
  | inl e ↦ ground (arith, h, e, take_back-none xs e)
  | inr ((d, ds), e) ↦ ground (arith, h, e, take_back-some t xs d ds e)
]

pub remove_at-some :
    (t : Card → Bool) (i : ℕ) (cs : List Card) (c : Card) (rest : List Card)
    → remove_at i cs ≡ some (c, rest)
    → (tally t cs ≡ (if t c then 1 else 0) + tally t rest) × (length cs ≡ suc (length rest))
unfolding remove_at
remove_at-some t i [] c rest h = cc
remove_at-some t zero (x ∷ xs) c rest h = ground arith
remove_at-some t (suc i) (x ∷ xs) c rest h = elim (Option-cases (remove_at i xs)) [
  | inl e ↦ ground (arith, h, e)
  | inr ((d, ds), e) ↦ ground (arith, h, e, remove_at-some t i xs d ds e)
]

pub insert_at-some :
    (t : Card → Bool) (i : ℕ) (c : Card) (cs r : List Card)
    → insert_at i c cs ≡ some r
    → tally t r ≡ (if t c then 1 else 0) + tally t cs
unfolding insert_at
insert_at-some t zero c cs r h = ground arith
insert_at-some t (suc i) c [] r h = cc
insert_at-some t (suc i) c (d ∷ ds) r h = elim (Option-cases (insert_at i c ds)) [
  | inl e ↦ ground (arith, h, e)
  | inr (u, e) ↦ ground (arith, h, e, insert_at-some t i c ds u e)
]

-- Replacing a row changes the count by the difference of the rows.
pub tally_rows-set :
    (t : Card → Bool) (i : ℕ) (rows : List (List Card)) (old new : List Card)
    → get_elem? rows i ≡ some old
    → tally_rows t (set rows i new) + tally t old ≡ tally_rows t rows + tally t new
tally_rows-set t i [] old new h = cc
tally_rows-set t zero (r ∷ rs) old new h = ground arith
tally_rows-set t (suc i) (r ∷ rs) old new h = ground (arith, tally_rows-set t i rs old new)

pub tally_hands-modify :
    (t : Card → Bool) (i : ℕ) (f : Player → Player) (ps : List Player) (p : Player)
    → find_player i ps ≡ some p
    → tally_hands t (modify_player i f ps) + tally t p.hand ≡ tally_hands t ps + tally t (f p).hand
unfolding find_player modify_player
tally_hands-modify t i f [] p h = cc
tally_hands-modify t i f (q ∷ ps) p h = elim (Bool-cases (i == q.id)) [
  | inl e ↦ ground (arith, e, h)
  | inr e ↦ ground (arith, e, h, tally_hands-modify t i f ps p)
]

pub find_player-id : (i : ℕ) (ps : List Player) (p : Player) → find_player i ps ≡ some p → p.id ≡ i
unfolding find_player
find_player-id i [] p h = cc
find_player-id i (q ∷ ps) p h = ground (arith, find_player-id i ps p)

-- A player found by the seat is the one that its id finds.
pub find_player_by_seat :
    (g : GameState) (seat : ℤ) (p : Player)
    → get_player_data_by_seat_position g seat ≡ some p
    → find_player p.id g.players ≡ some p
unfolding get_player_data_by_seat_position
find_player_by_seat g seat p h = elim (Option-cases (get_player_id_by_seat_position g.seats seat)) [
  | inl e ↦ absurd (ground (arith, e, h))
  | inr (i, e) ↦
      let found : find_player i g.players ≡ some p = ground (arith, e, h) in
      ground (arith, found, find_player-id i g.players p found)
]

-- A card put on the table adds one card to the game, and one taken off takes one away.
pub total-add_card_to_table :
    (t : Card → Bool) (i : ℤ) (c : Card) (g g' : GameState)
    → add_card_to_table i c g ≡ ok g'
    → total t g' ≡ total t g + (if t c then 1 else 0)
unfolding add_card_to_table
total-add_card_to_table t (negsuc i) c g g' h = cc
total-add_card_to_table t (pos i) c g g' h = elim (Option-cases (get_elem? g.table i)) [
  | inl e ↦ absurd (ground (arith, e, h))
  | inr (r, e) ↦
      ground
        (arith, e, h, tally_rows-set t i g.table r (r ++ (c ∷ [])) e, tally-append t r (c ∷ []))
]

pub total-remove_card_from_table_position :
    (t : Card → Bool) (i j : ℤ) (c : Card) (g g' : GameState)
    → remove_card_from_table_position i j g ≡ ok (c, g')
    → total t g ≡ total t g' + (if t c then 1 else 0)
unfolding remove_card_from_table_position
total-remove_card_from_table_position t (negsuc i) j c g g' h = cc
total-remove_card_from_table_position t (pos i) (negsuc j) c g g' h = absurd (ground (arith, h))
total-remove_card_from_table_position t (pos i) (pos j) c g g' h =
    elim (Option-cases (get_elem? g.table i)) [
      | inl e ↦ absurd (ground (arith, e, h))
      | inr (r, e) ↦ elim (Option-cases (remove_at j r)) [
        | inl f ↦ absurd (ground (arith, e, f, h))
        | inr ((d, rest), f) ↦
            ground
              (arith, e, f, h, remove_at-some t j r d rest f, tally_rows-set t i g.table r rest e)
      ]
    ]

pub total-add_card_to_boneyard :
    (t : Card → Bool) (c : Card) (g : GameState)
    → total t (add_card_to_boneyard c g) ≡ total t g + (if t c then 1 else 0)
unfolding add_card_to_boneyard
total-add_card_to_boneyard t c g = omega (arith, tally-append t g.boneyard (c ∷ []))

pub total-update_player :
    (t : Card → Bool) (i : ℕ) (f : Player → Player) (g : GameState) (p : Player)
    → find_player i g.players ≡ some p
    → total t (update_player i f g) + tally t p.hand ≡ total t g + tally t (f p).hand
unfolding update_player
total-update_player t i f g p h = omega (arith, tally_hands-modify t i f g.players p h)
