-- ===== src/GameLogic/Clearing.antt =====
-- What `moveTableCardsToBoneyard` and `moveTableCardsToHand` clear: tables as lists of positions.
-- The loops run while the index is below the number of attacking cards, which falls with every
-- position that they clear.
pub mod Loop
pub mod Halves
use durak.Base.{
  ℕ, zero, suc, ◌+◌, ◌-◌, ◌/◌, ◌≤◌, ◌<◌, ◌≡◌, ◌≢◌, refl, ◌==◌, List, [], ◌∷◌, ◌++◌, some, ℤ, pos,
  arith, Option-cases, Bool-cases, inl, inr, length, replicate, get_elem?, set, length-append, drop,
  dec_lt, Outcome, ok, ◌∙◌, ap, All,
}
use native.Mathlib.Nat.{add-zero}
use durak.Cards.{Card, Player, add_card}
use durak.GameState.{
  GameState, attacker_rows, attacker_cards_on_table_size, cards_on_table_position_size, remove_at,
  remove_card_from_table_position, add_card_to_boneyard, find_player, modify_player, update_player,
  add_card_to_player, get_player_data_by_seat_position,
}
use durak.GameState.Totals.{find_player-id}
use durak.Seats.{get_player_id_by_seat_position}
use durak.GameLogic.{drain, drain_rows, move_table_cards_to_boneyard, move_table_cards_to_hand}

abbrev IsFilled : List Card → Type 0
IsFilled r = r ≢ []

-- The table of a game in play: some positions with cards, and empty ones behind.
abbrev empties : ℕ → List (List Card)
empties n = replicate n []

set-front :
    (done : List (List Card)) (r new : List Card) (rest : List (List Card))
    → set (done ++ (r ∷ rest)) (length done) new ≡ done ++ (new ∷ rest)
set-front [] r new rest = refl
set-front (d ∷ ds) r new rest = ap (◌∷◌ d) (set-front ds r new rest)

get-front :
    (done : List (List Card)) (r : List Card) (rest : List (List Card))
    → get_elem? (done ++ (r ∷ rest)) (length done) ≡ some r
get-front [] r rest = refl
get-front (d ∷ ds) r rest = get-front ds r rest

attacker_rows-append :
    (xs ys : List (List Card)) → attacker_rows (xs ++ ys) ≡ attacker_rows xs + attacker_rows ys
unfolding attacker_rows
attacker_rows-append [] ys = omega arith
attacker_rows-append (x ∷ xs) ys = omega (arith, attacker_rows-append xs ys)

attacker_rows-empties : (n : ℕ) → attacker_rows (empties n) ≡ 0
unfolding attacker_rows
attacker_rows-empties zero = refl
attacker_rows-empties (suc n) = ground (arith, attacker_rows-empties n)

attacker_rows-filled : (rs : List (List Card)) → All IsFilled rs → attacker_rows rs ≡ length rs
unfolding attacker_rows
attacker_rows-filled [] h = refl
attacker_rows-filled ([] ∷ rs) h = absurd (h.0 refl)
attacker_rows-filled ((c ∷ cs) ∷ rs) h = ground (arith, attacker_rows-filled rs h.1)

get-empties :
    (i : ℕ) (r : List Card) (rest : List (List Card))
    → get_elem? (empties i ++ (r ∷ rest)) i ≡ some r
get-empties zero r rest = refl
get-empties (suc i) r rest = get-empties i r rest

attackers :
    (i : ℕ) (rs : List (List Card)) (k : ℕ)
    → All IsFilled rs
    → attacker_rows (empties i ++ (rs ++ empties k)) ≡ length rs
attackers i rs k filled = omega (
  arith,
  attacker_rows-append (empties i) (rs ++ empties k),
  attacker_rows-append rs (empties k),
  attacker_rows-empties i,
  attacker_rows-empties k,
  attacker_rows-filled rs filled,
)

zero_left : (n i : ℕ) → n ≤ i → (n - i + 1) / 2 ≡ 0
zero_left n i h = omega arith

one_more : (n i : ℕ) → i < suc n → (suc n - i + 1) / 2 ≡ suc ((n - (i + 1) + 1) / 2)
one_more n i h = omega arith

one_further : (i n : ℕ) → i + suc ((n - (i + 1) + 1) / 2) ≡ i + 1 + (n - (i + 1) + 1) / 2
one_further i n = omega arith

-- The last card of a list is the one that `remove_at` takes at its last index.
remove_at-last? :
    (c : Card) (cs : List Card)
    → (d : Card) × (rest : List Card) × (remove_at (length cs) (c ∷ cs) ≡ some (d, rest))
      × (length rest ≡ length cs)
unfolding remove_at
remove_at-last? c [] = (c, [], refl, refl)
remove_at-last? c (x ∷ xs) =
    let (d, rest, e, l) = remove_at-last? x xs in (d, c ∷ rest, ground (arith, e), ap suc l)

empties-snoc :
    (n : ℕ) (rest : List (List Card)) → empties n ++ ([] ∷ rest) ≡ empties (n + 1) ++ rest
empties-snoc zero rest = ground arith
empties-snoc (suc n) rest = ground (arith, empties-snoc n rest)

length-empties : (n : ℕ) → length (empties n) ≡ n
length-empties zero = refl
length-empties (suc n) = ap suc (length-empties n)

take_last_of_row :
    (done : List (List Card)) (n : ℕ) (c : Card) (cs : List Card) (d : Card) (left : List Card)
    (rest : List (List Card)) (g : GameState)
    → g.table ≡ done ++ ((c ∷ cs) ∷ rest)
    → remove_at n (c ∷ cs) ≡ some (d, left)
    → remove_card_from_table_position (pos (length done)) (pos n) g
      ≡ ok (d, record g { table = set g.table (length done) left })
unfolding remove_card_from_table_position
take_last_of_row done n c cs d left rest g e f = ground (arith, e, f, get-front done (c ∷ cs) rest)
