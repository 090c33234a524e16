-- ===== src/GameState.antt =====
-- source/states/server/GameState.{h,cpp}: the deck, the table, the boneyard and the hands.
-- A vector is a list in the vector's order. `std::out_of_range` is a fault, and so is an access out
-- of a vector's bounds, which the program does not check (`out_of_range` as well).
pub mod Totals
use durak.Base.{
  ℕ, zero, suc, ◌+◌, ◌-◌, ◌^◌, ◌≡◌, Bool, true, false, not, ◌&&◌, ◌||◌, ltb, leb, ◌==◌,
  if◌then◌else◌, ite, List, [], ◌∷◌, ◌++◌, map, Option, none, some, is_some, ℤ, pos, negsuc,
  ℤ_discrete, ℕ_discrete, length, get_elem?, set, replicate, Outcome, ok, fault, Fault,
  out_of_range, runtime_error, assertion, null_pointer, ◌>>=◌, ◌>>◌, require, value_or_fault,
}
use durak.Seats.{Seats, get_player_id_by_seat_position, get_seat_position_by_player_id}
use durak.Cards.{Card, Suit, Rank, Player, add_card, find_lowest_rank_by_suit, lower_rank, card_ids}

pub data Phase : Type 0 where
  no_phase waiting_for_players starting_game main_player_move every_player_move : Phase
  refill_phase game_over : Phase

-- Constants::Game
abbrev pub max_table_positions : ℕ
max_table_positions = 6

abbrev pub total_cards_in_hands : ℕ
total_cards_in_hands = 6

pub record GameState : Type 0 where
  pub seats : Seats
  pub current_phase : Phase
  pub deck : List Card
  pub table : List (List Card)
  pub boneyard : List Card
  pub players : List Player
  pub current_attacker_seat_position : ℤ
  pub current_defender_seat_position : ℤ
  pub main_trump_card_id : Option ℕ
  pub trump_suit : Option Suit
  pub players_lowest_trump_card : Option (ℤ × ℕ)

-- `init`; the players and the deck are still to be filled in.
unfoldable pub new_game : Seats → GameState
new_game s = record {
  seats = s;
  current_phase = waiting_for_players;
  deck = [];
  table = replicate max_table_positions [];
  boneyard = [];
  players = [];
  current_attacker_seat_position = negsuc 0;
  current_defender_seat_position = negsuc 0;
  main_trump_card_id = none;
  trump_suit = none;
  players_lowest_trump_card = none;
}

abbrev pub set_current_phase : Phase → GameState → GameState
set_current_phase phase g = record g { current_phase = phase }

abbrev pub set_main_trump_card_id : ℕ → GameState → GameState
set_main_trump_card_id card g = record g { main_trump_card_id = some card }

abbrev pub set_trump_suit : Suit → GameState → GameState
set_trump_suit suit g = record g { trump_suit = some suit }

abbrev pub set_players_lowest_trump_card : ℤ × ℕ → GameState → GameState
set_players_lowest_trump_card found g = record g { players_lowest_trump_card = some found }

abbrev pub set_current_attacker_seat_position : ℤ → GameState → GameState
set_current_attacker_seat_position seat g = record g { current_attacker_seat_position = seat }

abbrev pub set_current_defender_seat_position : ℤ → GameState → GameState
set_current_defender_seat_position seat g = record g { current_defender_seat_position = seat }

abbrev pub phase_number : Phase → ℕ
phase_number no_phase = 0
phase_number waiting_for_players = 1
phase_number starting_game = 2
phase_number main_player_move = 3
phase_number every_player_move = 4
phase_number refill_phase = 5
phase_number game_over = 6

-- The first player with an id, and the change of the player that a pointer to it makes.
unfoldable pub find_player : ℕ → List Player → Option Player
find_player i [] = none
find_player i (p ∷ ps) = if i == p.id then some p else find_player i ps

unfoldable pub modify_player : ℕ → (Player → Player) → List Player → List Player
modify_player i f [] = []
modify_player i f (p ∷ ps) = if i == p.id then f p ∷ ps else p ∷ modify_player i f ps

unfoldable pub get_player_data_by_player_id : GameState → ℕ → Option Player
get_player_data_by_player_id g i = find_player i g.players

unfoldable pub has_player : GameState → ℕ → Bool
has_player g i = is_some (find_player i g.players)

unfoldable pub get_player_data_by_seat_position : GameState → ℤ → Option Player
get_player_data_by_seat_position g seat = elim (get_player_id_by_seat_position g.seats seat) [
  | none ↦ none
  | some i ↦ find_player i g.players
]

abbrev pub get_current_main_attacker_player_data : GameState → Option Player
get_current_main_attacker_player_data g =
    get_player_data_by_seat_position g g.current_attacker_seat_position

abbrev pub get_current_defender_player_data : GameState → Option Player
get_current_defender_player_data g =
    get_player_data_by_seat_position g g.current_defender_seat_position

unfoldable pub get_seat_position_by_player_data : GameState → Player → Outcome ℤ
get_seat_position_by_player_data g p =
    value_or_fault (get_seat_position_by_player_id g.seats p.id) assertion

-- A write through the pointer to the player with the id.
unfoldable pub update_player : ℕ → (Player → Player) → GameState → GameState
update_player i f g = record g { players = modify_player i f g.players }

unfoldable pub add_card_to_player : ℤ → Card → GameState → Outcome GameState
add_card_to_player seat c g = do
  p ← value_or_fault (get_player_data_by_seat_position g seat) assertion
  ok (update_player p.id (add_card c) g)

-- The last element of a vector, and the vector without it.
unfoldable pub take_back : List Card → Option (Card × List Card)
take_back [] = none
take_back (c ∷ cs) = elim (take_back cs) [ none ↦ some (c, []) | some (d, ds) ↦ some (d, c ∷ ds) ]

unfoldable pub take_deck_card : GameState → Outcome (Card × GameState)
take_deck_card g = do
  (c, rest) ← value_or_fault (take_back g.deck) out_of_range
  ok (c, record g { deck = rest })

-- An `int` as `size_t`.
abbrev pub to_size : ℤ → ℕ
to_size (pos n) = n
to_size (negsuc n) = 2 ^ 64 - suc n

unfoldable pub get_card_from_deck_by_index : GameState → ℤ → Outcome Card
get_card_from_deck_by_index g i = value_or_fault (get_elem? g.deck (to_size i)) out_of_range

-- `erase(begin() + i)` gives the element and the rest; `insert(begin() + i, c)`.
unfoldable pub remove_at : ℕ → List Card → Option (Card × List Card)
remove_at i [] = none
remove_at zero (c ∷ cs) = some (c, cs)
remove_at (suc i) (c ∷ cs) = elim (remove_at i cs) [ none ↦ none | some (d, ds) ↦ some (d, c ∷ ds) ]

unfoldable pub insert_at : ℕ → Card → List Card → Option (List Card)
insert_at zero c cs = some (c ∷ cs)
insert_at (suc i) c [] = none
insert_at (suc i) c (d ∷ ds) = elim (insert_at i c ds) [ none ↦ none | some r ↦ some (d ∷ r) ]

unfoldable pub move_in_deck : ℤ → ℤ → GameState → Outcome GameState
move_in_deck from to g =
    if leb (length g.deck) (to_size from) || ltb (length g.deck) (to_size to)
    then fault out_of_range
    else ite (ℤ_discrete from to) (ok g) (
        value_or_fault (remove_at (to_size from) g.deck) out_of_range >>= λ r.
        value_or_fault (insert_at (to_size to) r.0 r.1) out_of_range >>= λ deck.
        ok (record g { deck = deck }))

unfoldable pub concat : List (List Card) → List Card
concat [] = []
concat (r ∷ rs) = r ++ concat rs

unfoldable pub get_table_cards : GameState → List Card
get_table_cards g = concat g.table

-- The cards at a table position; the position of an `int` that is in range.
abbrev pub row : List (List Card) → ℤ → Option (List Card)
row table (pos i) = get_elem? table i
row table (negsuc i) = none

abbrev pub set_row : List (List Card) → ℤ → List Card → List (List Card)
set_row table (pos i) r = set table i r
set_row table (negsuc i) r = table

unfoldable pub get_table_cards_at_position : GameState → ℤ → Outcome (List Card)
get_table_cards_at_position g i = value_or_fault (row g.table i) out_of_range

unfoldable pub add_card_to_table : ℤ → Card → GameState → Outcome GameState
add_card_to_table i c g = do
  r ← value_or_fault (row g.table i) out_of_range
  ok (record g { table = set_row g.table i (r ++ (c ∷ [])) })

abbrev pub remove_index : ℤ → List Card → Option (Card × List Card)
remove_index (pos i) cs = remove_at i cs
remove_index (negsuc i) cs = none

unfoldable pub remove_card_from_table_position : ℤ → ℤ → GameState → Outcome (Card × GameState)
remove_card_from_table_position i j g = do
  r ← value_or_fault (row g.table i) out_of_range
  (c, rest) ← value_or_fault (remove_index j r) out_of_range
  ok (c, record g { table = set_row g.table i rest })

unfoldable pub attacker_rows : List (List Card) → ℕ
attacker_rows [] = 0
attacker_rows (r ∷ rs) = (if ltb 0 (length r) then 1 else 0) + attacker_rows rs

unfoldable pub attacker_cards_on_table_size : GameState → ℕ
attacker_cards_on_table_size g = attacker_rows g.table

unfoldable pub defender_rows : List (List Card) → ℕ
defender_rows [] = 0
defender_rows (r ∷ rs) = (if length r == 2 then 1 else 0) + defender_rows rs

unfoldable pub defender_cards_on_table_size : GameState → ℕ
defender_cards_on_table_size g = defender_rows g.table

unfoldable pub cards_on_table_position_size : GameState → ℤ → Outcome ℕ
cards_on_table_position_size g i = do r ← value_or_fault (row g.table i) out_of_range; ok (length r)

unfoldable pub rows_size : List (List Card) → ℕ
rows_size [] = 0
rows_size (r ∷ rs) = length r + rows_size rs

unfoldable pub cards_on_table_size : GameState → ℕ
cards_on_table_size g = rows_size g.table

unfoldable pub get_table_cards_ids : GameState → List ℕ
get_table_cards_ids g = card_ids (concat g.table)

unfoldable pub front_ids : List (List Card) → List ℕ
front_ids [] = []
front_ids ([] ∷ rs) = front_ids rs
front_ids ((c ∷ cs) ∷ rs) = c.id ∷ front_ids rs

unfoldable pub get_attacker_table_cards_ids : GameState → List ℕ
get_attacker_table_cards_ids g = front_ids g.table

-- The rows from position `i` on that hold two cards, each with the second card.
unfoldable pub beaten_from : ℕ → List (List Card) → List (ℕ × ℕ)
beaten_from i [] = []
beaten_from i ((c ∷ d ∷ []) ∷ rs) = (i, d.id) ∷ beaten_from (i + 1) rs
beaten_from i (r ∷ rs) = beaten_from (i + 1) rs

unfoldable pub get_defender_table_cards_positions_and_ids : GameState → List (ℕ × ℕ)
get_defender_table_cards_positions_and_ids g = beaten_from 0 g.table

unfoldable pub add_card_to_boneyard : Card → GameState → GameState
add_card_to_boneyard c g = record g { boneyard = g.boneyard ++ (c ∷ []) }

-- A round of the search for the player with the lowest trump: the seat is looked up only of a
-- player that improves on the candidate.
unfoldable pub better_trump : Option (ℤ × Card) → Option Card → Bool
better_trump best none = false
better_trump none (some c) = true
better_trump (some (seat, b)) (some c) = lower_rank c.rank b.rank

unfoldable pub lowest_trump_from :
    GameState → Suit → Option (ℤ × Card) → List Player → Outcome (Option (ℤ × Card))
lowest_trump_from g s best [] = ok best
lowest_trump_from g s best (p ∷ ps) = elim (find_lowest_rank_by_suit s p) [
  | none ↦ lowest_trump_from g s best ps
  | some c ↦ elim (better_trump best (some c)) [
    | false ↦ lowest_trump_from g s best ps
    | true ↦
        get_seat_position_by_player_data g p >>= λ seat. lowest_trump_from g s (some (seat, c)) ps
  ]
]

unfoldable pub find_player_with_lowest_trump : GameState → Outcome (Option (ℤ × ℕ))
find_player_with_lowest_trump g = do
  s ← value_or_fault g.trump_suit runtime_error
  best ← lowest_trump_from g s none g.players
  ok (elim best [ none ↦ none | some (seat, c) ↦ some (seat, c.id) ])
