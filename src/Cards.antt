-- ===== src/Cards.antt =====
-- source/game/CardData.{h,cpp} and source/game/PlayerData.{h,cpp}: cards, and a player's hand and flags.
-- Of the profile that a player refers to only the id is read.
pub mod Hands
use durak.Base.{
  ℕ, ◌≡◌, Bool, true, false, ite, ◌==◌, ltb, if◌then◌else◌, List, [], ◌∷◌, ◌++◌, Option, none, some,
  map, ℕ_discrete,
}

pub data Suit : Type 0 where
  hearts diamonds clubs spades : Suit

pub data Rank : Type 0 where
  two three four five six seven eight nine ten jack queen king ace : Rank

-- The value of the enumerator, by which ranks are compared.
abbrev pub rank_value : Rank → ℕ
rank_value two = 2
rank_value three = 3
rank_value four = 4
rank_value five = 5
rank_value six = 6
rank_value seven = 7
rank_value eight = 8
rank_value nine = 9
rank_value ten = 10
rank_value jack = 11
rank_value queen = 12
rank_value king = 13
rank_value ace = 14

abbrev pub suit_value : Suit → ℕ
suit_value hearts = 0
suit_value diamonds = 1
suit_value clubs = 2
suit_value spades = 3

abbrev pub same_suit : Suit → Suit → Bool
same_suit a b = suit_value a == suit_value b

abbrev pub same_rank : Rank → Rank → Bool
same_rank a b = rank_value a == rank_value b

abbrev pub lower_rank : Rank → Rank → Bool
lower_rank a b = ltb (rank_value a) (rank_value b)

pub record Card : Type 0 where
  pub suit : Suit
  pub rank : Rank
  pub id : ℕ

pub record Player : Type 0 where
  pub id : ℕ
  pub hand : List Card
  pub winner : Bool
  pub loser : Bool
  pub pass_action : Bool

-- The constructor.
abbrev pub new_player : ℕ → Player
new_player i = record { id = i; hand = []; winner = false; loser = false; pass_action = false }

abbrev pub card_ids : List Card → List ℕ
card_ids = map (λ c. c.id)

unfoldable pub get_hand_ids : Player → List ℕ
get_hand_ids p = card_ids p.hand

unfoldable pub add_card : Card → Player → Player
add_card c p = record p { hand = p.hand ++ (c ∷ []) }

-- The first card with the id, and the hand without it.
unfoldable pub take_card : ℕ → List Card → Option (Card × List Card)
take_card i [] = none
take_card i (c ∷ cs) = elim (c.id == i) [
  | true ↦ some (c, cs)
  | false ↦ elim (take_card i cs) [ none ↦ none | some (d, ds) ↦ some (d, c ∷ ds) ]
]

unfoldable pub take_card_by_id : ℕ → Player → Option (Card × Player)
take_card_by_id i p = elim (take_card i p.hand) [
  | none ↦ none
  | some (c, cs) ↦ some (c, record p { hand = cs })
]

unfoldable pub find_card : ℕ → List Card → Option Card
find_card i [] = none
find_card i (c ∷ cs) = if i == c.id then some c else find_card i cs

unfoldable pub get_card_by_id : ℕ → Player → Option Card
get_card_by_id i p = find_card i p.hand

-- A round of the search for the lowest card of a suit.
abbrev pub lower_of : Option Card → Card → Option Card
lower_of none c = some c
lower_of (some d) c = if lower_rank c.rank d.rank then some c else some d

unfoldable pub lowest_from : Suit → Option Card → List Card → Option Card
lowest_from s best [] = best
lowest_from s best (c ∷ cs) =
    lowest_from s (if same_suit c.suit s then lower_of best c else best) cs

unfoldable pub find_lowest_rank_by_suit : Suit → Player → Option Card
find_lowest_rank_by_suit s p = lowest_from s none p.hand

unfoldable pub set_winner : Bool → Player → Player
set_winner b p = record p { winner = b }

unfoldable pub set_loser : Bool → Player → Player
set_loser b p = record p { loser = b }

unfoldable pub set_player_pass_action : Bool → Player → Player
set_player_pass_action b p = record p { pass_action = b }
