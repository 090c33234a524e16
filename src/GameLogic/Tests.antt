-- ===== src/GameLogic/Tests.antt =====
-- Games of two players, and the moves of cards in them.
use durak.Base.{
  ◌==◌, ◌+◌, ◌≡◌, refl, Bool, true, List, [], ◌∷◌, ◌++◌, none, some, pos, ok, ℕ_discrete,
  ℤ_discrete, lookup,
}
use durak.Seats.{get_player_id_by_seat_position}
use durak.Cards.{
  Card, hearts, clubs, spades, six, nine, ten, ace, Player, add_card, take_card, take_card_by_id,
  new_player,
}
use durak.GameState.{
  GameState, main_player_move, find_player, modify_player, get_player_data_by_seat_position,
  update_player, take_back, take_deck_card, add_card_to_table, cards_on_table_position_size,
  attacker_cards_on_table_size, attacker_rows, remove_card_from_table_position, remove_at,
  add_card_to_boneyard,
}
use durak.GameState.Totals.{total}
use durak.GameLogic.{deal_one_card, put_on_table, drain, drain_rows, move_table_cards_to_boneyard}
use durak.GameLogic.Conservation.{
  move_table_cards_to_boneyard-total, deal_one_card_lem, put_on_table-total, put_on_table_lost,
}
use durak.GameLogic.Clearing.Halves.{move_table_cards_to_boneyard_clears}

abbrev pub six_of_hearts : Card
six_of_hearts = record { suit = hearts; rank = six; id = 1 }

abbrev pub nine_of_hearts : Card
nine_of_hearts = record { suit = hearts; rank = nine; id = 2 }

abbrev pub ten_of_spades : Card
ten_of_spades = record { suit = spades; rank = ten; id = 3 }

abbrev pub ace_of_clubs : Card
ace_of_clubs = record { suit = clubs; rank = ace; id = 4 }

abbrev pub attacker : Player
attacker = record (new_player 7) { hand = six_of_hearts ∷ ten_of_spades ∷ [] }

abbrev pub defender : Player
defender = record (new_player 8) { hand = nine_of_hearts ∷ [] }

abbrev pub empty_table : List (List Card)
empty_table = [] ∷ [] ∷ [] ∷ [] ∷ [] ∷ [] ∷ []

-- Player 7 on seat 0 attacks player 8 on seat 1; clubs are trumps.
abbrev pub duel : GameState
duel = record {
  seats = record {
    player_id_by_seat_position = (pos 0, 7) ∷ (pos 1, 8) ∷ [];
    seat_position_by_player_id = (7, pos 0) ∷ (8, pos 1) ∷ [];
  };
  current_phase = main_player_move;
  deck = ace_of_clubs ∷ [];
  table = empty_table;
  boneyard = [];
  players = attacker ∷ defender ∷ [];
  current_attacker_seat_position = pos 0;
  current_defender_seat_position = pos 1;
  main_trump_card_id = some 4;
  trump_suit = some clubs;
  players_lowest_trump_card = none;
}

-- The six of hearts is on the table.
abbrev pub tossed : GameState
tossed = record duel {
  table = (six_of_hearts ∷ []) ∷ [] ∷ [] ∷ [] ∷ [] ∷ [] ∷ [];
  players = record (new_player 7) { hand = ten_of_spades ∷ [] } ∷ defender ∷ [];
}

-- It has gone to the boneyard.
abbrev cleared : GameState
cleared = record tossed { table = empty_table; boneyard = six_of_hearts ∷ [] }

-- The defender has taken it.
abbrev taken : GameState
taken = record tossed {
  table = empty_table;
  players =
      record (new_player 7) { hand = ten_of_spades ∷ [] }
      ∷ record (new_player 8) { hand = nine_of_hearts ∷ six_of_hearts ∷ [] }
      ∷ [];
}

-- The attacker has the ace.
abbrev dealt : GameState
dealt = record duel {
  deck = [];
  players =
      record (new_player 7) { hand = six_of_hearts ∷ ten_of_spades ∷ ace_of_clubs ∷ [] }
      ∷ defender
      ∷ [];
}

-- The ten of spades is neither in the hand nor on the table.
abbrev dropped : GameState
dropped = record tossed { players = new_player 7 ∷ defender ∷ [] }

abbrev every_card : Card → Bool
every_card c = true

move_table_cards_to_boneyard-total_example : total every_card cleared ≡ total every_card tossed
unfolding move_table_cards_to_boneyard drain_rows drain attacker_cards_on_table_size attacker_rows
    cards_on_table_position_size remove_card_from_table_position remove_at add_card_to_boneyard
move_table_cards_to_boneyard-total_example =
    move_table_cards_to_boneyard-total every_card tossed cleared refl

deal_one_card_lem_example :
    (c : Card) × (c.id ≡ 4)
    × (duel.deck ≡ dealt.deck ++ (c ∷ []))
    × (total every_card dealt ≡ total every_card duel)
unfolding deal_one_card take_deck_card take_back get_player_data_by_seat_position
    get_player_id_by_seat_position lookup find_player update_player modify_player add_card
    ℕ_discrete ℤ_discrete
deal_one_card_lem_example = deal_one_card_lem every_card (pos 0) duel dealt 4 refl

put_on_table-total_example : total every_card tossed ≡ total every_card duel
unfolding put_on_table take_card_by_id take_card cards_on_table_position_size add_card_to_table
    get_player_data_by_seat_position get_player_id_by_seat_position lookup find_player update_player
    modify_player ℕ_discrete ℤ_discrete
put_on_table-total_example =
    put_on_table-total (λ n. n == 0) every_card (pos 0) (pos 0) 1 duel tossed refl

-- The attacker tosses the ten of spades onto the six of hearts, which is refused.
put_on_table_lost_example : total every_card dropped + 1 ≡ total every_card tossed
unfolding put_on_table take_card_by_id take_card cards_on_table_position_size add_card_to_table
    get_player_data_by_seat_position get_player_id_by_seat_position lookup find_player update_player
    modify_player ℕ_discrete ℤ_discrete
put_on_table_lost_example =
    put_on_table_lost (λ n. n == 0) every_card (pos 0) (pos 0) 3 tossed dropped
      (record (new_player 7) { hand = ten_of_spades ∷ [] }) ten_of_spades [] refl refl refl

-- Two tossed cards, of which one is cleared.
abbrev two_tossed : GameState
two_tossed = record tossed {
  table = (six_of_hearts ∷ []) ∷ (ten_of_spades ∷ []) ∷ [] ∷ [] ∷ [] ∷ [] ∷ [];
}

move_table_cards_to_boneyard_clears_example :
    (g' : GameState) × (move_table_cards_to_boneyard two_tossed ≡ ok g')
    × (g'.table ≡ [] ∷ (ten_of_spades ∷ []) ∷ [] ∷ [] ∷ [] ∷ [] ∷ [])
move_table_cards_to_boneyard_clears_example =
    move_table_cards_to_boneyard_clears ((six_of_hearts ∷ []) ∷ (ten_of_spades ∷ []) ∷ []) 4
      two_tossed ((λ e. cc), ((λ e. cc), tt)) refl
