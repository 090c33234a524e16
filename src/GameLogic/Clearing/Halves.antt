-- ===== src/GameLogic/Clearing/Halves.antt =====
-- GameLogic.cpp: `moveTableCardsToBoneyard` and `moveTableCardsToHand` on the table of a game in play.
use durak.Base.{
  ℕ, suc, ◌+◌, ◌/◌, ◌<◌, ◌≡◌, refl, ◌==◌, List, [], ◌∷◌, ◌++◌, some, ℤ, arith, Option-cases,
  Bool-cases, inl, inr, length, length-append, drop, ok, All,
}
use durak.Cards.{Card, Player, add_card}
use durak.GameState.{
  GameState, add_card_to_boneyard, find_player, modify_player, update_player, add_card_to_player,
  get_player_data_by_seat_position,
}
use durak.GameState.Totals.{find_player-id}
use durak.Seats.{get_player_id_by_seat_position}
use durak.GameLogic.{move_table_cards_to_boneyard, move_table_cards_to_hand}
use durak.GameLogic.Clearing.{IsFilled, empties}
use durak.GameLogic.Clearing.Loop.{drain_rows_clears}

-- With cards on the first positions of the table and none on the others, the move to the boneyard
-- ends, and it clears half of those positions, rounded up, and leaves the others as they were.
pub move_table_cards_to_boneyard_clears :
    (filled : List (List Card)) (k : ℕ) (g : GameState)
    → All IsFilled filled
    → g.table ≡ filled ++ empties k
    → (g' : GameState) × (move_table_cards_to_boneyard g ≡ ok g')
      × (g'.table
          ≡ empties ((length filled + 1) / 2)
            ++ (drop ((length filled + 1) / 2) filled ++ empties k))
unfolding move_table_cards_to_boneyard add_card_to_boneyard
move_table_cards_to_boneyard_clears filled k g a e =
    let short : length filled < suc (length g.table) =
      rw e (omega (arith, length-append filled (empties k))) in
    let (g', f, t) =
      drain_rows_clears (λ c m. ok (add_card_to_boneyard c m)) (λ _. Unit {0}) (λ m rows _. tt)
        (λ c m _. (add_card_to_boneyard c m, refl, tt, refl)) (suc (length g.table)) 0 filled k g
        short a tt e in
    (g', f, ground (arith, t))

find_player-modify :
    (i : ℕ) (f : Player → Player) (ps : List Player) (p : Player)
    → find_player i ps ≡ some p
    → (f p).id ≡ p.id
    → find_player i (modify_player i f ps) ≡ some (f p)
unfolding find_player modify_player
find_player-modify i f [] p h same = cc
find_player-modify i f (q ∷ ps) p h same = elim (Bool-cases (i == q.id)) [
  | inl e ↦ ground (arith, e, h, same)
  | inr e ↦ ground (arith, e, h, find_player-modify i f ps p)
]

-- A card goes to the player on a seat, who is still there then.
add_card_to_player_ready :
    (seat : ℤ) (c : Card) (g : GameState)
    → (p : Player) × (get_player_data_by_seat_position g seat ≡ some p)
    → (g' : GameState) × (add_card_to_player seat c g ≡ ok g')
      × ((p : Player) × (get_player_data_by_seat_position g' seat ≡ some p))
      × (g'.table ≡ g.table)
unfolding add_card_to_player get_player_data_by_seat_position update_player add_card
add_card_to_player_ready seat c g (p, e) =
    elim (Option-cases (get_player_id_by_seat_position g.seats seat)) [
      | inl f ↦ absurd (ground (arith, e, f))
      | inr (i, f) ↦
          let found : find_player i g.players ≡ some p = ground (arith, e, f) in
          let same = find_player-id i g.players p found in
          (
            update_player p.id (add_card c) g,
            ground (arith, f, found),
            (
              add_card c p,
              ground (arith, f, same, find_player-modify i (add_card c) g.players p found refl),
            ),
            refl,
          )
    ]

-- With cards on the first positions of the table and none on the others, and a player on the seat,
-- the move to the hand ends, and it clears half of those positions, rounded up, and leaves the
-- others as they were.
pub move_table_cards_to_hand_clears :
    (filled : List (List Card)) (k : ℕ) (seat : ℤ) (p : Player) (g : GameState)
    → All IsFilled filled
    → g.table ≡ filled ++ empties k
    → get_player_data_by_seat_position g seat ≡ some p
    → (g' : GameState) × (move_table_cards_to_hand seat g ≡ ok g')
      × (g'.table
          ≡ empties ((length filled + 1) / 2)
            ++ (drop ((length filled + 1) / 2) filled ++ empties k))
unfolding move_table_cards_to_hand get_player_data_by_seat_position
move_table_cards_to_hand_clears filled k seat p g a e here =
    let short : length filled < suc (length g.table) =
      rw e (omega (arith, length-append filled (empties k))) in
    let (g', f, t) =
      drain_rows_clears (λ c m. add_card_to_player seat c m)
        (λ m. (q : Player) × (get_player_data_by_seat_position m seat ≡ some q))
        (λ m rows ready. ready) (add_card_to_player_ready seat) (suc (length g.table)) 0 filled k g
        short a (p, here) e in
    (g', f, ground (arith, t))
