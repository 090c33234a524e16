-- ===== src/GameLogic/Phase.antt =====
-- The moves of cards leave the phase of the game alone, and clearing the table the deck as well.
use durak.Base.{
  ℕ, zero, suc, ◌+◌, ◌≡◌, sym, ap, ◌∙◌, ltb, List, Option, ℤ, pos, arith, Bool-cases, inl, inr,
  Outcome, ok, >>=-eq-ok,
}
use durak.Cards.{Card}
use durak.GameState.{
  GameState, Phase, update_player, take_deck_card, move_in_deck, cards_on_table_position_size,
  attacker_cards_on_table_size, remove_card_from_table_position, add_card_to_boneyard,
  add_card_to_player,
}
use durak.GameLogic.Conservation.{drain_rows_more}
use durak.GameLogic.{
  deal_one_card, identify_trump_card, identify_first_move, drain, drain_rows,
  move_table_cards_to_boneyard, move_table_cards_to_hand,
}

pub deal_one_card-phase :
    (seat : ℤ) (g g' : GameState) (i : ℕ)
    → deal_one_card seat g ≡ ok (i, g')
    → g'.current_phase ≡ g.current_phase
unfolding deal_one_card take_deck_card update_player
deal_one_card-phase seat g g' i h = ground (arith, h)

pub identify_trump_card-phase :
    (g g' : GameState) (i : ℕ)
    → identify_trump_card g ≡ ok (i, g')
    → g'.current_phase ≡ g.current_phase
unfolding identify_trump_card move_in_deck
identify_trump_card-phase g g' i h = ground (arith, h)

pub identify_first_move-phase :
    (g g' : GameState) (m : Option (ℤ × ℕ))
    → identify_first_move g ≡ ok (m, g')
    → g'.current_phase ≡ g.current_phase
unfolding identify_first_move
identify_first_move-phase g g' m h = ground (arith, h)

-- The loops keep what both removing a card from the table and their use of the card keep.
module _ {ℓ} {A : Type ℓ} (see : GameState → A)
    (removing : (i j : ℤ) (c : Card) (g g' : GameState)
      → remove_card_from_table_position i j g ≡ ok (c, g')
      → see g' ≡ see g)
    (put : Card → GameState → Outcome GameState)
    (putting : (c : Card) (g g' : GameState) → put c g ≡ ok g' → see g' ≡ see g) where
  drain_keeps : (n : ℕ) (i : ℤ) (g g' : GameState) → drain put n i g ≡ ok g' → see g' ≡ see g
  unfolding drain
  drain_keeps zero i g g' h = let same : g ≡ g' = cc in sym (ap see same)
  drain_keeps (suc n) i g g' h =
      let ((c, m), e, h') = >>=-eq-ok (remove_card_from_table_position i (pos n) g) _ h in
      let (m', e', h'') = >>=-eq-ok (put c m) _ h' in
      drain_keeps n i m' g' h'' ∙ putting c m m' e' ∙ removing i (pos n) c g m e

  drain_rows_keeps :
      (fuel i : ℕ) (g g' : GameState) → drain_rows put fuel i g ≡ ok g' → see g' ≡ see g
  unfolding drain_rows
  drain_rows_keeps zero i g g' h = cc
  drain_rows_keeps (suc fuel) i g g' h =
      elim (Bool-cases (ltb i (attacker_cards_on_table_size g))) [
        | inr e ↦ let same : g ≡ g' = ground (arith, e, h) in sym (ap see same)
        | inl e ↦
            let (n, _, h') =
              >>=-eq-ok (cards_on_table_position_size g (pos i)) _
                (drain_rows_more put fuel i g g' e h) in
            let (m, d, h'') = >>=-eq-ok (drain put n (pos i) g) _ h' in
            drain_rows_keeps fuel (i + 1) m g' h'' ∙ drain_keeps n (pos i) g m d
      ]

-- The phase and the deck.
abbrev pub phase_and_deck : GameState → Phase × List Card
phase_and_deck g = (g.current_phase, g.deck)

removing_keeps :
    (i j : ℤ) (c : Card) (g g' : GameState)
    → remove_card_from_table_position i j g ≡ ok (c, g')
    → phase_and_deck g' ≡ phase_and_deck g
unfolding remove_card_from_table_position
removing_keeps i j c g g' h =
    let a : g'.current_phase ≡ g.current_phase = ground (arith, h) in
    let b : g'.deck ≡ g.deck = ground (arith, h) in cc

add_card_to_player_keeps :
    (seat : ℤ) (c : Card) (g g' : GameState)
    → add_card_to_player seat c g ≡ ok g'
    → phase_and_deck g' ≡ phase_and_deck g
unfolding add_card_to_player update_player
add_card_to_player_keeps seat c g g' h =
    let a : g'.current_phase ≡ g.current_phase = ground (arith, h) in
    let b : g'.deck ≡ g.deck = ground (arith, h) in cc

add_card_to_boneyard_keeps :
    (c : Card) (g g' : GameState)
    → ok (add_card_to_boneyard c g) ≡ ok g'
    → phase_and_deck g' ≡ phase_and_deck g
unfolding add_card_to_boneyard
add_card_to_boneyard_keeps c g g' h =
    let a : g'.current_phase ≡ g.current_phase = ground (arith, h) in
    let b : g'.deck ≡ g.deck = ground (arith, h) in cc

pub move_table_cards_to_boneyard_keeps :
    (g g' : GameState)
    → move_table_cards_to_boneyard g ≡ ok g'
    → phase_and_deck g' ≡ phase_and_deck g
unfolding move_table_cards_to_boneyard
move_table_cards_to_boneyard_keeps g g' h =
    drain_rows_keeps phase_and_deck removing_keeps (λ c m. ok (add_card_to_boneyard c m))
      add_card_to_boneyard_keeps _ 0 g g' h

pub move_table_cards_to_hand_keeps :
    (seat : ℤ) (g g' : GameState)
    → move_table_cards_to_hand seat g ≡ ok g'
    → phase_and_deck g' ≡ phase_and_deck g
unfolding move_table_cards_to_hand
move_table_cards_to_hand_keeps seat g g' h =
    drain_rows_keeps phase_and_deck removing_keeps (λ c m. add_card_to_player seat c m)
      (add_card_to_player_keeps seat) _ 0 g g' h
