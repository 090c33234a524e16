-- ===== src/GameLogic/Conservation.antt =====
-- No operation of GameLogic makes a card up, and only a refused move loses one.
use durak.Base.{
  ℕ, zero, suc, ◌+◌, ◌≡◌, refl, Bool, true, false, ltb, if◌then◌else◌, List, [], ◌∷◌, ◌++◌, some, ℤ,
  pos, arith, Option-cases, Bool-cases, inl, inr, length, length-append, get_elem?, Outcome, ok,
  ◌>>=◌, >>=-eq-ok, ◌∙◌,
}
use durak.Cards.{Card, Player, add_card, take_card_by_id, take_card}
use durak.Cards.Hands.{tally-append, take_card-some}
use durak.GameState.{
  GameState, update_player, take_back, take_deck_card, remove_at, insert_at, add_card_to_table,
  remove_card_from_table_position, get_player_data_by_seat_position, add_card_to_player,
  move_in_deck, get_card_from_deck_by_index, cards_on_table_position_size,
  attacker_cards_on_table_size, to_size,
}
use durak.GameState.Totals.{
  total, take_back-some, remove_at-some, insert_at-some, find_player_by_seat,
  total-add_card_to_table, total-remove_card_from_table_position, total-add_card_to_boneyard,
  total-update_player,
}
use durak.GameLogic.{
  deal_one_card, identify_trump_card, put_on_table, drain, drain_rows, keep_hand, last_index,
  move_table_cards_to_boneyard, move_table_cards_to_hand,
}

-- A put that adds just the card it is given.
abbrev Adds : (Card → GameState → Outcome GameState) → Type 0
Adds put =
    (t : Card → Bool) (c : Card) (g g' : GameState)
    → put c g ≡ ok g'
    → total t g' ≡ total t g + (if t c then 1 else 0)

add_card_to_player-Adds : (seat : ℤ) → Adds (λ c g. add_card_to_player seat c g)
unfolding add_card_to_player add_card
add_card_to_player-Adds seat t c g g' h =
    elim (Option-cases (get_player_data_by_seat_position g seat)) [
      | inl e ↦ absurd (ground (arith, e, h))
      | inr (p, e) ↦
          let found = find_player_by_seat g seat p e in
          ground (
            arith,
            e,
            h,
            total-update_player t p.id (add_card c) g p found,
            tally-append t p.hand (c ∷ []),
          )
    ]

drain-total :
    (put : Card → GameState → Outcome GameState)
    → Adds put
    → (t : Card → Bool) (n : ℕ) (i : ℤ) (g g' : GameState) → drain put n i g ≡ ok g'
    → total t g' ≡ total t g
unfolding drain
drain-total put adds t zero i g g' h = ground arith
drain-total put adds t (suc n) i g g' h =
    let ((c, m), e, h') = >>=-eq-ok (remove_card_from_table_position i (pos n) g) _ h in
    let (m', e', h'') = >>=-eq-ok (put c m) _ h' in
    omega (
      arith,
      drain-total put adds t n i m' g' h'',
      adds t c m m' e',
      total-remove_card_from_table_position t i (pos n) c g m e,
    )

pub drain_rows_more :
    (put : Card → GameState → Outcome GameState) (fuel i : ℕ) (g g' : GameState)
    → ltb i (attacker_cards_on_table_size g) ≡ true
    → drain_rows put (suc fuel) i g ≡ ok g'
    → (cards_on_table_position_size g (pos i) >>= λ n.
        drain put n (pos i) g >>= drain_rows put fuel (i + 1))
      ≡ ok g'
unfolding drain_rows
drain_rows_more put fuel i g g' e h = rw (e, drain_rows) at h

drain_rows-total :
    (put : Card → GameState → Outcome GameState)
    → Adds put
    → (t : Card → Bool) (fuel i : ℕ) (g g' : GameState) → drain_rows put fuel i g ≡ ok g'
    → total t g' ≡ total t g
unfolding drain_rows
drain_rows-total put adds t zero i g g' h = cc
drain_rows-total put adds t (suc fuel) i g g' h =
    elim (Bool-cases (ltb i (attacker_cards_on_table_size g))) [
      | inr e ↦ ground (arith, e, h)
      | inl e ↦
          let (n, f, h') =
            >>=-eq-ok (cards_on_table_position_size g (pos i)) _
              (drain_rows_more put fuel i g g' e h) in
          let (m, f', h'') = >>=-eq-ok (drain put n (pos i) g) _ h' in
          drain_rows-total put adds t fuel (i + 1) m g' h''
          ∙ drain-total put adds t n (pos i) g m f'
    ]

-- A move of the table's cards to the boneyard that ends leaves the number of the game's cards of
-- any kind as it was.
pub move_table_cards_to_boneyard-total :
    (t : Card → Bool) (g g' : GameState)
    → move_table_cards_to_boneyard g ≡ ok g'
    → total t g' ≡ total t g
unfolding move_table_cards_to_boneyard
move_table_cards_to_boneyard-total t g g' h =
    drain_rows-total _ (λ t' c m m' e. ground (arith, e, total-add_card_to_boneyard t' c m)) t _ 0 g
      g' h

-- A move of the table's cards to a hand that ends leaves the number of the game's cards of any kind
-- as it was.
pub move_table_cards_to_hand-total :
    (t : Card → Bool) (seat : ℤ) (g g' : GameState)
    → move_table_cards_to_hand seat g ≡ ok g'
    → total t g' ≡ total t g
unfolding move_table_cards_to_hand
move_table_cards_to_hand-total t seat g g' h =
    drain_rows-total _ (add_card_to_player-Adds seat) t _ 0 g g' h

-- A card that is dealt was the last of the deck and is named by its id; the deck loses just that
-- card, and the number of the game's cards of any kind stays as it was.
pub deal_one_card_lem :
    (t : Card → Bool) (seat : ℤ) (g g' : GameState) (i : ℕ)
    → deal_one_card seat g ≡ ok (i, g')
    → (c : Card) × (c.id ≡ i) × (g.deck ≡ g'.deck ++ (c ∷ [])) × (total t g' ≡ total t g)
unfolding deal_one_card take_deck_card add_card update_player
deal_one_card_lem t seat g g' i h = elim (Option-cases (get_player_data_by_seat_position g seat)) [
  | inl e ↦ absurd (ground (arith, e, h))
  | inr (p, e) ↦ elim (Option-cases (take_back g.deck)) [
    | inl f ↦ absurd (ground (arith, e, f, h))
    | inr ((c, rest), f) ↦
        let found = find_player_by_seat g seat p e in
        let (back, count) = take_back-some t g.deck c rest f in
        let m : GameState = record g { deck = rest } in
        let result : (c.id ≡ i) × (g' ≡ update_player p.id (add_card c) m) =
          ground (arith, e, f, h) in
        (
          c,
          result.0,
          ground (arith, back, result.1),
          ground (
            arith,
            result.1,
            count,
            total-update_player t p.id (add_card c) m p found,
            tally-append t p.hand (c ∷ []),
          ),
        )
  ]
]

-- A card moved within the deck stays in the game.
pub move_in_deck-total :
    (t : Card → Bool) (from to : ℤ) (g g' : GameState)
    → move_in_deck from to g ≡ ok g'
    → total t g' ≡ total t g
unfolding move_in_deck
move_in_deck-total t from to g g' h = elim (Option-cases (remove_at (to_size from) g.deck)) [
  | inl e ↦ ground (arith, e, h)
  | inr ((c, rest), e) ↦ elim (Option-cases (insert_at (to_size to) c rest)) [
    | inl f ↦ ground (arith, e, f, h)
    | inr (deck, f) ↦ ground (
      arith,
      e,
      f,
      h,
      remove_at-some t (to_size from) g.deck c rest e,
      insert_at-some t (to_size to) c rest deck f,
    )
  ]
]

get_elem?-last : (cs : List Card) (c : Card) → get_elem? (cs ++ (c ∷ [])) (length cs) ≡ some c
get_elem?-last [] c = refl
get_elem?-last (x ∷ xs) c = get_elem?-last xs c

remove_at-last : (cs : List Card) (c : Card) → remove_at (length cs) (cs ++ (c ∷ [])) ≡ some (c, cs)
unfolding remove_at
remove_at-last [] c = refl
remove_at-last (x ∷ xs) c = ground (arith, remove_at-last xs c)

last_index-append : (cs : List Card) (c : Card) → last_index (cs ++ (c ∷ [])) ≡ pos (length cs)
last_index-append [] c = refl
last_index-append (x ∷ xs) c = ground (arith, length-append xs (c ∷ []))

move_last_to_front :
    (cs : List Card) (c : Card) (g : GameState)
    → g.deck ≡ cs ++ (c ∷ [])
    → move_in_deck (pos (length cs)) (pos 0) g ≡ ok (record g { deck = c ∷ cs })
unfolding move_in_deck insert_at
move_last_to_front [] c g e = ground (arith, e)
move_last_to_front (x ∷ xs) c g e =
    ground (arith, e, remove_at-last (x ∷ xs) c, length-append xs (c ∷ []))

-- With a last card in the deck, that card becomes the trump: its id and its suit are noted, it is
-- moved to the front of the deck, and nothing else changes.
pub identify_trump_card_lem :
    (cs : List Card) (c : Card) (g : GameState)
    → g.deck ≡ cs ++ (c ∷ [])
    → identify_trump_card g
      ≡ ok (
        c.id,
        record g { main_trump_card_id = some c.id; trump_suit = some c.suit; deck = c ∷ cs },
      )
unfolding identify_trump_card get_card_from_deck_by_index
identify_trump_card_lem cs c g e =
    let g' : GameState = record g { main_trump_card_id = some c.id; trump_suit = some c.suit } in
    ground (arith, e, last_index-append cs c, get_elem?-last cs c, move_last_to_front cs c g' e)

-- A toss or a beat that is granted leaves the number of the game's cards of any kind as it was.
pub put_on_table-total :
    (fits : ℕ → Bool) (t : Card → Bool) (seat position : ℤ) (card : ℕ) (g g' : GameState)
    → put_on_table fits seat position card g ≡ ok (true, g')
    → total t g' ≡ total t g
unfolding put_on_table take_card_by_id
put_on_table-total fits t seat position card g g' h =
    elim (Option-cases (get_player_data_by_seat_position g seat)) [
      | inl e ↦ absurd (ground (arith, e, h))
      | inr (p, e) ↦ elim (Option-cases (take_card card p.hand)) [
        | inl f ↦ absurd (ground (arith, e, f, h))
        | inr ((c, rest), f) ↦
            let found = find_player_by_seat g seat p e in
            let m : GameState = update_player p.id (keep_hand (record p { hand = rest })) g in
            let moved : add_card_to_table position c m ≡ ok g' = ground (arith, e, f, h) in
            omega (
              arith,
              total-add_card_to_table t position c m g' moved,
              total-update_player t p.id (keep_hand (record p { hand = rest })) g p found,
              take_card-some t card p.hand c rest f,
            )
      ]
    ]

-- A toss or a beat of a card that the player holds, if it is refused, leaves the game without that
-- card.
pub put_on_table_lost :
    (fits : ℕ → Bool) (t : Card → Bool) (seat position : ℤ) (card : ℕ) (g g' : GameState)
    (p : Player) (c : Card) (rest : List Card)
    → get_player_data_by_seat_position g seat ≡ some p
    → take_card card p.hand ≡ some (c, rest)
    → put_on_table fits seat position card g ≡ ok (false, g')
    → total t g' + (if t c then 1 else 0) ≡ total t g
unfolding put_on_table take_card_by_id
put_on_table_lost fits t seat position card g g' p c rest e f h =
    let found = find_player_by_seat g seat p e in
    let m : GameState = update_player p.id (keep_hand (record p { hand = rest })) g in
    let same : g' ≡ m = ground (arith, e, f, h) in
    ground (
      arith,
      same,
      total-update_player t p.id (keep_hand (record p { hand = rest })) g p found,
      take_card-some t card p.hand c rest f,
    )
