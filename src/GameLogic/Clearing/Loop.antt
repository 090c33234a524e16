-- ===== src/GameLogic/Clearing/Loop.antt =====
-- GameLogic.cpp: the two loops over the table, for any use of a card.
use durak.Base.{
  ℕ, zero, suc, ◌+◌, ◌-◌, ◌/◌, ◌≤◌, ◌<◌, ◌≡◌, refl, List, [], ◌∷◌, ◌++◌, some, pos, arith, length,
  get_elem?, set, drop, dec_lt, Outcome, ok, ◌∙◌, ap, All,
}
use native.Mathlib.Nat.{add-zero}
use durak.Cards.{Card}
use durak.GameState.{
  GameState, attacker_rows, attacker_cards_on_table_size, cards_on_table_position_size, remove_at,
}
use durak.GameLogic.{drain, drain_rows}
use durak.GameLogic.Clearing.{
  IsFilled, empties, set-front, get-empties, attackers, zero_left, one_more, one_further,
  remove_at-last?, empties-snoc, length-empties, take_last_of_row,
}

-- Where the cards go: a put that succeeds while the game is ready for it, stays ready, and leaves
-- the table alone.
module _ (put : Card → GameState → Outcome GameState) (Ready : GameState → Type 0)
    (table_free : (g : GameState) (rows : List (List Card))
      → Ready g
      → Ready (record g { table = rows }))
    (puts : (c : Card) (g : GameState)
      → Ready g
      → (g' : GameState) × (put c g ≡ ok g') × Ready g' × (g'.table ≡ g.table)) where
  -- The inner loop empties its position.
  drain_clears :
      (done : List (List Card)) (n : ℕ) (r : List Card) (rest : List (List Card)) (g : GameState)
      → length r ≡ n
      → Ready g
      → g.table ≡ done ++ (r ∷ rest)
      → (g' : GameState) × (drain put n (pos (length done)) g ≡ ok g')
        × Ready g'
        × (g'.table ≡ done ++ ([] ∷ rest))
  unfolding drain
  drain_clears done zero [] rest g h ready e = (g, refl, ready, e)
  drain_clears done zero (c ∷ cs) rest g h ready e = absurd (omega arith)
  drain_clears done (suc n) [] rest g h ready e = absurd (omega arith)
  drain_clears done (suc n) (c ∷ cs) rest g h ready e =
      let (d, left, f, l) = remove_at-last? c cs in
      let last : remove_at n (c ∷ cs) ≡ some (d, left) = ground (arith, h, f) in
      let m : GameState = record g { table = set g.table (length done) left } in
      let (m', p, ready', t) = puts d m (table_free g (set g.table (length done) left) ready) in
      let (g', q, ready'', t') = drain_clears done n left rest m' (omega arith) ready' (
        t
        ∙ ap (λ (rows : List (List Card)). set rows (length done) left) e
        ∙ set-front done (c ∷ cs) left rest) in
      (g', rw (take_last_of_row done n c cs d left rest g e last, p) q, ready'', t')

  -- One round of the outer loop, while it runs.
  drain_rows_round :
      (fuel i : ℕ) (r : List Card) (rs : List (List Card)) (k : ℕ) (g : GameState)
      → IsFilled r
      → All IsFilled rs
      → Ready g
      → g.table ≡ empties i ++ ((r ∷ rs) ++ empties k)
      → i < suc (length rs)
      → (g' : GameState) × (drain_rows put (suc fuel) i g ≡ drain_rows put fuel (i + 1) g')
        × Ready g'
        × (g'.table ≡ empties (i + 1) ++ (rs ++ empties k))
  unfolding drain_rows cards_on_table_position_size attacker_cards_on_table_size
  drain_rows_round fuel i r rs k g filled all_filled ready e lt =
      let (g', f, ready', e') =
        drain_clears (empties i) (length r) r (rs ++ empties k) g refl ready e in
      let more : i < attacker_rows g.table =
        rw (e, attackers i (r ∷ rs) k (filled, all_filled)) lt in
      let here : get_elem? g.table i ≡ some r = rw e (get-empties i r (rs ++ empties k)) in
      (
        g',
        ground (arith, more, here, f, length-empties i),
        ready',
        e' ∙ empties-snoc i (rs ++ empties k),
      )

  drain_rows_stop :
      (fuel i : ℕ) (filled : List (List Card)) (k : ℕ) (g : GameState)
      → All IsFilled filled
      → g.table ≡ empties i ++ (filled ++ empties k)
      → length filled ≤ i
      → drain_rows put (suc fuel) i g ≡ ok g
  unfolding drain_rows attacker_cards_on_table_size
  drain_rows_stop fuel i filled k g a e le =
      let few : attacker_rows g.table ≤ i = rw (e, attackers i filled k a) le in ground (arith, few)

  -- From index `i` on, with `i` cleared positions in front of the filled ones, the loop clears half
  -- of what is left, rounded up, and stops.
  pub drain_rows_clears :
      (fuel i : ℕ) (filled : List (List Card)) (k : ℕ) (g : GameState)
      → length filled < fuel
      → All IsFilled filled
      → Ready g
      → g.table ≡ empties i ++ (filled ++ empties k)
      → (g' : GameState) × (drain_rows put fuel i g ≡ ok g')
        × (g'.table
            ≡ empties (i + (length filled - i + 1) / 2)
              ++ (drop ((length filled - i + 1) / 2) filled ++ empties k))
  drain_rows_clears zero i filled k g h a ready e = absurd (omega arith)
  drain_rows_clears (suc fuel) i [] k g h a ready e = (
    g,
    drain_rows_stop fuel i [] k g a e (omega arith),
    rw (zero_left 0 i (omega arith)) (rw add-zero e),
  )
  drain_rows_clears (suc fuel) i (r ∷ rs) k g h a ready e = elim (dec_lt i (suc (length rs))) [
    | yes lt ↦
        let (m, f, ready', e') = drain_rows_round fuel i r rs k g a.0 a.1 ready e lt in
        let (g', f', e'') = drain_rows_clears fuel (i + 1) rs k m (omega arith) a.1 ready' e' in
        (g', f ∙ f', rw (one_more (length rs) i lt, one_further i (length rs)) e'')
    | no ge ↦ (
      g,
      drain_rows_stop fuel i (r ∷ rs) k g a e (omega arith),
      rw (zero_left (suc (length rs)) i (omega arith)) (rw add-zero e),
    )
  ]
