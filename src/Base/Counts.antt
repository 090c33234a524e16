-- ===== src/Base/Counts.antt =====
-- How often a number stands in a list: the measure by which queues and profile lists are compared.
use Prim.Native.Nat.{ℕ, suc, ◌+◌, ◌≤◌, ◌<◌}
use mathlib.Core.Path.{◌≡◌}
use mathlib.Core.Logic.{ite}
use mathlib.Core.List.{List, [], ◌∷◌, ◌++◌}
use native.Mathlib.Omega.{arith}
use native.Mathlib.Decide.{ℕ_discrete}
use durak.Base.Lists.{length}

abbrev pub count : ℕ → List ℕ → ℕ
count a [] = 0
count a (x ∷ xs) = ite (ℕ_discrete x a) (suc (count a xs)) (count a xs)

-- `std::erase_if` by equality with a value.
unfoldable pub without : ℕ → List ℕ → List ℕ
without a [] = []
without a (x ∷ xs) = ite (ℕ_discrete x a) (without a xs) (x ∷ without a xs)

-- The loop that overwrites the first element equal to `a` and breaks.
unfoldable pub replace_first : ℕ → ℕ → List ℕ → List ℕ
replace_first a b [] = []
replace_first a b (x ∷ xs) = ite (ℕ_discrete x a) (b ∷ xs) (x ∷ replace_first a b xs)

remove_one : ℕ → List ℕ → List ℕ
remove_one a [] = []
remove_one a (x ∷ xs) = ite (ℕ_discrete x a) xs (x ∷ remove_one a xs)

pub count-append :
    (player : ℕ) (queue later : List ℕ)
    → count player (queue ++ later) ≡ count player queue + count player later
count-append player [] later = omega arith
count-append player (q ∷ queue) later = ground (arith, count-append player queue later)

pub count-without :
    (a b : ℕ) (xs : List ℕ) → count b (without a xs) ≡ ite (ℕ_discrete a b) 0 (count b xs)
unfolding without
count-without a b [] = ground arith
count-without a b (x ∷ xs) = ground (arith, count-without a b xs)

pub count-replace_first :
    (a b c : ℕ) (xs : List ℕ)
    → 0 < count a xs
    → count c (replace_first a b xs) + ite (ℕ_discrete a c) 1 0
      ≡ count c xs + ite (ℕ_discrete b c) 1 0
unfolding replace_first
count-replace_first a b c [] h = elim h [ ]
count-replace_first a b c (x ∷ xs) h = ground (arith, count-replace_first a b c xs)

count-remove_one :
    (a b : ℕ) (xs : List ℕ)
    → 0 < count a xs
    → count b (remove_one a xs) + ite (ℕ_discrete a b) 1 0 ≡ count b xs
unfolding remove_one
count-remove_one a b [] h = elim h [ ]
count-remove_one a b (x ∷ xs) h = ground (arith, count-remove_one a b xs)

length-remove_one :
    (a : ℕ) (xs : List ℕ) → 0 < count a xs → suc (length (remove_one a xs)) ≡ length xs
unfolding remove_one
length-remove_one a [] h = elim h [ ]
length-remove_one a (x ∷ xs) h = ground (arith, length-remove_one a xs)

pub length-le_of_count :
    (xs ys : List ℕ) → ((a : ℕ) → count a xs ≤ count a ys) → length xs ≤ length ys
length-le_of_count [] ys h = omega arith
length-le_of_count (x ∷ xs) ys h =
    let there : 0 < count x ys = ground (arith, h x) in
    let rest : length xs ≤ length (remove_one x ys) =
      length-le_of_count xs (remove_one x ys)
        (λ a. ground (arith, h a, there, count-remove_one x a ys)) in
    omega (arith, length-remove_one x ys there)

-- A list that also misses an element of the other is shorter.
pub length-lt_of_count :
    (a : ℕ) (xs ys : List ℕ)
    → ((b : ℕ) → count b xs ≤ count b ys)
    → count a xs < count a ys
    → length xs < length ys
length-lt_of_count a xs ys h lt =
    let there : 0 < count a ys = omega arith in
    let rest : length xs ≤ length (remove_one a ys) =
      length-le_of_count xs (remove_one a ys)
        (λ b. ground (arith, h b, lt, there, count-remove_one a b ys)) in
    omega (arith, length-remove_one a ys there)
