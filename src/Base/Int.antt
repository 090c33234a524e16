-- ===== src/Base/Int.antt =====
-- `int` values, of which the program uses few operations: comparison and conversion to unsigned.
use Prim.Native.Nat.{ℕ, suc, ◌-◌, ◌%◌, ◌^◌, compare, Ordering}
use mathlib.Core.Bool.{Bool, true, false}
use native.Mathlib.Decide.{ℕ_discrete}

-- `negsuc n` is -(n + 1).
pub data ℤ : Type 0 where
  pos : ℕ → ℤ
  negsuc : ℕ → ℤ

unfoldable pub ℤ_discrete : Discrete ℤ
ℤ_discrete = hlevel ℕ_discrete

-- The conversion of an `int` to `uint32_t`.
abbrev pub to_u32 : ℤ → ℕ
to_u32 (pos n) = n % 2 ^ 32
to_u32 (negsuc n) = 2 ^ 32 - suc (n % 2 ^ 32)

abbrev pub is_negative : ℤ → Bool
is_negative (pos n) = false
is_negative (negsuc n) = true

-- The conversion of a `uint32_t` to an `int`, as a read of four bytes into one does it.
abbrev pub to_int : ℕ → ℤ
to_int n = elim (compare n (2 ^ 31)) [ Ordering.lt ↦ pos n | _ ↦ negsuc (2 ^ 32 - suc n) ]
