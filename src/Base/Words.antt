-- ===== src/Base/Words.antt =====
-- Casts to the fixed widths, complement of a 32-bit word, tests of a mask, registers by index.
use Prim.Native.Nat.{ℕ, ◌-◌, ◌%◌, ◌^◌, bit_and}
use mathlib.Core.Bool.{Bool, not}
use smart_eth.Base.Tests.{◌==◌, if◌then◌else◌}

abbrev pub u8 : ℕ → ℕ
u8 n = n % 2 ^ 8

abbrev pub u16 : ℕ → ℕ
u16 n = n % 2 ^ 16

abbrev pub u32 : ℕ → ℕ
u32 n = n % 2 ^ 32

-- `~(uint32_t)n`
abbrev pub not32 : ℕ → ℕ
not32 n = 2 ^ 32 - 1 - u32 n

-- The test `x & m` of an `if`.
abbrev pub has : ℕ → ℕ → Bool
has x m = not (bit_and x m == 0)

-- An array that is only indexed within its bounds.
abbrev pub store {ℓ} : {A : Type ℓ} → (ℕ → A) → ℕ → A → ℕ → A
store f i v j = if i == j then v else f j
