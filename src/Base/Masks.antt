-- ===== src/Base/Masks.antt =====
-- Tests and updates of single digits of a word, as the drivers write them: `x & m`, `x &= ~m`.
use Prim.Native.Nat.{ℕ, zero, suc, ◌+◌, ◌-◌, ◌*◌, ◌/◌, ◌%◌, ◌^◌, ◌≤◌, ◌<◌, min, bit_and, bit_or}
use mathlib.Core.Path.{◌≡◌, ◌∙◌}
use mathlib.Core.Bool.{not}
use native.Mathlib.Nat.{one-le-pow}
use native.Mathlib.Omega.{arith}
use smart_eth.Base.Tests.{◌==◌}
use smart_eth.Base.Words.{u32, not32, has}
use smart_eth.Base.Bits.{
  bit, bit-le, bit_and-ones, bit_and_shift, bit_or_shift, bit-bit_and, bit-complement, bit_and-pow,
  bit_and-le, bit_or-lt,
}

nonzero_digit : (d p : ℕ) → d ≤ 1 → 1 ≤ p → not (d * p == 0) ≡ (d == 1)
nonzero_digit zero p h q = ground arith
nonzero_digit (suc zero) p h q = ground arith
nonzero_digit (suc (suc d)) p h q = absurd (omega arith)

-- A test by a mask of one digit reads that digit.
pub has-bit : (k x : ℕ) → has x (2 ^ k) ≡ (bit x k == 1)
has-bit k x =
    rw (bit_and-pow k x)
      (nonzero_digit (bit x k) (2 ^ k) (bit-le x k) (one-le-pow k 2 (omega arith)))

-- `x &= ~m` clears the digits of `m`.
pub bit-clear :
    (k x m : ℕ) → k < 32 → bit (bit_and x (not32 m)) k ≡ min (bit x k) (1 - bit (u32 m) k)
bit-clear k x m h = bit-bit_and k x (not32 m) ∙ rw (bit-complement 32 k (u32 m) h (omega arith))

pub bit_and-lt : (x m : ℕ) → x < 2 ^ 32 → bit_and x m < 2 ^ 32
bit_and-lt x m h = omega (arith, bit_and-le x x m (omega arith))

pub bit_or_lt : (x y : ℕ) → x < 2 ^ 32 → y < 2 ^ 32 → bit_or x y < 2 ^ 32
bit_or_lt = bit_or-lt 32

-- A cast to 32 bits keeps the lowest digit.
pub has-u32 : (v : ℕ) → has (u32 v) 1 ≡ has v 1
has-u32 v = let e : bit (u32 v) 0 ≡ bit v 0 = omega arith in has-bit 0 (u32 v) ∙ rw (e, has-bit 0 v)

-- `x & ~3` drops the two low digits.
pub align_word : (x : ℕ) → x < 2 ^ 32 → bit_and x (not32 3) ≡ x / 4 * 4
align_word x h = bit_and_shift 2 x (2 ^ 30 - 1) ∙ rw (bit_and-ones 30 (x / 4)) (omega arith)

-- Splitting a word into its halves by mask, and replacing one of them.
pub clear_low_half : (x : ℕ) → x < 2 ^ 32 → bit_and x (not32 0xFFFF) ≡ x / 2 ^ 16 * 2 ^ 16
clear_low_half x h =
    bit_and_shift 16 x (2 ^ 16 - 1) ∙ rw (bit_and-ones 16 (x / 2 ^ 16)) (omega arith)

pub clear_high_half : (x : ℕ) → bit_and x (not32 (0xFFFF * 2 ^ 16)) ≡ x % 2 ^ 16
clear_high_half x = bit_and-ones 16 x

pub low_half : (x : ℕ) → bit_and x 0xFFFF ≡ x % 2 ^ 16
low_half x = bit_and-ones 16 x

-- The four fields of an address, or-ed together, do not overlap.
pub bit_or_fields :
    (b d f o : ℕ)
    → d < 2 ^ 5
    → f < 2 ^ 3
    → o < 2 ^ 12
    → bit_or (bit_or (bit_or (b * 2 ^ 20) (d * 2 ^ 15)) (f * 2 ^ 12)) o
      ≡ b * 2 ^ 20 + d * 2 ^ 15 + f * 2 ^ 12 + o
bit_or_fields b d f o hd hf ho =
    let e1 : b * 2 ^ 20 + d * 2 ^ 15 ≡ (b * 32 + d) * 2 ^ 15 = omega arith in
    let e2 : (b * 32 + d) * 2 ^ 15 + f * 2 ^ 12 ≡ ((b * 32 + d) * 8 + f) * 2 ^ 12 = omega arith in
    rw
      (
        bit_or_shift 20 b (d * 2 ^ 15) (omega arith),
        e1,
        bit_or_shift 15 (b * 32 + d) (f * 2 ^ 12) (omega arith),
        e2,
        bit_or_shift 12 ((b * 32 + d) * 8 + f) o ho,
      )
      (omega arith)
