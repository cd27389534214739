-- ===== src/Base/Bits.antt =====
-- The digits of a number in base two, and the native bit operations digit by digit.
use Prim.Native.Nat.{
  ℕ, zero, suc, ◌+◌, ◌-◌, ◌*◌, ◌/◌, ◌%◌, ◌^◌, ◌≤◌, ◌<◌, min, max, bit_and, bit_or, digits, bitwise,
  bit_and-bitwise, bit_or-bitwise,
}
use mathlib.Core.Path.{◌≡◌, refl, sym, ap, ◌∙◌}
use native.Mathlib.Nat.{pow-suc, one-le-pow, div-add-mod, div-div-eq-div-mul}
use native.Mathlib.Omega.{arith}

-- Binary digit `k` of `x`.
abbrev pub bit : ℕ → ℕ → ℕ
bit x zero = x % 2
bit x (suc k) = bit (x / 2) k

pub bit-le : (x k : ℕ) → bit x k ≤ 1
bit-le x zero = omega arith
bit-le x (suc k) = bit-le (x / 2) k

pub zero-bit : (k : ℕ) → bit 0 k ≡ 0
zero-bit zero = refl
zero-bit (suc k) = zero-bit k

module _ (z : ℕ → ℕ) (f : ℕ → ℕ → ℕ) where
  -- Fuel from the number itself up is enough.
  digits_enough : (n m a b : ℕ) → a ≤ n → a ≤ m → digits z f n a b ≡ digits z f m a b
  digits_enough n m zero b p q = at_zero n m
    where
      at_zero : (n m : ℕ) → digits z f n 0 b ≡ digits z f m 0 b
      at_zero zero zero = refl
      at_zero zero (suc m) = refl
      at_zero (suc n) zero = refl
      at_zero (suc n) (suc m) = refl
  digits_enough zero m (suc a) b p q = absurd (omega arith)
  digits_enough (suc n) zero (suc a) b p q = absurd (omega arith)
  digits_enough (suc n) (suc m) (suc a) b p q =
      ap (λ (t : ℕ). t * 2 + f (suc a % 2) (b % 2))
        (digits_enough n m (suc a / 2) (b / 2) (omega arith) (omega arith))

  bitwise-step :
      (a b : ℕ)
      → bitwise z f (suc a) b ≡ bitwise z f (suc a / 2) (b / 2) * 2 + f (suc a % 2) (b % 2)
  bitwise-step a b =
      ap (λ (t : ℕ). t * 2 + f (suc a % 2) (b % 2))
        (digits_enough a (suc a / 2) (suc a / 2) (b / 2) (omega arith) (omega arith))

pub bit_or-halves : (a b : ℕ) → bit_or a b ≡ bit_or (a / 2) (b / 2) * 2 + max (a % 2) (b % 2)
bit_or-halves zero b = simp bit_or-bitwise (omega arith)
bit_or-halves (suc a) b = simp bit_or-bitwise (bitwise-step (λ y. y) max a b)

pub bit_and-halves : (a b : ℕ) → bit_and a b ≡ bit_and (a / 2) (b / 2) * 2 + min (a % 2) (b % 2)
bit_and-halves zero b = simp bit_and-bitwise (omega arith)
bit_and-halves (suc a) b = simp bit_and-bitwise (bitwise-step (λ y. 0) min a b)

-- Digit by digit, `|` is the maximum and `&` the minimum.
pub bit-bit_or : (k a b : ℕ) → bit (bit_or a b) k ≡ max (bit a k) (bit b k)
bit-bit_or zero a b = omega (arith, bit_or-halves a b)
bit-bit_or (suc k) a b =
    let e : bit_or a b / 2 ≡ bit_or (a / 2) (b / 2) = omega (arith, bit_or-halves a b) in
    rw e (bit-bit_or k (a / 2) (b / 2))

pub bit-bit_and : (k a b : ℕ) → bit (bit_and a b) k ≡ min (bit a k) (bit b k)
bit-bit_and zero a b = omega (arith, bit_and-halves a b)
bit-bit_and (suc k) a b =
    let e : bit_and a b / 2 ≡ bit_and (a / 2) (b / 2) = omega (arith, bit_and-halves a b) in
    rw e (bit-bit_and k (a / 2) (b / 2))

-- `|` and `&` together carry nothing: their sum is the sum.
pub bit_or-add-bit_and : (n a b : ℕ) → a ≤ n → bit_or a b + bit_and a b ≡ a + b
bit_or-add-bit_and zero zero b h = omega (arith, bit_or-bitwise 0 b, bit_and-bitwise 0 b)
bit_or-add-bit_and zero (suc a) b h = absurd (omega arith)
bit_or-add-bit_and (suc n) zero b h = bit_or-add-bit_and n zero b (omega arith)
bit_or-add-bit_and (suc n) (suc a) b h = omega (
  arith,
  bit_or-halves (suc a) b,
  bit_and-halves (suc a) b,
  bit_or-add-bit_and n (suc a / 2) (b / 2) (omega arith),
)

pub bit_and-zero : (n a : ℕ) → a ≤ n → bit_and a 0 ≡ 0
bit_and-zero n zero h = refl
bit_and-zero zero (suc a) h = absurd (omega arith)
bit_and-zero (suc n) (suc a) h =
    omega (arith, bit_and-halves (suc a) 0, bit_and-zero n (suc a / 2) (omega arith))

-- A mask of one digit tests that digit.
pub bit_and-pow : (k a : ℕ) → bit_and a (2 ^ k) ≡ bit a k * 2 ^ k
bit_and-pow zero a = omega (arith, bit_and-halves a 1, bit_and-zero (a / 2) (a / 2) (omega arith))
bit_and-pow (suc k) a =
    let even : 2 ^ suc k % 2 ≡ 0 = omega (arith, pow-suc 2 k) in
    let half : 2 ^ suc k / 2 ≡ 2 ^ k = omega (arith, pow-suc 2 k) in
    bit_and-halves a (2 ^ suc k) ∙ rw (even, half, bit_and-pow k (a / 2), pow-suc 2 k) (omega arith)

mod-double : (a k : ℕ) → a % 2 ^ suc k ≡ a / 2 % 2 ^ k * 2 + a % 2
mod-double a k =
    let e : 2 ^ suc k ≡ 2 * 2 ^ k = omega (arith, pow-suc 2 k) in
    rw e (
      omega (
        arith,
        div-div-eq-div-mul a 2 (2 ^ k),
        div-add-mod a (2 * 2 ^ k),
        div-add-mod (a / 2) (2 ^ k),
        ap (λ (t : ℕ). 2 ^ k * t) (div-div-eq-div-mul a 2 (2 ^ k)),
      ))

-- A mask of the low `k` digits is the remainder.
pub bit_and-ones : (k a : ℕ) → bit_and a (2 ^ k - 1) ≡ a % 2 ^ k
bit_and-ones zero a = omega (arith, bit_and-zero a a (omega arith))
bit_and-ones (suc k) a =
    let odd : (2 ^ suc k - 1) % 2 ≡ 1 = omega (arith, pow-suc 2 k, one-le-pow k 2) in
    let half : (2 ^ suc k - 1) / 2 ≡ 2 ^ k - 1 = omega (arith, pow-suc 2 k, one-le-pow k 2) in
    bit_and-halves a (2 ^ suc k - 1)
    ∙ rw (odd, half, bit_and-ones k (a / 2))
        (let low : min (a % 2) 1 ≡ a % 2 = omega arith in rw low (sym (mod-double a k)))

pub bit_and-le : (n a b : ℕ) → a ≤ n → bit_and a b ≤ a
bit_and-le n zero b h = omega (arith, bit_and-bitwise 0 b)
bit_and-le zero (suc a) b h = absurd (omega arith)
bit_and-le (suc n) (suc a) b h =
    omega (arith, bit_and-halves (suc a) b, bit_and-le n (suc a / 2) (b / 2) (omega arith))

pub bit_or-lt : (k a b : ℕ) → a < 2 ^ k → b < 2 ^ k → bit_or a b < 2 ^ k
bit_or-lt zero a b p q = omega (arith, bit_or-add-bit_and a a b (omega arith))
bit_or-lt (suc k) a b p q = omega (
  arith,
  pow-suc 2 k,
  bit_or-halves a b,
  bit_or-lt k (a / 2) (b / 2) (omega (arith, pow-suc 2 k)) (omega (arith, pow-suc 2 k)),
)

-- The digits of the complement of a `w`-bit word.
pub bit-complement : (w k x : ℕ) → k < w → x < 2 ^ w → bit (2 ^ w - 1 - x) k ≡ 1 - bit x k
bit-complement zero k x p q = absurd (omega arith)
bit-complement (suc w) zero x p q = omega (arith, pow-suc 2 w)
bit-complement (suc w) (suc k) x p q =
    let half : (2 ^ suc w - 1 - x) / 2 ≡ 2 ^ w - 1 - x / 2 = omega (arith, pow-suc 2 w) in
    rw half (bit-complement w k (x / 2) (omega arith) (omega (arith, pow-suc 2 w)))

-- Digits beyond the width are zero.
pub bit_above : (w k x : ℕ) → x < 2 ^ w → w ≤ k → bit x k ≡ 0
bit_above zero k x p q = let e : x ≡ 0 = omega arith in rw e (zero-bit k)
bit_above (suc w) zero x p q = absurd (omega arith)
bit_above (suc w) (suc k) x p q = bit_above w k (x / 2) (omega (arith, pow-suc 2 w)) (omega arith)

-- Numbers with the same digits are equal.
pub bit_ext : (n a b : ℕ) → a ≤ n → b ≤ n → ((k : ℕ) → bit a k ≡ bit b k) → a ≡ b
bit_ext zero a b p q h = omega arith
bit_ext (suc n) a b p q h =
    omega (arith, h 0, bit_ext n (a / 2) (b / 2) (omega arith) (omega arith) (λ k. h (suc k)))

pub le-bit_or : (a b : ℕ) → b ≤ bit_or a b
le-bit_or a b =
    omega (arith, bit_or-add-bit_and a a b (omega arith), bit_and-le a a b (omega arith))

twice-shift : (k q : ℕ) → q * 2 ^ suc k ≡ 2 * (q * 2 ^ k)
twice-shift k q = omega (arith, ap (λ (t : ℕ). q * t) (pow-suc 2 k))

-- A mask shifted by `k` masks the number shifted by `k`.
pub bit_and_shift : (k a q : ℕ) → bit_and a (q * 2 ^ k) ≡ bit_and (a / 2 ^ k) q * 2 ^ k
bit_and_shift zero a q =
    let m : q * 2 ^ 0 ≡ q = omega arith in
    let d : a / 2 ^ 0 ≡ a = omega arith in rw (m, d) (omega arith)
bit_and_shift (suc k) a q =
    let even : q * 2 ^ suc k % 2 ≡ 0 = omega (arith, twice-shift k q) in
    let half : q * 2 ^ suc k / 2 ≡ q * 2 ^ k = omega (arith, twice-shift k q) in
    let down : a / 2 / 2 ^ k ≡ a / 2 ^ suc k =
      div-div-eq-div-mul a 2 (2 ^ k) ∙ ap (λ (t : ℕ). a / t) (omega (arith, pow-suc 2 k)) in
    bit_and-halves a (q * 2 ^ suc k)
    ∙ rw (even, half, bit_and_shift k (a / 2) q, down)
        (omega (arith, ap (λ (t : ℕ). bit_and (a / 2 ^ suc k) q * t) (pow-suc 2 k)))

-- `|` of a shifted number and one that fits below is their sum.
pub bit_or_shift : (k q r : ℕ) → r < 2 ^ k → bit_or (q * 2 ^ k) r ≡ q * 2 ^ k + r
bit_or_shift zero q r h =
    let e : r ≡ 0 = omega arith in
    rw e (
      omega (
        arith,
        bit_or-add-bit_and (q * 1) (q * 1) 0 (omega arith),
        bit_and-zero (q * 1) (q * 1) (omega arith),
      ))
bit_or_shift (suc k) q r h =
    let half : q * 2 ^ suc k / 2 ≡ q * 2 ^ k = omega (arith, twice-shift k q) in
    let fits : r / 2 < 2 ^ k = omega (arith, pow-suc 2 k) in
    bit_or-halves (q * 2 ^ suc k) r
    ∙ rw (half, bit_or_shift k q (r / 2) fits) (omega (arith, twice-shift k q))

pub bit_or_comm : (a b : ℕ) → bit_or a b ≡ bit_or b a
bit_or_comm a b =
    bit_ext (bit_or a b + bit_or b a) _ _ (omega arith) (omega arith)
      λ k. omega (arith, bit-bit_or k a b, bit-bit_or k b a)
