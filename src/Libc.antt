-- ===== src/Libc.antt =====
-- firmware/rtos/libc_supp.c: the memory functions that FreeRTOS needs, on a memory of bytes by
-- address.
pub mod Copy
pub mod Compare
mod Tests
use smart_eth.Base.{ℕ, zero, suc, ◌+◌, ◌-◌, ◌==◌, leb, if◌then◌else◌, u8, store}

-- A signed number.
pub data ℤ : Type 0 where
  pos : ℕ → ℤ
  negsuc : ℕ → ℤ

-- The difference of two bytes as an `int`.
abbrev pub byte_diff : ℕ → ℕ → ℤ
byte_diff a b = if leb b a then pos (a - b) else negsuc (b - a - 1)

-- `memset(s, c, n)`, with the loop's counter last.
pub memset : (ℕ → ℕ) → ℕ → ℕ → ℕ → ℕ → ℕ
memset mem s c zero = mem
memset mem s c (suc n) = memset (store mem s (u8 c)) (s + 1) c n

-- `memcpy(dest, src, n)`
pub memcpy : (ℕ → ℕ) → ℕ → ℕ → ℕ → ℕ → ℕ
memcpy mem dest src zero = mem
memcpy mem dest src (suc n) = memcpy (store mem dest (mem src)) (dest + 1) (src + 1) n

-- `memcmp(s1, s2, n)`
pub memcmp : (ℕ → ℕ) → ℕ → ℕ → ℕ → ℤ
memcmp mem s1 s2 zero = pos 0
memcmp mem s1 s2 (suc n) =
    let rest = memcmp mem (s1 + 1) (s2 + 1) n in
    if mem s1 == mem s2 then rest else byte_diff (mem s1) (mem s2)
