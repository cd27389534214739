-- ===== src/Libc/Copy.antt =====
-- What memset and memcpy of libc_supp.c leave in memory.
use smart_eth.Base.{
  ℕ, zero, suc, ◌+◌, ◌-◌, ◌≤◌, ◌≡◌, ◌∙◌, ◌⊎◌, arith, ◌&&◌, leb, ltb, if◌then◌else◌, u8, store,
}
use smart_eth.Libc.{memset, memcpy}

-- memset fills its `n` bytes with the low byte of `c` and changes no other.
pub memset_lem :
    (n : ℕ) (mem : ℕ → ℕ) (s c a : ℕ)
    → memset mem s c n a ≡ (if leb s a && ltb a (s + n) then u8 c else mem a)
unfolding memset
memset_lem zero mem s c a = ground arith
memset_lem (suc n) mem s c a = memset_lem n (store mem s (u8 c)) (s + 1) c a ∙ ground arith

-- memcpy from low to high addresses is a copy of the bytes that were there before, also where the
-- source overlaps the destination from above, and changes no other byte.
pub memcpy_lem :
    (n : ℕ) (mem : ℕ → ℕ) (dest src a : ℕ)
    → (dest ≤ src) ⊎ (src + n ≤ dest)
    → memcpy mem dest src n a
      ≡ (if leb dest a && ltb a (dest + n) then mem (src + (a - dest)) else mem a)
unfolding memcpy
memcpy_lem zero mem dest src a apart = ground arith
memcpy_lem (suc n) mem dest src a apart =
    memcpy_lem n (store mem dest (mem src)) (dest + 1) (src + 1) a (ground arith) ∙ grind arith
