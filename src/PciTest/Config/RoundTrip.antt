-- ===== src/PciTest/Config/RoundTrip.antt =====
-- A 16-bit write through pci_test.c's read-modify-write, and the readings of its halves and bytes.
use smart_eth.Base.{ℕ, ◌*◌, ◌/◌, ◌%◌, ◌^◌, ◌<◌, ◌≡◌, ◌≢◌, arith, u8, bit_and, not32, ◌⊎◌, inl, inr}
use smart_eth.Base.Bits.{bit_and-ones}
use smart_eth.Base.Masks.{align_word}
use smart_eth.PciTest.{Machine}
use smart_eth.PciTest.Config.{config_read16, config_read8, config_write16}
use smart_eth.PciTest.Config.Layout.{IsPlace}
use smart_eth.PciTest.Config.Halves.{
  word_address, half_at, with_half, config_read32_lem, config_read16_lem, config_write16_lem,
  aligned-IsPlace,
}

-- A register of the configuration space that reads as it was last written, at a physical address.
pub record IsPlainWord {S : Type 0} (m : Machine S) (address : ℕ) : Type 0 where
  pub reads_back : (v : ℕ) (s : S) → v < 2 ^ 32 → (m.load32 address (m.store32 address v s)).0 ≡ v
  pub is_word : (s : S) → (m.load32 address s).0 < 2 ^ 32

quarters : (o : ℕ) → ((o % 4 ≡ 0) ⊎ (o % 4 ≡ 1)) ⊎ ((o % 4 ≡ 2) ⊎ (o % 4 ≡ 3))
quarters o = grind arith

byte_value :
    (v o : ℕ)
    → v < 2 ^ 32
    → u8 (bit_and (v / 2 ^ (bit_and o 3 * 8)) 0xFF) ≡ half_at v o / 2 ^ (o % 2 * 8) % 2 ^ 8
byte_value v o h =
    rw (bit_and-ones 2 o, bit_and-ones 8 (v / 2 ^ (o % 2 ^ 2 * 8)))
      (elim (quarters o) [
        | inl (inl e) ↦ let f : o % 2 ≡ 0 = omega arith in rw (e, f) (ground arith)
        | inl (inr e) ↦ let f : o % 2 ≡ 1 = omega arith in rw (e, f) (ground arith)
        | inr (inl e) ↦ let f : o % 2 ≡ 0 = omega arith in rw (e, f) (ground arith)
        | inr (inr e) ↦ let f : o % 2 ≡ 1 = omega arith in rw (e, f) (ground arith)
      ])

with_half_fits : (x o val : ℕ) → x < 2 ^ 32 → val < 2 ^ 16 → with_half x o val < 2 ^ 32
with_half_fits x o val hx hv = ground arith

module _ {S : Type 0} (m : Machine S) where
  -- The byte read at an offset is the low or the high byte of the 16 bits read there, by the
  -- parity of the offset.
  pub config_read8-config_read16 :
      {b d f o : ℕ}
      → IsPlace b d f o
      → (s : S) → (m.load32 (word_address b d f o) s).0 < 2 ^ 32
      → (config_read8 m b d f o s).0 ≡ (config_read16 m b d f o s).0 / 2 ^ (o % 2 * 8) % 2 ^ 8
  unfolding config_read8
  config_read8-config_read16 {b} {d} {f} {o} p s h =
      let e : bit_and o (not32 3) ≡ o / 4 * 4 = align_word o (omega arith) in
      let a : o / 4 * 4 / 4 * 4 ≡ o / 4 * 4 = omega arith in
      rw (e, config_read32_lem m (aligned-IsPlace p) s, config_read16_lem m p s, a)
        (byte_value (m.load32 (word_address b d f o) s).0 o h)

  -- On a register that reads as written, a 16-bit write is read back, and what a 16-bit read gave
  -- in the other half of the same word is unchanged.
  pub config_read16-config_write16 :
      {b d f o o' val : ℕ}
      → IsPlace b d f o
      → IsPlace b d f o'
      → o / 4 ≡ o' / 4
      → o / 2 ≢ o' / 2
      → val < 2 ^ 16
      → IsPlainWord m (word_address b d f o)
      → (s : S)
      → ((config_read16 m b d f o (config_write16 m b d f o val s)).0 ≡ val)
        × ((config_read16 m b d f o' (config_write16 m b d f o val s)).0
            ≡ (config_read16 m b d f o' s).0)
  config_read16-config_write16 {b} {d} {f} {o} {o'} {val} p q same other h w s =
      let a : ℕ = word_address b d f o in
      let a' : word_address b d f o' ≡ a = omega arith in
      let x : ℕ = (m.load32 a s).0 in
      let y : ℕ = with_half x o val in
      rw
        (
          config_write16_lem m p h s (w.is_word s),
          config_read16_lem m p (m.store32 a y (m.load32 a s).1),
          config_read16_lem m q (m.store32 a y (m.load32 a s).1),
          config_read16_lem m q s,
          a',
          w.reads_back y (m.load32 a s).1 (with_half_fits x o val (w.is_word s) h),
        )
        (ground (arith, w.is_word s), ground (arith, w.is_word s))
