-- ===== src/PciTest/Config.antt =====
-- The ECAM accessors of pci_test.c, and the scan of bus 0.
pub mod Layout
pub mod Halves
pub mod RoundTrip
use smart_eth.Base.{
  ℕ, zero, suc, ◌+◌, ◌-◌, ◌*◌, ◌/◌, ◌%◌, ◌^◌, ◌≡◌, Bool, true, false, ◌&&◌, ◌||◌, bit_and, bit_or,
  List, [], ◌∷◌, ◌==◌, if◌then◌else◌, u8, u16, u32, not32, has,
}
use smart_eth.PciTest.{Machine, Io, ◌>>=◌, ◌>>◌, pure, peek, poke}

abbrev pub ecam_base : ℕ
ecam_base = 0x30000000

-- The byte offset that the four accessors build.
unfoldable pub ecam_offset : ℕ → ℕ → ℕ → ℕ → ℕ
ecam_offset bus dev func offset =
    bit_or (bit_or (bit_or (u32 (bus * 2 ^ 20)) (u32 (dev * 2 ^ 15))) (u32 (func * 2 ^ 12)))
      (bit_and offset (not32 3))

module _ {S : Type 0} (m : Machine S) where
  unfoldable pub config_read32 : ℕ → ℕ → ℕ → ℕ → Io S ℕ
  config_read32 bus dev func offset = peek m ecam_base (ecam_offset bus dev func offset)

  unfoldable pub config_read16 : ℕ → ℕ → ℕ → ℕ → Io S ℕ
  config_read16 bus dev func offset = do
    val ← config_read32 bus dev func (bit_and offset (not32 3))
    pure (if has offset 2 then u16 (val / 2 ^ 16) else u16 (bit_and val 0xFFFF))

  unfoldable pub config_read8 : ℕ → ℕ → ℕ → ℕ → Io S ℕ
  config_read8 bus dev func offset = do
    val ← config_read32 bus dev func (bit_and offset (not32 3))
    pure (u8 (bit_and (val / 2 ^ (bit_and offset 3 * 8)) 0xFF))

  unfoldable pub config_write32 : ℕ → ℕ → ℕ → ℕ → ℕ → S → S
  config_write32 bus dev func offset val = poke m ecam_base (ecam_offset bus dev func offset) val

  unfoldable pub config_write16 : ℕ → ℕ → ℕ → ℕ → ℕ → S → S
  config_write16 bus dev func offset val s =
      let aligned = bit_and offset (not32 3) in
      let shift = if has offset 2 then 16 else 0 in
      let r = config_read32 bus dev func aligned s in
      config_write32 bus dev func aligned
        (bit_or (bit_and r.0 (not32 (0xFFFF * 2 ^ shift))) (u32 (val * 2 ^ shift))) r.1
