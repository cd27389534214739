-- ===== src/PciTest/Config/Layout.antt =====
-- Where the accessors of pci_test.c look: the ECAM offset of a register of a function.
use smart_eth.Base.{ℕ, ◌+◌, ◌*◌, ◌/◌, ◌^◌, ◌<◌, ◌≡◌, arith, u32}
use smart_eth.Base.Masks.{align_word, bit_or_fields}
use smart_eth.PciTest.Config.{ecam_offset}

-- A register of a function of PCI: bus, device, function and byte offset in range.
pub record IsPlace (bus dev func offset : ℕ) : Type 0 where
  pub bus_fits : bus < 256
  pub dev_fits : dev < 32
  pub func_fits : func < 8
  pub offset_fits : offset < 4096

-- The four fields stand side by side, the offset rounded down to a whole word.
pub ecam_offset_lem :
    {b d f o : ℕ}
    → IsPlace b d f o
    → ecam_offset b d f o ≡ b * 2 ^ 20 + d * 2 ^ 15 + f * 2 ^ 12 + o / 4 * 4
unfolding ecam_offset
ecam_offset_lem {b} {d} {f} {o} p =
    let eb : u32 (b * 2 ^ 20) ≡ b * 2 ^ 20 = omega arith in
    let ed : u32 (d * 2 ^ 15) ≡ d * 2 ^ 15 = omega arith in
    let ef : u32 (f * 2 ^ 12) ≡ f * 2 ^ 12 = omega arith in
    rw (eb, ed, ef, align_word o (omega arith))
      (bit_or_fields b d f (o / 4 * 4) (omega arith) (omega arith) (omega arith))

-- Two places in range share an ECAM offset only if they are the same function and the same word
-- of its configuration space, and every offset lies within the 256 MiB of bus 0 to 255.
ecam_offset-injective :
    {b d f o b' d' f' o' : ℕ}
    → IsPlace b d f o
    → IsPlace b' d' f' o'
    → ecam_offset b d f o ≡ ecam_offset b' d' f' o'
    → (b ≡ b') × (d ≡ d') × (f ≡ f') × (o / 4 ≡ o' / 4) × (ecam_offset b d f o < 2 ^ 28)
ecam_offset-injective p q e =
    let x = ecam_offset_lem p in
    let y = ecam_offset_lem q in (omega arith, omega arith, omega arith, omega arith, omega arith)
