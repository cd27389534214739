-- ===== src/PciTest/Config/Halves.antt =====
-- The 16-bit and 8-bit accessors of pci_test.c within the aligned word.
use smart_eth.Base.{
  ℕ, ◌+◌, ◌*◌, ◌/◌, ◌%◌, ◌^◌, ◌<◌, ◌≡◌, ap, Bool-cases, inl, inr, arith, u16, u32, bit_and, bit_or,
  not32, has, if◌then◌else◌, ◌==◌,
}
use smart_eth.Base.Bits.{bit_or_shift, bit_or_comm}
use smart_eth.Base.Masks.{align_word, clear_low_half, clear_high_half, low_half, has-bit}
use smart_eth.PciTest.{Machine}
use smart_eth.PciTest.Config.{
  ecam_base, ecam_offset, config_read32, config_read16, config_write32, config_write16,
}
use smart_eth.PciTest.Config.Layout.{IsPlace, ecam_offset_lem}

-- The physical address of the aligned word of a place.
abbrev pub word_address : ℕ → ℕ → ℕ → ℕ → ℕ
word_address b d f o = ecam_base + (b * 2 ^ 20 + d * 2 ^ 15 + f * 2 ^ 12 + o / 4 * 4)

-- The half of a word that a 16-bit access at this offset selects.
abbrev pub half_at : ℕ → ℕ → ℕ
half_at word o = if o / 2 % 2 == 0 then word % 2 ^ 16 else word / 2 ^ 16 % 2 ^ 16

-- The word with that half replaced.
abbrev pub with_half : ℕ → ℕ → ℕ → ℕ
with_half word o val =
    if o / 2 % 2 == 0 then word / 2 ^ 16 * 2 ^ 16 + val else val * 2 ^ 16 + word % 2 ^ 16

half_value :
    (v o : ℕ) → (if has o 2 then u16 (v / 2 ^ 16) else u16 (bit_and v 0xFFFF)) ≡ half_at v o
half_value v o = ground (arith, has-bit 1 o, low_half v)

merged_value :
    (v o val : ℕ)
    → v < 2 ^ 32
    → val < 2 ^ 16
    → (let shift : ℕ = if has o 2 then 16 else 0 in
        bit_or (bit_and v (not32 (0xFFFF * 2 ^ shift))) (u32 (val * 2 ^ shift)) ≡ with_half v o val)
merged_value v o val hv h = elim (Bool-cases (has o 2)) [
  | inl e ↦
      rw
        (
          e,
          bit_or_comm (bit_and v (not32 (0xFFFF * 2 ^ 16))) (u32 (val * 2 ^ 16)),
          clear_high_half v,
        )
        (let f : u32 (val * 2 ^ 16) ≡ val * 2 ^ 16 = omega arith in
          rw (f, bit_or_shift 16 val (v % 2 ^ 16) (omega arith)) (ground (arith, has-bit 1 o)))
  | inr e ↦
      rw (e, clear_low_half v hv)
        (let f : u32 (val * 2 ^ 0) ≡ val = omega arith in
          rw (f, bit_or_shift 16 (v / 2 ^ 16) val h) (ground (arith, has-bit 1 o)))
]

pub aligned-IsPlace : {b d f o : ℕ} → IsPlace b d f o → IsPlace b d f (o / 4 * 4)
aligned-IsPlace p = record {
  bus_fits = p.bus_fits;
  dev_fits = p.dev_fits;
  func_fits = p.func_fits;
  offset_fits = omega arith;
}

module _ {S : Type 0} (m : Machine S) where
  -- Each accessor loads the aligned word once, at its ECAM address.
  pub config_read32_lem :
      {b d f o : ℕ}
      → IsPlace b d f o
      → (s : S) → config_read32 m b d f o s ≡ m.load32 (word_address b d f o) s
  unfolding config_read32
  config_read32_lem {b} {d} {f} {o} p s =
      let e : ecam_offset b d f o / 4 * 4 ≡ b * 2 ^ 20 + d * 2 ^ 15 + f * 2 ^ 12 + o / 4 * 4 =
        omega (arith, ecam_offset_lem p) in
      ap (λ (t : ℕ). m.load32 (ecam_base + t) s) e

  pub config_write32_lem :
      {b d f o : ℕ}
      → IsPlace b d f o
      → (v : ℕ) (s : S) → config_write32 m b d f o v s ≡ m.store32 (word_address b d f o) v s
  unfolding config_write32
  config_write32_lem {b} {d} {f} {o} p v s =
      let e : ecam_offset b d f o / 4 * 4 ≡ b * 2 ^ 20 + d * 2 ^ 15 + f * 2 ^ 12 + o / 4 * 4 =
        omega (arith, ecam_offset_lem p) in
      ap (λ (t : ℕ). m.store32 (ecam_base + t) v s) e

  pub config_read16_lem :
      {b d f o : ℕ}
      → IsPlace b d f o
      → (s : S)
      → (let r = m.load32 (word_address b d f o) s in
          config_read16 m b d f o s ≡ (half_at r.0 o, r.1))
  unfolding config_read16
  config_read16_lem {b} {d} {f} {o} p s =
      let e : bit_and o (not32 3) ≡ o / 4 * 4 = align_word o (omega arith) in
      let a : o / 4 * 4 / 4 * 4 ≡ o / 4 * 4 = omega arith in
      rw (e, config_read32_lem (aligned-IsPlace p) s, a)
        (ap (λ (t : ℕ). let r : ℕ × S = (t, (m.load32 (word_address b d f o) s).1) in r)
          (half_value (m.load32 (word_address b d f o) s).0 o))

  -- A 16-bit write loads the aligned word, replaces the half that the offset selects by the value
  -- and stores the word back, once each.
  pub config_write16_lem :
      {b d f o val : ℕ}
      → IsPlace b d f o
      → val < 2 ^ 16
      → (s : S) → (m.load32 (word_address b d f o) s).0 < 2 ^ 32
      → (let r = m.load32 (word_address b d f o) s in
          config_write16 m b d f o val s
          ≡ m.store32 (word_address b d f o) (with_half r.0 o val) r.1)
  unfolding config_write16
  config_write16_lem {b} {d} {f} {o} {val} p h s word =
      let e : bit_and o (not32 3) ≡ o / 4 * 4 = align_word o (omega arith) in
      let a : o / 4 * 4 / 4 * 4 ≡ o / 4 * 4 = omega arith in
      let r : ℕ × S = m.load32 (word_address b d f o) s in
      rw (e, config_write32_lem (aligned-IsPlace p), config_read32_lem (aligned-IsPlace p) s, a)
        (ap (λ (t : ℕ). m.store32 (word_address b d f o) t r.1) (merged_value r.0 o val word h))
