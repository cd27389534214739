-- ===== src/PciTest/Scan/Slots.antt =====
-- What one round of the scan of pci_test.c does, on a bus whose configuration space is read
-- without side effects.
use Prim.Native.String.{String}
use smart_eth.Base.{
  ℕ, ◌*◌, ◌/◌, ◌^◌, ◌<◌, ◌≡◌, ◌≢◌, ◌∙◌, refl, ap, Bool, arith, bit_and, not32, ◌==◌, inl, inr, some,
  none, List, [], ◌∷◌, Bool-cases, true, false, ◌&&◌, ◌||◌, ◌⊎◌,
}
use smart_eth.Base.Bits.{bit}
use smart_eth.Base.Masks.{align_word}
use smart_eth.PciTest.{Machine}
use smart_eth.PciTest.Config.{config_read32, config_read16, config_read8, config_write32}
use smart_eth.PciTest.Config.Layout.{IsPlace}
use smart_eth.PciTest.Config.Halves.{
  word_address, half_at, config_read32_lem, config_read16_lem, config_write32_lem,
}
use smart_eth.PciTest.Scan.{scan_slot, claim_device, pci_mmio_base, pci_bar0, pci_command}

-- The address of a word of function 0 of a slot of bus 0.
abbrev pub slot_word : ℕ → ℕ → ℕ
slot_word dev offset = word_address 0 dev 0 offset

-- Vendor 0x1efd in the low half and device 0x0001 in the high half of the first word.
abbrev pub smarteth_id : ℕ
smarteth_id = 0x0001_1efd

-- The configuration space `cfg` of bus 0, by the addresses of its words, as the PCI specification has it
-- for the registers that the scan uses. A load from the header of function 0 of a slot, of an
-- absent one too, has no side effect. Of stores nothing is said but for the BAR0 and the COMMAND
-- of a slot with SmartEth's ids: they change no other word of configuration space, BAR0 of a
-- 4 KiB region holds a page address, and the COMMAND bits for memory space and bus master read as
-- written. The console is no part of it.
pub record ConfigBus {S : Type 0} (m : Machine S) (cfg : S → ℕ → ℕ) : Type 0 where
  pub load :
      (dev o : ℕ) (s : S)
      → dev < 32
      → o < 64
      → m.load32 (slot_word dev o) s ≡ (cfg s (slot_word dev o), s)
  pub is_word : (s : S) (a : ℕ) → cfg s a < 2 ^ 32
  pub printed : (t : String) (l : List ℕ) (s : S) (a : ℕ) → cfg (m.print t l s) a ≡ cfg s a
  pub stored_other :
      (dev o v b : ℕ) (s : S)
      → dev < 32
      → cfg s (slot_word dev 0) ≡ smarteth_id
      → (o ≡ pci_bar0) ⊎ (o ≡ pci_command)
      → slot_word dev o ≢ b
      → cfg (m.store32 (slot_word dev o) v s) b ≡ cfg s b
  pub stored_bar0 :
      (dev : ℕ) (s : S)
      → dev < 32
      → cfg s (slot_word dev 0) ≡ smarteth_id
      → cfg (m.store32 (slot_word dev pci_bar0) pci_mmio_base s) (slot_word dev pci_bar0)
        ≡ pci_mmio_base
  pub stored_command :
      (dev v : ℕ) (s : S)
      → dev < 32
      → cfg s (slot_word dev 0) ≡ smarteth_id
      → (bit (cfg (m.store32 (slot_word dev pci_command) v s) (slot_word dev pci_command)) 1
          ≡ bit v 1)
        × (bit (cfg (m.store32 (slot_word dev pci_command) v s) (slot_word dev pci_command)) 2
            ≡ bit v 2)

pub slot-IsPlace : (dev offset : ℕ) → dev < 32 → offset < 4096 → IsPlace 0 dev 0 offset
slot-IsPlace dev offset h k = record {
  bus_fits = omega arith;
  dev_fits = h;
  func_fits = omega arith;
  offset_fits = k;
}

module _ {S : Type 0} (m : Machine S) (cfg : S → ℕ → ℕ) (bus : ConfigBus m cfg) where
  pub read16 :
      (dev o : ℕ) (s : S)
      → dev < 32
      → o < 64
      → config_read16 m 0 dev 0 o s ≡ (half_at (cfg s (slot_word dev o)) o, s)
  read16 dev o s h k =
      config_read16_lem m (slot-IsPlace dev o h (omega arith)) s
      ∙ ap (λ (r : ℕ × S). let t : ℕ × S = (half_at r.0 o, r.1) in t) (bus.load dev o s h k)

  pub read32 :
      (dev o : ℕ) (s : S)
      → dev < 32
      → o < 64
      → config_read32 m 0 dev 0 o s ≡ (cfg s (slot_word dev o), s)
  read32 dev o s h k =
      config_read32_lem m (slot-IsPlace dev o h (omega arith)) s ∙ bus.load dev o s h k

  pub write32 :
      (dev o v : ℕ) (s : S)
      → dev < 32
      → o < 64
      → config_write32 m 0 dev 0 o v s ≡ m.store32 (slot_word dev o) v s
  write32 dev o v s h k = config_write32_lem m (slot-IsPlace dev o h (omega arith)) v s

  read8_state : (dev o : ℕ) (s : S) → dev < 32 → o < 64 → (config_read8 m 0 dev 0 o s).1 ≡ s
  unfolding config_read8
  read8_state dev o s h k =
      let e : bit_and o (not32 3) ≡ o / 4 * 4 = align_word o (omega arith) in
      rw (e, read32 dev (o / 4 * 4) s h (omega arith))

  -- A slot whose first word is not SmartEth's is passed over, and configuration space stays.
  pub slot_missed :
      (dev : ℕ) (s : S)
      → dev < 32
      → cfg s (slot_word dev 0) ≢ smarteth_id
      → ((scan_slot m dev s).0 ≡ none) × ((a : ℕ) → cfg (scan_slot m dev s).1 a ≡ cfg s a)
  unfolding scan_slot
  slot_missed dev s h other = rw (read16 dev 0 s h (omega arith)) (elim (Bool-cases absent) [
    | inl e ↦ rw e (refl, λ a. refl)
    | inr e ↦
        rw (e, read16 dev 2 s h (omega arith), read8_state dev 0x0E s h (omega arith), not_ours)
          (refl, λ a. bus.printed _ _ s a)
  ])
    where
      id : ℕ
      id = cfg s (slot_word dev 0)

      absent : Bool
      absent = half_at id 0 == 0xFFFF || half_at id 0 == 0x0000

      not_ours : (half_at id 0 == 0x1efd && half_at id 2 == 0x0001) ≡ false
      not_ours = ground (arith, bus.is_word s (slot_word dev 0))

  -- At SmartEth's slot the scan ends with what `claim_device` gives, configuration space unchanged
  -- so far.
  pub slot_hit :
      (dev : ℕ) (s : S)
      → dev < 32
      → cfg s (slot_word dev 0) ≡ smarteth_id
      → (t : S) × ((a : ℕ) → cfg t a ≡ cfg s a)
        × (scan_slot m dev s ≡ (some (claim_device m dev t).0, (claim_device m dev t).1))
  unfolding scan_slot
  slot_hit dev s h ours = (
    m.print "  Dev %d: vendor=0x%x device=0x%x hdr=0x%x\n"
        (dev ∷ half_at id 0 ∷ half_at id 2 ∷ (config_read8 m 0 dev 0 0x0E s).0 ∷ []) s,
    λ a. bus.printed _ _ s a,
    rw
        (
          read16 dev 0 s h (omega arith),
          present,
          read16 dev 2 s h (omega arith),
          read8_state dev 0x0E s h (omega arith),
          matches,
        )
        refl,
  )
    where
      id : ℕ
      id = cfg s (slot_word dev 0)

      present : (half_at id 0 == 0xFFFF || half_at id 0 == 0x0000) ≡ false
      present = rw ours refl

      matches : (half_at id 0 == 0x1efd && half_at id 2 == 0x0001) ≡ true
      matches = rw ours refl
