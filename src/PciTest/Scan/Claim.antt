-- ===== src/PciTest/Scan/Claim.antt =====
-- What pci_test.c does to the SmartEth device that its scan has found.
use smart_eth.Base.{
  ℕ, ◌-◌, ◌*◌, ◌/◌, ◌^◌, ◌<◌, ◌≡◌, ◌≢◌, ◌∙◌, sym, refl, ap, arith, bit_and, bit_or, not32,
  if◌then◌else◌, ◌==◌, inl, inr, [], ◌∷◌, Bool-cases, true, false,
}
use smart_eth.Base.Bits.{bit, bit-le, bit-bit_or, bit_and-ones, bit_and_shift, bit_or-lt}
use smart_eth.PciTest.{Machine}
use smart_eth.PciTest.Config.{config_write16}
use smart_eth.PciTest.Config.Halves.{half_at, with_half, config_write16_lem}
use smart_eth.PciTest.Scan.{
  claim_device, assign_bar0, enable_device, read_back_bar0, pci_mmio_base, pci_bar0, pci_command,
}
use smart_eth.PciTest.Scan.Slots.{
  slot_word, smarteth_id, ConfigBus, slot-IsPlace, read16, read32, write32,
}

module _ {S : Type 0} (m : Machine S) (cfg : S → ℕ → ℕ) (bus : ConfigBus m cfg) where
  -- The low four bits of BAR0 are flags.
  base-value : (x : ℕ) → x < 2 ^ 32 → bit_and x (not32 0xF) ≡ x / 16 * 16
  base-value x h = bit_and_shift 4 x (2 ^ 28 - 1) ∙ rw (bit_and-ones 28 (x / 16)) (omega arith)

  -- What `assign_bar0` leaves in BAR0, and that it changes nothing else.
  assigned :
      (dev raw : ℕ) (s : S)
      → dev < 32
      → cfg s (slot_word dev 0) ≡ smarteth_id
      → raw ≡ cfg s (slot_word dev pci_bar0)
      → (let t = assign_bar0 m dev raw s in
          (cfg t (slot_word dev pci_bar0) ≡ (if raw / 16 == 0 then pci_mmio_base else raw))
          × ((a : ℕ) → slot_word dev pci_bar0 ≢ a → cfg t a ≡ cfg s a))
  unfolding assign_bar0
  assigned dev raw s h ours now =
      rw (base-value raw small) (elim (Bool-cases (raw / 16 * 16 == 0)) [
        | inl e ↦
            let f : (raw / 16 == 0) ≡ true = ground arith in
            rw (e, f, write32 m cfg bus dev pci_bar0 pci_mmio_base told h (omega arith))
              (
                bus.stored_bar0 dev told h ours_told,
                λ a ne.
                    bus.stored_other dev pci_bar0 pci_mmio_base a told h ours_told (inl refl) ne
                    ∙ bus.printed _ _ s a,
              )
        | inr e ↦
            let f : (raw / 16 == 0) ≡ false = ground arith in rw (e, f) (sym now, λ a ne. refl)
      ])
    where
      small : raw < 2 ^ 32
      small = rw now (bus.is_word s (slot_word dev pci_bar0))

      told : S
      told = m.print "      Programming BAR0...\n" [] s

      ours_told : cfg told (slot_word dev 0) ≡ smarteth_id
      ours_told = bus.printed _ _ s (slot_word dev 0) ∙ ours

  -- Memory space and bus mastering are on afterwards, and every other word is as before.
  enabled :
      (dev : ℕ) (s : S)
      → dev < 32
      → cfg s (slot_word dev 0) ≡ smarteth_id
      → (let t = enable_device m dev s in
          (bit (cfg t (slot_word dev pci_command)) 1 ≡ 1)
          × (bit (cfg t (slot_word dev pci_command)) 2 ≡ 1)
          × ((a : ℕ) → slot_word dev pci_command ≢ a → cfg t a ≡ cfg s a))
  unfolding enable_device
  enabled dev s h ours =
      rw (read16 m cfg bus dev pci_command s h (omega arith), stored)
        (
          ap (λ (x : ℕ). bit x 1) (bus.printed _ _ t (slot_word dev pci_command))
              ∙ (bus.stored_command dev value s h ours).0
              ∙ on1,
          ap (λ (x : ℕ). bit x 2) (bus.printed _ _ t (slot_word dev pci_command))
              ∙ (bus.stored_command dev value s h ours).1
              ∙ on2,
          λ a ne.
              bus.printed _ _ t a ∙ bus.stored_other dev pci_command value a s h ours (inr refl) ne,
        )
    where
      word : ℕ
      word = cfg s (slot_word dev pci_command)

      cmd : ℕ
      cmd = bit_or (half_at word pci_command) 6

      value : ℕ
      value = with_half word pci_command cmd

      t : S
      t = m.store32 (slot_word dev pci_command) value s

      cmd_fits : cmd < 2 ^ 16
      cmd_fits = bit_or-lt 16 (half_at word pci_command) 6 (omega arith) (omega arith)

      on1 : bit value 1 ≡ 1
      on1 =
          omega
            (arith, bit-bit_or 1 (half_at word pci_command) 6, bit-le (half_at word pci_command) 1)

      on2 : bit value 2 ≡ 1
      on2 =
          omega
            (arith, bit-bit_or 2 (half_at word pci_command) 6, bit-le (half_at word pci_command) 2)

      small : (m.load32 (slot_word dev pci_command) s).0 < 2 ^ 32
      small =
          rw (bus.load dev pci_command s h (omega arith))
            (bus.is_word s (slot_word dev pci_command))

      stored : config_write16 m 0 dev 0 pci_command cmd s ≡ t
      stored =
          config_write16_lem m (slot-IsPlace dev pci_command h (omega arith)) cmd_fits s small
          ∙ ap
              (λ (r : ℕ × S).
                m.store32 (slot_word dev pci_command) (with_half r.0 pci_command cmd) r.1)
              (bus.load dev pci_command s h (omega arith))

  -- BAR0 is returned without its flags, which is 0 if it holds no address.
  read_back :
      (dev : ℕ) (s : S)
      → dev < 32
      → (let r = read_back_bar0 m dev s in
          (r.0 ≡ cfg s (slot_word dev pci_bar0) / 16 * 16) × ((a : ℕ) → cfg r.1 a ≡ cfg s a))
  unfolding read_back_bar0
  read_back dev s h =
      rw
        (
          read32 m cfg bus dev pci_bar0 s h (omega arith),
          base-value bar (bus.is_word s (slot_word dev pci_bar0)),
          base-value (bar / 16 * 16) (omega (arith, bus.is_word s (slot_word dev pci_bar0))),
        )
        (elim (Bool-cases (bar / 16 * 16 / 16 * 16 == 0)) [
          | inl e ↦ rw e (ground arith, λ a. bus.printed _ _ _ a ∙ bus.printed _ _ _ a)
          | inr e ↦ rw e (refl, λ a. bus.printed _ _ _ a ∙ bus.printed _ _ _ a)
        ])
    where
      bar : ℕ
      bar = cfg s (slot_word dev pci_bar0)

  -- The device's address is what BAR0 held, or the firmware's own if it held none; the device may
  -- then decode memory and master the bus.
  pub claim_device_lem :
      (dev : ℕ) (s : S)
      → dev < 32
      → cfg s (slot_word dev 0) ≡ smarteth_id
      → (let r = claim_device m dev s in
          let raw = cfg s (slot_word dev pci_bar0) in
          (r.0 ≡ (if raw / 16 == 0 then pci_mmio_base else raw / 16 * 16))
          × (bit (cfg r.1 (slot_word dev pci_command)) 1 ≡ 1)
          × (bit (cfg r.1 (slot_word dev pci_command)) 2 ≡ 1))
  unfolding claim_device
  claim_device_lem dev s h ours =
      let command : ℕ = slot_word dev pci_command in
      let bar0 : ℕ = slot_word dev pci_bar0 in
      let s1 : S = m.print "[PCI] Found SmartEth at Dev %d\n" (dev ∷ []) s in
      let raw : ℕ = cfg s1 bar0 in
      let s2 : S = m.print "      RAW BAR0 before = 0x%x\n" (raw ∷ []) s1 in
      let s3 : S = assign_bar0 m dev raw s2 in
      let s4 : S = enable_device m dev s3 in
      let id : ℕ = slot_word dev 0 in
      let ours2 = bus.printed _ _ s1 id ∙ bus.printed _ _ s id ∙ ours in
      let given = assigned dev raw s2 h ours2 (sym (bus.printed _ _ s1 bar0)) in
      let on = enabled dev s3 h (given.1 id (λ e. omega (arith, e)) ∙ ours2) in
      let back = read_back dev s4 h in
      let old : raw ≡ cfg s bar0 = bus.printed _ _ s bar0 in
      rw (read32 m cfg bus dev pci_bar0 s1 h (omega arith)) (
        ground (arith, back.0, on.2 bar0, given.0, old),
        ap (λ (x : ℕ). bit x 1) (back.1 command) ∙ on.0,
        ap (λ (x : ℕ). bit x 2) (back.1 command) ∙ on.1,
      )
