-- ===== src/PciTest/Scan/First.antt =====
-- The result of `smarteth_pci_scan` of pci_test.c on any population of bus 0.
use smart_eth.Base.{
  ℕ, zero, suc, ◌+◌, ◌/◌, ◌*◌, ◌≤◌, ◌<◌, ◌≡◌, ◌≢◌, ◌∙◌, refl, arith, if◌then◌else◌, ◌==◌, [],
}
use smart_eth.Base.Bits.{bit}
use native.Mathlib.Decide.{dec_lt}
use smart_eth.PciTest.{Machine}
use smart_eth.PciTest.Scan.{
  scan_slot, scan_from, pci_scan, claim_device, pci_mmio_base, pci_bar0, pci_command,
}
use smart_eth.PciTest.Scan.Slots.{slot_word, smarteth_id, ConfigBus, slot_missed, slot_hit}
use smart_eth.PciTest.Scan.Claim.{claim_device_lem}

module _ {S : Type 0} (m : Machine S) (cfg : S → ℕ → ℕ) (bus : ConfigBus m cfg) where
  scan_from-none :
      (left dev : ℕ) (s : S)
      → dev + left ≤ 32
      → ((e : ℕ) → e < dev + left → cfg s (slot_word e 0) ≢ smarteth_id)
      → ((scan_from m left dev s).0 ≡ 0) × ((a : ℕ) → cfg (scan_from m left dev s).1 a ≡ cfg s a)
  unfolding scan_from
  scan_from-none zero dev s h miss = (refl, λ a. bus.printed _ _ s a)
  scan_from-none (suc left) dev s h miss =
      let p = slot_missed m cfg bus dev s (omega arith) (miss dev (omega arith)) in
      let t : S = (scan_slot m dev s).1 in
      let rest =
        scan_from-none left (dev + 1) t (omega arith)
          (λ e le. rw (p.1 (slot_word e 0)) (miss e (omega arith))) in
      rw p.0 (rest.0, λ a. rest.1 a ∙ p.1 a)

  scan_from-hit :
      (left dev d : ℕ) (s : S)
      → dev + left ≤ 32
      → dev ≤ d
      → d < dev + left
      → ((e : ℕ) → e < d → cfg s (slot_word e 0) ≢ smarteth_id)
      → cfg s (slot_word d 0) ≡ smarteth_id
      → (t : S) × ((a : ℕ) → cfg t a ≡ cfg s a) × (scan_from m left dev s ≡ claim_device m d t)
  unfolding scan_from
  scan_from-hit zero dev d s h le lt miss ours = absurd (omega arith)
  scan_from-hit (suc left) dev d s h le lt miss ours = elim (dec_lt dev d) [
    | yes before ↦
        let p = slot_missed m cfg bus dev s (omega arith) (miss dev before) in
        let t : S = (scan_slot m dev s).1 in
        let rest =
          scan_from-hit left (dev + 1) d t (omega arith) (omega arith) (omega arith)
            (λ e le'. rw (p.1 (slot_word e 0)) (miss e le')) (p.1 (slot_word d 0) ∙ ours) in
        (rest.0, (λ a. rest.1 a ∙ p.1 a), rw p.0 rest.2)
    | no here ↦
        let same : dev ≡ d = omega arith in
        let r = slot_hit m cfg bus d s (omega arith) ours in (r.0, r.1, rw (same, r.2) refl)
  ]

  -- If no slot of bus 0 holds SmartEth's ids the scan returns 0 and no register of configuration
  -- space has changed.
  pub pci_scan_absent :
      (s : S) (a : ℕ)
      → ((e : ℕ) → e < 32 → cfg s (slot_word e 0) ≢ smarteth_id)
      → ((pci_scan m s).0 ≡ 0) × (cfg (pci_scan m s).1 a ≡ cfg s a)
  unfolding pci_scan
  pci_scan_absent s a miss =
      let t : S = m.print "[PCI] Scanning for SmartEth device...\n" [] s in
      let r =
        scan_from-none 32 0 t (omega arith)
          (λ e lt. rw (bus.printed _ _ s (slot_word e 0)) (miss e lt)) in
      (r.0, r.1 a ∙ bus.printed _ _ s a)

  -- Otherwise the scan takes the first slot that holds them: it returns the address in that
  -- slot's BAR0, or the one that it programs where there was none, never 0, and leaves memory
  -- space and bus mastering of that slot enabled.
  pub pci_scan_first :
      (s : S) (d : ℕ)
      → d < 32
      → ((e : ℕ) → e < d → cfg s (slot_word e 0) ≢ smarteth_id)
      → cfg s (slot_word d 0) ≡ smarteth_id
      → (let r = pci_scan m s in
          let raw = cfg s (slot_word d pci_bar0) in
          (r.0 ≡ (if raw / 16 == 0 then pci_mmio_base else raw / 16 * 16))
          × (r.0 ≢ 0)
          × (bit (cfg r.1 (slot_word d pci_command)) 1 ≡ 1)
          × (bit (cfg r.1 (slot_word d pci_command)) 2 ≡ 1))
  unfolding pci_scan
  pci_scan_first s d h miss ours =
      let t : S = m.print "[PCI] Scanning for SmartEth device...\n" [] s in
      let found =
        scan_from-hit 32 0 d t (omega arith) (omega arith) h
          (λ e lt. rw (bus.printed _ _ s (slot_word e 0)) (miss e lt))
          (bus.printed _ _ s (slot_word d 0) ∙ ours) in
      let bar = found.1 (slot_word d pci_bar0) ∙ bus.printed _ _ s (slot_word d pci_bar0) in
      let c =
        claim_device_lem m cfg bus d found.0 h
          (found.1 (slot_word d 0) ∙ bus.printed _ _ s (slot_word d 0) ∙ ours) in
      rw found.2 (ground (arith, c.0, bar), ground (arith, c.0, bar), c.1, c.2)
