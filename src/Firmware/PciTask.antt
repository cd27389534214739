-- ===== src/Firmware/PciTask.antt =====
-- vTaskPciTest of main.c: the scan decides whether the suite runs, and where.
use smart_eth.Base.{
  ℕ, ◌*◌, ◌/◌, ◌<◌, ◌≡◌, ◌≢◌, ◌∙◌, sym, ap, arith, ◌==◌, if◌then◌else◌, if_true, if_false, false,
  true,
}
use smart_eth.Base.Bits.{bit}
use smart_eth.PciTest.{Machine}
use smart_eth.PciTest.Scan.{pci_scan, pci_mmio_base, pci_bar0, pci_command}
use smart_eth.PciTest.Scan.Slots.{slot_word, smarteth_id, ConfigBus}
use smart_eth.PciTest.Scan.First.{pci_scan_absent, pci_scan_first}
use smart_eth.PciTest.Suite.{run_tests}
use smart_eth.Firmware.{Kernel, pci_test_task, with_device, pci_banner, say, delay_ms}

module _ {S : Type 0} (m : Machine S) (kernel : Kernel S) (cfg : S → ℕ → ℕ) (bus : ConfigBus m cfg)
    (delayed : (n : ℕ) (s : S) (a : ℕ) → cfg (m.delay n s) a ≡ cfg s a) where
  before-scan : (s : S) (a : ℕ) → cfg (pci_banner m (delay_ms m 1000 s)) a ≡ cfg s a
  unfolding pci_banner
  before-scan s a =
      bus.printed _ _ _ a
      ∙ bus.printed _ _ _ a
      ∙ bus.printed _ _ _ a
      ∙ bus.printed _ _ _ a
      ∙ delayed _ s a

  abbrev pub said_complete : S → S
  said_complete s = say m "[PCI] Test task complete, deleting self.\n" s

  -- On any population of bus 0: if no slot holds SmartEth's ids, the task runs no test, and every
  -- register of configuration space is as before when it deletes itself.
  pub pci_test_task-absent :
      (s : S)
      → ((e : ℕ) → e < 32 → cfg s (slot_word e 0) ≢ smarteth_id)
      → (t : S) × (pci_test_task m kernel s ≡ kernel.delete_self t) × ((a : ℕ) → cfg t a ≡ cfg s a)
  unfolding pci_test_task with_device
  pci_test_task-absent s miss =
      let s0 = pci_banner m (delay_ms m 1000 s) in
      let r = pci_scan m s0 in
      let absent : (a : ℕ) → (r.0 ≡ 0) × (cfg r.1 a ≡ cfg s0 a) = λ a.
        pci_scan_absent m cfg bus s0 a
          (λ e lt h. miss e lt (sym (before-scan s (slot_word e 0)) ∙ h)) in
      let notice : S = say m "[PCI] SmartEth device not present (expected without -device)\n" r.1 in
      let none_there : (r.0 == 0) ≡ true = ground (arith, (absent 0).0) in
      (
        said_complete notice,
        ap (λ (x : S). kernel.delete_self (said_complete x)) (if_true _ _ none_there),
        λ a. bus.printed _ _ notice a ∙ bus.printed _ _ r.1 a ∙ (absent a).1 ∙ before-scan s a,
      )

  -- If a slot holds them, the task runs the suite on the first such slot, with memory space and
  -- bus mastering of the slot enabled, at the address in its BAR0 or at the one that the scan
  -- programs where there was none, and then deletes itself.
  pub pci_test_task-present :
      (s : S) (d : ℕ)
      → d < 32
      → ((e : ℕ) → e < d → cfg s (slot_word e 0) ≢ smarteth_id)
      → cfg s (slot_word d 0) ≡ smarteth_id
      → (t : S) × (let raw = cfg s (slot_word d pci_bar0) in
          let bar0 = (if raw / 16 == 0 then pci_mmio_base else raw / 16 * 16) in
          pci_test_task m kernel s ≡ kernel.delete_self (said_complete (run_tests m bar0 t).1))
        × (bit (cfg t (slot_word d pci_command)) 1 ≡ 1)
        × (bit (cfg t (slot_word d pci_command)) 2 ≡ 1)
  unfolding pci_test_task with_device
  pci_test_task-present s d h miss ours =
      let s0 = pci_banner m (delay_ms m 1000 s) in
      let r = pci_scan m s0 in
      let raw = cfg s (slot_word d pci_bar0) in
      let (address, nonzero, space, master) =
        pci_scan_first m cfg bus s0 d h
          (λ e lt same. miss e lt (sym (before-scan s (slot_word e 0)) ∙ same))
          (before-scan s (slot_word d 0) ∙ ours) in
      let there : (r.0 == 0) ≡ false = ground (arith, nonzero) in
      let bar0 : r.0 ≡ (if raw / 16 == 0 then pci_mmio_base else raw / 16 * 16) =
        address
        ∙ ap (λ (x : ℕ). if x / 16 == 0 then pci_mmio_base else x / 16 * 16)
            (before-scan s (slot_word d pci_bar0)) in
      (
        r.1,
        ap (λ (x : S). kernel.delete_self (said_complete x))
            (if_false _ _ there ∙ ap (λ (x : ℕ). (run_tests m x r.1).1) bar0),
        space,
        master,
      )
