-- ===== src/Device/Interrupts.antt =====
-- The interrupt status register and the notifications of smarteth_pci.c.
use smart_eth.Base.{
  ℕ, zero, suc, ◌-◌, ◌*◌, ◌/◌, ◌≤◌, ◌<◌, ◌≡◌, ◌≢◌, refl, arith, u32, min, max, List, [], ◌∷◌,
  if◌then◌else◌, ◌==◌,
}
use smart_eth.Base.Bits.{bit, bit-le, bit-bit_or}
use smart_eth.Base.Masks.{bit-clear}
use smart_eth.Device.{
  SmartEth, Event, msix_notify, msi_notify, pci_set_irq, mmio_read, mmio_write, write_irq_sts,
  raise_irq, write_irq_test, reg_irq_sts, reg_irq_test,
}

min-complement : (a b : ℕ) → a ≤ 1 → min a (1 - b) ≡ a * (1 - b)
min-complement zero b p = omega arith
min-complement (suc zero) b p = omega arith
min-complement (suc (suc a)) b p = absurd (omega arith)

-- The level of the INTx line after some calls, newest first.
abbrev pub line_level : List Event → ℕ
line_level [] = 0
line_level (pci_set_irq n ∷ es) = n
line_level (_ ∷ es) = line_level es

module _ {M : Type 0} where
  -- The pending interrupts.
  abbrev pub irq_sts : SmartEth M → ℕ
  irq_sts s = s.regs (reg_irq_sts / 4)

  -- Writing `v` to IRQ_STS clears the pending interrupts that are set in `v` and no other, leaves
  -- every other register alone, and without MSI-X it takes the line down just when none is left.
  irq_sts_write_one_to_clear :
      (now v k i : ℕ) (s : SmartEth M)
      → k < 32
      → i ≢ reg_irq_sts / 4
      → (let s' = mmio_write now s reg_irq_sts v in
          (bit (irq_sts s') k ≡ bit (irq_sts s) k * (1 - bit (u32 v) k))
          × (s'.regs i ≡ s.regs i)
          × (s'.events ≡ (
              if s.msix
              then s.events
              else if irq_sts s' == 0
              then pci_set_irq 0 ∷ s.events
              else s.events)))
  unfolding mmio_write write_irq_sts
  irq_sts_write_one_to_clear now v k i s h ne = (
    ground (
      arith,
      bit-clear k (irq_sts s) v h,
      min-complement (bit (irq_sts s) k) (bit (u32 v) k) (bit-le (irq_sts s) k),
    ),
    ground arith,
    ground arith,
  )

  -- A nonzero write to IRQ_TEST makes the test interrupt pending beside those that were, and
  -- sends exactly one notification: vector 1 with MSI-X, else message 0 with MSI, else the line.
  pub irq_test_raises :
      (now v k : ℕ) (s : SmartEth M)
      → v ≢ 0
      → (let s' = mmio_write now s reg_irq_test v in
          (bit (irq_sts s') k ≡ max (bit (irq_sts s) k) (bit 2 k))
          × (s'.events
              ≡ (if s.msix then msix_notify 1 else if s.msi then msi_notify 0 else pci_set_irq 1)
                ∷ s.events)
          × (s'.dma_timer ≡ s.dma_timer))
  unfolding mmio_write write_irq_test raise_irq
  irq_test_raises now v k s h =
      (ground (arith, bit-bit_or k (irq_sts s) 2), ground arith, ground arith)

  pub mmio_read-irq_sts : (s : SmartEth M) → mmio_read s reg_irq_sts ≡ irq_sts s
  unfolding mmio_read
  mmio_read-irq_sts s = refl
