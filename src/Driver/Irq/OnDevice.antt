-- ===== src/Driver/Irq/OnDevice.antt =====
-- The driver's interrupt handler on the device of smarteth_pci.c.
use smart_eth.Base.{
  ℕ, ◌+◌, ◌/◌, ◌^◌, ◌≤◌, ◌<◌, ◌≡◌, ◌≢◌, refl, ap, ◌∙◌, arith, Bool, true, false, not, if◌then◌else◌,
  ◌==◌, has, u32, not32, bit_and, inl, inr, ◌⊎◌,
}
use smart_eth.Base.Bits.{bit-le, bit_above, bit_ext, bit-bit_and, bit_and-le, zero-bit}
use smart_eth.Base.Masks.{bit-clear}
use smart_eth.Device.{SmartEth, mmio_read, mmio_write, write_irq_sts}
use smart_eth.Device.Interrupts.{irq_sts}
use smart_eth.Driver.{
  Driver, Mmio, irq_dma_done, irq_tx_done, irq_rx, irq_test, reg_irq_sts, write_reg,
}
use smart_eth.Driver.Irq.{irq_handler, completed, count_irq}

-- BAR 0 of the device at a time.
abbrev pub device_mmio : {M : Type 0} → ℕ → Mmio (SmartEth M)
device_mmio now = record {
  read = λ s addr. mmio_read s addr;
  write = λ s addr val. mmio_write now s addr val;
}

low_or_high : (k : ℕ) → (k < 32) ⊎ (32 ≤ k)
low_or_high k = ground arith

-- `x & ~x`
clear_all : (x : ℕ) → x < 2 ^ 32 → bit_and x (not32 x) ≡ 0
clear_all x h =
    let e : u32 x ≡ x = omega arith in
    bit_ext x (bit_and x (not32 x)) 0 (bit_and-le x x (not32 x) (omega arith)) (omega arith) (λ k.
      elim (low_or_high k) [
        | inl low ↦ bit-clear k x x low ∙ rw e (omega (arith, bit-le x k, zero-bit k))
        | inr high ↦ bit-bit_and k x (not32 x) ∙ omega (arith, bit_above 32 k x h high, zero-bit k)
      ])

abbrev one_if : Bool → ℕ
one_if b = if b then 1 else 0

-- How often an interrupt with this status completes.
abbrev pub completions : ℕ → ℕ
completions sts =
    one_if (has sts irq_dma_done)
    + one_if (has sts irq_tx_done)
    + one_if (has sts irq_rx)
    + one_if (has sts irq_test)

module _ {M : Type 0} (now : ℕ) (d : Driver (SmartEth M)) where
  completed-counts :
      (sts : ℕ)
      → ((completed sts d).adapter.test_done ≡ d.adapter.test_done + completions sts)
        × ((completed sts d).adapter.irq_count ≡ d.adapter.irq_count)
        × ((completed sts d).dev ≡ d.dev)
        × ((completed sts d).held ≡ d.held)
  completed-counts sts = (ground arith, ground arith, ground arith, ground arith)

zero_or : (n : ℕ) → (n ≡ 0) ⊎ (n ≢ 0)
zero_or n = ground arith

module _ {M : Type 0} (now : ℕ) (d : Driver (SmartEth M)) where
  -- What the handler has done before it completes.
  abbrev acknowledged : Driver (SmartEth M)
  acknowledged = count_irq (write_reg (device_mmio now) reg_irq_sts (irq_sts d.dev) d)

  acknowledged_sts : irq_sts d.dev < 2 ^ 32 → irq_sts acknowledged.dev ≡ 0
  unfolding mmio_write write_irq_sts
  acknowledged_sts h = ground (arith, clear_all (irq_sts d.dev) h)

  acknowledged_regs : (i : ℕ) → i ≢ reg_irq_sts / 4 → acknowledged.dev.regs i ≡ d.dev.regs i
  unfolding mmio_write write_irq_sts
  acknowledged_regs i ne = ground arith

  handler_idle : irq_sts d.dev ≡ 0 → irq_handler (device_mmio now) d ≡ (false, d)
  unfolding irq_handler mmio_read
  handler_idle e = rw e refl

  handler_busy :
      irq_sts d.dev ≢ 0
      → irq_handler (device_mmio now) d ≡ (true, completed (irq_sts d.dev) acknowledged)
  unfolding irq_handler mmio_read
  handler_busy ne = let e : (irq_sts d.dev == 0) ≡ false = ground arith in rw e refl

  -- With a 32-bit IRQ_STS, the interrupt handler takes the interrupt as its own just when the
  -- device has one pending. It then acknowledges what it has read, so that nothing is pending
  -- and no other register changes, counts one interrupt, and completes once for each of the
  -- four causes that was pending. It takes and releases nothing of the kernel.
  pub irq_handler_acknowledges :
      (i : ℕ)
      → irq_sts d.dev < 2 ^ 32
      → i ≢ reg_irq_sts / 4
      → (let sts = irq_sts d.dev in
          let r = irq_handler (device_mmio now) d in
          (r.0 ≡ not (sts == 0))
          × (irq_sts r.1.dev ≡ 0)
          × (r.1.dev.regs i ≡ d.dev.regs i)
          × (r.1.adapter.irq_count
              ≡ (if sts == 0 then d.adapter.irq_count else d.adapter.irq_count + 1))
          × (r.1.adapter.test_done ≡ d.adapter.test_done + completions sts)
          × (r.1.held ≡ d.held))
  irq_handler_acknowledges i h ne = elim (zero_or (irq_sts d.dev)) [
    | inl none_pending ↦
        rw (handler_idle none_pending, none_pending) (refl, refl, refl, refl, omega arith, refl)
    | inr some_pending ↦
        let c = completed-counts now acknowledged (irq_sts d.dev) in
        let e : (irq_sts d.dev == 0) ≡ false = ground arith in
        rw (handler_busy some_pending, e)
          (
            refl,
            ap irq_sts c.2 ∙ acknowledged_sts h,
            ap (λ (s : SmartEth M). s.regs i) c.2 ∙ acknowledged_regs i ne,
            c.1,
            c.0,
            c.3,
          )
  ]

  -- With the interrupt of a DMA transfer alone pending.
  pub irq_handler_dma_done :
      irq_sts d.dev ≡ 1
      → irq_handler (device_mmio now) d ≡ (
        true,
        record d {
          adapter = record (d.adapter) {
            irq_count = d.adapter.irq_count + 1;
            test_done = d.adapter.test_done + 1;
          };
          dev = mmio_write now d.dev reg_irq_sts 1;
        },
      )
  unfolding irq_handler mmio_read
  irq_handler_dma_done e =
      ap
        (λ (sts : ℕ).
          if sts == 0
          then (false, d)
          else (true, completed sts (count_irq (write_reg (device_mmio now) reg_irq_sts sts d))))
        e
