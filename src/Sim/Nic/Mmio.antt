-- ===== src/Sim/Nic/Mmio.antt =====
-- The registers of nic.cpp and reg_block.cpp beside those of the QEMU device smarteth_pci.c.
use smart_eth.Base.{ℕ, ◌/◌, ◌^◌, ◌<◌, ◌≡◌, ◌≢◌, ap, arith, true, false, has}
use smart_eth.Device
use smart_eth.Device.{
  SmartEth, write_ctrl, write_irq_sts, write_dma_ctrl, start_dma, write_irq_test, raise_irq,
}
use smart_eth.Sim.RegBlock
use smart_eth.Sim.Nic.{Nic, get, on_mmio_read, written, request_dma}
use smart_eth.Sim.Protocol.{sc_reg_dma_sts, sc_reg_dma_ctrl, sc_dma_start}

module _ {M : Type 0} where
  -- On the same registers and MAC address, a write of a 32-bit value leaves the registers of
  -- the simulated NIC and of the QEMU device the same, whatever the address, DMA_CTRL and the
  -- reset included.
  pub written-mmio_write :
      (now addr val i : ℕ) (n : Nic) (t : SmartEth M)
      → val < 2 ^ 32
      → n.regs.regs ≡ t.regs
      → n.regs.mac ≡ t.mac_addr
      → (written n addr val).regs.regs i ≡ (Device.mmio_write now t addr val).regs i
  unfolding written RegBlock.write Device.mmio_write write_ctrl write_irq_sts write_dma_ctrl
      start_dma write_irq_test raise_irq
  written-mmio_write now addr val i n t h same mac =
      ground (arith, ap (λ (f : ℕ → ℕ). f i) same, ap (λ (f : ℕ → ℕ). f 3) same)

  -- A read of any register but DMA_STS gives the same on both.
  pub on_mmio_read-mmio_read :
      (addr : ℕ) (n : Nic) (t : SmartEth M)
      → addr ≢ sc_reg_dma_sts
      → n.regs.regs ≡ t.regs
      → on_mmio_read n addr ≡ Device.mmio_read t addr
  unfolding on_mmio_read RegBlock.read Device.mmio_read
  on_mmio_read-mmio_read addr n t h same = ground (arith, ap (λ (f : ℕ → ℕ). f (addr / 4)) same)

-- While a transfer that the guest has started waits to be run, DMA_STS is busy in the register file and
-- reads as 0.
pub dma_sts_hides_busy :
    (n : Nic) (val : ℕ)
    → n.dma.busy ≡ false
    → has val sc_dma_start ≡ true
    → (let n' = written n sc_reg_dma_ctrl val in
        (n'.dma_pending ≡ true)
        × (get n' sc_reg_dma_sts ≡ 2)
        × (on_mmio_read n' sc_reg_dma_sts ≡ 0))
unfolding written request_dma on_mmio_read RegBlock.write RegBlock.read
dma_sts_hides_busy n val idle go = (ground arith, ground arith, ground arith)
