-- ===== src/Device/Registers.antt =====
-- What the register handlers of smarteth_pci.c do to the register file.
use smart_eth.Base.{ℕ, ◌/◌, ◌<◌, ◌≡◌, ◌≢◌, arith, u32, refl}
use smart_eth.Device.{
  SmartEth, mmio_read, mmio_write, reg_bytes, reg_ctrl, reg_irq_sts, reg_dma_ctrl, reg_irq_test,
  reg_status, reg_dev_id, smarteth_dev_id, status_ready,
}

-- The registers whose write only stores.
pub record IsPlain (addr : ℕ) : Type 0 where
  pub inside : addr < reg_bytes
  pub not_ctrl : addr ≢ reg_ctrl
  pub not_irq_sts : addr ≢ reg_irq_sts
  pub not_dma_ctrl : addr ≢ reg_dma_ctrl
  pub not_irq_test : addr ≢ reg_irq_test
  pub not_status : addr ≢ reg_status
  pub not_dev_id : addr ≢ reg_dev_id

module _ {M : Type 0} where
  -- A write to a plain register is read back as its low 32 bits, from whatever state; a register
  -- of another index keeps what it reads as, and the DMA engine, its timer and buffer, the
  -- interrupts raised so far and the memory are left alone.
  pub mmio_read-mmio_write :
      (now : ℕ) (s : SmartEth M) (a v b : ℕ)
      → IsPlain a
      → a / 4 ≢ b / 4
      → (mmio_read (mmio_write now s a v) a ≡ u32 v)
        × (mmio_read (mmio_write now s a v) b ≡ mmio_read s b)
        × ((mmio_write now s a v).dma ≡ s.dma)
        × ((mmio_write now s a v).dma_timer ≡ s.dma_timer)
        × ((mmio_write now s a v).dma_buf ≡ s.dma_buf)
        × ((mmio_write now s a v).events ≡ s.events)
        × ((mmio_write now s a v).memory ≡ s.memory)
  unfolding mmio_read mmio_write
  mmio_read-mmio_write now s a v b p ne = (
    ground arith,
    ground arith,
    ground arith,
    ground arith,
    ground arith,
    ground arith,
    ground arith,
  )

  -- DEV_ID and STATUS read the same in every state.
  pub mmio_read-constants :
      (s : SmartEth M)
      → (mmio_read s reg_dev_id ≡ smarteth_dev_id) × (mmio_read s reg_status ≡ status_ready)
  unfolding mmio_read
  mmio_read-constants s = (refl, refl)
