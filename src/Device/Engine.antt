-- ===== src/Device/Engine.antt =====
-- A whole transfer of the DMA engine of smarteth_pci.c: four register writes, then the timer.
use smart_eth.Base.{
  Option, Bool, ℕ, ◌+◌, ◌<◌, ◌≡◌, ◌^◌, ◌∙◌, true, false, arith, not32, bit_and, bit_or, min, none,
  some, ◌∷◌, ◌++◌, if◌then◌else◌, has, take, drop,
}
use smart_eth.Base.Bits.{bit-le}
use smart_eth.Base.Masks.{bit-clear, has-bit}
use smart_eth.Device.{
  SmartEth, Bus, Dma, Event, msix_notify, msi_notify, pci_set_irq, mmio_read, mmio_write,
  write_dma_ctrl, raise_irq, transfer, finish_dma, dma_timer_cb, reg_dma_src, reg_dma_dst,
  reg_dma_len, reg_dma_ctrl, reg_dma_sts, status_dma_bsy, irq_dma_done, dma_start, dma_dir_write,
  dma_irq_en, dma_buf_size,
}
use smart_eth.Device.Interrupts.{irq_sts}

-- Clearing DMA_START reads as not set, and the other two bits stay.
pub has-clear_start :
    (c : ℕ)
    → (has (bit_and c (not32 dma_start)) dma_start ≡ false)
      × (has (bit_and c (not32 dma_start)) dma_irq_en ≡ has c dma_irq_en)
has-clear_start c = (
  has-bit 0 (bit_and c (not32 1)) ∙ rw (bit-clear 0 c 1 (omega arith)) (ground (arith, bit-le c 0)),
  has-bit 2 (bit_and c (not32 1))
      ∙ rw (bit-clear 2 c 1 (omega arith), has-bit 2 c) (ground (arith, bit-le c 2)),
)

abbrev pub armed : Option ℕ → Bool
armed none = false
armed (some t) = true

module _ {M : Type 0} where
  -- A driver programs a transfer.
  unfoldable pub program : ℕ → SmartEth M → Dma → SmartEth M
  program now s d =
      mmio_write now
        (mmio_write now (mmio_write now (mmio_write now s reg_dma_src d.src) reg_dma_dst d.dst)
          reg_dma_len d.len)
        reg_dma_ctrl d.ctrl

  -- QEMU runs the callback of an armed timer and disarms it.
  unfoldable pub expire : Bus M → SmartEth M → SmartEth M
  expire bus s = dma_timer_cb bus (record s { dma_timer = none })

-- The timer of the device when its time has come: only an armed one runs.
unfoldable pub run_timer : {M : Type 0} → Bus M → SmartEth M → SmartEth M
unfolding expire
run_timer bus s = if armed s.dma_timer then expire bus s else s

pub record IsWords (d : Dma) : Type 0 where
  pub src_word : d.src < 2 ^ 32
  pub dst_word : d.dst < 2 ^ 32
  pub len_word : d.len < 2 ^ 32
  pub ctrl_word : d.ctrl < 2 ^ 32

module _ {M : Type 0} (now : ℕ) (s : SmartEth M) (d : Dma) (w : IsWords d)
    (go : has d.ctrl dma_start ≡ true) where
  pub program-starts :
      ((program now s d).dma ≡ d)
      × ((program now s d).dma_timer ≡ some (now + 1))
      × (mmio_read (program now s d) reg_dma_sts ≡ status_dma_bsy)
      × ((program now s d).memory ≡ s.memory)
      × ((program now s d).dma_buf ≡ s.dma_buf)
      × ((program now s d).events ≡ s.events)
      × ((program now s d).msix ≡ s.msix)
      × ((program now s d).msi ≡ s.msi)
      × (irq_sts (program now s d) ≡ irq_sts s)
  unfolding program mmio_read mmio_write write_dma_ctrl
  program-starts = (
    ground arith,
    ground arith,
    ground arith,
    ground arith,
    ground arith,
    ground arith,
    ground arith,
    ground arith,
    ground arith,
  )

-- The interrupt that a completed transfer sends: vector 0, message 0 or the line.
abbrev pub done_event : {M : Type 0} → SmartEth M → Event
done_event s = if s.msix then msix_notify 0 else if s.msi then msi_notify 0 else pci_set_irq 1

module _ {M : Type 0} (bus : Bus M) where
  -- What holds after the callback of a transfer that is under way, in either direction.
  pub record Finished (s t : SmartEth M) : Type 0 where
    pub idle : mmio_read t reg_dma_sts ≡ 0
    pub stopped : has t.dma.ctrl dma_start ≡ false
    pub disarmed : t.dma_timer ≡ none
    pub told : t.events ≡ (if has s.dma.ctrl dma_irq_en then done_event s ∷ s.events else s.events)
    pub pending :
        irq_sts t
        ≡ (if has s.dma.ctrl dma_irq_en then bit_or (irq_sts s) irq_dma_done else irq_sts s)

  pub expire-Finished :
      (s : SmartEth M) → has s.dma.ctrl dma_start ≡ true → Finished s (expire bus s)
  unfolding expire dma_timer_cb transfer finish_dma raise_irq mmio_read
  expire-Finished s h = record {
    idle = ground (arith, has-clear_start s.dma.ctrl);
    stopped = ground (arith, has-clear_start s.dma.ctrl);
    disarmed = ground (arith, has-clear_start s.dma.ctrl);
    told = ground (arith, has-clear_start s.dma.ctrl);
    pending = ground (arith, has-clear_start s.dma.ctrl);
  }

  pub expire_reads :
      (s : SmartEth M)
      → has s.dma.ctrl dma_start ≡ true
      → has s.dma.ctrl dma_dir_write ≡ false
      → ((expire bus s).dma_buf
          ≡ bus.dma_read s.memory s.dma.src (min s.dma.len dma_buf_size)
            ++ drop (min s.dma.len dma_buf_size) s.dma_buf)
        × ((expire bus s).memory ≡ s.memory)
  unfolding expire dma_timer_cb transfer finish_dma raise_irq
  expire_reads s h r = (ground arith, ground arith)

  pub expire_writes :
      (s : SmartEth M)
      → has s.dma.ctrl dma_start ≡ true
      → has s.dma.ctrl dma_dir_write ≡ true
      → ((expire bus s).memory
          ≡ bus.dma_write s.memory s.dma.dst (take (min s.dma.len dma_buf_size) s.dma_buf))
        × ((expire bus s).dma_buf ≡ s.dma_buf)
  unfolding expire dma_timer_cb transfer finish_dma raise_irq
  expire_writes s h r = (ground arith, ground arith)

  pub expire_idle :
      (s : SmartEth M)
      → has s.dma.ctrl dma_start ≡ false
      → expire bus s ≡ record s { dma_timer = none }
  unfolding expire dma_timer_cb
  expire_idle s h = ground arith
