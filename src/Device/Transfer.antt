-- ===== src/Device/Transfer.antt =====
-- Whole transfers of smarteth_pci.c in each direction, and a copy through the internal buffer.
use smart_eth.Base.{
  ℕ, ◌≡◌, ◌∙◌, sym, true, false, arith, bit_or, min, none, ◌∷◌, ◌++◌, if◌then◌else◌, has, take,
  drop, length, take-append,
}
use smart_eth.Device.{
  SmartEth, Bus, Dma, mmio_read, reg_dma_sts, status_dma_bsy, irq_dma_done, dma_start,
  dma_dir_write, dma_irq_en, dma_buf_size,
}
use smart_eth.Device.Interrupts.{irq_sts}
use smart_eth.Device.Engine.{
  program, expire, IsWords, program-starts, done_event, expire-Finished, expire_reads,
  expire_writes,
}

-- The bytes that a transfer moves.
abbrev pub moved : Dma → ℕ
moved d = min d.len dma_buf_size

-- `pci_dma_read` fills as many bytes as it is asked for.
abbrev pub FillsLength : {M : Type 0} → Bus M → Type 0
FillsLength {M} bus = (m : M) (a n : ℕ) → length (bus.dma_read m a n) ≡ n

module _ {M : Type 0} (bus : Bus M) (now : ℕ) (s : SmartEth M) (d : Dma) where
  -- Programmed to read from the guest, the device is busy at once; when the timer has run, the
  -- first `min len 4096` bytes of its buffer are those at `src` and the rest of the buffer and
  -- the guest's memory are as before, it is idle and disarmed, and it has interrupted on vector 0
  -- exactly if DMA_IRQ_EN was set.
  pub dma_read_transfer :
      IsWords d
      → has d.ctrl dma_start ≡ true
      → has d.ctrl dma_dir_write ≡ false
      → (let t = expire bus (program now s d) in
          (mmio_read (program now s d) reg_dma_sts ≡ status_dma_bsy)
          × (t.dma_buf ≡ bus.dma_read s.memory d.src (moved d) ++ drop (moved d) s.dma_buf)
          × (t.memory ≡ s.memory)
          × (mmio_read t reg_dma_sts ≡ 0)
          × (t.dma_timer ≡ none)
          × (t.events ≡ (if has d.ctrl dma_irq_en then done_event s ∷ s.events else s.events))
          × (irq_sts t
              ≡ (if has d.ctrl dma_irq_en then bit_or (irq_sts s) irq_dma_done else irq_sts s)))
  dma_read_transfer w go dir =
      let p = program-starts now s d w go in
      ground (arith, p, expire-Finished bus (program now s d), expire_reads bus (program now s d))

  -- Programmed to write to the guest, the device puts the first `min len 4096` bytes of its buffer
  -- at `dst`, keeps the buffer, and ends as after a read.
  pub dma_write_transfer :
      IsWords d
      → has d.ctrl dma_start ≡ true
      → has d.ctrl dma_dir_write ≡ true
      → (let t = expire bus (program now s d) in
          (mmio_read (program now s d) reg_dma_sts ≡ status_dma_bsy)
          × (t.memory ≡ bus.dma_write s.memory d.dst (take (moved d) s.dma_buf))
          × (t.dma_buf ≡ s.dma_buf)
          × (mmio_read t reg_dma_sts ≡ 0)
          × (t.dma_timer ≡ none)
          × (t.events ≡ (if has d.ctrl dma_irq_en then done_event s ∷ s.events else s.events))
          × (irq_sts t
              ≡ (if has d.ctrl dma_irq_en then bit_or (irq_sts s) irq_dma_done else irq_sts s)))
  dma_write_transfer w go dir =
      let p = program-starts now s d w go in
      ground (arith, p, expire-Finished bus (program now s d), expire_writes bus (program now s d))

-- A read into the device followed by a write of the same length copies the guest's bytes from
-- `src` of the first transfer to `dst` of the second, up to 4096 of them.
pub dma_copies :
    {M : Type 0} (bus : Bus M) (now later : ℕ) (s : SmartEth M) (d e : Dma)
    → FillsLength bus
    → IsWords d
    → IsWords e
    → has d.ctrl dma_start ≡ true
    → has d.ctrl dma_dir_write ≡ false
    → has e.ctrl dma_start ≡ true
    → has e.ctrl dma_dir_write ≡ true
    → e.len ≡ d.len
    → (expire bus (program later (expire bus (program now s d)) e)).memory
      ≡ bus.dma_write s.memory e.dst (bus.dma_read s.memory d.src (moved d))
dma_copies bus now later s d e fills wd we dgo dread ego ewrite same =
    let t = expire bus (program now s d) in
    let r = dma_read_transfer bus now s d wd dgo dread in
    let w = dma_write_transfer bus later t e we ego ewrite in
    let bytes = bus.dma_read s.memory d.src (moved d) in
    let front : take (moved e) t.dma_buf ≡ bytes =
      rw (same, r.1) (take-append bytes _ _ (sym (fills s.memory d.src (moved d)))) in
    w.1 ∙ rw (front, r.2)
