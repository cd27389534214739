-- ===== src/Driver/Probe.antt =====
-- smarteth_probe and smarteth_remove of smarteth_main.c, from its end to its beginning.
pub mod Unwinding
use smart_eth.Base.{
  ℕ, ◌+◌, ◌-◌, ◌==◌, Bool, true, false, not, ◌||◌, Option, none, some, store, if◌then◌else◌,
}
use smart_eth.Driver.{
  Driver, Adapter, Held, Desc, Mmio, read_reg, write_reg, lower_32_bits, upper_32_bits, ring_size,
  enomem, enodev, dev_id, reg_dev_id, reg_irq_en, reg_tx_ring_base_lo, reg_tx_ring_base_hi,
  reg_tx_ring_size, reg_rx_ring_base_lo, reg_rx_ring_base_hi, reg_rx_ring_size, reg_rx_doorbell,
}
use smart_eth.Driver.Buffers.{BufferAnswer, prepare_rx_buffers, free_rx_buffers}

-- The kernel's answers to the calls of the probe: an error or `none`, or whether an allocation
-- succeeds, or the bus address of a ring.
pub record Kernel : Type 0 where
  pub adapter : Bool
  pub enable : Option ℕ
  pub dma_mask : Option ℕ
  pub region : Option ℕ
  pub iomap : Bool
  pub vectors : Option ℕ
  pub irq : Option ℕ
  pub tx_ring : Option ℕ
  pub rx_ring : Option ℕ
  pub rx_buf : Bool
  pub rx_dma : Bool
  pub buffers : ℕ → BufferAnswer

-- A ring after `memset`.
abbrev pub empty_ring : ℕ → Desc
empty_ring i = record { addr = 0; len = 0; flags = 0 }

-- The adapter of devm_kzalloc.
abbrev pub new_adapter : Adapter
new_adapter = record {
  tx_ring = empty_ring;
  tx_ring_dma = 0;
  tx_head = 0;
  rx_ring = empty_ring;
  rx_ring_dma = 0;
  rx_buf = λ _. none;
  rx_dma = λ _. 0;
  test_done = 0;
  irq_count = 0;
}

module _ {D : Type 0} where
  -- The labels of the error paths.
  abbrev pub err_disable : ℕ → Driver D → Option ℕ × Driver D
  err_disable e d = (some e, record d { held = record (d.held) { enabled = false } })

  abbrev pub err_release : ℕ → Driver D → Option ℕ × Driver D
  err_release e d = err_disable e (record d { held = record (d.held) { region = false } })

  abbrev pub err_iounmap : ℕ → Driver D → Option ℕ × Driver D
  err_iounmap e d = err_release e (record d { held = record (d.held) { iomap = false } })

  abbrev pub err_vectors : ℕ → Driver D → Option ℕ × Driver D
  err_vectors e d = err_iounmap e (record d { held = record (d.held) { vectors = false } })

  abbrev pub err_irq : ℕ → Driver D → Option ℕ × Driver D
  err_irq e d = err_vectors e (record d { held = record (d.held) { irq = false } })

  -- A call that gives an error, with the label for it and what follows where there is none.
  abbrev pub or_goto :
      Option ℕ
      → (ℕ → Driver D → Option ℕ × Driver D)
      → Driver D
      → (Driver D → Option ℕ × Driver D)
      → Option ℕ × Driver D
  or_goto none label d next = next d
  or_goto (some e) label d next = label e d

  -- dmam_alloc_coherent
  abbrev pub ring_or_goto :
      Option ℕ → Driver D → (ℕ → Driver D → Option ℕ × Driver D) → Option ℕ × Driver D
  ring_or_goto none d next = err_irq enomem d
  ring_or_goto (some dma) d next = next dma d

module _ {D : Type 0} (mmio : Mmio D) (k : Kernel) where
  -- The rings and the interrupts of the NIC.
  unfoldable pub configure_nic : Driver D → Driver D
  configure_nic d =
      let tx = d.adapter.tx_ring_dma in
      let rx = d.adapter.rx_ring_dma in
      let d1 = write_reg mmio reg_tx_ring_base_lo (lower_32_bits tx) d in
      let d2 = write_reg mmio reg_tx_ring_base_hi (upper_32_bits tx) d1 in
      let d3 = write_reg mmio reg_tx_ring_size ring_size d2 in
      let d4 = write_reg mmio reg_rx_ring_base_lo (lower_32_bits rx) d3 in
      let d5 = write_reg mmio reg_rx_ring_base_hi (upper_32_bits rx) d4 in
      let d6 = write_reg mmio reg_rx_ring_size ring_size d5 in
      let d7 = write_reg mmio reg_irq_en 0xF d6 in write_reg mmio reg_rx_doorbell ring_size d7

  -- Behind smarteth_prepare_rx_buffers.
  abbrev pub probe_prepared : Option ℕ × Driver D → Option ℕ × Driver D
  probe_prepared (none, d) = (none, configure_nic d)
  probe_prepared (some e, d) = err_irq e d

  abbrev pub probe_arrays : Driver D → Option ℕ × Driver D
  probe_arrays d =
      if not k.rx_buf || not k.rx_dma
      then err_irq enomem d
      else probe_prepared (prepare_rx_buffers k.buffers d)

  abbrev pub probe_rx_ring : Driver D → Option ℕ × Driver D
  probe_rx_ring d = ring_or_goto k.rx_ring d (λ dma d'.
      probe_arrays
        (record d' { adapter = record (d'.adapter) { rx_ring = empty_ring; rx_ring_dma = dma } }))

  abbrev pub probe_tx_ring : Driver D → Option ℕ × Driver D
  probe_tx_ring d = ring_or_goto k.tx_ring d (λ dma d'.
      probe_rx_ring
        (record d' { adapter = record (d'.adapter) { tx_ring = empty_ring; tx_ring_dma = dma } }))

  abbrev pub probe_irq : Driver D → Option ℕ × Driver D
  probe_irq d =
      or_goto k.irq err_vectors d
        (λ d'. probe_tx_ring (record d' { held = record (d'.held) { irq = true } }))

  abbrev pub probe_vectors : Driver D → Option ℕ × Driver D
  probe_vectors d =
      or_goto k.vectors err_iounmap d
        (λ d'. probe_irq (record d' { held = record (d'.held) { vectors = true } }))

  abbrev pub probe_dev_id : Driver D → Option ℕ × Driver D
  probe_dev_id d =
      if read_reg mmio d reg_dev_id == dev_id then probe_vectors d else err_iounmap enodev d

  abbrev pub probe_iomap : Driver D → Option ℕ × Driver D
  probe_iomap d =
      if k.iomap
      then probe_dev_id (record d { held = record (d.held) { iomap = true } })
      else err_release enomem d

  abbrev pub probe_region : Driver D → Option ℕ × Driver D
  probe_region d =
      or_goto k.region err_disable d
        (λ d'. probe_iomap (record d' { held = record (d'.held) { region = true } }))

  abbrev pub probe_enabled : Driver D → Option ℕ × Driver D
  probe_enabled d = or_goto k.dma_mask err_disable d probe_region

  -- smarteth_probe
  unfoldable pub probe : Driver D → Option ℕ × Driver D
  probe d =
      if k.adapter
      then or_goto k.enable (λ e d'. (some e, d')) (record d { adapter = new_adapter })
          (λ d'. probe_enabled (record d' { held = record (d'.held) { enabled = true } }))
      else (some enomem, d)

module _ {D : Type 0} (mmio : Mmio D) where
  -- smarteth_remove of a driver whose probe has succeeded.
  unfoldable pub remove : Driver D → Driver D
  remove d =
      let d' = free_rx_buffers (write_reg mmio reg_irq_en 0 d) in
      record d' {
        held = record (d'.held) {
          irq = false;
          vectors = false;
          iomap = false;
          region = false;
          enabled = false;
        };
      }
