-- ===== src/Driver/Probe/Unwinding.antt =====
-- What the driver holds of the kernel after smarteth_probe and after smarteth_remove.
use smart_eth.Base.{
  ℕ, ◌+◌, ◌<◌, ◌≡◌, refl, ap, ◌∙◌, Bool, true, false, Option, none, some, not, ◌||◌, if◌then◌else◌,
  ◌==◌,
}
use smart_eth.Driver.{
  Driver, Adapter, Held, Mmio, ring_size, enomem, write_reg, reg_irq_en, read_reg, reg_dev_id,
  dev_id,
}
use smart_eth.Driver.Buffers.{BufferAnswer, prepare_rx_buffers}
use smart_eth.Driver.Buffers.Accounting.{
  Good, more, less, less-more, Holds, prepare_rx_buffers-Took, prepare_rx_buffers_stops,
  free_rx_buffers-less,
}
use smart_eth.Driver.Probe.{
  Kernel, new_adapter, probe, probe_prepared, probe_arrays, probe_dev_id, or_goto, ring_or_goto,
  err_irq, configure_nic, remove,
}

-- Nothing but buffers that were there before.
abbrev pub idle : ℕ → ℕ → Held
idle a m = record {
  enabled = false;
  region = false;
  iomap = false;
  vectors = false;
  irq = false;
  allocs = a;
  maps = m;
}

-- Everything, with the receive buffers.
abbrev pub full : ℕ → ℕ → Held
full a m = record {
  enabled = true;
  region = true;
  iomap = true;
  vectors = true;
  irq = true;
  allocs = a + ring_size;
  maps = m + ring_size;
}

module _ {D : Type 0} (a m : ℕ) where
  -- An error leaves nothing behind; success leaves everything, every entry of rx_buf included.
  abbrev pub Settled : Option ℕ × Driver D → Type 0
  Settled (some e, d) = d.held ≡ idle a m
  Settled (none, d) = (d.held ≡ full a m) × Holds 0 ring_size d

  Settled-if :
      (b : Bool) (x y : Option ℕ × Driver D) → Settled x → Settled y → Settled (if b then x else y)
  Settled-if true x y p q = p
  Settled-if false x y p q = q

  Settled-or_goto :
      (o : Option ℕ) (label : ℕ → Driver D → Option ℕ × Driver D) (d : Driver D)
      (next : Driver D → Option ℕ × Driver D)
      → ((e : ℕ) → Settled (label e d))
      → Settled (next d)
      → Settled (or_goto o label d next)
  Settled-or_goto none label d next p q = q
  Settled-or_goto (some e) label d next p q = p e

  Settled-ring :
      (o : Option ℕ) (d : Driver D) (next : ℕ → Driver D → Option ℕ × Driver D)
      → Settled (err_irq enomem d)
      → ((dma : ℕ) → Settled (next dma d))
      → Settled (ring_or_goto o d next)
  Settled-ring none d next p q = p
  Settled-ring (some dma) d next p q = q dma

module _ {D : Type 0} (mmio : Mmio D) (k : Kernel) (a m : ℕ)
    (good : (i : ℕ) → Good (k.buffers i)) where
  -- The driver in the midst of the probe.
  abbrev at_step : Bool → Bool → Bool → Bool → Bool → Adapter → D → Driver D
  at_step en rg io vc ir ad dev = record {
    adapter = ad;
    held = record {
      enabled = en;
      region = rg;
      iomap = io;
      vectors = vc;
      irq = ir;
      allocs = a;
      maps = m;
    };
    dev = dev;
  }

  prepared-Settled :
      (r : Option ℕ × Driver D)
      → r.0 ≡ none
      → r.1.held ≡ full a m
      → Holds 0 ring_size r.1
      → Settled a m (probe_prepared mmio k r)
  unfolding configure_nic
  prepared-Settled (none, d) ok held all = (held, all)
  prepared-Settled (some e, d) ok held all = cc

  arrays-Settled :
      (ad : Adapter) (dev : D)
      → Settled a m (probe_arrays mmio k (at_step true true true true true ad dev))
  arrays-Settled ad dev =
      let d = at_step true true true true true ad dev in
      let t = prepare_rx_buffers-Took k.buffers d good in
      Settled-if a m (not k.rx_buf || not k.rx_dma) _ _ refl
        (prepared-Settled (prepare_rx_buffers k.buffers d) t.0 t.1 t.3)

  dev_id-Settled :
      (ad : Adapter) (dev : D)
      → Settled a m (probe_dev_id mmio k (at_step true true true false false ad dev))
  dev_id-Settled ad dev =
      Settled-if a m
        (read_reg mmio (at_step true true true false false ad dev) reg_dev_id == dev_id) _ _
        (Settled-or_goto a m k.vectors _ _ _ (λ e. refl)
          (Settled-or_goto a m k.irq _ _ _ (λ e. refl)
            (Settled-ring a m k.tx_ring _ _ refl
              (λ tx. Settled-ring a m k.rx_ring _ _ refl (λ rx. arrays-Settled _ dev)))))
        refl

  -- When the kernel gives every receive buffer that it is asked for, a probe from a driver
  -- that holds no resource but buffers, if it fails, at whatever step, leaves the driver with
  -- what it held before, and if it succeeds, with the five resources of the kernel and 64
  -- buffers more, each with its entry.
  pub probe-Settled :
      (ad : Adapter) (dev : D)
      → Settled a m (probe mmio k (record { adapter = ad; held = idle a m; dev = dev }))
  unfolding probe
  probe-Settled ad dev =
      Settled-if a m k.adapter _ _
        (Settled-or_goto a m k.enable _ _ _ (λ e. refl)
          (Settled-or_goto a m k.dma_mask _ _ _ (λ e. refl)
            (Settled-or_goto a m k.region _ _ _ (λ e. refl)
              (Settled-if a m k.iomap _ _ (dev_id-Settled _ dev) refl))))
        refl

  removed :
      (r : Option ℕ × Driver D) → Settled a m r → r.0 ≡ none → (remove mmio r.1).held ≡ idle a m
  unfolding remove
  removed (some e, d) s ok = cc
  removed (none, d) s ok =
      ap
        (λ (h : Held). record h {
          irq = false;
          vectors = false;
          iomap = false;
          region = false;
          enabled = false;
        })
        (free_rx_buffers-less (write_reg mmio reg_irq_en 0 d) s.1
          ∙ ap (less ring_size) s.0
          ∙ less-more ring_size (record (full a m) { allocs = a; maps = m }))

  -- When the kernel gives every receive buffer that it is asked for, removing the driver after
  -- a probe that succeeded gives back all that the probe took.
  pub remove-probe :
      (ad : Adapter) (dev : D)
      → (probe mmio k (record { adapter = ad; held = idle a m; dev = dev })).0 ≡ none
      → (remove mmio (probe mmio k (record { adapter = ad; held = idle a m; dev = dev })).1).held
        ≡ idle a m
  remove-probe ad dev ok =
      removed (probe mmio k (record { adapter = ad; held = idle a m; dev = dev }))
        (probe-Settled ad dev) ok

-- A kernel whose calls succeed, with the answers for the receive buffers.
abbrev pub willing : ℕ → ℕ → (ℕ → BufferAnswer) → Kernel
willing tx rx buffers = record {
  adapter = true;
  enable = none;
  dma_mask = none;
  region = none;
  iomap = true;
  vectors = none;
  irq = none;
  tx_ring = some tx;
  rx_ring = some rx;
  rx_buf = true;
  rx_dma = true;
  buffers = buffers;
}

module _ {D : Type 0} (mmio : Mmio D) (a m tx rx : ℕ) (buffers : ℕ → BufferAnswer) where
  leaked :
      (j : ℕ) (r : Option ℕ × Driver D)
      → r.0 ≡ some enomem
      → r.1.held ≡ more j (record (full a m) { allocs = a; maps = m })
      → (let r' = probe_prepared mmio (willing tx rx buffers) r in
          (r'.0 ≡ some enomem) × (r'.1.held ≡ more j (idle a m)))
  leaked j (none, d) failed held = cc
  leaked j (some e, d) failed held = (
    failed,
    ap
        (λ (h : Held). record h {
          irq = false;
          vectors = false;
          iomap = false;
          region = false;
          enabled = false;
        })
        held,
  )

  -- On a card with the right identification, when every other call of the kernel succeeds and
  -- the kernel refuses receive buffer `j` of the 64 and gives the ones before it, the probe
  -- fails with ENOMEM and gives back all but those `j` buffers and their mappings.
  pub probe_keeps_buffers :
      (j : ℕ) (ad : Adapter) (dev : D)
      → mmio.read dev reg_dev_id ≡ dev_id
      → j < ring_size
      → ((n : ℕ) → n < j → Good (buffers n))
      → ¬ Good (buffers j)
      → (let r =
            probe mmio
              (willing tx rx buffers)
              (record { adapter = ad; held = idle a m; dev = dev }) in
          (r.0 ≡ some enomem) × (r.1.held ≡ more j (idle a m)))
  unfolding probe
  probe_keeps_buffers j ad dev found short good bad =
      let d : Driver D = record {
        adapter = record new_adapter { tx_ring_dma = tx; rx_ring_dma = rx };
        held = record (full a m) { allocs = a; maps = m };
        dev = dev;
      } in
      let s = prepare_rx_buffers_stops buffers j d short good bad in
      rw found (leaked j (prepare_rx_buffers buffers d) s.0 s.1)
