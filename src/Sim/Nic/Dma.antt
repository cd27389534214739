-- ===== src/Sim/Nic/Dma.antt =====
-- process_dma of nic.cpp beside the DMA engine of the QEMU device smarteth_pci.c.
use smart_eth.Base.{
  ℕ, ◌+◌, ◌*◌, ◌/◌, ◌^◌, ◌≤◌, ◌<◌, ◌≡◌, ◌≢◌, refl, sym, arith, true, false, if◌then◌else◌, has, u32,
  bit_or, ◌++◌, take, drop, length, min, length-take, store, some, Bool-cases, inl, inr, ◌∙◌,
}
use smart_eth.Device
use smart_eth.Device.{
  SmartEth, Bus, Dma, write_dma_ctrl, start_dma, dma_timer_cb, transfer, clamp_len, finish_dma,
  raise_irq,
}
use smart_eth.Device.Engine.{expire, expire_reads, expire_writes, has-clear_start}
use smart_eth.Sim.RegBlock
use smart_eth.Sim.DmaEngine.{Link, start, configure}
use smart_eth.Sim.Host.{Host, host_link}
use smart_eth.Sim.Nic.{Nic, get, written, request_dma, process_dma}
use smart_eth.Sim.Protocol.{sc_reg_dma_len, sc_reg_dma_ctrl, sc_dma_start}

-- The QEMU device with the registers, the buffer and the memory of a NIC and its host.
abbrev pub twin : {M : Type 0} → Nic → Host M → SmartEth M → SmartEth M
twin n h t = record t { regs = n.regs.regs; dma_buf = n.dma.buf; memory = h.memory }

-- What the registers are when a transfer has ended.
abbrev ended : ℕ → (ℕ → ℕ) → ℕ → ℕ
ended ctrl regs =
    if has ctrl 4 then store (store regs 23 0) 3 (bit_or (store regs 23 0 3) 1) else store regs 23 0

module _ {M : Type 0} (bus : Bus M) where
  expire_regs :
      (s : SmartEth M) (i : ℕ)
      → has s.dma.ctrl 1 ≡ true
      → (expire bus s).regs i ≡ ended s.dma.ctrl s.regs i
  unfolding expire dma_timer_cb transfer finish_dma raise_irq
  expire_regs s i go = ground (arith, has-clear_start s.dma.ctrl)

  abbrev IsReady : Nic → Type 0
  IsReady n = (n.dma_pending ≡ true) × (n.dma.busy ≡ false) × (n.dma.len ≢ 0)

  process_dma_regs :
      (n : Nic) (h : Host M) (i : ℕ)
      → IsReady n
      → (let r = (process_dma (host_link bus) n h).1.0 in
          (r.regs.regs i ≡ ended (get n sc_reg_dma_ctrl) n.regs.regs i) × (r.dma_pending ≡ false))
  unfolding process_dma start
  process_dma_regs n h i r = (ground arith, ground arith)

  process_dma_reads :
      (n : Nic) (h : Host M)
      → IsReady n
      → n.dma.dir_write ≡ false
      → (let r = (process_dma (host_link bus) n h).1 in
          (r.1.memory ≡ h.memory)
          × (r.0.dma.buf
              ≡ bus.dma_read h.memory n.dma.src (length (take n.dma.len n.dma.buf))
                ++ drop n.dma.len n.dma.buf))
  unfolding process_dma start
  process_dma_reads n h r dir = (ground arith, ground arith)

  process_dma_writes :
      (n : Nic) (h : Host M)
      → IsReady n
      → n.dma.dir_write ≡ true
      → (let r = (process_dma (host_link bus) n h).1 in
          (r.1.memory ≡ bus.dma_write h.memory n.dma.dst (take n.dma.len n.dma.buf))
          × (r.0.dma.buf ≡ n.dma.buf))
  unfolding process_dma start
  process_dma_writes n h r dir = (ground arith, ground arith)

-- The transfer that the registers ask for.
abbrev asked : Nic → ℕ → Dma
asked n val = record { src = get n 0x40; dst = get n 0x48; len = get n 0x50; ctrl = val }

abbrev started_regs : (ℕ → ℕ) → ℕ → ℕ → ℕ
started_regs regs val = store (store regs 22 val) 23 2

abbrev started : Nic → ℕ → Nic
started n val = record n {
  regs = record (n.regs) { regs = started_regs n.regs.regs val };
  dma = configure (get n 0x40) (get n 0x48) (get n 0x50) val n.dma;
  dma_pending = true;
}

written-started :
    (n : Nic) (val : ℕ) → has val 1 ≡ true → written n sc_reg_dma_ctrl val ≡ started n val
unfolding written request_dma RegBlock.write configure
written-started n val go = rw go refl

abbrev started_twin : {M : Type 0} → ℕ → ℕ → Nic → SmartEth M → SmartEth M
started_twin now val n t = record t {
  regs = started_regs n.regs.regs val;
  dma = asked n val;
  dma_timer = some (now + 1);
}

mmio_write_started :
    {M : Type 0} (now val : ℕ) (n : Nic) (t : SmartEth M) (h : Host M)
    → val < 2 ^ 32
    → has val 1 ≡ true
    → Device.mmio_write now (twin n h t) sc_reg_dma_ctrl val ≡ started_twin now val n (twin n h t)
unfolding Device.mmio_write write_dma_ctrl start_dma
mmio_write_started now val n t h hv go = let e : u32 val ≡ val = omega arith in rw (go, e) refl

module _ {M : Type 0} (bus : Bus M) (now val : ℕ) (n : Nic) (t : SmartEth M) (h : Host M) where
  -- A transfer that the guest starts by the same write of a 32-bit value with DMA_START on the
  -- simulated NIC, whose engine is idle with its buffer of 4096 bytes and a nonzero DMA_LEN,
  -- and on the QEMU device, in the same state, ends in the same state when the process and the
  -- timer have run: guest memory, the internal buffer and every register are the same, and no
  -- transfer is pending. The host answers every request.
  pub process_dma-expire :
      (i : ℕ)
      → val < 2 ^ 32
      → has val sc_dma_start ≡ true
      → n.dma.busy ≡ false
      → length n.dma.buf ≡ 4096
      → get n sc_reg_dma_len ≢ 0
      → (let r = (process_dma (host_link bus) (written n sc_reg_dma_ctrl val) h).1 in
          let u = expire bus (Device.mmio_write now (twin n h t) sc_reg_dma_ctrl val) in
          (r.1.memory ≡ u.memory)
          × (r.0.dma.buf ≡ u.dma_buf)
          × (r.0.regs.regs i ≡ u.regs i)
          × (r.0.dma_pending ≡ false))
  unfolding configure
  process_dma-expire i hv go idle full len =
      let a : Nic = started n val in
      let b : SmartEth M = started_twin now val n (twin n h t) in
      let ready : IsReady bus a = (refl, idle, omega arith) in
      let size : length (take (min (get n 0x50) 4096) n.dma.buf) ≡ min (get n 0x50) 4096 =
        omega (arith, length-take (min (get n 0x50) 4096) n.dma.buf) in
      let regs = process_dma_regs bus a h i ready in
      rw (written-started n val go, mmio_write_started now val n t h hv go)
        (elim (Bool-cases (has val 2)) [
          | inl dir ↦
              let x = process_dma_writes bus a h ready dir in
              let y = expire_writes bus b go dir in
              (x.0 ∙ sym y.0, x.1 ∙ sym y.1, regs.0 ∙ sym (expire_regs bus b i go), regs.1)
          | inr dir ↦
              let x = process_dma_reads bus a h ready dir in
              let y = expire_reads bus b go dir in
              (
                x.0 ∙ sym y.1,
                x.1 ∙ rw size (sym y.0),
                regs.0 ∙ sym (expire_regs bus b i go),
                regs.1,
              )
        ])

-- The delay of a transfer of 97 bytes or more, over which process_dma waits with g_reg_mtx locked,
-- covers a tick of poll_irq, which locks g_reg_mtx every 100 ns.
pub dma_holds_lock_over_poll :
    {S : Type 0} (link : Link S) (n : Nic) (s : S) (now : ℕ)
    → n.dma_pending ≡ true
    → n.dma.busy ≡ false
    → 97 ≤ n.dma.len
    → (let tick = (now / 100 + 1) * 100 in (now < tick) × (tick ≤ now + (process_dma link n s).0))
unfolding process_dma start
dma_holds_lock_over_poll link n s now pending idle long = (omega arith, ground arith)
