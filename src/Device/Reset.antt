-- ===== src/Device/Reset.antt =====
-- CTRL_RESET in smarteth_pci.c, and the level of the INTx line.
use smart_eth.Base.{
  ℕ, ◌/◌, ◌%◌, ◌≡◌, ◌≢◌, refl, true, false, arith, some, if◌then◌else◌, ◌==◌, has, not32, ◌⊎◌,
}
use smart_eth.Base.Bits.{le-bit_or, bit_and-le}
use smart_eth.Device.{
  SmartEth, Bus, realize, mmio_read, mmio_write, write_ctrl, write_irq_sts, write_dma_ctrl,
  start_dma, write_irq_test, raise_irq, dma_timer_cb, transfer, finish_dma, reg_ctrl, ctrl_reset,
  reg_mac_lo, reg_mac_hi, mac_lo, mac_hi,
}
use smart_eth.Device.Registers.{IsPlain}
use smart_eth.Device.Interrupts.{irq_sts, line_level}
use smart_eth.Device.Engine.{expire, run_timer}

module _ {M : Type 0} where
  -- A reset zeroes every register but the MAC address, which it takes from the device's property,
  -- and changes nothing else: a transfer under way keeps its parameters and its timer, and its
  -- direction, buffer, memory and past notifications stay.
  reset_lem :
      (now v i : ℕ) (s : SmartEth M)
      → has v ctrl_reset ≡ true
      → i ≢ reg_mac_lo / 4
      → i ≢ reg_mac_hi / 4
      → (let t = mmio_write now s reg_ctrl v in
          (t.regs i ≡ 0)
          × (t.regs (reg_mac_lo / 4) ≡ mac_lo s.mac_addr)
          × (t.regs (reg_mac_hi / 4) ≡ mac_hi s.mac_addr)
          × (t.dma ≡ s.dma)
          × (t.dma_timer ≡ s.dma_timer)
          × (t.dma_buf ≡ s.dma_buf)
          × (t.memory ≡ s.memory)
          × (t.events ≡ s.events))
  unfolding mmio_write write_ctrl
  reset_lem now v i s h lo hi = (
    ground arith,
    ground arith,
    ground arith,
    ground arith,
    ground arith,
    ground arith,
    ground arith,
    ground arith,
  )

  -- A reset does not stop a transfer: it leaves the timer as it was, and if that is armed and runs out
  -- afterwards, guest memory, the device's buffer and the DMA engine end as if there had been no
  -- reset, and the completion is notified just the same.
  pub reset_keeps_dma :
      (bus : Bus M) (now v : ℕ) (s : SmartEth M)
      → has v ctrl_reset ≡ true
      → (let r = mmio_write now s reg_ctrl v in
          let t = run_timer bus r in
          let u = run_timer bus s in
          (r.dma_timer ≡ s.dma_timer)
          × (t.memory ≡ u.memory)
          × (t.dma_buf ≡ u.dma_buf)
          × (t.dma ≡ u.dma)
          × (t.events ≡ u.events))
  unfolding mmio_write write_ctrl run_timer expire dma_timer_cb transfer finish_dma raise_irq
  reset_keeps_dma bus now v s h =
      (ground arith, ground arith, ground arith, ground arith, ground arith)

  -- A reset leaves the INTx line at its level although nothing is pending any more.
  pub reset_keeps_line :
      (now v : ℕ) (s : SmartEth M)
      → has v ctrl_reset ≡ true
      → (irq_sts (mmio_write now s reg_ctrl v) ≡ 0)
        × (line_level (mmio_write now s reg_ctrl v).events ≡ line_level s.events)
  unfolding mmio_write write_ctrl
  reset_keeps_line now v s h = (ground arith, ground arith)

  -- A plain register that is not half of the MAC address reads 0 after a reset.
  pub mmio_read-reset :
      (now v a : ℕ) (s : SmartEth M)
      → has v ctrl_reset ≡ true
      → IsPlain a
      → a / 4 ≢ reg_mac_lo / 4
      → a / 4 ≢ reg_mac_hi / 4
      → mmio_read (mmio_write now s reg_ctrl v) a ≡ 0
  unfolding mmio_read
  mmio_read-reset now v a s h p lo hi = ground (arith, reset_lem now v (a / 4) s h lo hi)

-- Without MSI and MSI-X, the INTx line is up exactly while an interrupt is pending.
pub record LineFollows {M : Type 0} (s : SmartEth M) : Type 0 where
  pub no_msix : s.msix ≡ false
  pub no_msi : s.msi ≡ false
  pub level : line_level s.events ≡ (if irq_sts s == 0 then 0 else 1)

module _ {M : Type 0} (bus : Bus M) where
  -- Everything the guest can do but reset the device.
  pub data QuietStep (s : SmartEth M) : SmartEth M → Type 0 where
    write :
        (now addr val : ℕ)
        → addr % 4 ≡ 0
        → (addr ≢ reg_ctrl) ⊎ (has val ctrl_reset ≡ false)
        → QuietStep s (mmio_write now s addr val)
    timeout : (t : ℕ) → s.dma_timer ≡ some t → QuietStep s (expire bus s)
    cpu : (m : M) → QuietStep s (record s { memory = m })

  pub data QuietReach (s : SmartEth M) : SmartEth M → Type 0 where
    here : QuietReach s s
    next : {t u : SmartEth M} → QuietReach s t → QuietStep t u → QuietReach s u

  write_irq_sts-level :
      (s : SmartEth M) (val : ℕ)
      → LineFollows s
      → line_level (write_irq_sts s val).events
        ≡ (if irq_sts (write_irq_sts s val) == 0 then 0 else 1)
  unfolding write_irq_sts
  write_irq_sts-level s val v =
      ground (arith, v.level, v.no_msix, bit_and-le (irq_sts s) (irq_sts s) (not32 val))

  write_irq_test-level :
      (s : SmartEth M) (val : ℕ)
      → LineFollows s
      → line_level (write_irq_test s val).events
        ≡ (if irq_sts (write_irq_test s val) == 0 then 0 else 1)
  unfolding write_irq_test raise_irq
  write_irq_test-level s val v =
      ground (arith, v.level, v.no_msix, v.no_msi, le-bit_or (irq_sts s) 2)

  write_dma_ctrl-level :
      (now : ℕ) (s : SmartEth M) (val : ℕ)
      → LineFollows s
      → line_level (write_dma_ctrl now s val).events
        ≡ (if irq_sts (write_dma_ctrl now s val) == 0 then 0 else 1)
  unfolding write_dma_ctrl start_dma
  write_dma_ctrl-level now s val v = ground (arith, v.level)

  write_ctrl-level :
      (s : SmartEth M) (val : ℕ)
      → has val ctrl_reset ≡ false
      → LineFollows s
      → line_level (write_ctrl s val).events ≡ (if irq_sts (write_ctrl s val) == 0 then 0 else 1)
  unfolding write_ctrl
  write_ctrl-level s val q v = ground (arith, v.level)

  mmio_write-level :
      (now addr val : ℕ) (s : SmartEth M)
      → addr % 4 ≡ 0
      → (addr ≢ reg_ctrl) ⊎ (has val ctrl_reset ≡ false)
      → LineFollows s
      → line_level (mmio_write now s addr val).events
        ≡ (if irq_sts (mmio_write now s addr val) == 0 then 0 else 1)
  unfolding mmio_write
  mmio_write-level now addr val s al q v = ground (
    arith,
    v.level,
    write_irq_sts-level s val v,
    write_irq_test-level s val v,
    write_dma_ctrl-level now s val v,
    write_ctrl-level s val,
  )

  write-LineFollows :
      (now addr val : ℕ) (s : SmartEth M)
      → addr % 4 ≡ 0
      → (addr ≢ reg_ctrl) ⊎ (has val ctrl_reset ≡ false)
      → LineFollows s
      → LineFollows (mmio_write now s addr val)
  unfolding mmio_write write_ctrl write_irq_sts write_dma_ctrl start_dma write_irq_test raise_irq
  write-LineFollows now addr val s al q v = record {
    no_msix = ground (arith, v.no_msix);
    no_msi = ground (arith, v.no_msi);
    level = mmio_write-level now addr val s al q v;
  }

  expire-LineFollows : (s : SmartEth M) → LineFollows s → LineFollows (expire bus s)
  unfolding expire dma_timer_cb transfer finish_dma raise_irq
  expire-LineFollows s v = record {
    no_msix = ground (arith, v.no_msix);
    no_msi = ground (arith, v.no_msi);
    level = ground (arith, v.level, v.no_msix, v.no_msi, le-bit_or (irq_sts s) 1);
  }

  QuietStep-LineFollows : {s t : SmartEth M} → QuietStep s t → LineFollows s → LineFollows t
  QuietStep-LineFollows {s} (write now addr val al q) v = write-LineFollows now addr val s al q v
  QuietStep-LineFollows {s} (timeout t armed) v = expire-LineFollows s v
  QuietStep-LineFollows (cpu m) v = record {
    no_msix = v.no_msix;
    no_msi = v.no_msi;
    level = v.level;
  }

  -- From a state where it holds, as after `realize`, the INTx line stays up exactly while an
  -- interrupt is pending, as long as the guest does not reset the device.
  pub QuietReach-LineFollows : {s t : SmartEth M} → LineFollows s → QuietReach s t → LineFollows t
  QuietReach-LineFollows v here = v
  QuietReach-LineFollows v (next r st) = QuietStep-LineFollows st (QuietReach-LineFollows v r)

pub realize-LineFollows : {M : Type 0} (m : M) → LineFollows (realize m)
unfolding realize
realize-LineFollows m = record { no_msix = refl; no_msi = refl; level = refl }
