-- ===== src/PciTest/Suite/Run.antt =====
-- The DMA and interrupt tests of pci_test.c on the device, and the whole run.
use smart_eth.Base.{
  Bool-cases, inl, inr, ℕ, zero, suc, ◌+◌, ◌-◌, ◌*◌, ◌≡◌, ◌∙◌, ap, refl, true, [], if◌then◌else◌,
  ltb, leb, arith, Option, none, some, u32, has,
}
use smart_eth.Base.Bits.{bit-le}
use smart_eth.Base.Masks.{has-bit}
use smart_eth.PciTest.{reg_write}
use smart_eth.PciTest.Suite.{
  pass, fail, test_device_id, test_status, test_scratch_regs, test_ctrl_reset, test_mac_addr,
  fill_buffer, poll_dma, dma_verdict, start_test_dma, test_dma, test_interrupt, run_tests,
  dma_buf_address,
}
use smart_eth.PciTest.Suite.Board.{
  Board, Ram, board, after_delay, run_out, reg_read-mmio_read, reg_write-mmio_write,
}
use smart_eth.PciTest.Suite.Registers.{
  test_device_id-Passes, test_status-Passes, test_scratch_regs-Passes, test_ctrl_reset-Passes,
  test_mac_addr-Passes,
}
use smart_eth.Device.{SmartEth, Bus, Dma, mmio_read, mmio_write, dma_start, reg_dma_sts}
use smart_eth.Device.Interrupts.{irq_sts, irq_test_raises, mmio_read-irq_sts}
use smart_eth.Device.Engine.{program, expire, program-starts, expire-Finished}

module _ {M : Type 0} (bus : Bus M) (ram : Ram M) (bar0 : ℕ) where
  fill_buffer-countdown :
      (left i : ℕ) (b : Board M)
      → (fill_buffer (board bus ram bar0) bar0 left i b).countdown ≡ b.countdown
  unfolding fill_buffer
  fill_buffer-countdown zero i b = refl
  fill_buffer-countdown (suc left) i b =
      fill_buffer-countdown left (i + 1)
        ((board bus ram bar0).store32 (dma_buf_address + i * 4) (u32 (0xAABB0000 + i)) b)
      ∙ ground arith

  -- The transfer that the test programs.
  abbrev test_transfer : Dma
  test_transfer = record { src = dma_buf_address; dst = 0; len = 256; ctrl = 1 }

  -- The device while the transfer is under way.
  record IsBusy (dev : SmartEth M) : Type 0 where
    sts : mmio_read dev reg_dma_sts ≡ 2
    timer : (t : ℕ) × (dev.dma_timer ≡ some t)
    ctrl : has dev.dma.ctrl dma_start ≡ true

  -- Its four register writes reach the device as one `program`.
  programmed :
      (c : Board M)
      → (let write = reg_write (board bus ram bar0) bar0 in
          write 0x058 1 (write 0x050 256 (write 0x048 0 (write 0x040 dma_buf_address c)))
          ≡ record c { dev = program c.clock c.dev test_transfer })
  unfolding program
  programmed c =
      let d1 : SmartEth M = mmio_write c.clock c.dev 0x040 dma_buf_address in
      let d2 : SmartEth M = mmio_write c.clock d1 0x048 0 in
      let d3 : SmartEth M = mmio_write c.clock d2 0x050 256 in
      rw
        (
          reg_write-mmio_write bus ram bar0 0x040 dma_buf_address c (omega arith) (omega arith),
          reg_write-mmio_write bus ram bar0 0x048 0 (record c { dev = d1 }) (omega arith)
              (omega arith),
          reg_write-mmio_write bus ram bar0 0x050 256 (record c { dev = d2 }) (omega arith)
              (omega arith),
          reg_write-mmio_write bus ram bar0 0x058 1 (record c { dev = d3 }) (omega arith)
              (omega arith),
        )
        refl

  started :
      (b : Board M)
      → (let b' = start_test_dma (board bus ram bar0) bar0 b in
          IsBusy b'.dev × (b'.countdown ≡ b.countdown))
  unfolding start_test_dma
  started b =
      let c : Board M = fill_buffer (board bus ram bar0) bar0 64 0 b in
      let p = program-starts c.clock c.dev test_transfer (omega arith) refl in
      rw (programmed c) (
        record {
          sts = p.2;
          timer = (c.clock + 1, p.1);
          ctrl = ap (λ (d : Dma). has d.ctrl dma_start) p.0;
        },
        fill_buffer-countdown 64 0 b,
      )

  delay-suc :
      (n k : ℕ) (b : Board M)
      → b.countdown ≡ suc k
      → (board bus ram bar0).delay n b ≡ record b { countdown = k }
  delay-suc n k b e = ap (after_delay bus ram bar0 b) e

  delay-zero :
      (n t : ℕ) (b : Board M)
      → b.countdown ≡ 0
      → b.dev.dma_timer ≡ some t
      → (board bus ram bar0).delay n b ≡ record b { dev = expire bus b.dev }
  delay-zero n t b e armed =
      ap (after_delay bus ram bar0 b) e
      ∙ ap (λ (o : Option ℕ). record b { dev = run_out bus ram bar0 b.dev o }) armed

  poll-idle :
      (timeout : ℕ) (b : Board M)
      → mmio_read b.dev reg_dma_sts ≡ 0
      → (poll_dma (board bus ram bar0) bar0 timeout b).0
        ≡ (if leb 1 timeout then some (timeout - 1) else none)
  unfolding poll_dma
  poll-idle zero b e = refl
  poll-idle (suc timeout) b e =
      rw (reg_read-mmio_read bus ram bar0 reg_dma_sts b (omega arith) (omega arith), e)
        (ground arith)

  poll-busy :
      (timeout : ℕ) (b : Board M)
      → mmio_read b.dev reg_dma_sts ≡ 2
      → (poll_dma (board bus ram bar0) bar0 (suc timeout) b).0
        ≡ (poll_dma (board bus ram bar0) bar0 timeout ((board bus ram bar0).delay 0 b)).0
  unfolding poll_dma
  poll-busy timeout b e =
      rw (reg_read-mmio_read bus ram bar0 reg_dma_sts b (omega arith) (omega arith), e) refl

  -- The poll of a busy device whose timer runs out in the delay numbered `countdown`: it breaks at
  -- the second poll from there, if the rounds last so long.
  poll :
      (timeout k : ℕ) (b : Board M)
      → IsBusy b.dev
      → b.countdown ≡ k
      → (poll_dma (board bus ram bar0) bar0 timeout b).0
        ≡ (if leb (k + 2) timeout then some (timeout - (k + 2)) else none)
  unfolding poll_dma
  poll zero k b busy e = ground arith
  poll (suc timeout) zero b busy e =
      let idle = expire-Finished bus b.dev busy.ctrl in
      let rest = poll-idle timeout (record b { dev = expire bus b.dev }) idle.idle in
      poll-busy timeout b busy.sts
      ∙ rw (delay-zero 0 busy.timer.0 b e busy.timer.1, rest) (ground arith)
  poll (suc timeout) (suc k) b busy e =
      let busy' : IsBusy (record b { countdown = k }).dev = record {
        sts = busy.sts;
        timer = busy.timer;
        ctrl = busy.ctrl;
      } in
      let rest = poll timeout k (record b { countdown = k }) busy' refl in
      poll-busy timeout b busy.sts ∙ rw (delay-suc 0 k b e, rest) (ground arith)

  -- The DMA test passes exactly if the device's timer runs out in one of the first 498 delays; in
  -- the 499th it is in time for the last poll, and the test still reports a timeout.
  pub test_dma_verdict :
      (b : Board M)
      → (test_dma (board bus ram bar0) bar0 b).0 ≡ (if ltb b.countdown 498 then pass else fail)
  unfolding test_dma
  test_dma_verdict b =
      let st = started b in
      rw
        (
          poll 500 b.countdown (start_test_dma (board bus ram bar0) bar0 b) st.0 st.1,
          by_rounds b.countdown,
        )
        (elim (Bool-cases (ltb b.countdown 498)) [ inl e ↦ rw e refl | inr e ↦ rw e refl ])
    where
      by_rounds :
          (k : ℕ)
          → dma_verdict
              (board bus ram bar0)
              bar0
              (if leb (k + 2) 500 then some (500 - (k + 2)) else none)
            ≡ ltb k 498
      by_rounds k = ground arith

  -- The interrupt test passes on every state of the device.
  test_interrupt-pass : (b : Board M) → (test_interrupt (board bus ram bar0) bar0 b).0 ≡ pass
  unfolding test_interrupt
  test_interrupt-pass b =
      let c : Board M =
        (board bus ram bar0).print "[TEST] Triggering device interrupt (REG_IRQ_TEST)...\n" [] b in
      let b1 : Board M = record c { dev = mmio_write b.clock b.dev 0x00C 2 } in
      let b2 : Board M = record c { dev = mmio_write b.clock b1.dev 0x200 1 } in
      rw
        (
          reg_write-mmio_write bus ram bar0 0x00C 2 c (omega arith) (omega arith),
          reg_write-mmio_write bus ram bar0 0x200 1 b1 (omega arith) (omega arith),
          reg_read-mmio_read bus ram bar0 0x00C b2 (omega arith) (omega arith),
          mmio_read-irq_sts b2.dev,
          is_set b1,
        )
        refl
    where
      is_set : (x : Board M) → has (irq_sts (mmio_write b.clock x.dev 0x200 1)) 2 ≡ true
      is_set x =
          has-bit 1 (irq_sts (mmio_write b.clock x.dev 0x200 1))
          ∙ ground
              (arith, (irq_test_raises b.clock 1 1 x.dev (omega arith)).0, bit-le (irq_sts x.dev) 1)

  -- The whole suite, on the device in any state: it passes if the transfer's timer runs out in one
  -- of the first 498 delays of the DMA test, and fails otherwise.
  pub run_tests_verdict :
      (b : Board M)
      → (run_tests (board bus ram bar0) bar0 b).0 ≡ (if ltb b.countdown 498 then pass else fail)
  unfolding run_tests
  run_tests_verdict b =
      let m = board bus ram bar0 in
      let b0 : Board M = m.print "\n====== PCIe Device Tests ======\n" [] b in
      let b1 : Board M = (test_device_id m bar0 b0).1 in
      let b2 : Board M = (test_status m bar0 b1).1 in
      let b3 : Board M = (test_scratch_regs m bar0 b2).1 in
      let b4 : Board M = (test_ctrl_reset m bar0 b3).1 in
      let b5 : Board M = (test_mac_addr m bar0 b4).1 in
      let b6 : Board M = (test_dma m bar0 b5).1 in
      let p1 = test_device_id-Passes bus ram bar0 b0 in
      let p2 = test_status-Passes bus ram bar0 b1 in
      let p3 = test_scratch_regs-Passes bus ram bar0 b2 in
      let p4 = test_ctrl_reset-Passes bus ram bar0 b3 in
      let p5 = test_mac_addr-Passes bus ram bar0 b4 in
      let kept : b5.countdown ≡ b.countdown = p5.1 ∙ p4.1 ∙ p3.1 ∙ p2.1 ∙ p1.1 in
      rw (p1.0, p2.0, p3.0, p4.0, p5.0, test_dma_verdict b5, test_interrupt-pass b6, kept)
        (elim (Bool-cases (ltb b.countdown 498)) [ inl e ↦ rw e refl | inr e ↦ rw e refl ])
