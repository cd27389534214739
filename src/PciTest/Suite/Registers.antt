-- ===== src/PciTest/Suite/Registers.antt =====
-- The register tests of pci_test.c on the device of smarteth_pci.c.
use smart_eth.Base.{ℕ, ◌+◌, ◌*◌, ◌%◌, ◌^◌, ◌<◌, ◌≡◌, ◌∙◌, refl, true, List, [], ◌∷◌, ◌==◌, arith}
use smart_eth.PciTest.{reg_read, reg_write}
use smart_eth.PciTest.Suite.{
  Verdict, pass, test_device_id, test_status, scratch_loop, test_scratch_regs, test_ctrl_reset,
  test_mac_addr, patterns, reg_scratch0,
}
use smart_eth.PciTest.Suite.Board.{Board, Ram, board, reg_read-mmio_read, reg_write-mmio_write}
use smart_eth.Device.{Bus, mmio_write}
use smart_eth.Device.Reset.{mmio_read-reset}
use smart_eth.Device.Registers.{IsPlain, mmio_read-mmio_write, mmio_read-constants}

abbrev pub AllWords : List ℕ → Type 0
AllWords [] = Unit
AllWords (x ∷ xs) = (x < 2 ^ 32) × AllWords xs

-- A test that passes and leaves the countdown of the timer alone.
abbrev pub Passes : {M : Type 0} → Board M → Verdict × Board M → Type 0
Passes b r = (r.0 ≡ pass) × (r.1.countdown ≡ b.countdown)

module _ {M : Type 0} (bus : Bus M) (ram : Ram M) (bar0 : ℕ) where
  pub test_device_id-Passes : (b : Board M) → Passes b (test_device_id (board bus ram bar0) bar0 b)
  unfolding test_device_id
  test_device_id-Passes b =
      rw
        (
          reg_read-mmio_read bus ram bar0 0x100 b (omega arith) (omega arith),
          (mmio_read-constants b.dev).0,
        )
        (refl, refl)

  pub test_status-Passes : (b : Board M) → Passes b (test_status (board bus ram bar0) bar0 b)
  unfolding test_status
  test_status-Passes b =
      rw
        (
          reg_read-mmio_read bus ram bar0 0x004 b (omega arith) (omega arith),
          (mmio_read-constants b.dev).1,
        )
        (refl, refl)

  pub test_mac_addr-Passes : (b : Board M) → Passes b (test_mac_addr (board bus ram bar0) bar0 b)
  unfolding test_mac_addr
  test_mac_addr-Passes b =
      rw
        (
          reg_read-mmio_read bus ram bar0 0x010 b (omega arith) (omega arith),
          reg_read-mmio_read bus ram bar0 0x014 b (omega arith) (omega arith),
        )
        (refl, refl)

  scratch-IsPlain : (i : ℕ) → IsPlain (reg_scratch0 + i % 4 * 4)
  scratch-IsPlain i = record {
    inside = omega arith;
    not_ctrl = omega arith;
    not_irq_sts = omega arith;
    not_dma_ctrl = omega arith;
    not_irq_test = omega arith;
    not_status = omega arith;
    not_dev_id = omega arith;
  }

  -- A pattern that fits 32 bits is read back, whatever the device held.
  scratch_round :
      (p i : ℕ) (b : Board M)
      → p < 2 ^ 32
      → (let b' = reg_write (board bus ram bar0) bar0 (reg_scratch0 + i % 4 * 4) p b in
          ((reg_read (board bus ram bar0) bar0 (reg_scratch0 + i % 4 * 4) b').0 ≡ p)
          × ((reg_read (board bus ram bar0) bar0 (reg_scratch0 + i % 4 * 4) b').1.countdown
              ≡ b.countdown))
  scratch_round p i b h =
      let off : ℕ = reg_scratch0 + i % 4 * 4 in
      let b' : Board M = record b { dev = mmio_write b.clock b.dev off p } in
      rw
        (
          reg_write-mmio_write bus ram bar0 off p b (omega arith) (omega arith),
          reg_read-mmio_read bus ram bar0 off b' (omega arith) (omega arith),
        )
        (
          omega (
            arith,
            (mmio_read-mmio_write b.clock b.dev off p 0 (scratch-IsPlain i) (omega arith)).0,
          ),
          refl,
        )

  scratch_loop-Passes :
      (ps : List ℕ) (i : ℕ) (b : Board M)
      → AllWords ps
      → Passes b (scratch_loop (board bus ram bar0) bar0 ps i pass b)
  unfolding scratch_loop
  scratch_loop-Passes [] i b h = (refl, refl)
  scratch_loop-Passes (p ∷ ps) i b h =
      let r = scratch_round p i b h.0 in
      let same : (p == p) ≡ true = ground arith in
      let rest =
        scratch_loop-Passes ps (i + 1)
          ((board bus ram bar0).print "[TEST] SCRATCH[%d] = 0x%x  PASS\n" (i ∷ p ∷ [])
            (reg_read (board bus ram bar0) bar0 (reg_scratch0 + i % 4 * 4)
              (reg_write (board bus ram bar0) bar0 (reg_scratch0 + i % 4 * 4) p b)).1)
          h.1 in
      rw (r.0, same) (rest.0, rest.1 ∙ r.1)

  pub test_scratch_regs-Passes :
      (b : Board M) → Passes b (test_scratch_regs (board bus ram bar0) bar0 b)
  unfolding test_scratch_regs
  test_scratch_regs-Passes b = scratch_loop-Passes patterns 0 b (omega arith)

  pub test_ctrl_reset-Passes :
      (b : Board M) → Passes b (test_ctrl_reset (board bus ram bar0) bar0 b)
  unfolding test_ctrl_reset
  test_ctrl_reset-Passes b =
      let b1 : Board M = record b { dev = mmio_write b.clock b.dev 0x020 0xDEAD } in
      let b2 : Board M = record b { dev = mmio_write b.clock b1.dev 0x000 1 } in
      rw
        (
          reg_write-mmio_write bus ram bar0 0x020 0xDEAD b (omega arith) (omega arith),
          reg_write-mmio_write bus ram bar0 0x000 1 b1 (omega arith) (omega arith),
          reg_read-mmio_read bus ram bar0 0x020 b2 (omega arith) (omega arith),
          mmio_read-reset b.clock 1 0x020 b1.dev refl (scratch-IsPlain 0) (omega arith)
              (omega arith),
        )
        (refl, refl)
