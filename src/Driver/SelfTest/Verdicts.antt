-- ===== src/Driver/SelfTest/Verdicts.antt =====
-- What the verdicts of the driver's tests say.
use smart_eth.Base.{
  ℕ, ◌+◌, ◌-◌, ◌≡◌, ◌≢◌, refl, ap, ◌∙◌, arith, Bool, true, false, Option, none, some, if◌then◌else◌,
  ◌==◌,
}
use smart_eth.Driver.{Driver, Held, Mmio, desc_flag_own, etimedout, write_reg}
use smart_eth.Driver.Buffers.Accounting.{more, less-more}
use smart_eth.Driver.Irq.{wait_done, take_completion}
use smart_eth.Driver.SelfTest.{
  alloc, map, program_dma, queue_tx, released, test_dma, test_tx, test_irq,
}

-- The wait leaves the kernel's ledger and the rings alone.
abbrev KeepsHeld : {D : Type 0} → (Driver D → Driver D) → Type 0
KeepsHeld {D} f = (d : Driver D) → (f d).held ≡ d.held

module _ {D : Type 0} (mmio : Mmio D) (meanwhile : Driver D → Driver D) where
  -- A completion that is left over from before makes the interrupt test pass at once: the
  -- result is success whatever the device does, the device has seen no more than the write of
  -- IRQ_TEST, and one completion is used up.
  test_irq_stale :
      (d : Driver D)
      → d.adapter.test_done ≢ 0
      → ((test_irq mmio meanwhile d).0 ≡ none)
        × ((test_irq mmio meanwhile d).1.dev ≡ mmio.write d.dev 0x200 1)
        × ((test_irq mmio meanwhile d).1.adapter.test_done ≡ d.adapter.test_done - 1)
  unfolding test_irq wait_done
  test_irq_stale d stale = (ground arith, ground arith, ground arith)

  take_completion-held : (d : Driver D) → (take_completion d).1.held ≡ d.held
  take_completion-held d = ground arith

  waited-held :
      KeepsHeld meanwhile → (b : Bool) (d : Driver D) → (if b then meanwhile d else d).held ≡ d.held
  waited-held keeps true d = keeps d
  waited-held keeps false d = refl

  wait_done-held : KeepsHeld meanwhile → (d : Driver D) → (wait_done meanwhile d).1.held ≡ d.held
  unfolding wait_done
  wait_done-held keeps d =
      take_completion-held (if d.adapter.test_done == 0 then meanwhile d else d)
      ∙ waited-held keeps (d.adapter.test_done == 0) d

  released-held : (r : Bool × Driver D) (h : Held) → r.1.held ≡ more 1 h → (released r).1.held ≡ h
  released-held (ok, d) h e =
      ap (λ (g : Held). record g { allocs = g.allocs - 1; maps = g.maps - 1 }) e ∙ less-more 1 h

  -- The driver when the transmit test waits.
  abbrev ring_doorbell : ℕ → Driver D → Driver D
  ring_doorbell dma d = write_reg mmio 0x30C 1 (queue_tx dma (map (alloc d)))

  -- Whatever the kernel answers and however the test ends, the DMA test and the transmit test give back
  -- the buffer and the mapping that they took.
  pub tests_give_back :
      (alloc_ok : Bool) (map_answer : Option ℕ) (d : Driver D)
      → KeepsHeld meanwhile
      → ((test_dma mmio meanwhile alloc_ok map_answer d).1.held ≡ d.held)
        × ((test_tx mmio meanwhile alloc_ok map_answer d).1.held ≡ d.held)
  unfolding test_dma test_tx
  tests_give_back false map_answer d keeps = (refl, refl)
  tests_give_back true none d keeps =
      let e : d.held.allocs + 1 - 1 ≡ d.held.allocs = omega arith in
      let back : record (d.held) { allocs = d.held.allocs + 1 - 1 } ≡ d.held = rw e refl in
      (back, back)
  tests_give_back true (some dma) d keeps = (
    released-held (wait_done meanwhile (program_dma mmio dma (map (alloc d)))) d.held
        (wait_done-held keeps (program_dma mmio dma (map (alloc d)))),
    released-held (wait_done meanwhile (ring_doorbell dma d)) d.held
        (wait_done-held keeps (ring_doorbell dma d)),
  )

module _ {D : Type 0} (mmio : Mmio D) where
  -- When no completion comes, the transmit test times out, unmaps and frees its packet, and leaves the
  -- descriptor that names it owned by the NIC.
  pub test_tx_timeout_keeps_own :
      (dma : ℕ) (d : Driver D)
      → d.adapter.test_done ≡ 0
      → (let r = test_tx mmio (λ d'. d') true (some dma) d in
          (r.0 ≡ some etimedout)
          × (r.1.held.maps ≡ d.held.maps)
          × (r.1.adapter.tx_ring d.adapter.tx_head
              ≡ record { addr = dma; len = 256; flags = desc_flag_own }))
  unfolding test_tx wait_done
  test_tx_timeout_keeps_own dma d idle = (ground arith, ground arith, ground arith)
