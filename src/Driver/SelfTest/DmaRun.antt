-- ===== src/Driver/SelfTest/DmaRun.antt =====
-- The driver's DMA test on the device of smarteth_pci.c.
use smart_eth.Base.{
  if_true, [], ◌∷◌, ◌==◌, ◌||◌, ℕ, ◌+◌, ◌^◌, ◌<◌, ◌≡◌, refl, ap, ◌∙◌, arith, Bool, true, false,
  none, some, List, ◌++◌, drop, bit_or, min, if◌then◌else◌, has,
}
use smart_eth.Device.{
  Event, msix_notify, msi_notify, pci_set_irq, SmartEth, Bus, Dma, mmio_write, write_irq_sts,
  reg_irq_sts,
}
use smart_eth.Device.Interrupts.{irq_sts}
use smart_eth.Device.Engine.{
  run_timer, armed, Finished, done_event, program, program-starts, expire, expire-Finished,
  expire_reads, IsWords,
}
use smart_eth.Driver.{Driver, Adapter, Held, lower_32_bits, upper_32_bits}
use smart_eth.Driver.Irq.{irq_handler, wait_done, take_completion}
use smart_eth.Driver.Irq.OnDevice.{device_mmio, irq_handler_dma_done}
use smart_eth.Driver.SelfTest.{test_dma}

-- Whether vector 0 of MSI-X is among the notifications. The driver has the kernel enable MSI-X with one
-- vector, vector 0, and requests that.
abbrev pub vector_0 : List Event → Bool
vector_0 [] = false
vector_0 (msix_notify v ∷ events) = v == 0 || vector_0 events
vector_0 (msi_notify v ∷ events) = vector_0 events
vector_0 (pci_set_irq level ∷ events) = vector_0 events

module _ {M : Type 0} (bus : Bus M) (now : ℕ) where
  -- The device's timer, if it is armed, and the notifications that this makes.
  abbrev timed : SmartEth M → SmartEth M
  timed s = run_timer bus (record s { events = [] })

  -- The device's timer runs; then the interrupt handler does, if the device has notified its vector.
  abbrev pub dma_interrupt : Driver (SmartEth M) → Driver (SmartEth M)
  dma_interrupt d =
      let d' = record d { dev = timed d.dev } in
      if vector_0 d'.dev.events then (irq_handler (device_mmio now) d').1 else d'

  abbrev asked : ℕ → Dma
  asked dma = record { src = lower_32_bits dma; dst = upper_32_bits dma; len = 256; ctrl = 0x5 }

  asked-IsWords : (dma : ℕ) → IsWords (asked dma)
  asked-IsWords dma = record {
    src_word = omega arith;
    dst_word = omega arith;
    len_word = omega arith;
    ctrl_word = omega arith;
  }

  waits_for_dma :
      (ad : Adapter) (held : Held) (p : SmartEth M)
      → vector_0 (timed p).events ≡ true
      → irq_sts (timed p) ≡ 1
      → wait_done dma_interrupt
          (record { adapter = record ad { test_done = 0 }; held = held; dev = p })
        ≡ (
          true,
          record {
            adapter = record ad { test_done = 0; irq_count = ad.irq_count + 1 };
            held = held;
            dev = mmio_write now (timed p) reg_irq_sts 1;
          },
        )
  unfolding wait_done
  waits_for_dma ad held p heard e =
      let d : Driver (SmartEth M) = record {
        adapter = record ad { test_done = 0 };
        held = held;
        dev = timed p;
      } in
      ap take_completion (if_true (irq_handler (device_mmio now) d).1 d heard)
      ∙ ap (λ (r : Bool × Driver (SmartEth M)). take_completion r.1) (irq_handler_dma_done now d e)

  keeps_buffer : (s : SmartEth M) (v : ℕ) → (mmio_write now s reg_irq_sts v).dma_buf ≡ s.dma_buf
  unfolding mmio_write write_irq_sts
  keeps_buffer s v = ground arith

  acknowledged_one : (s : SmartEth M) → irq_sts s ≡ 1 → irq_sts (mmio_write now s reg_irq_sts 1) ≡ 0
  unfolding mmio_write write_irq_sts
  acknowledged_one s e = ground (arith, e)

  -- The device when the test waits.
  abbrev programmed : ℕ → SmartEth M → SmartEth M
  programmed dma dev = program now dev (asked dma)

  -- With no notification so far.
  abbrev quiet : ℕ → SmartEth M → SmartEth M
  quiet dma dev = record (programmed dma dev) { events = [] }

  starts :
      (dma : ℕ) (dev : SmartEth M)
      → (let p = programmed dma dev in
          (p.dma ≡ asked dma)
          × (p.dma_timer ≡ some (now + 1))
          × (p.memory ≡ dev.memory)
          × (p.dma_buf ≡ dev.dma_buf)
          × (p.msix ≡ dev.msix)
          × (irq_sts p ≡ irq_sts dev))
  starts dma dev =
      let s = program-starts now dev (asked dma) (asked-IsWords dma) refl in
      (s.0, s.1, s.3, s.4, s.6, s.8)

  timed-programmed :
      (dma : ℕ) (dev : SmartEth M) → timed (programmed dma dev) ≡ expire bus (quiet dma dev)
  unfolding run_timer
  timed-programmed dma dev = if_true _ _ (ap armed (starts dma dev).1)

  transfer_done :
      (dma : ℕ) (dev : SmartEth M) → Finished bus (quiet dma dev) (expire bus (quiet dma dev))
  transfer_done dma dev =
      expire-Finished bus (quiet dma dev) (ap (λ (c : Dma). has c.ctrl 1) (starts dma dev).0)

  transfer_pending :
      (dma : ℕ) (dev : SmartEth M) → irq_sts dev ≡ 0 → irq_sts (expire bus (quiet dma dev)) ≡ 1
  transfer_pending dma dev idle =
      (transfer_done dma dev).pending
      ∙ ap
          (λ (c : Dma).
            if has c.ctrl 4 then bit_or (irq_sts (quiet dma dev)) 1 else irq_sts (quiet dma dev))
          (starts dma dev).0
      ∙ ap (λ (n : ℕ). bit_or n 1) ((starts dma dev).5 ∙ idle)

  transfer_heard :
      (dma : ℕ) (dev : SmartEth M)
      → dev.msix ≡ true
      → vector_0 (expire bus (quiet dma dev)).events ≡ true
  transfer_heard dma dev msix =
      let event : Event = done_event (quiet dma dev) in
      ap vector_0 (transfer_done dma dev).told
      ∙ ap (λ (c : Dma). vector_0 (if has c.ctrl 4 then event ∷ [] else [])) (starts dma dev).0
      ∙ ap
          (λ (b : Bool). vector_0 (
            (if b
              then msix_notify 0
              else if (quiet dma dev).msi
              then msi_notify 0
              else pci_set_irq 1)
            ∷ []))
          ((starts dma dev).4 ∙ msix)

  -- The guest's bytes, in front of the rest of the device's buffer.
  abbrev received : M → List ℕ → Dma → List ℕ
  received memory buf c = bus.dma_read memory c.src (min c.len 4096) ++ drop (min c.len 4096) buf

  transfer_moves :
      (dma : ℕ) (dev : SmartEth M)
      → dma < 2 ^ 32
      → (expire bus (quiet dma dev)).dma_buf
        ≡ bus.dma_read dev.memory dma 256 ++ drop 256 dev.dma_buf
  transfer_moves dma dev small =
      let p = quiet dma dev in
      let s = starts dma dev in
      let go : has p.dma.ctrl 1 ≡ true = ap (λ (c : Dma). has c.ctrl 1) s.0 in
      let dir : has p.dma.ctrl 2 ≡ false = ap (λ (c : Dma). has c.ctrl 2) s.0 in
      let low : lower_32_bits dma ≡ dma = omega arith in
      (expire_reads bus p go dir).0
      ∙ ap (received p.memory p.dma_buf) s.0
      ∙ ap (λ (m : M). received m p.dma_buf (asked dma)) s.2
      ∙ ap (λ (b : List ℕ). received dev.memory b (asked dma)) s.3
      ∙ ap (λ (a : ℕ). bus.dma_read dev.memory a 256 ++ drop 256 dev.dma_buf) low

  -- The driver's DMA test on the device of smarteth_pci.c, with MSI-X enabled, no interrupt and no
  -- completion pending and a buffer below 4 GB: when the armed timer runs, the transfer notifies
  -- the driver's vector, the handler completes, the test passes and leaves no completion and no
  -- pending interrupt behind, and the first 256 bytes of the device's buffer are the guest's at
  -- the address of the buffer.
  pub test_dma_passes :
      (dma : ℕ) (ad : Adapter) (held : Held) (dev : SmartEth M)
      → dma < 2 ^ 32
      → dev.msix ≡ true
      → irq_sts dev ≡ 0
      → (let d : Driver (SmartEth M) = record {
        adapter = record ad { test_done = 0 };
        held = held;
        dev = dev;
      } in
          let r = test_dma (device_mmio now) dma_interrupt true (some dma) d in
          (r.0 ≡ none)
          × (r.1.adapter.test_done ≡ 0)
          × (r.1.adapter.irq_count ≡ ad.irq_count + 1)
          × (irq_sts r.1.dev ≡ 0)
          × (r.1.dev.dma_buf ≡ bus.dma_read dev.memory dma 256 ++ drop 256 dev.dma_buf))
  unfolding test_dma program
  test_dma_passes dma ad held dev small msix idle =
      let p : SmartEth M = programmed dma dev in
      let e = expire bus (quiet dma dev) in
      let same : timed p ≡ e = timed-programmed dma dev in
      let pending : irq_sts (timed p) ≡ 1 = ap irq_sts same ∙ transfer_pending dma dev idle in
      let w =
        waits_for_dma ad (record held { allocs = held.allocs + 1; maps = held.maps + 1 }) p
          (ap (λ (s : SmartEth M). vector_0 s.events) same ∙ transfer_heard dma dev msix) pending in
      rw w (
        refl,
        refl,
        refl,
        acknowledged_one (timed p) pending,
        keeps_buffer (timed p) 1
            ∙ ap (λ (s : SmartEth M). s.dma_buf) same
            ∙ transfer_moves dma dev small,
      )
