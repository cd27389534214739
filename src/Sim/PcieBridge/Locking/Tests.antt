-- ===== src/Sim/PcieBridge/Locking/Tests.antt =====
-- A waiting read with a guest's register access in its way, and one that meets an old answer.
use smart_eth.Base.{◌≡◌, refl, arith, inl, true, none, some, [], ◌∷◌, ◌++◌}
use smart_eth.Bridge.Wire.{le32, le64}
use smart_eth.Bridge.Thread.Dispatch.{Message}
use smart_eth.Sim.Samples.{sim_end, ring_nic, irq_link}
use smart_eth.Sim.Nic.{Nic}
use smart_eth.Sim.Protocol.{mmio_read_type, dma_read_type}
use smart_eth.Sim.PcieBridge.{PcieBridge}
use smart_eth.Sim.PcieBridge.Wired.{nic_callbacks}
use smart_eth.Sim.PcieBridge.Locking.{
  Sys, sys, free, waiting, returned, Reach, here, next, arrive, expired,
}
use smart_eth.Sim.PcieBridge.Locking.Stall.{Stalled, read_stalls, stale_answer_ends_read}

abbrev waiting_end : PcieBridge
waiting_end = record sim_end { dma_pending = true }

-- The guest reads a register, and QEMU's answer to the DMA read comes behind that.
abbrev guest_read : Message
guest_read = (mmio_read_type, le64 0x5C)

abbrev answer : Message
answer = (dma_read_type, le32 0 ++ 7 ∷ 8 ∷ [])

read_stalls_example :
    (let t = sys (ring_nic, waiting_end) (waiting (0 ∷ 0 ∷ [])) (guest_read ∷ answer ∷ []) in
      Stalled
        (nic_callbacks irq_link)
        ring_nic
        waiting_end
        (0 ∷ 0 ∷ [])
        mmio_read_type
        (le64 0x5C)
        []
        t
      × (expired (0 ∷ 0 ∷ []) t.world ≡ none))
read_stalls_example =
    read_stalls (nic_callbacks irq_link) ring_nic waiting_end (0 ∷ 0 ∷ []) mmio_read_type
      (le64 0x5C) [] refl (inl refl)
      (sys (ring_nic, waiting_end) (waiting (0 ∷ 0 ∷ [])) (guest_read ∷ answer ∷ []))
      (next here (arrive (ring_nic, waiting_end) (waiting (0 ∷ 0 ∷ [])) (guest_read ∷ []) answer))

stale_answer_ends_read_example :
    (t : Sys Nic) × Reach (nic_callbacks irq_link) (sys (ring_nic, sim_end) free (answer ∷ [])) t
    × (t.holder ≡ returned (some (7 ∷ 8 ∷ [])))
    × (t.inbox ≡ [])
stale_answer_ends_read_example =
    stale_answer_ends_read (nic_callbacks irq_link) ring_nic sim_end [] 0x4000 0 (0 ∷ 0 ∷ [])
      (7 ∷ 8 ∷ []) refl refl refl (omega arith)
