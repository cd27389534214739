-- ===== src/Sim/Tests.antt =====
-- The theorems on the simulated NIC at concrete inputs.
use smart_eth.Base.{
  List, ◌+◌, ◌*◌, ◌/◌, ◌%◌, store, ℕ, ◌^◌, ◌<◌, ◌≡◌, refl, arith, true, false, ◌↔◌, none, some, [],
  ◌∷◌, ◌++◌, replicate, length-replicate, if◌then◌else◌, has,
}
use smart_eth.Device
use smart_eth.Device.{default_mac, SmartEth}
use smart_eth.Device.Engine.{expire}
use smart_eth.Device.Samples.{byte_bus, byte_bus-FillsLength, fresh_device}
use smart_eth.Bridge
use smart_eth.Bridge.{mmio_read_start, mmio_read_end}
use smart_eth.Bridge.Wire.{le32, dma_write_resp, sc_status_ok}
use smart_eth.Sim.Samples.{
  ring_nic, ring_host, ring_link, junk, sim_end, qemu_end, both_ends, irq_link,
}
use smart_eth.Sim.Protocol.{
  desc_at, sc_reg_rx_tail, sc_reg_rx_ring_size, sc_reg_dma_ctrl, status_ok, mmio_write_type,
  make_msg,
}
use smart_eth.Sim.RegBlock
use smart_eth.Sim.RegBlock.{set_mac}
use smart_eth.Sim.Host.{host_link}
use smart_eth.Sim.Nic.{get, written, process_dma, on_mmio_read, on_mmio_write}
use smart_eth.Sim.Nic.Mmio.{written-mmio_write}
use smart_eth.Sim.Nic.Dma.{twin, process_dma-expire}
use smart_eth.Sim.Nic.Tx.{tx_round}
use smart_eth.Sim.Nic.Tx.Process.{Sim, sim, looping, holding, Step, Reach, first_frame_is_last}
use smart_eth.Sim.Host.{Host}
use smart_eth.Device.Samples.{Memory}
use smart_eth.Sim.Nic.Tx.Frames.{moved_on, sent_host, tx_round_sends}
use smart_eth.Sim.Nic.Rx.{rx_deliver, on_packet_rx, matches}
use smart_eth.Sim.Nic.Rx.Deliver.{
  rx_moved_on, rx_interrupting, stored_memory, rx_deliver_stores, on_packet_rx-Inside,
}
use smart_eth.Sim.Nic.Rx.Filter.{mac_bytes, own_address_passes}
use smart_eth.Sim.PcieBridge.{dma_read_start, dma_read_end, dma_write, reply}
use smart_eth.Sim.PcieBridge.Wired.{
  at_qemu, at_sim, at_nic, nic_callbacks, newest, wired_link, seen,
}
use smart_eth.Sim.PcieBridge.Wired.Dma.{write_request}
use smart_eth.Sim.PcieBridge.Wired.Refinement.{AsHost, wired_link-host_link, write_ack_ends_read}
use smart_eth.Sim.PcieBridge.Wired.Mmio.{mmio_read-on_mmio_read, mmio_write-on_mmio_write}

wired_link-host_link_example :
    (let wire = wired_link byte_bus in
      let host = host_link byte_bus in
      let h = seen both_ends in
      AsHost (wire.dma_read 0x1000 junk both_ends) (host.dma_read 0x1000 junk h)
      × AsHost (wire.dma_write 0x1000 (5 ∷ 6 ∷ []) both_ends) (host.dma_write 0x1000 (5 ∷ 6 ∷ []) h)
      × AsHost (true, wire.send_irq 1 both_ends) (true, host.send_irq 1 h)
      × AsHost (true, wire.transmit (5 ∷ 6 ∷ []) both_ends) (true, host.transmit (5 ∷ 6 ∷ []) h))
wired_link-host_link_example =
    wired_link-host_link byte_bus both_ends 0x1000 1 junk (5 ∷ 6 ∷ []) byte_bus-FillsLength
      (refl, refl, refl, refl) (omega arith) (omega arith) (omega arith) (omega arith)

write_ack_ends_read_example :
    (let wrote = (dma_write 0x4030 (5 ∷ 6 ∷ []) sim_end).1 in
      let waits = dma_read_start 0x4000 16 wrote in
      let acked = at_sim (dma_write_resp sc_status_ok) waits.1 in
      ((at_qemu byte_bus (write_request 0x4030 (5 ∷ 6 ∷ [])) qemu_end).sent
        ≡ dma_write_resp sc_status_ok ∷ [])
      × (waits.0 ≡ none)
      × (dma_read_end 16 junk acked ≡ some junk))
write_ack_ends_read_example =
    write_ack_ends_read byte_bus qemu_end sim_end 0x4030 0x4000 (5 ∷ 6 ∷ []) junk refl refl refl
      (omega arith) (omega arith)

register_word : on_mmio_read ring_nic 0x308 < 2 ^ 32
unfolding on_mmio_read RegBlock.read
register_word = omega arith

mmio_read-on_mmio_read_example :
    (let start = mmio_read_start qemu_end 0x308 in
      let w = at_nic (nic_callbacks irq_link) (newest start.1.sent) (ring_nic, sim_end) in
      let answered = at_qemu byte_bus (newest w.1.sent) start.1 in
      (start.0 ≡ none)
      × (w.0 ≡ ring_nic)
      × (answered.mmio_pending ≡ false)
      × ((mmio_read_end answered 0x308).0 ≡ on_mmio_read ring_nic 0x308))
mmio_read-on_mmio_read_example =
    mmio_read-on_mmio_read byte_bus irq_link qemu_end ring_nic sim_end 0x308 refl refl refl
      (omega arith) register_word

mmio_write-on_mmio_write_example :
    (let s' = Bridge.mmio_write qemu_end 0x30C 1 in
      (at_nic (nic_callbacks irq_link) (newest s'.sent) (ring_nic, sim_end)
        ≡ reply mmio_write_type (le32 status_ok) (on_mmio_write irq_link ring_nic 0x30C 1 sim_end))
      × (at_qemu byte_bus (make_msg mmio_write_type (le32 status_ok)) s' ≡ s'))
mmio_write-on_mmio_write_example =
    mmio_write-on_mmio_write byte_bus irq_link qemu_end ring_nic sim_end 0x30C 1 refl refl
      (omega arith) refl (omega arith)

written-mmio_write_example :
    (written ring_nic 0x00C 1).regs.regs 3
    ≡ (Device.mmio_write 0 (twin ring_nic ring_host fresh_device) 0x00C 1).regs 3
unfolding Device.realize
written-mmio_write_example =
    written-mmio_write 0 0x00C 1 3 ring_nic (twin ring_nic ring_host fresh_device) (omega arith)
      refl refl

process_dma-expire_example :
    (let r = (process_dma (host_link byte_bus) (written ring_nic sc_reg_dma_ctrl 5) ring_host).1 in
      let u =
        expire byte_bus
          (Device.mmio_write 0 (twin ring_nic ring_host fresh_device) sc_reg_dma_ctrl 5) in
      (r.1.memory ≡ u.memory)
      × (r.0.dma.buf ≡ u.dma_buf)
      × (r.0.regs.regs 3 ≡ u.regs 3)
      × (r.0.dma_pending ≡ false))
process_dma-expire_example =
    process_dma-expire byte_bus 0 5 ring_nic fresh_device ring_host 3 (omega arith) refl refl
      (length-replicate {A = ℕ} 4096 0) (omega arith)

on_packet_rx-Inside_example :
    (let n' = (on_packet_rx ring_link junk ring_nic (replicate 20 0xFF) ring_host).0 in
      get n' sc_reg_rx_tail < get n' sc_reg_rx_ring_size)
on_packet_rx-Inside_example =
    on_packet_rx-Inside ring_link junk ring_nic (replicate 20 0xFF) ring_host (omega arith)

own_address_passes_example :
    (matches
        (record ring_nic { regs = set_mac default_mac ring_nic.regs })
        (mac_bytes default_mac ++ replicate 8 0)
      ≡ true)
    ↔ ((default_mac.m0 ≡ default_mac.m3)
        × (default_mac.m1 ≡ default_mac.m2)
        × (default_mac.m4 ≡ default_mac.m5))
own_address_passes_example =
    own_address_passes default_mac ring_nic (replicate 8 0)
      (omega arith, omega arith, omega arith, omega arith, omega arith, omega arith) (omega arith)
      refl

tx_round_sends_example :
    (let d = desc_at (byte_bus.dma_read ring_host.memory 0x4030 16) in
      tx_round ring_link junk ring_nic ring_host ≡ (
        if has d.flags (2 ^ 31)
        then (
          some ((100 + d.len / 4 * 2) % 2 ^ 32),
          (moved_on ring_nic, sent_host byte_bus junk ring_nic ring_host d),
        )
        else (none, (record ring_nic { tx_pending = false }, ring_host))))
tx_round_sends_example =
    tx_round_sends byte_bus junk ring_nic ring_host (refl, omega arith, omega arith, omega arith)
      (omega arith, omega arith) refl

rx_deliver_stores_example :
    (let frame : List ℕ = 5 ∷ 6 ∷ [] in
      let d = desc_at (byte_bus.dma_read ring_host.memory 0x8000 16) in
      let memory = stored_memory byte_bus junk ring_nic frame ring_host d in
      rx_deliver ring_link junk ring_nic frame ring_host ≡ (
        if has d.flags (2 ^ 31)
        then (if has (ring_nic.regs.regs 2) 8
            then (rx_interrupting ring_nic, record ring_host { memory = memory; irqs = 1 ∷ [] })
            else (rx_moved_on ring_nic, record ring_host { memory = memory }))
        else (ring_nic, ring_host)))
rx_deliver_stores_example =
    rx_deliver_stores byte_bus junk ring_nic (5 ∷ 6 ∷ []) ring_host (omega arith, omega arith)
      (omega arith) (omega arith)

-- A descriptor of 64 bytes in the transmit ring.
abbrev long_host : Host Memory
long_host = record ring_host { memory = store ring_host.memory 0x4038 64 }

first_frame_is_last_example :
    (let d = desc_at (byte_bus.dma_read long_host.memory 0x4030 16) in
      let until = 50 + (100 + d.len / 4 * 2) % 2 ^ 32 in
      let sent =
        sim
          (moved_on ring_nic)
          (sent_host byte_bus junk ring_nic long_host d)
          (holding until)
          50
          120 in
      Step ring_link junk (sim ring_nic long_host looping 50 120) sent
      × (120 < until)
      × ((b : Sim (Host Memory)) → Step ring_link junk sent b → ⊥))
first_frame_is_last_example =
    first_frame_is_last byte_bus junk (record ring_nic { tx_event = true }) ring_nic long_host
      long_host 50 120 50 120 (omega arith)
      (Reach.next Reach.here
        (Step.wake (record ring_nic { tx_event = true }) long_host 50 120 refl))
      (refl, omega arith, omega arith, omega arith) (omega arith, omega arith) refl refl
      (omega arith) (omega arith)
