-- ===== src/Sim/PcieBridge/Wired/Refinement.antt =====
-- The two bridges together, as the NIC sees them.
use mathlib.Core.List.{append-nil}
use smart_eth.Base.{
  ℕ, ◌^◌, ◌≤◌, ◌<◌, ◌≡◌, refl, ap, ◌∙◌, arith, true, Option, none, some, List, ◌∷◌, ◌++◌, length,
  drop, drop-all, min,
}
use smart_eth.Device.{Bus}
use smart_eth.Device.Transfer.{FillsLength}
use smart_eth.Bridge.{ScBridge, dma_buf_size}
use smart_eth.Bridge.Wire.{dma_write_resp, sc_status_ok}
use smart_eth.Sim.Host.{Host, host_link}
use smart_eth.Sim.PcieBridge.{
  PcieBridge, dma_read_start, dma_read_end, dma_write, handle_message, handle_dma_ack,
}
use smart_eth.Sim.PcieBridge.Wired.{at_qemu, at_sim, wired_link, seen, IsUp, Ends}
use smart_eth.Sim.PcieBridge.Wired.Dma.{
  wired_read, wired_write, wired_irq, read_started, write_started, write_request, at_qemu_write,
}

-- An operation over the wire has the result of the host's, leaves what is seen as the host does, and
-- the connection usable.
abbrev pub AsHost : {R M : Type 0} → R × Ends M → R × Host M → Type 0
AsHost (result, w) (expected, h) = (result ≡ expected) × (seen w ≡ h) × IsUp w

module _ {M : Type 0} (bus : Bus M) where
  whole :
      (addr : ℕ) (buf : List ℕ) (w : Ends M)
      → length buf ≤ dma_buf_size
      → ◌≡◌ {A = Option (List ℕ)}
          (some (
            bus.dma_read w.1.0.memory addr (min (length buf) dma_buf_size)
            ++ drop (min (length buf) dma_buf_size) buf))
          (some (bus.dma_read w.1.0.memory addr (length buf)))
  whole addr buf w hr =
      let e : min (length buf) dma_buf_size ≡ length buf = omega arith in
      rw (e, drop-all (length buf) buf (omega arith))
        (ap some (append-nil (bus.dma_read w.1.0.memory addr (length buf))))

  -- Seen from the NIC, while both ends are connected and MSI-X is on, the two bridges together
  -- are a host that answers at once: a read of 4096 bytes at most at a 64-bit address, a write
  -- of 4096 bytes at most there, an interrupt with a 32-bit vector and a frame each give the
  -- result of that host and change the guest's memory, the vectors and the frames as it does,
  -- and the connection stays usable. Each request is handled at QEMU's end, and the answer at
  -- the simulator's, before the next; guest memory hands out as many bytes as it is asked for.
  pub wired_link-host_link :
      (w : Ends M) (addr vector : ℕ) (buf bytes : List ℕ)
      → FillsLength bus
      → IsUp w
      → addr < 2 ^ 64
      → vector < 2 ^ 32
      → length buf ≤ dma_buf_size
      → length bytes ≤ dma_buf_size
      → (let wire = wired_link bus in
          let host = host_link bus in
          let h = seen w in
          AsHost (wire.dma_read addr buf w) (host.dma_read addr buf h)
          × AsHost (wire.dma_write addr bytes w) (host.dma_write addr bytes h)
          × AsHost (true, wire.send_irq vector w) (true, host.send_irq vector h)
          × AsHost (true, wire.transmit bytes w) (true, host.transmit bytes h))
  wired_link-host_link w addr vector buf bytes fills up ha hv hr hw =
      let r = wired_read bus addr buf w fills up ha (omega arith) in
      (
        (r.0 ∙ whole addr buf w hr, r.1, r.2),
        wired_write bus addr bytes w up ha hw,
        (refl, (wired_irq bus vector w up hv).0, (wired_irq bus vector w up hv).1),
        (refl, refl, up),
      )

  -- dma_write does not wait for its acknowledgement. While both ends are connected, when a
  -- read follows a write of 4096 bytes at most at a 64-bit address, and the acknowledgement,
  -- which is QEMU's answer to the write, arrives during the read's wait, the read reports
  -- success with its buffer as it was.
  pub write_ack_ends_read :
      (s : ScBridge M) (b : PcieBridge) (addr addr' : ℕ) (bytes buf : List ℕ)
      → b.sock_open ≡ true
      → b.writable ≡ true
      → s.sock_open ≡ true
      → addr < 2 ^ 64
      → length bytes ≤ dma_buf_size
      → (let wrote = (dma_write addr bytes b).1 in
          let waits = dma_read_start addr' (length buf) wrote in
          let acked = at_sim (dma_write_resp sc_status_ok) waits.1 in
          ((at_qemu bus (write_request addr bytes) s).sent ≡ dma_write_resp sc_status_ok ∷ s.sent)
          × (waits.0 ≡ none)
          × (dma_read_end (length buf) buf acked ≡ some buf))
  unfolding dma_read_end handle_message handle_dma_ack
  write_ack_ends_read s b addr addr' bytes buf connected writable up ha hb =
      let none_copied : min 0 (length buf) ≡ 0 = omega arith in
      rw
        (
          write_started addr bytes b connected writable,
          read_started addr' (length buf) (record b { sent = write_request addr bytes ∷ b.sent })
              connected writable,
          at_qemu_write bus s addr bytes up ha hb,
        )
        (refl, refl, rw none_copied refl)
