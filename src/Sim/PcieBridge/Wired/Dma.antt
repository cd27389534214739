-- ===== src/Sim/PcieBridge/Wired/Dma.antt =====
-- The requests of the simulator's DMA engine, from one end of the socket to the other.
use smart_eth.Base.{
  ℕ, ◌+◌, ◌^◌, ◌≤◌, ◌<◌, ◌≡◌, refl, ap, ◌∙◌, arith, true, false, ltb, Option, none, some, List, [],
  ◌∷◌, ◌++◌, length, drop, min, take-all, if_true, if_false, u32,
}
use smart_eth.Device.{Bus}
use smart_eth.Device.Transfer.{FillsLength}
use smart_eth.Bridge
use smart_eth.Bridge.{ScBridge, dma_buf_size, handle_msi}
use smart_eth.Bridge.Messages.{dma_read_answer, dma_write_answer}
use smart_eth.Bridge.Wire.{le32, le64, dma_read_resp, dma_write_resp, sc_status_ok}
use smart_eth.Bridge.Wire.Framing.{u32_at-le32}
use smart_eth.Sim.Protocol.{make_msg, msi_irq_type}
use smart_eth.Sim.PcieBridge.{
  PcieBridge, dma_read_start, dma_write, send_irq, handle_dma_resp, on_bridge, handle_dma_ack,
  handle_message,
}
use smart_eth.Sim.PcieBridge.Wired.{
  bridge_read, at_qemu, at_sim, wired_link, seen, IsUp, Ends, or_as_before,
}

-- The messages.
abbrev pub read_request : ℕ → ℕ → List ℕ
read_request addr len = le32 2 ++ le32 12 ++ le64 addr ++ le32 len

abbrev pub write_request : ℕ → List ℕ → List ℕ
write_request addr bytes =
    le32 3 ++ le32 (12 + length bytes) ++ le64 addr ++ le32 (length bytes) ++ bytes

long_enough : (bytes : List ℕ) → ltb (length (le32 0 ++ bytes)) 4 ≡ false
long_enough bytes = ground arith

abbrev pub requested : ℕ → ℕ → PcieBridge → PcieBridge
requested addr len b = record b {
  dma_pending = true;
  dma_resp = [];
  sent = read_request addr len ∷ b.sent;
}

pub read_started :
    (addr len : ℕ) (b : PcieBridge)
    → b.sock_open ≡ true
    → b.writable ≡ true
    → dma_read_start addr len b ≡ (none, requested addr len b)
unfolding dma_read_start
read_started addr len b connected writable = ground arith

pub write_started :
    (addr : ℕ) (bytes : List ℕ) (b : PcieBridge)
    → b.sock_open ≡ true
    → b.writable ≡ true
    → dma_write addr bytes b ≡ (true, record b { sent = write_request addr bytes ∷ b.sent })
unfolding dma_write
write_started addr bytes b connected writable = ground arith

irq_started :
    (vector : ℕ) (b : PcieBridge)
    → b.sock_open ≡ true
    → b.writable ≡ true
    → send_irq vector b ≡ record b { sent = make_msg msi_irq_type (le32 vector) ∷ b.sent }
unfolding send_irq
irq_started vector b connected writable = ground arith

size :
    (bytes : List ℕ) (n : ℕ) {k : ℕ}
    → length bytes ≡ min k n
    → k < 2 ^ 32
    → min (u32 (length bytes)) k ≡ min k n
size bytes n e h = omega arith

module _ {M : Type 0} (bus : Bus M) where
  -- What arrives at the simulator.
  at_sim_read :
      (bytes : List ℕ) (b : PcieBridge)
      → at_sim (dma_read_resp sc_status_ok bytes) b
        ≡ record b { dma_resp = bytes; dma_pending = false }
  unfolding handle_message handle_dma_resp
  at_sim_read bytes b =
      ap (λ (o : Option PcieBridge). (or_as_before (true, b) (on_bridge o true)).1)
        (if_false _ _ (long_enough bytes))

  pub at_sim_write :
      (b : PcieBridge) → at_sim (dma_write_resp sc_status_ok) b ≡ record b { dma_pending = false }
  unfolding handle_message handle_dma_ack
  at_sim_write b = refl

  -- What arrives at QEMU.
  at_qemu_read :
      (s : ScBridge M) (addr n : ℕ)
      → FillsLength bus
      → s.sock_open ≡ true
      → addr < 2 ^ 64
      → n < 2 ^ 32
      → at_qemu bus (read_request addr n) s ≡ record s {
        sent =
            dma_read_resp sc_status_ok (bus.dma_read s.memory addr (min n dma_buf_size)) ∷ s.sent;
      }
  at_qemu_read s addr n fills up ha hn =
      ap (or_as_before s) (dma_read_answer bus s addr n fills up ha hn).0

  pub at_qemu_write :
      (s : ScBridge M) (addr : ℕ) (bytes : List ℕ)
      → s.sock_open ≡ true
      → addr < 2 ^ 64
      → length bytes ≤ dma_buf_size
      → at_qemu bus (write_request addr bytes) s ≡ record s {
        memory = bus.dma_write s.memory addr bytes;
        sent = dma_write_resp sc_status_ok ∷ s.sent;
      }
  at_qemu_write s addr bytes up ha hb =
      ap (or_as_before s) (dma_write_answer bus s addr bytes up ha hb)

  at_qemu_irq :
      (s : ScBridge M) (vector : ℕ)
      → s.msix ≡ true
      → vector < 2 ^ 32
      → at_qemu bus (make_msg msi_irq_type (le32 vector)) s
        ≡ record s { notified = vector ∷ s.notified }
  unfolding Bridge.handle_msg handle_msi
  at_qemu_irq s vector msix hv =
      if_true _ _ msix
      ∙ ap (λ (v : ℕ). record s { notified = v ∷ s.notified }) (u32_at-le32 vector [] hv)

  -- A read request of any length below 2^32, up and down the socket: QEMU hands out 4096 bytes at
  -- most, and the read reports success with the rest of the buffer as it was.
  pub wired_read :
      (addr : ℕ) (buf : List ℕ) (w : Ends M)
      → FillsLength bus
      → IsUp w
      → addr < 2 ^ 64
      → length buf < 2 ^ 32
      → (let n = min (length buf) dma_buf_size in
          let bytes = bus.dma_read w.1.0.memory addr n in
          let r = (wired_link bus).dma_read addr buf w in
          (r.0 ≡ some (bytes ++ drop n buf)) × (seen r.1 ≡ seen w) × IsUp r.1)
  unfolding bridge_read
  wired_read addr buf (b, (s, frames)) fills up ha hb =
      let n = min (length buf) dma_buf_size in
      let bytes = bus.dma_read s.memory addr n in
      rw
        (
          read_started addr (length buf) b up.0 up.1,
          at_qemu_read s addr (length buf) fills up.2 ha hb,
          at_sim_read bytes (requested addr (length buf) b),
        )
        (
          rw (size bytes dma_buf_size (fills s.memory addr n) hb) (
              ap (λ (front : List ℕ). some (front ++ drop n buf))
                (take-all n bytes (omega (arith, fills s.memory addr n)))),
          refl,
          up,
        )

  pub wired_write :
      (addr : ℕ) (bytes : List ℕ) (w : Ends M)
      → IsUp w
      → addr < 2 ^ 64
      → length bytes ≤ dma_buf_size
      → (let r = (wired_link bus).dma_write addr bytes w in
          (r.0 ≡ true)
          × (seen r.1 ≡ record (seen w) { memory = bus.dma_write w.1.0.memory addr bytes })
          × IsUp r.1)
  wired_write addr bytes (b, (s, frames)) up ha hb =
      rw
        (
          write_started addr bytes b up.0 up.1,
          at_qemu_write s addr bytes up.2 ha hb,
          at_sim_write (record b { sent = write_request addr bytes ∷ b.sent }),
        )
        (refl, refl, up)

  pub wired_irq :
      (vector : ℕ) (w : Ends M)
      → IsUp w
      → vector < 2 ^ 32
      → (let w' = (wired_link bus).send_irq vector w in
          (seen w' ≡ record (seen w) { irqs = vector ∷ w.1.0.notified }) × IsUp w')
  wired_irq vector (b, (s, frames)) up hv =
      rw (irq_started vector b up.0 up.1, at_qemu_irq s vector up.3 hv) (refl, up)
