-- ===== src/Sim/PcieBridge/Wired.antt =====
-- The two ends of the bridge's socket together: pcie_bridge.cpp in the simulator and
-- smarteth_sc_bridge.c in QEMU.
pub mod Dma
pub mod Refinement
pub mod Mmio
use smart_eth.Base.{
  ℕ, ◌≡◌, Bool, true, false, Option, none, some, List, [], ◌∷◌, ◌++◌, length, drop,
}
use smart_eth.Device.{Bus}
use smart_eth.Bridge
use smart_eth.Bridge.{ScBridge}
use smart_eth.Bridge.Wire.{u32_at}
use smart_eth.Sim.DmaEngine.{Link}
use smart_eth.Sim.Host.{Host}
use smart_eth.Sim.Nic.{Nic, on_mmio_read, on_mmio_write, on_reset}
use smart_eth.Sim.PcieBridge.{
  PcieBridge, Callbacks, dma_read_start, dma_read_end, dma_write, send_irq, handle_message,
}

-- dma_read of the bridge, where `wait` is what other threads do while it waits.
abbrev pub read_waited :
    {S : Type 0} → Option (List ℕ) × S → Option Bool → Option (List ℕ) × S → Option (List ℕ) × S
read_waited returned (some ok) waited = returned
read_waited returned none waited = waited

module _ {H : Type 0} (wait : PcieBridge × H → PcieBridge × H) where
  unfoldable pub bridge_read : ℕ → List ℕ → PcieBridge × H → Option (List ℕ) × (PcieBridge × H)
  unfolding dma_read_start dma_read_end
  bridge_read addr buf (b, h) =
      let r = dma_read_start addr (length buf) b in
      let w = wait (r.1, h) in
      read_waited (none, (r.1, h)) r.0 (dma_read_end (length buf) buf w.0, w)

-- `SmartNic::register_callbacks`; `link` is the NIC's way to its bridge.
unfoldable pub nic_callbacks : Link PcieBridge → Callbacks Nic
unfolding on_mmio_read on_mmio_write on_reset
nic_callbacks link = record {
  mmio_read = some (λ addr w. (on_mmio_read w.0 addr, w));
  mmio_write = some (λ addr val w. on_mmio_write link w.0 addr val w.1);
  reset = some (λ w. (on_reset w.0, w.1));
}

-- A bridge whose NIC registered nothing, for the messages that do not concern it.
abbrev pub no_callbacks : Callbacks Bool
no_callbacks = record { mmio_read = none; mmio_write = none; reset = none }

abbrev pub newest : List (List ℕ) → List ℕ
newest [] = []
newest (m ∷ ms) = m

abbrev pub or_as_before : {S : Type 0} → S → Option S → S
or_as_before s none = s
or_as_before s (some s') = s'

-- A message arrives at the simulator's end, or at QEMU's.
abbrev pub at_nic : {N : Type 0} → Callbacks N → List ℕ → N × PcieBridge → N × PcieBridge
at_nic cbs m w = or_as_before w (handle_message cbs (u32_at m) (drop 8 m) w)

abbrev pub at_sim : List ℕ → PcieBridge → PcieBridge
at_sim m b = (at_nic no_callbacks m (true, b)).1

-- The state of both ends, with the frames that were sent.
abbrev pub Ends : Type 0 → Type 0
Ends M = PcieBridge × (ScBridge M × List (List ℕ))

-- What the NIC's work is about: guest memory, the vectors and the frames.
abbrev pub seen : {M : Type 0} → Ends M → Host M
seen (b, (s, frames)) = record { memory = s.memory; irqs = s.notified; frames = frames }

abbrev pub IsUp : {M : Type 0} → Ends M → Type 0
IsUp (b, (s, frames)) =
    (b.sock_open ≡ true) × (b.writable ≡ true) × (s.sock_open ≡ true) × (s.msix ≡ true)

module _ {M : Type 0} (bus : Bus M) where
  abbrev pub at_qemu : List ℕ → ScBridge M → ScBridge M
  at_qemu m s = or_as_before s (Bridge.handle_msg bus s (u32_at m) (drop 8 m))

  -- The newest message of the simulator is handled by QEMU, and QEMU's answer by the simulator.
  abbrev pub answered : Ends M → Ends M
  answered (b, (s, frames)) =
      let s' = at_qemu (newest b.sent) s in (at_sim (newest s'.sent) b, (s', frames))

  -- The host of the NIC, where each request is handled at once.
  abbrev pub wired_link : Link (Ends M)
  wired_link = record {
    dma_read = bridge_read answered;
    dma_write = λ addr bytes w. let r = dma_write addr bytes w.0 in (r.0, answered (r.1, w.1));
    send_irq =
        λ vector w. let b = send_irq vector w.0 in (b, (at_qemu (newest b.sent) w.1.0, w.1.1));
    transmit = λ frame w. (w.0, (w.1.0, frame ∷ w.1.1));
  }
