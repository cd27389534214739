-- ===== src/Sim/Host.antt =====
-- A host that answers every request of the NIC at once, over a guest memory behind a `Bus`.
use smart_eth.Base.{ℕ, true, some, List, ◌∷◌, length}
use smart_eth.Device.{Bus}
use smart_eth.Sim.DmaEngine.{Link}

-- The vectors and the frames that were sent, newest first.
pub record Host (M : Type 0) : Type 0 where
  pub memory : M
  pub irqs : List ℕ
  pub frames : List (List ℕ)

abbrev pub host_link : {M : Type 0} → Bus M → Link (Host M)
host_link bus = record {
  dma_read = λ addr buf h. (some (bus.dma_read h.memory addr (length buf)), h);
  dma_write = λ addr bytes h. (true, record h { memory = bus.dma_write h.memory addr bytes });
  send_irq = λ vector h. record h { irqs = vector ∷ h.irqs };
  transmit = λ frame h. record h { frames = frame ∷ h.frames };
}
