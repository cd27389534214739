-- ===== src/Sim/PcieBridge/Locking.antt =====
-- g_reg_mtx of nic.cpp between the two threads that want it: one that holds it while it waits in
-- dma_read (process_dma, process_tx or on_packet_rx), and the socket thread of pcie_bridge.cpp, which
-- takes it in on_mmio_read, on_mmio_write and on_reset. A step relation over the NIC, the bridge
-- and QEMU's messages that the socket thread has not handled.
pub mod Stall
mod Tests
use smart_eth.Base.{
  ℕ, ◌≡◌, ◌⊎◌, Bool, true, false, ◌||◌, Option, none, some, List, [], ◌∷◌, ◌++◌, length, ◌==◌,
}
use smart_eth.Bridge.Thread.Dispatch.{Message}
use smart_eth.Sim.Protocol.{mmio_read_type, mmio_write_type, bridge_reset_type}
use smart_eth.Sim.PcieBridge.{PcieBridge, Callbacks, dma_read_start, dma_read_end, handle_message}

-- Whether handle_message calls back into the NIC, which locks g_reg_mtx.
unfoldable pub locks : ℕ → Bool
locks type = type == mmio_read_type || type == mmio_write_type || type == bridge_reset_type

-- Nobody holds the mutex; its holder waits in dma_read with a buffer; the read has returned.
pub data Holder : Type 0 where
  free : Holder
  waiting : List ℕ → Holder
  returned : Option (List ℕ) → Holder

pub record Sys (N : Type 0) : Type 0 where
  pub world : N × PcieBridge
  pub holder : Holder
  pub inbox : List Message

abbrev pub sys : {N : Type 0} → N × PcieBridge → Holder → List Message → Sys N
sys w h ms = record { world = w; holder = h; inbox = ms }

module _ {N : Type 0} (cbs : Callbacks N) where
  -- `begin`, `wake` and `release` are the holder's, with `wake` for a wait that ends before its five
  -- seconds are over; `handle` is the socket thread, and `arrive` QEMU.
  pub data Step : Sys N → Sys N → Type 0 where
    begin :
        (n : N) (b b' : PcieBridge) (ms : List Message) (addr : ℕ) (buf : List ℕ)
        → dma_read_start addr (length buf) b ≡ (none, b')
        → Step (sys (n, b) free ms) (sys (n, b') (waiting buf) ms)
    wake :
        (n : N) (b : PcieBridge) (ms : List Message) (buf : List ℕ)
        → b.dma_pending ≡ false
        → Step
            (sys (n, b) (waiting buf) ms)
            (sys (n, b) (returned (dma_read_end (length buf) buf b)) ms)
    release :
        (w : N × PcieBridge) (ms : List Message) (r : Option (List ℕ))
        → Step (sys w (returned r) ms) (sys w free ms)
    handle :
        (w w' : N × PcieBridge) (h : Holder) (type : ℕ) (payload : List ℕ) (ms : List Message)
        → (locks type ≡ false) ⊎ (h ≡ free)
        → handle_message cbs type payload w ≡ some w'
        → Step (sys w h ((type, payload) ∷ ms)) (sys w' h ms)
    arrive :
        (w : N × PcieBridge) (h : Holder) (ms : List Message) (m : Message)
        → Step (sys w h ms) (sys w h (ms ++ m ∷ []))

  pub data Reach (a : Sys N) : Sys N → Type 0 where
    here : Reach a a
    next : {b c : Sys N} → Reach a b → Step b c → Reach a c

-- The wait after five seconds.
unfoldable pub expired : {N : Type 0} → List ℕ → N × PcieBridge → Option (List ℕ)
unfolding dma_read_end
expired buf (n, b) = dma_read_end (length buf) buf b
