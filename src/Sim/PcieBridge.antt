-- ===== src/Sim/PcieBridge.antt =====
-- sim/systemc/src/pcie_bridge.cpp. A handler takes the NIC's state `N` and the bridge, and returns
-- both. `none` is a read beyond the end of a message, which C++ leaves undefined. The condition
-- variable's wait of `dma_read` stands between `dma_read_start` and `dma_read_end`.
pub mod Socket
pub mod Thread
pub mod Wired
pub mod Locking
use smart_eth.Base.{
  ℕ, ◌+◌, ◌-◌, Bool, true, false, not, Option, none, some, List, [], ◌∷◌, ◌++◌, length, take, drop,
  min, ltb, ◌==◌, if◌then◌else◌, u32,
}
use smart_eth.Bridge.Wire.{le32, le64, u32_at, u64_at}
use smart_eth.Sim.Protocol.{
  mmio_read_type, mmio_write_type, dma_read_type, dma_write_type, msi_irq_type, bridge_reset_type,
  status_ok, make_msg,
}

-- `sock_open` says whether m_sock_fd is not negative, `writable` whether the kernel takes what is written
-- to it. `sent` are the messages, newest first.
pub record PcieBridge : Type 0 where
  pub sock_open : Bool
  pub writable : Bool
  pub running : Bool
  pub dma_pending : Bool
  pub dma_resp : List ℕ
  pub sent : List (List ℕ)

-- The constructor `PcieBridge(name, socket_path)`.
unfoldable pub new_pcie_bridge : PcieBridge
new_pcie_bridge = record {
  sock_open = false;
  writable = false;
  running = false;
  dma_pending = false;
  dma_resp = [];
  sent = [];
}

-- The registered callbacks. They reach the bridge too, which sends the NIC's interrupts.
pub record Callbacks (N : Type 0) : Type 0 where
  pub mmio_read : Option (ℕ → N × PcieBridge → ℕ × (N × PcieBridge))
  pub mmio_write : Option (ℕ → ℕ → N × PcieBridge → N × PcieBridge)
  pub reset : Option (N × PcieBridge → N × PcieBridge)

-- A call of send_all with a whole message.
abbrev pub send : List ℕ → PcieBridge → Bool × PcieBridge
send message b = if b.writable then (true, record b { sent = message ∷ b.sent }) else (false, b)

-- dma_read up to its wait: `some` is a return, `none` goes on to the wait.
unfoldable pub dma_read_start : ℕ → ℕ → PcieBridge → Option Bool × PcieBridge
dma_read_start addr len b =
    let message = le32 dma_read_type ++ le32 12 ++ le64 addr ++ le32 len in
    let r = send message (record b { dma_pending = true; dma_resp = [] }) in
    if not b.sock_open
    then (some false, b)
    else if r.0
    then (none, r.1)
    else (some false, record (r.1) { dma_pending = false })

-- dma_read when the wait is over, because of an answer or after five seconds. `buf` has `len` bytes.
unfoldable pub dma_read_end : ℕ → List ℕ → PcieBridge → Option (List ℕ)
dma_read_end len buf b =
    let copy_len = min (u32 (length b.dma_resp)) len in
    if b.dma_pending then none else some (take copy_len b.dma_resp ++ drop copy_len buf)

unfoldable pub dma_write : ℕ → List ℕ → PcieBridge → Bool × PcieBridge
dma_write addr bytes b =
    if not b.sock_open
    then (false, b)
    else (send
        (le32 dma_write_type
          ++ le32 (12 + length bytes)
          ++ le64 addr
          ++ le32 (length bytes)
          ++ bytes)
        b)

unfoldable pub send_irq : ℕ → PcieBridge → PcieBridge
send_irq vector b = if not b.sock_open then b else (send (make_msg msi_irq_type (le32 vector)) b).1

-- DMA_READ: what the request asked for.
unfoldable pub handle_dma_resp : List ℕ → PcieBridge → Option PcieBridge
handle_dma_resp payload b =
    if ltb (length payload) 4
    then none
    else some (record b { dma_resp = drop 4 payload; dma_pending = false })

-- DMA_WRITE: the acknowledgement.
unfoldable pub handle_dma_ack : PcieBridge → PcieBridge
handle_dma_ack b = record b { dma_pending = false }

module _ {N : Type 0} where
  abbrev pub reply : ℕ → List ℕ → N × PcieBridge → N × PcieBridge
  reply type payload (n, b) = (n, (send (make_msg type payload) b).1)

  abbrev pub call_read :
      Option (ℕ → N × PcieBridge → ℕ × (N × PcieBridge)) → ℕ → N × PcieBridge → ℕ × (N × PcieBridge)
  call_read none addr w = (0, w)
  call_read (some cb) addr w = cb addr w

  abbrev pub call_write :
      Option (ℕ → ℕ → N × PcieBridge → N × PcieBridge) → ℕ → ℕ → N × PcieBridge → N × PcieBridge
  call_write none addr val w = w
  call_write (some cb) addr val w = cb addr val w

  abbrev pub call_reset : Option (N × PcieBridge → N × PcieBridge) → N × PcieBridge → N × PcieBridge
  call_reset none w = w
  call_reset (some cb) w = cb w

  abbrev pub on_bridge : Option PcieBridge → N → Option (N × PcieBridge)
  on_bridge none n = none
  on_bridge (some b) n = some (n, b)

module _ {N : Type 0} (cbs : Callbacks N) where
  unfoldable pub handle_mmio_read : List ℕ → N × PcieBridge → Option (N × PcieBridge)
  handle_mmio_read payload w =
      let r = call_read cbs.mmio_read (u64_at payload) w in
      if ltb (length payload) 8
      then none
      else some (reply mmio_read_type (le32 r.0 ++ le32 status_ok) r.1)

  unfoldable pub handle_mmio_write : List ℕ → N × PcieBridge → Option (N × PcieBridge)
  handle_mmio_write payload w =
      if ltb (length payload) 12
      then none
      else some (
          reply mmio_write_type (le32 status_ok)
            (call_write cbs.mmio_write (u64_at payload) (u32_at (drop 8 payload)) w))

  unfoldable pub handle_message : ℕ → List ℕ → N × PcieBridge → Option (N × PcieBridge)
  unfolding handle_mmio_read handle_mmio_write handle_dma_resp handle_dma_ack
  handle_message type payload w =
      if type == mmio_read_type
      then handle_mmio_read payload w
      else if type == mmio_write_type
      then handle_mmio_write payload w
      else if type == bridge_reset_type
      then some (reply bridge_reset_type (le32 status_ok) (call_reset cbs.reset w))
      else if type == dma_read_type
      then on_bridge (handle_dma_resp payload w.1) w.0
      else if type == dma_write_type
      then some (w.0, handle_dma_ack w.1)
      else some w
