-- ===== src/Bridge.antt =====
-- firmware/qemu-dev/smarteth_sc_bridge.c and sc_protocol.h: the PCIe device that forwards register
-- accesses to a SystemC model over a socket, and serves its DMA and interrupt requests.
-- A handler returns the new state. The messages that were given to the socket are recorded in
-- `sent`, the MSI-X vectors in `notified`, newest first. A blocking read is two functions, up to
-- the wait on the condition variable and from there on.
pub mod Wire
pub mod Socket
pub mod Mmio
pub mod Messages
pub mod Waiting
pub mod Thread
pub mod Lifecycle
mod Tests
use smart_eth.Base.{
  ℕ, ◌+◌, ◌-◌, ◌*◌, ◌/◌, ◌≡◌, Bool, true, false, not, ◌||◌, Option, none, some, List, [], ◌∷◌,
  bit_and, bit_or, leb, ltb, ◌==◌, if◌then◌else◌, min, length, take, drop, u32, not32, has, store,
}
use smart_eth.Device.{Bus}
use smart_eth.Bridge.Wire.{
  u32_at, u64_at, mmio_read_req, mmio_write_msg, dma_read_resp, dma_write_resp, sc_msg_mmio_read,
  sc_msg_mmio_write, sc_msg_dma_read, sc_msg_dma_write, sc_msg_msi_irq, sc_status_ok,
}

abbrev pub sc_reg_ctrl : ℕ
sc_reg_ctrl = 0x000

abbrev pub sc_reg_status : ℕ
sc_reg_status = 0x004

abbrev pub sc_reg_irq_sts : ℕ
sc_reg_irq_sts = 0x00C

abbrev pub sc_reg_mac_lo : ℕ
sc_reg_mac_lo = 0x010

abbrev pub sc_reg_mac_hi : ℕ
sc_reg_mac_hi = 0x014

abbrev pub sc_reg_dma_ctrl : ℕ
sc_reg_dma_ctrl = 0x058

abbrev pub sc_reg_dma_sts : ℕ
sc_reg_dma_sts = 0x05C

abbrev pub sc_reg_dev_id : ℕ
sc_reg_dev_id = 0x100

abbrev pub sc_reg_count : ℕ
sc_reg_count = 0x400

abbrev pub sc_ctrl_reset : ℕ
sc_ctrl_reset = 1

abbrev pub sc_dma_start : ℕ
sc_dma_start = 1

abbrev pub sc_status_ready : ℕ
sc_status_ready = 1

abbrev pub sc_status_dma_bsy : ℕ
sc_status_dma_bsy = 2

abbrev pub sc_dev_id : ℕ
sc_dev_id = 0x52414D53

abbrev pub dma_buf_size : ℕ
dma_buf_size = 4096

-- `sock_open` and `listen_open` say whether the descriptor is not -1; `msix` is what
-- `msix_enabled` answers.
pub record ScBridge (M : Type 0) : Type 0 where
  pub listen_open : Bool
  pub sock_open : Bool
  pub connected : Bool
  pub io_thread_running : Bool
  pub mmio_pending : Bool
  pub mmio_resp_data : ℕ
  pub mmio_resp_status : ℕ
  pub regs : ℕ → ℕ
  pub sent : List (List ℕ)
  pub msix : Bool
  pub notified : List ℕ
  pub memory : M

-- The registers after `realize` and after a reset.
abbrev pub default_regs : ℕ → ℕ
default_regs =
    store
      (store
        (store (store (λ _. 0) (sc_reg_dev_id / 4) sc_dev_id) (sc_reg_status / 4) sc_status_ready)
        (sc_reg_mac_lo / 4) 0x00541234)
      (sc_reg_mac_hi / 4) 0x0056

-- The registers after the `switch` of `sc_bridge_mmio_write`.
unfoldable pub local_write : (ℕ → ℕ) → ℕ → ℕ → ℕ → ℕ
local_write regs addr val =
    if addr == sc_reg_ctrl
    then (if has val sc_ctrl_reset then default_regs else store regs (addr / 4) (u32 val))
    else if addr == sc_reg_irq_sts
    then store regs (addr / 4) (bit_and (regs (addr / 4)) (not32 val))
    else if addr == sc_reg_dma_ctrl
    then (if has val sc_dma_start
        then store (store regs (addr / 4) (u32 val)) (sc_reg_dma_sts / 4) sc_status_dma_bsy
        else store regs (addr / 4) (u32 val))
    else store regs (addr / 4) (u32 val)

module _ {M : Type 0} where
  -- A message is dropped where there is no socket.
  abbrev pub send : List ℕ → ScBridge M → ScBridge M
  send message s = if s.sock_open then record s { sent = message ∷ s.sent } else s

  abbrev pub send_mmio_write : ℕ → ℕ → ScBridge M → ScBridge M
  send_mmio_write addr val s = send (mmio_write_msg addr val) s

  unfoldable pub mmio_write : ScBridge M → ℕ → ℕ → ScBridge M
  unfolding local_write
  mmio_write s addr val =
      if leb sc_reg_count addr
      then s
      else if addr == sc_reg_status || addr == sc_reg_dev_id
      then s
      else (let s' = record s { regs = local_write s.regs addr val } in
          if s.connected then send_mmio_write addr (u32 val) s' else s')

  -- What a read gives before the peer is there.
  unfoldable pub offline_read : ScBridge M → ℕ → ℕ
  offline_read s addr =
      if addr == sc_reg_dev_id
      then sc_dev_id
      else if addr == sc_reg_status
      then sc_status_ready
      else s.regs (addr / 4)

  -- The flag goes up before the request leaves.
  unfoldable pub arm_read : ScBridge M → ScBridge M
  arm_read s = record s { mmio_pending = true }

  unfoldable pub request_read : ℕ → ScBridge M → ScBridge M
  request_read addr s = send (mmio_read_req addr) s

  -- `sc_bridge_mmio_read` up to the wait: `some` is a return, `none` goes on to the wait.
  unfoldable pub mmio_read_start : ScBridge M → ℕ → Option ℕ × ScBridge M
  unfolding offline_read arm_read request_read
  mmio_read_start s addr =
      if leb sc_reg_count addr
      then (some 0, s)
      else if not s.connected
      then (some (offline_read s addr), s)
      else (none, request_read addr (arm_read s))

  -- From the end of the wait on.
  unfoldable pub mmio_read_end : ScBridge M → ℕ → ℕ × ScBridge M
  mmio_read_end s addr =
      if s.mmio_resp_status == sc_status_ok
      then (s.mmio_resp_data, record s { regs = store s.regs (addr / 4) s.mmio_resp_data })
      else (s.regs (addr / 4), s)

  -- `sc_bridge_io_thread` before its loop, by whether `accept` succeeds.
  unfoldable pub accept : Bool → ScBridge M → ScBridge M
  accept ok s = record s { sock_open = ok; connected = ok }

  -- `sc_bridge_io_thread` after its loop.
  unfoldable pub hang_up : ScBridge M → ScBridge M
  hang_up s = record s { sock_open = false; connected = false }

  unfoldable pub handle_mmio_read_resp : ScBridge M → List ℕ → ScBridge M
  handle_mmio_read_resp s payload = if ltb (length payload) 8 then s else record s {
    mmio_resp_data = u32_at payload;
    mmio_resp_status = u32_at (drop 4 payload);
    mmio_pending = false;
  }

  unfoldable pub handle_msi : ScBridge M → List ℕ → ScBridge M
  handle_msi s payload =
      if ltb (length payload) 4
      then s
      else if s.msix
      then record s { notified = u32_at payload ∷ s.notified }
      else s

module _ {M : Type 0} (bus : Bus M) where
  unfoldable pub handle_dma_read : ScBridge M → List ℕ → ScBridge M
  handle_dma_read s payload =
      if ltb (length payload) 12
      then s
      else send
          (dma_read_resp sc_status_ok
            (bus.dma_read s.memory (u64_at payload) (min (u32_at (drop 8 payload)) dma_buf_size)))
          s

  -- `none` is a read beyond the end of the payload, which C leaves undefined.
  unfoldable pub handle_dma_write : ScBridge M → List ℕ → Option (ScBridge M)
  handle_dma_write s payload =
      let len = min (u32_at (drop 8 payload)) dma_buf_size in
      if ltb (length payload) 12
      then some s
      else if ltb (length payload) (12 + len)
      then none
      else some (
          send (dma_write_resp sc_status_ok) (record s {
            memory = bus.dma_write s.memory (u64_at payload) (take len (drop 12 payload));
          }))

  -- `sc_bridge_handle_msg`
  unfoldable pub handle_msg : ScBridge M → ℕ → List ℕ → Option (ScBridge M)
  unfolding handle_mmio_read_resp handle_dma_read handle_dma_write handle_msi
  handle_msg s type payload =
      if type == sc_msg_mmio_read
      then some (handle_mmio_read_resp s payload)
      else if type == sc_msg_mmio_write
      then some s
      else if type == sc_msg_dma_read
      then some (handle_dma_read s payload)
      else if type == sc_msg_dma_write
      then handle_dma_write s payload
      else if type == sc_msg_msi_irq
      then some (handle_msi s payload)
      else some s
