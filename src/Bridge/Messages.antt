-- ===== src/Bridge/Messages.antt =====
-- sc_bridge_handle_msg of smarteth_sc_bridge.c and the handlers of the peer's requests.
use smart_eth.Base.{
  ℕ, ◌+◌, ◌≡◌, ◌≢◌, ◌<◌, ◌≤◌, ◌^◌, arith, true, none, some, List, [], ◌∷◌, ◌++◌, ltb, if◌then◌else◌,
  min, length, take, drop, take-all,
}
use smart_eth.Device.{Bus}
use smart_eth.Device.Transfer.{FillsLength}
use smart_eth.Bridge.{
  ScBridge, send, dma_buf_size, handle_msg, handle_dma_read, handle_dma_write, handle_msi,
}
use smart_eth.Bridge.Wire.{
  le32, le64, u32_at, sc_msg_mmio_read, sc_msg_dma_read, sc_msg_dma_write, sc_status_ok,
  dma_read_resp, dma_write_resp,
}
use smart_eth.Bridge.Wire.Framing.{u32_at-le32, u64_at-le64}

module _ {M : Type 0} (bus : Bus M) where
  -- A request for `n` bytes at `addr` is answered by the bytes of the guest's memory there, 4096 of
  -- them at most, and the length field of the answer counts the status word and those bytes.
  -- Nothing else changes.
  pub dma_read_answer :
      (s : ScBridge M) (addr n : ℕ)
      → FillsLength bus
      → s.sock_open ≡ true
      → addr < 2 ^ 64
      → n < 2 ^ 32
      → (let bytes = bus.dma_read s.memory addr (min n dma_buf_size) in
          let answer = dma_read_resp sc_status_ok bytes in
          (handle_msg bus s sc_msg_dma_read (le64 addr ++ le32 n)
            ≡ some (record s { sent = answer ∷ s.sent }))
          × (u32_at (drop 4 answer) ≡ 4 + min n dma_buf_size))
  unfolding handle_msg handle_dma_read
  dma_read_answer s addr n fills sock ha hn = (
    ground (arith, u64_at-le64 addr (le32 n) ha, u32_at-le32 n [] hn),
    omega (
      arith,
      u32_at-le32 (4 + length (bus.dma_read s.memory addr (min n dma_buf_size))) []
          (omega (arith, fills s.memory addr (min n dma_buf_size))),
      fills s.memory addr (min n dma_buf_size),
    ),
  )

  dma_write_lem :
      (s : ScBridge M) (addr n : ℕ) (bytes : List ℕ)
      → addr < 2 ^ 64
      → n < 2 ^ 32
      → handle_dma_write bus s (le64 addr ++ le32 n ++ bytes) ≡ (
          if ltb (length bytes) (min n dma_buf_size)
          then none
          else some (
              send (dma_write_resp sc_status_ok) (record s {
                memory = bus.dma_write s.memory addr (take (min n dma_buf_size) bytes);
              })))
  unfolding handle_dma_write
  dma_write_lem s addr n bytes ha hn =
      ground (arith, u64_at-le64 addr (le32 n ++ bytes) ha, u32_at-le32 n bytes hn)

  -- A request to write the bytes that come with it, 4096 at most, writes exactly those into the
  -- guest's memory at `addr` and is acknowledged.
  pub dma_write_answer :
      (s : ScBridge M) (addr : ℕ) (bytes : List ℕ)
      → s.sock_open ≡ true
      → addr < 2 ^ 64
      → length bytes ≤ dma_buf_size
      → handle_msg bus s sc_msg_dma_write (le64 addr ++ le32 (length bytes) ++ bytes)
        ≡ some (record s {
          memory = bus.dma_write s.memory addr bytes;
          sent = dma_write_resp sc_status_ok ∷ s.sent;
        })
  unfolding handle_msg handle_dma_write
  dma_write_answer s addr bytes sock ha hb = ground (
    arith,
    dma_write_lem s addr (length bytes) bytes ha (omega arith),
    take-all (min (length bytes) dma_buf_size) bytes (omega arith),
  )

  -- The length of a write request is not compared with the length of its message: a request for
  -- `n` bytes that brings fewer, and fewer than 4096, reads beyond the end of the message.
  dma_write_overread :
      (s : ScBridge M) (addr n : ℕ) (bytes : List ℕ)
      → n < 2 ^ 32
      → length bytes < min n dma_buf_size
      → handle_msg bus s sc_msg_dma_write (le64 addr ++ le32 n ++ bytes) ≡ none
  unfolding handle_msg handle_dma_write
  dma_write_overread s addr n bytes hn short = ground (arith, u32_at-le32 n bytes hn)

  -- No other message faults: whatever its type and payload, only a write request can.
  pub other_messages_return :
      (s : ScBridge M) (type : ℕ) (payload : List ℕ)
      → type ≢ sc_msg_dma_write
      → handle_msg bus s type payload ≢ none
  unfolding handle_msg
  other_messages_return s type payload ne = ground arith

  -- A message that is no answer to a read leaves the read's flag, data and status, the cached
  -- registers and the connection as they are.
  pub other_messages_keep_read :
      (s s' : ScBridge M) (type : ℕ) (payload : List ℕ)
      → type ≢ sc_msg_mmio_read
      → handle_msg bus s type payload ≡ some s'
      → (s'.mmio_pending ≡ s.mmio_pending)
        × (s'.mmio_resp_data ≡ s.mmio_resp_data)
        × (s'.mmio_resp_status ≡ s.mmio_resp_status)
        × (s'.regs ≡ s.regs)
        × (s'.connected ≡ s.connected)
  unfolding handle_msg handle_dma_read handle_dma_write handle_msi
  other_messages_keep_read s s' type payload ne h =
      (ground arith, ground arith, ground arith, ground arith, ground arith)
