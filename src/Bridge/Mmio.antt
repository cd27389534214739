-- ===== src/Bridge/Mmio.antt =====
-- sc_bridge_mmio_read and sc_bridge_mmio_write of smarteth_sc_bridge.c.
use smart_eth.Base.{
  ℕ, ◌/◌, ◌≡◌, ◌<◌, ◌^◌, refl, arith, true, false, none, [], ◌∷◌, ◌++◌, ◌==◌, if◌then◌else◌, u32,
  has,
}
use smart_eth.Bridge.{
  ScBridge, sc_reg_ctrl, sc_reg_count, sc_ctrl_reset, default_regs, local_write, mmio_write,
  arm_read, request_read, mmio_read_start, mmio_read_end, handle_mmio_read_resp,
}
use smart_eth.Bridge.Wire.{mmio_read_req, mmio_write_msg, le32, sc_status_ok}
use smart_eth.Bridge.Wire.Framing.{u32_at-le32}

module _ {M : Type 0} where
  -- A reset by a guest whose peer is connected puts every cached register back to its default, and
  -- the write is forwarded to the peer all the same.
  pub reset_is_forwarded :
      (s : ScBridge M) (val : ℕ)
      → has val sc_ctrl_reset ≡ true
      → s.connected ≡ true
      → s.sock_open ≡ true
      → mmio_write s sc_reg_ctrl val
        ≡ record s { regs = default_regs; sent = mmio_write_msg sc_reg_ctrl (u32 val) ∷ s.sent }
  unfolding mmio_write local_write
  reset_is_forwarded s val reset connected sock = ground arith

  -- A read of a connected peer that is answered by `value` and `status`: the request is sent and the
  -- flag is up during the wait; the answer takes the flag down; the read gives `value` if the
  -- status is 0 and the cached register otherwise, and only in the first case changes the
  -- cache, which then holds `value`.
  read_gets_answer :
      (s : ScBridge M) (addr value status : ℕ)
      → addr < sc_reg_count
      → s.connected ≡ true
      → s.sock_open ≡ true
      → value < 2 ^ 32
      → status < 2 ^ 32
      → (let waiting = (mmio_read_start s addr).1 in
          let answered = handle_mmio_read_resp waiting (le32 value ++ le32 status) in
          let result = mmio_read_end answered addr in
          (mmio_read_start s addr
            ≡ (none, record s { mmio_pending = true; sent = mmio_read_req addr ∷ s.sent }))
          × (answered.mmio_pending ≡ false)
          × (result.0 ≡ (if status == sc_status_ok then value else s.regs (addr / 4)))
          × (result.1.regs (addr / 4) ≡ result.0)
          × (result.1.sent ≡ mmio_read_req addr ∷ s.sent))
  unfolding mmio_read_start arm_read request_read handle_mmio_read_resp mmio_read_end
  read_gets_answer s addr value status h connected sock hv hs = (
    ground arith,
    refl,
    ground (arith, u32_at-le32 value [] hv, u32_at-le32 status [] hs),
    ground arith,
    ground arith,
  )
