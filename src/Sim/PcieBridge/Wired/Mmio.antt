-- ===== src/Sim/PcieBridge/Wired/Mmio.antt =====
-- The guest's accesses to the registers of the simulated NIC, from one end of the socket to the other.
use smart_eth.Base.{
  ℕ, ◌^◌, ◌<◌, ◌≡◌, refl, ap, ◌∙◌, arith, Bool, true, false, ◌||◌, none, [], ◌∷◌, ◌++◌, if_true,
  ◌==◌, u32,
}
use smart_eth.Device.{Bus}
use smart_eth.Bridge
use smart_eth.Bridge.{
  ScBridge, sc_reg_count, sc_reg_status, sc_reg_dev_id, local_write, mmio_read_start, mmio_read_end,
  arm_read, request_read, handle_mmio_read_resp,
}
use smart_eth.Bridge.Wire.{le32, u32_at, mmio_read_req, mmio_read_resp, mmio_write_msg}
use smart_eth.Bridge.Wire.Framing.{u32_at-le32, u64_at-le64}
use smart_eth.Sim.Protocol.{status_ok, mmio_read_type, mmio_write_type, make_msg}
use smart_eth.Sim.DmaEngine.{Link}
use smart_eth.Sim.Nic.{Nic, on_mmio_read, on_mmio_write}
use smart_eth.Sim.PcieBridge.{
  PcieBridge, handle_message, handle_mmio_read, handle_mmio_write, reply,
}
use smart_eth.Sim.PcieBridge.Wired.{at_qemu, at_nic, nic_callbacks, newest}

module _ (link : Link PcieBridge) (n : Nic) (b : PcieBridge) where
  nic_answers_read :
      (addr : ℕ)
      → b.writable ≡ true
      → addr < 2 ^ 64
      → at_nic (nic_callbacks link) (mmio_read_req addr) (n, b)
        ≡ (n, record b { sent = mmio_read_resp (on_mmio_read n addr) status_ok ∷ b.sent })
  unfolding handle_message handle_mmio_read nic_callbacks
  nic_answers_read addr up ha =
      ap
        (λ (a : ℕ).
          reply {N = Nic} mmio_read_type (le32 (on_mmio_read n a) ++ le32 status_ok) (n, b))
        (u64_at-le64 addr [] ha)
      ∙ ap (λ (r : Bool × PcieBridge). (n, r.1)) (if_true _ _ up)

  nic_answers_write :
      (addr val : ℕ)
      → addr < 2 ^ 64
      → val < 2 ^ 32
      → at_nic (nic_callbacks link) (mmio_write_msg addr val) (n, b)
        ≡ reply mmio_write_type (le32 status_ok) (on_mmio_write link n addr val b)
  unfolding handle_message handle_mmio_write nic_callbacks
  nic_answers_write addr val ha hv =
      ap
        (λ (a : ℕ).
          reply {N = Nic} mmio_write_type (le32 status_ok)
            (on_mmio_write link n a (u32_at (le32 val)) b))
        (u64_at-le64 addr (le32 val) ha)
      ∙ ap
          (λ (v : ℕ).
            reply {N = Nic} mmio_write_type (le32 status_ok) (on_mmio_write link n addr v b))
          (u32_at-le32 val [] hv)

module _ {M : Type 0} (s : ScBridge M) where
  read_leaves :
      (addr : ℕ)
      → s.connected ≡ true
      → s.sock_open ≡ true
      → addr < sc_reg_count
      → mmio_read_start s addr
        ≡ (none, record s { mmio_pending = true; sent = mmio_read_req addr ∷ s.sent })
  unfolding mmio_read_start arm_read request_read
  read_leaves addr connected up ha = ground arith

  write_leaves :
      (addr val : ℕ)
      → s.connected ≡ true
      → s.sock_open ≡ true
      → addr < sc_reg_count
      → (addr == sc_reg_status || addr == sc_reg_dev_id) ≡ false
      → Bridge.mmio_write s addr val ≡ record s {
        regs = local_write s.regs addr val;
        sent = mmio_write_msg addr (u32 val) ∷ s.sent;
      }
  unfolding Bridge.mmio_write
  write_leaves addr val connected up ha plain = ground arith

  answer_arrives :
      (bus : Bus M) (value : ℕ)
      → value < 2 ^ 32
      → at_qemu bus (mmio_read_resp value status_ok) s
        ≡ record s { mmio_resp_data = value; mmio_resp_status = status_ok; mmio_pending = false }
  unfolding Bridge.handle_msg handle_mmio_read_resp
  answer_arrives bus value hv =
      ap
        (λ (v : ℕ). record s {
          mmio_resp_data = v;
          mmio_resp_status = status_ok;
          mmio_pending = false;
        })
        (u32_at-le32 value [] hv)

module _ {M : Type 0} (bus : Bus M) (link : Link PcieBridge) where
  -- A guest's read of a register through both bridges, which are connected, where the NIC
  -- gives a 32-bit value: the request leaves QEMU, the NIC's answer comes back, QEMU's wait is
  -- over, and the read gives what the NIC's on_mmio_read gives. The NIC is not changed.
  pub mmio_read-on_mmio_read :
      (s : ScBridge M) (n : Nic) (b : PcieBridge) (addr : ℕ)
      → s.connected ≡ true
      → s.sock_open ≡ true
      → b.writable ≡ true
      → addr < sc_reg_count
      → on_mmio_read n addr < 2 ^ 32
      → (let start = mmio_read_start s addr in
          let w = at_nic (nic_callbacks link) (newest start.1.sent) (n, b) in
          let answered = at_qemu bus (newest w.1.sent) start.1 in
          (start.0 ≡ none)
          × (w.0 ≡ n)
          × (answered.mmio_pending ≡ false)
          × ((mmio_read_end answered addr).0 ≡ on_mmio_read n addr))
  unfolding mmio_read_end
  mmio_read-on_mmio_read s n b addr connected up writable ha hv =
      rw
        (
          read_leaves s addr connected up ha,
          nic_answers_read link n b addr writable (omega arith),
          answer_arrives (record s { mmio_pending = true; sent = mmio_read_req addr ∷ s.sent }) bus
              (on_mmio_read n addr) hv,
        )
        (refl, refl, refl, refl)

  -- A guest's write of a 32-bit value to a register other than STATUS and DEV_ID, through a
  -- connected bridge, reaches the NIC's on_mmio_write with the same address and value, and the
  -- NIC's acknowledgement changes nothing at QEMU's end.
  pub mmio_write-on_mmio_write :
      (s : ScBridge M) (n : Nic) (b : PcieBridge) (addr val : ℕ)
      → s.connected ≡ true
      → s.sock_open ≡ true
      → addr < sc_reg_count
      → (addr == sc_reg_status || addr == sc_reg_dev_id) ≡ false
      → val < 2 ^ 32
      → (let s' = Bridge.mmio_write s addr val in
          (at_nic (nic_callbacks link) (newest s'.sent) (n, b)
            ≡ reply mmio_write_type (le32 status_ok) (on_mmio_write link n addr val b))
          × (at_qemu bus (make_msg mmio_write_type (le32 status_ok)) s' ≡ s'))
  unfolding Bridge.handle_msg
  mmio_write-on_mmio_write s n b addr val connected up ha plain hv =
      let e : u32 val ≡ val = omega arith in
      rw (write_leaves s addr val connected up ha plain, e)
        (nic_answers_write link n b addr val (omega arith) hv, refl)
