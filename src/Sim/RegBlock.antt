-- ===== src/Sim/RegBlock.antt =====
-- sim/systemc/src/reg_block.cpp: the register file of the NIC. `m_last_delay_ns`, which is always
-- REG_ACCESS_NS, is left out.
use smart_eth.Base.{
  ℕ, ◌/◌, ◌^◌, Bool, true, false, ◌||◌, bit_and, bit_or, leb, ◌==◌, if◌then◌else◌, u8, not32, has,
  store,
}
use smart_eth.Device.{Mac, mac_lo, mac_hi, default_mac}
use smart_eth.Sim.Protocol.{
  sc_reg_ctrl, sc_reg_status, sc_reg_irq_sts, sc_reg_mac_lo, sc_reg_mac_hi, sc_reg_dma_ctrl,
  sc_reg_dma_sts, sc_reg_dev_id, sc_reg_irq_test, sc_reg_count, sc_ctrl_reset, sc_status_ready,
  sc_irq_test, sc_dev_id,
}

pub record RegBlock : Type 0 where
  pub regs : ℕ → ℕ
  pub mac : Mac

unfoldable pub set_mac : Mac → RegBlock → RegBlock
set_mac m rb = record {
  regs = store (store rb.regs (sc_reg_mac_lo / 4) (mac_lo m)) (sc_reg_mac_hi / 4) (mac_hi m);
  mac = m;
}

unfoldable pub get_mac : RegBlock → Mac
get_mac rb =
    let lo = rb.regs (sc_reg_mac_lo / 4) in
    let hi = rb.regs (sc_reg_mac_hi / 4) in
    record {
      m0 = u8 (bit_and lo 0xFF);
      m1 = u8 (bit_and (lo / 2 ^ 8) 0xFF);
      m2 = u8 (bit_and (lo / 2 ^ 16) 0xFF);
      m3 = u8 (bit_and (lo / 2 ^ 24) 0xFF);
      m4 = u8 (bit_and hi 0xFF);
      m5 = u8 (bit_and (hi / 2 ^ 8) 0xFF);
    }

-- The constructor `RegBlock()`.
unfoldable pub new_reg_block : RegBlock
unfolding set_mac
new_reg_block = set_mac default_mac (record { regs = λ _. 0; mac = default_mac })

unfoldable pub reset : RegBlock → RegBlock
reset rb = record rb { regs = store (λ _. 0) (sc_reg_dma_sts / 4) 0 }

unfoldable pub read : RegBlock → ℕ → ℕ
read rb addr =
    if leb sc_reg_count addr
    then 0
    else if addr == sc_reg_dev_id
    then sc_dev_id
    else if addr == sc_reg_status
    then sc_status_ready
    else rb.regs (addr / 4)

-- `m_regs[addr >> 2] = val`
abbrev pub set_reg : ℕ → ℕ → RegBlock → RegBlock
set_reg index val rb = record rb { regs = store rb.regs index val }

-- `CTRL` with the reset bit.
unfoldable pub reset_by_guest : RegBlock → RegBlock
unfolding reset set_mac
reset_by_guest rb = set_reg (sc_reg_irq_sts / 4) 0 (set_mac rb.mac (reset rb))

-- The result is whether the interrupt status changed.
unfoldable pub write : RegBlock → ℕ → ℕ → Bool × RegBlock
unfolding reset_by_guest
write rb addr val =
    if leb sc_reg_count addr
    then (false, rb)
    else if addr == sc_reg_ctrl
    then (
      false,
      if has val sc_ctrl_reset then reset_by_guest rb else set_reg (sc_reg_ctrl / 4) val rb,
    )
    else if addr == sc_reg_irq_sts
    then (
      true,
      set_reg (sc_reg_irq_sts / 4) (bit_and (rb.regs (sc_reg_irq_sts / 4)) (not32 val)) rb,
    )
    else if addr == sc_reg_dma_ctrl
    then (false, set_reg (sc_reg_dma_ctrl / 4) val rb)
    else if addr == sc_reg_irq_test
    then (if val == 0 then (false, rb) else (
      true,
      set_reg (sc_reg_irq_sts / 4) (bit_or (rb.regs (sc_reg_irq_sts / 4)) sc_irq_test) rb,
    ))
    else if addr == sc_reg_status || addr == sc_reg_dev_id
    then (false, rb)
    else (false, set_reg (addr / 4) val rb)
