-- ===== src/Sim/Nic.antt =====
-- sim/systemc/src/nic.cpp: the SmartNic module, with its bridge set as main.cpp does. A handler takes
-- the NIC and the host's state behind the `Link`, and returns both. What it does under g_reg_mtx is
-- one step; the log lines are left out.
pub mod Descriptors
pub mod Tx
pub mod Rx
pub mod Mmio
pub mod Dma
use smart_eth.Base.{
  ℕ, zero, suc, ◌+◌, ◌*◌, ◌/◌, ◌%◌, ◌^◌, Bool, true, false, not, ◌&&◌, ◌||◌, Option, none, some,
  List, [], ◌∷◌, ◌++◌, bit_and, bit_or, ltb, leb, ◌==◌, if◌then◌else◌, min, take, length, replicate,
  get_or, u32, u8, not32, has,
}
use smart_eth.Sim.Protocol.{
  Desc, desc_bytes, desc_at, desc_size, sc_reg_irq_en, sc_reg_irq_sts, sc_reg_mac_lo, sc_reg_mac_hi,
  sc_reg_dma_src, sc_reg_dma_dst, sc_reg_dma_len, sc_reg_dma_ctrl, sc_reg_dma_sts,
  sc_reg_tx_ring_base_lo, sc_reg_tx_ring_base_hi, sc_reg_tx_ring_size, sc_reg_tx_doorbell,
  sc_reg_tx_tail, sc_reg_rx_ring_base_lo, sc_reg_rx_ring_base_hi, sc_reg_rx_ring_size,
  sc_reg_rx_tail, sc_status_dma_bsy, sc_irq_dma_done, sc_irq_tx_done, sc_irq_rx, sc_dma_start,
  sc_dma_irq_en, desc_flag_own, desc_flag_done,
}
use smart_eth.Sim.RegBlock
use smart_eth.Sim.RegBlock.{RegBlock, set_reg, new_reg_block}
use smart_eth.Sim.DmaEngine.{Link, DmaEngine, new_dma_engine, configure, status, start}
use smart_eth.Sim.PktProc.{PktProc, new_pkt_proc, receive}

-- `has_netif` is `m_netif != nullptr`; `tx_event` is set while the event is notified and process_tx has
-- not woken yet.
pub record Nic : Type 0 where
  pub regs : RegBlock
  pub dma : DmaEngine
  pub pkt : PktProc
  pub has_netif : Bool
  pub dma_pending : Bool
  pub tx_pending : Bool
  pub tx_event : Bool

unfoldable pub new_nic : Bool → Nic
unfolding new_reg_block new_dma_engine new_pkt_proc
new_nic netif = record {
  regs = new_reg_block;
  dma = new_dma_engine;
  pkt = new_pkt_proc;
  has_netif = netif;
  dma_pending = false;
  tx_pending = false;
  tx_event = false;
}

-- `m_regs.get_reg(offset >> 2)` and `m_regs.set_reg(offset >> 2, val)`
abbrev pub get : Nic → ℕ → ℕ
get n offset = n.regs.regs (offset / 4)

abbrev pub put : ℕ → ℕ → Nic → Nic
put offset val n = record n { regs = set_reg (offset / 4) val n.regs }

unfoldable pub on_mmio_read : Nic → ℕ → ℕ
on_mmio_read n addr =
    let val = RegBlock.read n.regs addr in
    if addr == sc_reg_dma_sts
    then bit_or (bit_and val (not32 2)) (if status n.dma == 0 then 0 else 2)
    else val

-- DMA_CTRL with the start bit.
unfoldable pub request_dma : ℕ → Nic → Nic
unfolding configure
request_dma ctrl n = record (put sc_reg_dma_sts sc_status_dma_bsy n) {
  dma = configure (get n sc_reg_dma_src) (get n sc_reg_dma_dst) (get n sc_reg_dma_len) ctrl n.dma;
  dma_pending = true;
}

-- `on_reset`, for the message BRIDGE_RESET.
unfoldable pub on_reset : Nic → Nic
on_reset n = record n { regs = RegBlock.reset n.regs; dma_pending = false; tx_pending = false }

-- What a write does to the NIC, before the interrupt.
unfoldable pub written : Nic → ℕ → ℕ → Nic
unfolding request_dma
written n addr val =
    let n1 = record n { regs = (RegBlock.write n.regs addr val).1 } in
    let n2 = if addr == sc_reg_dma_ctrl && has val sc_dma_start then request_dma val n1 else n1 in
    if addr == sc_reg_tx_doorbell && ltb 0 val
    then record n2 { tx_pending = true; tx_event = true }
    else n2

-- The address of a ring from its two registers, and of a descriptor in it.
abbrev pub ring_base : Nic → ℕ → ℕ → ℕ
ring_base n hi lo = bit_or (get n hi * 2 ^ 32) (get n lo)

abbrev pub desc_address : ℕ → ℕ → ℕ
desc_address base tail = (base + tail * desc_size) % 2 ^ 64

abbrev pub next_tail : ℕ → ℕ → ℕ
next_tail tail size = u32 (tail + 1) % size

-- The descriptor that is given back: OWN cleared, DONE set.
abbrev pub done_flags : ℕ → ℕ
done_flags flags = bit_or (bit_and flags (not32 desc_flag_own)) desc_flag_done

module _ {S : Type 0} (link : Link S) where
  unfoldable pub on_mmio_write : Nic → ℕ → ℕ → S → Nic × S
  unfolding written
  on_mmio_write n addr val s =
      (written n addr val, if (RegBlock.write n.regs addr val).0 then link.send_irq 0 s else s)

  -- IRQ_STS with `bit`, and vector `vector`.
  abbrev pub raise : ℕ → ℕ → Nic × S → Nic × S
  raise bit vector (n, s) =
      (put sc_reg_irq_sts (bit_or (get n sc_reg_irq_sts) bit) n, link.send_irq vector s)

  abbrev pub raise_if : Bool → ℕ → ℕ → Nic × S → Nic × S
  raise_if wanted bit vector w = if wanted then raise bit vector w else w

  -- One round of poll_irq.
  unfoldable pub poll_irq : Nic → S → S
  poll_irq n s =
      let irq = get n sc_reg_irq_sts in
      if irq == 0 then s else link.send_irq (if has irq sc_irq_dma_done then 0 else 1) s

  -- One round of process_dma, with the time that it waits for at the end.
  unfoldable pub process_dma : Nic → S → ℕ × (Nic × S)
  unfolding start
  process_dma n s =
      if not n.dma_pending
      then (0, (n, s))
      else (let r = start link n.dma s in
          let n' = put sc_reg_dma_sts 0 (record n { dma = r.1.0; dma_pending = false }) in
          (
            r.0,
            raise_if (has (get n' sc_reg_dma_ctrl) sc_dma_irq_en) sc_irq_dma_done 0 (n', r.1.1),
          ))
