-- ===== src/Sim/Nic/Tx.antt =====
-- process_tx of nic.cpp: the transmit ring. `tx_round` is a round of the inner loop up to the wait at its
-- end, `tx_done` what is behind the loop; each takes g_reg_mtx anew. Tx/Process.antt puts them
-- together with what the other threads do.
pub mod Frames
pub mod Process
use smart_eth.Base.{
  ℕ, zero, suc, ◌+◌, ◌-◌, ◌*◌, ◌/◌, ◌%◌, ◌^◌, Bool, true, false, not, ◌&&◌, ◌||◌, Option, none,
  some, List, [], ◌∷◌, ◌++◌, bit_and, bit_or, ltb, leb, ◌==◌, if◌then◌else◌, min, take, length,
  replicate, get_or, u32, not32, has,
}
use smart_eth.Sim.Protocol.{
  Desc, desc_bytes, desc_at, sc_reg_irq_en, sc_reg_irq_sts, sc_reg_mac_lo, sc_reg_mac_hi,
  sc_reg_tx_ring_base_lo, sc_reg_tx_ring_base_hi, sc_reg_tx_ring_size, sc_reg_tx_doorbell,
  sc_reg_tx_tail, sc_reg_rx_ring_base_lo, sc_reg_rx_ring_base_hi, sc_reg_rx_ring_size,
  sc_reg_rx_tail, sc_irq_tx_done, sc_irq_rx, desc_flag_own,
}
use smart_eth.Sim.DmaEngine.{Link}
use smart_eth.Sim.PktProc.{receive}
use smart_eth.Sim.Nic.{Nic, get, put, ring_base, desc_address, next_tail, done_flags, raise_if}

-- process_tx in a round of its inner loop, from its end. The first component is `none` for a break, or
-- the nanoseconds of the wait that the round ends with, which is made with g_reg_mtx held. `junk`
-- is the uninitialised SmartEthDesc.
abbrev pub tx_advance : Nic → Nic
tx_advance n =
    put sc_reg_tx_doorbell (get n sc_reg_tx_doorbell - 1)
      (put sc_reg_tx_tail (next_tail (get n sc_reg_tx_tail) (get n sc_reg_tx_ring_size)) n)

abbrev pub tx_delay : ℕ → ℕ
tx_delay len = u32 (100 + len / 4 * 2)

module _ {S : Type 0} (link : Link S) (junk : List ℕ) where
  abbrev pub tx_given_back : Nic → ℕ → Bool × S → Option ℕ × (Nic × S)
  tx_given_back n len (ok, s) =
      if ok then (some (tx_delay len), (tx_advance n, s)) else (none, (n, s))

  abbrev pub tx_transmit : Nic → List ℕ → S → S
  tx_transmit n frame s = if n.has_netif then link.transmit frame s else s

  abbrev pub tx_packet : Nic → ℕ → Desc → Option (List ℕ) × S → Option ℕ × (Nic × S)
  tx_packet n addr d (none, s) = (none, (n, s))
  tx_packet n addr d (some frame, s) = tx_given_back n d.len (
      link.dma_write addr (desc_bytes (record d { flags = done_flags d.flags }))
        (tx_transmit n frame s))

  abbrev pub tx_descriptor : Nic → ℕ → Option (List ℕ) × S → Option ℕ × (Nic × S)
  tx_descriptor n addr (none, s) = (none, (n, s))
  tx_descriptor n addr (some bytes, s) =
      let d = desc_at bytes in
      if not (has d.flags desc_flag_own)
      then (none, (record n { tx_pending = false }, s))
      else tx_packet n addr d (link.dma_read d.addr (replicate d.len 0) s)

  unfoldable pub tx_round : Nic → S → Option ℕ × (Nic × S)
  tx_round n s =
      let base = ring_base n sc_reg_tx_ring_base_hi sc_reg_tx_ring_base_lo in
      let addr = desc_address base (get n sc_reg_tx_tail) in
      if not n.tx_pending
      then (none, (n, s))
      else if get n sc_reg_tx_ring_size == 0 || get n sc_reg_tx_doorbell == 0 || base == 0
      then (none, (record n { tx_pending = false }, s))
      else tx_descriptor n addr (link.dma_read addr junk s)

  -- Behind the loop.
  unfoldable pub tx_done : Nic × S → Nic × S
  tx_done (n, s) = raise_if link (has (get n sc_reg_irq_en) sc_irq_tx_done) sc_irq_tx_done 1 (n, s)
