-- ===== src/Sim/Nic/Rx.antt =====
-- on_packet_rx of nic.cpp: the address filter and the receive ring.
pub mod Filter
pub mod Deliver
use smart_eth.Base.{
  ℕ, zero, suc, ◌+◌, ◌-◌, ◌*◌, ◌/◌, ◌%◌, ◌^◌, Bool, true, false, not, ◌&&◌, ◌||◌, Option, none,
  some, List, [], ◌∷◌, ◌++◌, bit_and, bit_or, ltb, leb, ◌==◌, if◌then◌else◌, min, take, length,
  replicate, get_or, u32, not32, has,
}
use smart_eth.Sim.Protocol.{
  Desc, desc_bytes, desc_at, sc_reg_irq_en, sc_reg_irq_sts, sc_reg_mac_lo, sc_reg_mac_hi,
  sc_reg_tx_ring_base_lo, sc_reg_tx_ring_base_hi, sc_reg_tx_ring_size, sc_reg_tx_doorbell,
  sc_reg_tx_tail, sc_reg_rx_ring_base_lo, sc_reg_rx_ring_base_hi, sc_reg_rx_ring_size,
  sc_reg_rx_tail, sc_irq_tx_done, sc_irq_rx, desc_flag_own,
}
use smart_eth.Sim.DmaEngine.{Link}
use smart_eth.Sim.PktProc.{receive}
use smart_eth.Sim.Nic.{Nic, get, put, ring_base, desc_address, next_tail, done_flags, raise_if}

-- `nic_mac` in on_packet_rx.
unfoldable pub nic_mac : Nic → List ℕ
nic_mac n =
    let lo = get n sc_reg_mac_lo in
    let hi = get n sc_reg_mac_hi in
    bit_and (lo / 2 ^ 24) 0xFF
    ∷ bit_and (lo / 2 ^ 16) 0xFF
    ∷ bit_and (lo / 2 ^ 8) 0xFF
    ∷ bit_and lo 0xFF
    ∷ bit_and (hi / 2 ^ 8) 0xFF
    ∷ bit_and hi 0xFF
    ∷ []

-- `memcmp(a, b, n) == 0` on areas of the same size
abbrev pub same_bytes : List ℕ → List ℕ → Bool
same_bytes [] bs = true
same_bytes (a ∷ as') [] = true
same_bytes (a ∷ as') (b ∷ bs) = a == b && same_bytes as' bs

-- The address filter.
unfoldable pub matches : Nic → List ℕ → Bool
unfolding nic_mac
matches n frame =
    leb 14 (length frame) && (has (get_or frame 0 0) 0x01 || same_bytes (take 6 frame) (nic_mac n))

-- on_packet_rx, from its end.
abbrev pub rx_advance : Nic → Nic
rx_advance n = put sc_reg_rx_tail (next_tail (get n sc_reg_rx_tail) (get n sc_reg_rx_ring_size)) n

module _ {S : Type 0} (link : Link S) (junk : List ℕ) where
  abbrev pub rx_given_back : Nic → Bool × S → Nic × S
  rx_given_back n (ok, s) =
      if ok
      then raise_if link (has (get n sc_reg_irq_en) sc_irq_rx) sc_irq_rx 1 (rx_advance n, s)
      else (n, s)

  abbrev pub rx_copied : Nic → ℕ → Desc → ℕ → Bool × S → Nic × S
  rx_copied n addr d copy_len (ok, s) =
      if ok
      then rx_given_back n (
          link.dma_write addr (desc_bytes (record d { len = copy_len; flags = done_flags d.flags }))
            s)
      else (n, s)

  abbrev pub rx_descriptor : Nic → ℕ → List ℕ → Option (List ℕ) × S → Nic × S
  rx_descriptor n addr frame (none, s) = (n, s)
  rx_descriptor n addr frame (some bytes, s) =
      let d = desc_at bytes in
      let copy_len = min (length frame) d.len in
      if not (has d.flags desc_flag_own)
      then (n, s)
      else rx_copied n addr d copy_len (link.dma_write d.addr (take copy_len frame) s)

  -- Behind the address filter.
  unfoldable pub rx_deliver : Nic → List ℕ → S → Nic × S
  rx_deliver n frame s =
      let base = ring_base n sc_reg_rx_ring_base_hi sc_reg_rx_ring_base_lo in
      let addr = desc_address base (get n sc_reg_rx_tail) in
      if get n sc_reg_rx_ring_size == 0 || base == 0
      then (n, s)
      else rx_descriptor n addr frame (link.dma_read addr junk s)

  unfoldable pub on_packet_rx : Nic → List ℕ → S → Nic × S
  unfolding matches rx_deliver
  on_packet_rx n frame s =
      let n' = record n { pkt = receive frame n.pkt } in
      if matches n' frame then rx_deliver n' frame s else (n', s)
