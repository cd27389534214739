-- ===== src/Sim/Nic/Rx/Deliver.antt =====
-- The receive ring of on_packet_rx.
use smart_eth.Base.{
  ◌/◌, ◌%◌, ◌^◌, ◌∷◌, ◌++◌, bit_or, store, ℕ, ◌+◌, ◌<◌, ◌≡◌, ◌≢◌, sym, ap, ◌∙◌, arith, Bool, true,
  false, Bool-cases, inl, inr, not, ◌||◌, Option, none, some, List, length, take, min,
  if◌then◌else◌, if_true, if_false, ◌==◌, has, u32,
}
use native.Mathlib.Nat.{mod-lt}
use smart_eth.Device.{Bus}
use smart_eth.Sim.Protocol.{
  Desc, desc_bytes, desc_at, sc_reg_irq_en, sc_reg_rx_ring_size, sc_reg_rx_tail,
  sc_reg_rx_ring_base_hi, sc_reg_rx_ring_base_lo, sc_irq_rx, desc_flag_own,
}
use smart_eth.Sim.DmaEngine.{Link}
use smart_eth.Sim.Host.{Host, host_link}
use smart_eth.Sim.PktProc.{receive}
use smart_eth.Bridge.Wire.{le32, le64}
use smart_eth.Sim.Nic.Descriptors.{handed_back, done_flags_lem, next_tail_lem}
use smart_eth.Sim.Nic.{Nic, get, put, ring_base, desc_address, raise_if}
use smart_eth.Sim.Nic.Rx.{
  rx_advance, rx_given_back, rx_copied, rx_descriptor, rx_deliver, matches, on_packet_rx,
}

abbrev rx_base : Nic → ℕ
rx_base n = ring_base n sc_reg_rx_ring_base_hi sc_reg_rx_ring_base_lo

abbrev rx_addr : Nic → ℕ
rx_addr n = desc_address (rx_base n) (get n sc_reg_rx_tail)

-- The driver has set up the ring.
abbrev HasRing : Nic → Type 0
HasRing n = (get n sc_reg_rx_ring_size ≢ 0) × (rx_base n ≢ 0)

rx_ready : (n : Nic) → HasRing n → (get n sc_reg_rx_ring_size == 0 || rx_base n == 0) ≡ false
rx_ready n r = ground arith

module _ {S : Type 0} (link : Link S) (junk : List ℕ) where
  -- The tail stays inside the ring.
  abbrev Inside : Nic → Type 0
  Inside n = get n sc_reg_rx_tail < get n sc_reg_rx_ring_size

  Inside-if : (b : Bool) (x y : Nic × S) → Inside x.0 → Inside y.0 → Inside (if b then x else y).0
  Inside-if true x y p q = p
  Inside-if false x y p q = q

  rx_given_back-Inside :
      (n : Nic) (r : Bool × S) → Inside n → Inside (rx_given_back link junk n r).0
  rx_given_back-Inside n (false, s) h = h
  rx_given_back-Inside n (true, s) h =
      let e =
        mod-lt (u32 (get n sc_reg_rx_tail + 1)) {m = get n sc_reg_rx_ring_size} (omega arith) in
      Inside-if (has (get n sc_reg_irq_en) sc_irq_rx) _ (rx_advance n, s) e e

  rx_copied-Inside :
      (n : Nic) (addr : ℕ) (d : Desc) (copy_len : ℕ) (r : Bool × S)
      → Inside n
      → Inside (rx_copied link junk n addr d copy_len r).0
  rx_copied-Inside n addr d copy_len (false, s) h = h
  rx_copied-Inside n addr d copy_len (true, s) h = rx_given_back-Inside n _ h

  rx_descriptor-Inside :
      (n : Nic) (addr : ℕ) (frame : List ℕ) (r : Option (List ℕ) × S)
      → Inside n
      → Inside (rx_descriptor link junk n addr frame r).0
  rx_descriptor-Inside n addr frame (none, s) h = h
  rx_descriptor-Inside n addr frame (some bytes, s) h =
      let d = desc_at bytes in
      let copy_len = min (length frame) d.len in
      Inside-if (not (has d.flags desc_flag_own)) (n, s) _ h
        (rx_copied-Inside n addr d copy_len (link.dma_write d.addr (take copy_len frame) s) h)

  rx_deliver-Inside :
      (n : Nic) (frame : List ℕ) (s : S) → Inside n → Inside (rx_deliver link junk n frame s).0
  unfolding rx_deliver
  rx_deliver-Inside n frame s h =
      Inside-if (get n sc_reg_rx_ring_size == 0 || rx_base n == 0) (n, s) _ h
        (rx_descriptor-Inside n (rx_addr n) frame (link.dma_read (rx_addr n) junk s) h)

  -- The tail of the receive ring, once below the size of the ring, stays below it, whatever
  -- frame arrives, whether it is delivered or dropped, and however the host answers.
  pub on_packet_rx-Inside :
      (n : Nic) (frame : List ℕ) (s : S)
      → get n sc_reg_rx_tail < get n sc_reg_rx_ring_size
      → (let n' = (on_packet_rx link junk n frame s).0 in
          get n' sc_reg_rx_tail < get n' sc_reg_rx_ring_size)
  unfolding on_packet_rx
  on_packet_rx-Inside n frame s h =
      let n' : Nic = record n { pkt = receive frame n.pkt } in
      Inside-if (matches n' frame) _ (n', s) (rx_deliver-Inside n' frame s h) h

-- The registers of a NIC with its tail at the next place of the receive ring, and with the interrupt of
-- a received frame pending too.
abbrev pub rx_moved_on : Nic → Nic
rx_moved_on n = record n {
  regs = record (n.regs) {
    regs = store n.regs.regs (0x330 / 4) ((n.regs.regs (0x330 / 4) + 1) % n.regs.regs (0x328 / 4));
  };
}

abbrev pub rx_interrupting : Nic → Nic
rx_interrupting n = record n {
  regs = record (n.regs) {
    regs = store (rx_moved_on n).regs.regs (0x00C / 4) (bit_or (n.regs.regs (0x00C / 4)) 8);
  };
}

rx_advance_lem :
    (n : Nic)
    → get n sc_reg_rx_tail < get n sc_reg_rx_ring_size
    → get n sc_reg_rx_ring_size < 2 ^ 32
    → rx_advance n ≡ rx_moved_on n
rx_advance_lem n inside word =
    ap (λ (t : ℕ). put sc_reg_rx_tail t n)
      (next_tail_lem (get n sc_reg_rx_tail) (get n sc_reg_rx_ring_size) inside word)

module _ {M : Type 0} (bus : Bus M) (junk : List ℕ) (n : Nic) (frame : List ℕ) (h : Host M) where
  -- Guest memory with a frame stored and its descriptor handed back.
  abbrev pub stored_memory : Desc → M
  stored_memory d =
      let stored = min (length frame) d.len in
      bus.dma_write (bus.dma_write h.memory d.addr (take stored frame)) (rx_addr n)
        (le64 d.addr ++ le32 stored ++ le32 (handed_back d.flags))

  -- With a receive ring that is set up, the tail inside it, and a host that answers, a frame behind
  -- the filter is put in the buffer of a descriptor that the driver has given to the NIC, cut
  -- to the length of the buffer; the descriptor is then handed back with its address kept, the
  -- number of bytes that were stored as its length, OWN cleared, DONE set and the other flags
  -- kept; the tail moves to the next place of the ring; and if it is enabled, the interrupt is
  -- set pending and sent on vector 1. When the driver still owns the descriptor, the frame is
  -- dropped: no register and no byte of the guest's memory changes.
  pub rx_deliver_stores :
      HasRing n
      → get n sc_reg_rx_tail < get n sc_reg_rx_ring_size
      → get n sc_reg_rx_ring_size < 2 ^ 32
      → (let d = desc_at (bus.dma_read h.memory (rx_addr n) (length junk)) in
          let memory = stored_memory d in
          rx_deliver (host_link bus) junk n frame h ≡ (
            if has d.flags (2 ^ 31)
            then (if has (n.regs.regs (0x008 / 4)) 8
                then (rx_interrupting n, record h { memory = memory; irqs = 1 ∷ h.irqs })
                else (rx_moved_on n, record h { memory = memory }))
            else (n, h)))
  unfolding rx_deliver
  rx_deliver_stores ring inside word =
      let d = desc_at (bus.dma_read h.memory (rx_addr n) (length junk)) in
      let stored = min (length frame) d.len in
      let outcome : Nic → ℕ → Nic × Host M = λ m f.
        raise_if (host_link bus) (has (get n sc_reg_irq_en) sc_irq_rx) sc_irq_rx 1 (
          m,
          record h {
            memory =
                bus.dma_write (bus.dma_write h.memory d.addr (take stored frame)) (rx_addr n)
                  (desc_bytes (record d { len = stored; flags = f }));
          },
        ) in
      if_false _ _ (rx_ready n ring) ∙ elim (Bool-cases (has d.flags desc_flag_own)) [
        | inl own ↦
            if_false _ _ (ap not own)
            ∙ ap (λ (f : ℕ). outcome (rx_advance n) f) (done_flags_lem d.flags)
            ∙ ap (λ (m : Nic). outcome m (handed_back d.flags)) (rx_advance_lem n inside word)
            ∙ sym (if_true _ _ own)
        | inr free ↦ if_true _ _ (ap not free) ∙ sym (if_false _ _ free)
      ]
