-- ===== src/Sim/Nic/Tx/Frames.antt =====
-- A round of the transmit loop of process_tx.
use smart_eth.Base.{
  ◌+◌, ◌-◌, ◌/◌, ◌*◌, ◌%◌, ◌^◌, ◌<◌, ◌++◌, store, ℕ, ◌≡◌, ◌≢◌, sym, ap, ◌∙◌, arith, true, false,
  Bool-cases, inl, inr, not, ◌||◌, none, some, List, ◌∷◌, length, length-replicate, if◌then◌else◌,
  ◌==◌, has, if_true, if_false, replicate,
}
use smart_eth.Device.{Bus}
use smart_eth.Sim.Protocol.{
  Desc, desc_bytes, desc_at, sc_reg_tx_ring_size, sc_reg_tx_doorbell, sc_reg_tx_tail,
  sc_reg_tx_ring_base_hi, sc_reg_tx_ring_base_lo, desc_flag_own,
}
use smart_eth.Sim.DmaEngine.{Link}
use smart_eth.Sim.Host.{Host, host_link}
use smart_eth.Sim.Nic.{Nic, get, put, done_flags, ring_base, desc_address}
use smart_eth.Bridge.Wire.{le32, le64}
use smart_eth.Sim.Nic.Descriptors.{handed_back, done_flags_lem, next_tail_lem}
use smart_eth.Sim.Nic.Tx.{tx_delay, tx_advance, tx_packet, tx_given_back, tx_descriptor, tx_round}

abbrev pub tx_base : Nic → ℕ
tx_base n = ring_base n sc_reg_tx_ring_base_hi sc_reg_tx_ring_base_lo

abbrev pub tx_addr : Nic → ℕ
tx_addr n = desc_address (tx_base n) (get n sc_reg_tx_tail)

-- There is a descriptor to send.
abbrev pub HasWork : Nic → Type 0
HasWork n =
    (n.tx_pending ≡ true)
    × (get n sc_reg_tx_ring_size ≢ 0)
    × (get n sc_reg_tx_doorbell ≢ 0)
    × (tx_base n ≢ 0)

tx_empty :
    (n : Nic)
    → HasWork n
    → (get n sc_reg_tx_ring_size == 0 || get n sc_reg_tx_doorbell == 0 || tx_base n == 0) ≡ false
tx_empty n w = ground arith

-- The registers behind a round that has sent a frame: the doorbell counts one less, the tail is at the
-- next place of the ring, and the others are as before.
abbrev pub moved_on : Nic → Nic
moved_on n = record n {
  regs = record (n.regs) {
    regs =
        store
          (store n.regs.regs (0x310 / 4) ((n.regs.regs (0x310 / 4) + 1) % n.regs.regs (0x308 / 4)))
          (0x30C / 4) (n.regs.regs (0x30C / 4) - 1);
  };
}

-- A ring register file of the driver's making.
abbrev pub RingFits : Nic → Type 0
RingFits n =
    (get n sc_reg_tx_tail < get n sc_reg_tx_ring_size) × (get n sc_reg_tx_ring_size < 2 ^ 32)

tx_advance_lem : (n : Nic) → RingFits n → tx_advance n ≡ moved_on n
tx_advance_lem n fits =
    ap (λ (t : ℕ). put sc_reg_tx_doorbell (get n sc_reg_tx_doorbell - 1) (put sc_reg_tx_tail t n))
      (next_tail_lem (get n sc_reg_tx_tail) (get n sc_reg_tx_ring_size) fits.0 fits.1)

module _ {M : Type 0} (bus : Bus M) (junk : List ℕ) (n : Nic) (h : Host M) where
  tx_packet_sends :
      (addr : ℕ) (d : Desc) (frame : List ℕ)
      → n.has_netif ≡ true
      → tx_packet (host_link bus) junk n addr d (some frame, h) ≡ (
        some (tx_delay d.len),
        (
          tx_advance n,
          record h {
            memory =
                bus.dma_write h.memory addr (desc_bytes (record d { flags = done_flags d.flags }));
            frames = frame ∷ h.frames;
          },
        ),
      )
  tx_packet_sends addr d frame net =
      ap
        (λ (h' : Host M). tx_given_back (host_link bus) junk n d.len (
          (host_link bus).dma_write addr (desc_bytes (record d { flags = done_flags d.flags })) h'))
        (if_true _ _ net)

  tx_round_reads :
      HasWork n
      → tx_round (host_link bus) junk n h
        ≡ tx_descriptor
            (host_link bus)
            junk
            n
            (tx_addr n)
            (some (bus.dma_read h.memory (tx_addr n) (length junk)), h)
  unfolding tx_round
  tx_round_reads w = if_false _ _ (ap not w.0) ∙ if_false _ _ (tx_empty n w)

  -- The host when the frame of a descriptor has been sent and the descriptor handed back.
  abbrev pub sent_host : Desc → Host M
  sent_host d = record h {
    memory =
        bus.dma_write h.memory (tx_addr n)
          (le64 d.addr ++ le32 d.len ++ le32 (handed_back d.flags));
    frames = bus.dma_read h.memory d.addr d.len ∷ h.frames;
  }

  -- With a transmission pending, a ring and a doorbell that are set, a tail inside the ring, a
  -- network interface and a host that answers, a round over a descriptor that the driver has
  -- given to the NIC sends the bytes of the guest's buffer as one frame; it hands the descriptor
  -- back with its address and length kept, OWN cleared, DONE set and the other flags kept,
  -- takes one from the doorbell and moves the tail to the next place of the ring, and ends with
  -- a wait of 100 ns and 2 ns for each four bytes. One over a descriptor that the driver still
  -- owns changes neither the guest's memory nor the wire nor a register, and ends the loop with
  -- nothing pending.
  pub tx_round_sends :
      HasWork n
      → RingFits n
      → n.has_netif ≡ true
      → (let d = desc_at (bus.dma_read h.memory (tx_addr n) (length junk)) in
          tx_round (host_link bus) junk n h ≡ (
            if has d.flags (2 ^ 31)
            then (some ((100 + d.len / 4 * 2) % 2 ^ 32), (moved_on n, sent_host d))
            else (none, (record n { tx_pending = false }, h))))
  tx_round_sends w fits net =
      let d = desc_at (bus.dma_read h.memory (tx_addr n) (length junk)) in
      tx_round_reads w ∙ elim (Bool-cases (has d.flags desc_flag_own)) [
        | inl own ↦
            if_false _ _ (ap not own)
            ∙ tx_packet_sends (tx_addr n) d
                (bus.dma_read h.memory d.addr (length (replicate {A = ℕ} d.len 0))) net
            ∙ ap
                (λ (k : ℕ). (
                  some (tx_delay d.len),
                  (
                    tx_advance n,
                    record h {
                      memory =
                          bus.dma_write h.memory (tx_addr n)
                            (desc_bytes (record d { flags = done_flags d.flags }));
                      frames = bus.dma_read h.memory d.addr k ∷ h.frames;
                    },
                  ),
                ))
                (length-replicate d.len 0)
            ∙ ap
                (λ (f : ℕ). (
                  some (tx_delay d.len),
                  (
                    tx_advance n,
                    record h {
                      memory =
                          bus.dma_write h.memory (tx_addr n) (desc_bytes (record d { flags = f }));
                      frames = bus.dma_read h.memory d.addr d.len ∷ h.frames;
                    },
                  ),
                ))
                (done_flags_lem d.flags)
            ∙ ap (λ (m : Nic). (some (tx_delay d.len), (m, sent_host d))) (tx_advance_lem n fits)
            ∙ sym (if_true _ _ own)
        | inr free ↦ if_true _ _ (ap not free) ∙ sym (if_false _ _ free)
      ]

module _ {S : Type 0} (link : Link S) (junk : List ℕ) (n : Nic) (s s' : S) where
  -- When the host does not let the NIC read the descriptor, the loop ends with nothing sent and the
  -- transmission still pending; what follows raises TX_DONE if it is enabled.
  tx_round_fails :
      HasWork n
      → link.dma_read (tx_addr n) junk s ≡ (none, s')
      → tx_round link junk (record n { tx_event = false }) s
        ≡ (none, (record n { tx_event = false }, s'))
  unfolding tx_round
  tx_round_fails w fails =
      if_false _ _ (ap not w.0)
      ∙ if_false _ _ (tx_empty n w)
      ∙ ap (tx_descriptor link junk (record n { tx_event = false }) (tx_addr n)) fails
