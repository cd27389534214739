-- ===== src/Sim/Nic/Tx/Process.antt =====
-- process_tx of nic.cpp with its waits, beside poll_irq and the guest's accesses: a step relation in
-- simulated nanoseconds. SystemC's processes share one OS thread. process_tx makes the wait at the
-- end of a sending round with g_reg_mtx held; a process that wants the mutex then blocks that
-- thread, so that nothing of the simulation goes on. process_dma is left out.
use smart_eth.Base.{
  ℕ, ◌+◌, ◌*◌, ◌/◌, ◌%◌, ◌^◌, ◌≤◌, ◌<◌, ◌≡◌, ◌∙◌, refl, ap, arith, true, false, subst, none, some,
  List, length, has, if_true,
}
use smart_eth.Device.{Bus}
use smart_eth.Sim.Protocol.{desc_at}
use smart_eth.Sim.DmaEngine.{Link}
use smart_eth.Sim.Host.{Host, host_link}
use smart_eth.Sim.Nic.{Nic, on_mmio_write, on_reset, poll_irq}
use smart_eth.Sim.Nic.Tx.{tx_round, tx_done}
use smart_eth.Sim.Nic.Tx.Frames.{HasWork, RingFits, tx_addr, moved_on, sent_host, tx_round_sends}

-- process_tx: at its event, in front of a round, in the wait of a sending round until a time, and
-- behind the loop. Only in that wait does it hold the mutex between two steps.
pub data Place : Type 0 where
  asleep : Place
  looping : Place
  holding : ℕ → Place
  leaving : Place

abbrev pub Unlocked : Place → Type 0
Unlocked (holding until) = ⊥
Unlocked p = Unit

abbrev end_of : Place → ℕ
end_of (holding until) = until
end_of p = 0

-- `poll_at` is when the wait of poll_irq ends.
pub record Sim (S : Type 0) : Type 0 where
  pub nic : Nic
  pub host : S
  pub place : Place
  pub now : ℕ
  pub poll_at : ℕ

abbrev pub sim : {S : Type 0} → Nic → S → Place → ℕ → ℕ → Sim S
sim n s place now poll_at = record {
  nic = n;
  host = s;
  place = place;
  now = now;
  poll_at = poll_at;
}

abbrev Later : Place → ℕ → Type 0
Later (holding until) now = now ≤ until
Later p now = Unit

module _ {S : Type 0} (link : Link S) (junk : List ℕ) where
  -- `wake`, `send`, `stop`, `resume` and `done` are process_tx; `poll` is poll_irq at its time;
  -- `write` and `reset` are the socket thread. The wait of process_tx ends only if poll_irq is
  -- not due before.
  pub data Step : Sim S → Sim S → Type 0 where
    wake :
        (n : Nic) (s : S) (t p : ℕ)
        → n.tx_event ≡ true
        → Step (sim n s asleep t p) (sim (record n { tx_event = false }) s looping t p)
    send :
        (n n' : Nic) (s s' : S) (t p delay : ℕ)
        → tx_round link junk n s ≡ (some delay, (n', s'))
        → Step (sim n s looping t p) (sim n' s' (holding (t + delay)) t p)
    stop :
        (n n' : Nic) (s s' : S) (t p : ℕ)
        → tx_round link junk n s ≡ (none, (n', s'))
        → Step (sim n s looping t p) (sim n' s' leaving t p)
    resume :
        (n : Nic) (s : S) (t p until : ℕ)
        → until ≤ p
        → Step (sim n s (holding until) t p) (sim n s looping until p)
    done :
        (n : Nic) (s : S) (t p : ℕ)
        → Step
            (sim n s leaving t p)
            (sim (tx_done link junk (n, s)).0 (tx_done link junk (n, s)).1 asleep t p)
    poll :
        (n : Nic) (s : S) (place : Place) (t p : ℕ)
        → Unlocked place
        → Step (sim n s place t p) (sim n (poll_irq link n s) place p (p + 100))
    write :
        (n : Nic) (s : S) (place : Place) (t p addr val : ℕ)
        → Unlocked place
        → Step
            (sim n s place t p)
            (sim (on_mmio_write link n addr val s).0 (on_mmio_write link n addr val s).1 place t p)
    reset :
        (n : Nic) (s : S) (place : Place) (t p : ℕ)
        → Unlocked place
        → Step (sim n s place t p) (sim (on_reset n) s place t p)

  pub data Reach (a : Sim S) : Sim S → Type 0 where
    here : Reach a a
    next : {b c : Sim S} → Reach a b → Step b c → Reach a c

  -- poll_irq is due within 100 ns of now, and of the end of a wait.
  abbrev Due : Sim S → Type 0
  Due a = (a.poll_at ≤ a.now + 100) × Later a.place a.now

  Step-Due : {a b : Sim S} → Step a b → Due a → Due b
  Step-Due (wake n s t p up) d = (d.0, tt)
  Step-Due (send n n' s s' t p delay e) d = (d.0, omega arith)
  Step-Due (stop n n' s s' t p e) d = (d.0, tt)
  Step-Due (resume n s t p until le) d = (omega (arith, d.0, d.1), tt)
  Step-Due (done n s t p) d = (d.0, tt)
  Step-Due (poll n s asleep t p free) d = (omega arith, tt)
  Step-Due (poll n s looping t p free) d = (omega arith, tt)
  Step-Due (poll n s (holding until) t p free) d = absurd free
  Step-Due (poll n s leaving t p free) d = (omega arith, tt)
  Step-Due (write n s place t p addr val free) d = d
  Step-Due (reset n s place t p free) d = d

  Reach-Due : {a b : Sim S} → Due a → Reach a b → Due b
  Reach-Due d here = d
  Reach-Due d (next r st) = Step-Due st (Reach-Due d r)

  -- In a wait that ends behind the time of poll_irq, nothing follows.
  blocked : {a b : Sim S} (until : ℕ) → Step a b → a.place ≡ holding until → a.poll_at < until → ⊥
  blocked until (wake n s t p up) at lt = absurd cc
  blocked until (send n n' s s' t p delay e) at lt = absurd cc
  blocked until (stop n n' s s' t p e) at lt = absurd cc
  blocked until (resume n s t p u le) at lt =
      let same : u ≡ until = ap end_of at in omega (arith, same)
  blocked until (done n s t p) at lt = absurd cc
  blocked until (poll n s place t p free) at lt = subst Unlocked at free
  blocked until (write n s place t p addr val free) at lt = subst Unlocked at free
  blocked until (reset n s place t p free) at lt = subst Unlocked at free

module _ {M : Type 0} (bus : Bus M) (junk : List ℕ) where
  -- From a NIC with process_tx at its event and poll_irq due within 100 ns, however the guest's
  -- writes, its resets and the polls come in between: when process_tx comes to a descriptor that
  -- the driver has given to the NIC, with a frame of 4 bytes at least, it sends the frame and
  -- hands the descriptor back, and then nothing follows any more: poll_irq is due before the
  -- wait ends, and blocks on the mutex that process_tx holds.
  pub first_frame_is_last :
      (n0 n : Nic) (h0 h : Host M) (t0 p0 t p : ℕ)
      → p0 ≤ t0 + 100
      → Reach (host_link bus) junk (sim n0 h0 asleep t0 p0) (sim n h looping t p)
      → HasWork n
      → RingFits n
      → n.has_netif ≡ true
      → has (desc_at (bus.dma_read h.memory (tx_addr n) (length junk))).flags (2 ^ 31) ≡ true
      → 4 ≤ (desc_at (bus.dma_read h.memory (tx_addr n) (length junk))).len
      → (desc_at (bus.dma_read h.memory (tx_addr n) (length junk))).len < 2 ^ 32
      → (let d = desc_at (bus.dma_read h.memory (tx_addr n) (length junk)) in
          let until = t + (100 + d.len / 4 * 2) % 2 ^ 32 in
          let sent = sim (moved_on n) (sent_host bus junk n h d) (holding until) t p in
          Step (host_link bus) junk (sim n h looping t p) sent
          × (p < until)
          × ((b : Sim (Host M)) → Step (host_link bus) junk sent b → ⊥))
  first_frame_is_last n0 n h0 h t0 p0 t p due r work fits net own long short =
      let d = desc_at (bus.dma_read h.memory (tx_addr n) (length junk)) in
      let until : ℕ = t + (100 + d.len / 4 * 2) % 2 ^ 32 in
      let soon = Reach-Due (host_link bus) junk (due, tt) r in
      let before : p < until = omega (arith, soon.0) in
      (
        send n (moved_on n) h (sent_host bus junk n h d) t p ((100 + d.len / 4 * 2) % 2 ^ 32)
            (tx_round_sends bus junk n h work fits net ∙ if_true _ _ own),
        before,
        λ b st. blocked (host_link bus) junk until st refl before,
      )
