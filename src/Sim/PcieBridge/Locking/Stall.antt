-- ===== src/Sim/PcieBridge/Locking/Stall.antt =====
-- When a DMA read of the simulator can end, with register accesses of the guest under way.
use mathlib.Core.List.{append_assoc, append-nil}
use smart_eth.Base.{
  ℕ, ◌≡◌, ◌⊎◌, inl, inr, ◌∙◌, sym, ap, refl, arith, true, false, Option, none, some, List, [], ◌∷◌,
  ◌++◌, length, ◌<◌, ◌^◌, take, drop, take-all, drop-all, min, u32, ltb, if_true, if_false,
}
use smart_eth.Bridge.Thread.Dispatch.{Message}
use smart_eth.Sim.Protocol.{dma_read_type, mmio_read_type, mmio_write_type, bridge_reset_type}
use smart_eth.Bridge.Wire.{le32}
use smart_eth.Sim.PcieBridge.Wired.Dma.{requested, read_started}
use smart_eth.Sim.PcieBridge.{
  on_bridge, PcieBridge, Callbacks, dma_read_start, dma_read_end, handle_message, handle_dma_resp,
  handle_dma_ack,
}
use smart_eth.Sim.PcieBridge.Locking.{
  locks, free, waiting, returned, Sys, sys, Step, begin, wake, release, handle, arrive, Reach, here,
  next, expired,
}

register_access :
    (type : ℕ)
    → (type ≡ mmio_read_type) ⊎ (type ≡ mmio_write_type) ⊎ (type ≡ bridge_reset_type)
    → locks type ≡ true
unfolding locks
register_access type h = ground arith

module _ {N : Type 0} (cbs : Callbacks N) (n : N) (b : PcieBridge) (buf : List ℕ) (type : ℕ)
    (payload : List ℕ) (ms : List Message) where
  -- Nothing has moved but what QEMU sends.
  abbrev pub Stalled : Sys N → Type 0
  Stalled t =
      (t.world ≡ (n, b))
      × (t.holder ≡ waiting buf)
      × ((later : List Message) × (t.inbox ≡ (type, payload) ∷ (ms ++ later)))

  Step-Stalled :
      {t u : Sys N}
      → b.dma_pending ≡ true
      → locks type ≡ true
      → Step cbs t u
      → Stalled t
      → Stalled u
  Step-Stalled up held (begin m c c' ns addr buf' e) (w, h, i) = absurd cc
  Step-Stalled up held (wake m c ns buf' down) (w, h, i) =
      let same : c.dma_pending ≡ b.dma_pending = ap (λ (x : N × PcieBridge). x.1.dma_pending) w in
      absurd (cc (same, up, down))
  Step-Stalled up held (release w' ns r) (w, h, i) = absurd cc
  Step-Stalled up held (handle v v' h' type' payload' ns (inl f) e) (w, h, (later, i)) = absurd cc
  Step-Stalled up held (handle v v' h' type' payload' ns (inr f) e) (w, h, (later, i)) = absurd cc
  Step-Stalled up held (arrive v h' ns m) (w, h, (later, i)) = (
    w,
    h,
    (
      later ++ m ∷ [],
      ap (λ (x : List Message). x ++ m ∷ []) i
          ∙ ap (λ (x : List Message). (type, payload) ∷ x) (append_assoc ms later (m ∷ [])),
    ),
  )

  Reach-Stalled :
      b.dma_pending ≡ true
      → locks type ≡ true
      → {t : Sys N} → Reach cbs (sys (n, b) (waiting buf) ((type, payload) ∷ ms)) t
      → Stalled t
  Reach-Stalled up held here =
      (refl, refl, ([], sym (ap (λ (x : List Message). (type, payload) ∷ x) (append-nil ms))))
  Reach-Stalled up held (next r st) = Step-Stalled up held st (Reach-Stalled up held r)

  -- While a thread waits in dma_read with g_reg_mtx held and the oldest message of QEMU is a
  -- register access of the guest or a reset, nothing happens in the simulator but that messages
  -- arrive, in every interleaving up to the end of the five seconds; then the read fails.
  pub read_stalls :
      b.dma_pending ≡ true
      → (type ≡ mmio_read_type) ⊎ (type ≡ mmio_write_type) ⊎ (type ≡ bridge_reset_type)
      → (t : Sys N) → Reach cbs (sys (n, b) (waiting buf) ((type, payload) ∷ ms)) t
      → Stalled t × (expired buf t.world ≡ none)
  unfolding expired dma_read_end
  read_stalls up access t r =
      let s = Reach-Stalled up (register_access type access) r in
      (s, ap (expired buf) s.0 ∙ if_true _ _ up)

-- What handle_message does without the mutex does not touch the NIC.
pub unlocked-keeps-nic :
    {N : Type 0} (cbs : Callbacks N) (w w' : N × PcieBridge) (type : ℕ) (payload : List ℕ)
    → locks type ≡ false
    → handle_message cbs type payload w ≡ some w'
    → w'.0 ≡ w.0
unfolding locks handle_message handle_dma_resp handle_dma_ack
unlocked-keeps-nic cbs w w' type payload unlocked h = ground arith

long_enough : (status : ℕ) (bytes : List ℕ) → ltb (length (le32 status ++ bytes)) 4 ≡ false
long_enough status bytes = ground arith

whole_answer :
    (bytes buf : List ℕ)
    → length bytes ≡ length buf
    → length bytes < 2 ^ 32
    → (let k = min (u32 (length bytes)) (length buf) in take k bytes ++ drop k buf ≡ bytes)
whole_answer bytes buf same fits =
    let k : min (u32 (length bytes)) (length buf) ≡ length buf = omega arith in
    rw (k, take-all (length buf) bytes (omega arith), drop-all (length buf) buf (omega arith))
      (append-nil bytes)

module _ {N : Type 0} (cbs : Callbacks N) where
  -- An answer carries no mark of the read that it belongs to. One that QEMU has sent before a read
  -- begins, as to a read that has timed out, ends the new read with its own bytes, when the
  -- connection is up.
  pub stale_answer_ends_read :
      (n : N) (b : PcieBridge) (ms : List Message) (addr status : ℕ) (buf bytes : List ℕ)
      → b.sock_open ≡ true
      → b.writable ≡ true
      → length bytes ≡ length buf
      → length bytes < 2 ^ 32
      → (t : Sys N) × Reach cbs (sys (n, b) free ((dma_read_type, le32 status ++ bytes) ∷ ms)) t
        × (t.holder ≡ returned (some bytes))
        × (t.inbox ≡ ms)
  unfolding locks dma_read_start dma_read_end handle_message handle_dma_resp
  stale_answer_ends_read n b ms addr status buf bytes up w same fits =
      let b1 = requested addr (length buf) b in
      let b2 = record b1 { dma_pending = false; dma_resp = bytes } in
      let started : dma_read_start addr (length buf) b ≡ (none, b1) =
        read_started addr (length buf) b up w in
      let taken : handle_message cbs dma_read_type (le32 status ++ bytes) (n, b1) ≡ some (n, b2) =
        ap (λ (o : Option PcieBridge). on_bridge o n) (if_false _ _ (long_enough status bytes)) in
      let ended : dma_read_end (length buf) buf b2 ≡ some bytes =
        ap some (whole_answer bytes buf same fits) in
      (
        sys (n, b2) (returned (dma_read_end (length buf) buf b2)) ms,
        next
            (next
              (next here
                (begin n b b1 ((dma_read_type, le32 status ++ bytes) ∷ ms) addr buf started))
              (handle (n, b1) (n, b2) (waiting buf) dma_read_type (le32 status ++ bytes) ms
                (inl refl) taken))
            (wake n b2 ms buf refl),
        ap returned ended,
        refl,
      )
