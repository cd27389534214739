-- ===== src/Bridge/Waiting.antt =====
-- The wait of sc_bridge_mmio_read on mmio_cv, with the I/O thread at work beside it: a step relation
-- on the device's state, the place of the reading thread and the number of requests that the peer
-- has still to answer.
pub mod Stuck
use smart_eth.Base.{
  ℕ, suc, ◌≡◌, ◌≢◌, ◌∙◌, sym, ◌⊎◌, inl, inr, subst, refl, arith, Bool, true, false, some, List,
  ◌++◌, if◌then◌else◌,
}
use smart_eth.Device.{Bus}
use smart_eth.Bridge.{
  ScBridge, hang_up, arm_read, request_read, mmio_read_end, handle_mmio_read_resp, handle_msg,
}
use smart_eth.Bridge.Messages.{other_messages_keep_read}
use smart_eth.Bridge.Wire.{le32, sc_msg_mmio_read}

-- Between two statements of `sc_bridge_mmio_read`: outside it, after the flag is set, and after the
-- request is sent, where the thread waits while the flag is up.
pub data Place : Type 0 where
  idle : Place
  armed : ℕ → Place
  waiting : ℕ → Place

-- `unanswered` counts the requests that the peer received and did not answer.
pub record Sys (M : Type 0) : Type 0 where
  pub bridge : ScBridge M
  pub place : Place
  pub unanswered : ℕ

abbrev pub sys : {M : Type 0} → ScBridge M → Place → ℕ → Sys M
sys s p n = record { bridge = s; place = p; unanswered = n }

-- While the peer is there, the flag is up just when the request has not left or its answer is due,
-- and no other answer is.
abbrev pub Waits : Place → Bool → ℕ → Type 0
Waits idle pending n = (n ≡ 0) × (pending ≡ false)
Waits (armed addr) pending n = (n ≡ 0) × (pending ≡ true)
Waits (waiting addr) pending n = ((n ≡ 1) × (pending ≡ true)) ⊎ ((n ≡ 0) × (pending ≡ false))

module _ {M : Type 0} (bus : Bus M) where
  -- `begin`, `request` and `finish` are the guest's thread, which holds the big QEMU lock up to the
  -- wait, so that there is one read at a time. `answer` and `other` are a message that the I/O
  -- thread receives, `lost` is the end of its loop. A request is sent whole or, without a
  -- connection, not at all.
  pub data Step : Sys M → Sys M → Type 0 where
    begin :
        (s : ScBridge M) (addr n : ℕ)
        → s.connected ≡ true
        → Step (sys s idle n) (sys (arm_read s) (armed addr) n)
    request :
        (s : ScBridge M) (addr n : ℕ)
        → Step
            (sys s (armed addr) n)
            (sys (request_read addr s) (waiting addr) (if s.connected then suc n else n))
    answer :
        (s : ScBridge M) (p : Place) (n value status : ℕ)
        → s.connected ≡ true
        → Step (sys s p (suc n)) (sys (handle_mmio_read_resp s (le32 value ++ le32 status)) p n)
    other :
        (s s' : ScBridge M) (p : Place) (n type : ℕ) (payload : List ℕ)
        → s.connected ≡ true
        → type ≢ sc_msg_mmio_read
        → handle_msg bus s type payload ≡ some s'
        → Step (sys s p n) (sys s' p n)
    finish :
        (s : ScBridge M) (addr n : ℕ)
        → s.mmio_pending ≡ false
        → Step (sys s (waiting addr) n) (sys (mmio_read_end s addr).1 idle n)
    lost : (s : ScBridge M) (p : Place) (n : ℕ) → Step (sys s p n) (sys (hang_up s) p n)

  pub data Reach (a : Sys M) : Sys M → Type 0 where
    here : Reach a a
    next : {b c : Sys M} → Reach a b → Step b c → Reach a c

  abbrev pub WhileConnected : Sys M → Type 0
  WhileConnected t = t.bridge.connected ≡ true → Waits t.place t.bridge.mmio_pending t.unanswered

  answered-Waits : (p : Place) (b : Bool) (n : ℕ) → Waits p b (suc n) → Waits p false n
  answered-Waits idle b n w = absurd (omega (arith, w.0))
  answered-Waits (armed addr) b n w = absurd (omega (arith, w.0))
  answered-Waits (waiting addr) b n (inl w) = inr (omega (arith, w.0), refl)
  answered-Waits (waiting addr) b n (inr w) = absurd (omega (arith, w.0))

  requested-Waits :
      (c : Bool) (b : Bool) (addr n : ℕ)
      → c ≡ true
      → Waits (armed addr) b n
      → Waits (waiting addr) b (if c then suc n else n)
  requested-Waits c b addr n up w = inl (ground (arith, w.0), w.1)

  finished-Waits : (b : Bool) (addr n : ℕ) → b ≡ false → Waits (waiting addr) b n → Waits idle b n
  finished-Waits b addr n down (inl (one, up)) = absurd cc
  finished-Waits b addr n down (inr w) = w

  mmio_read_end-keeps :
      (s : ScBridge M) (addr : ℕ)
      → (let s' = (mmio_read_end s addr).1 in
          (s'.mmio_pending ≡ s.mmio_pending) × (s'.connected ≡ s.connected))
  unfolding mmio_read_end
  mmio_read_end-keeps s addr = (ground arith, ground arith)

  pub request_read-keeps :
      (s : ScBridge M) (addr : ℕ)
      → (let s' = request_read addr s in
          (s'.mmio_pending ≡ s.mmio_pending) × (s'.connected ≡ s.connected))
  unfolding request_read
  request_read-keeps s addr = (ground arith, ground arith)

  Step-WhileConnected : {a b : Sys M} → Step a b → WhileConnected a → WhileConnected b
  unfolding arm_read handle_mmio_read_resp hang_up
  Step-WhileConnected (begin s addr n up) w c = ((w up).0, refl)
  Step-WhileConnected (request s addr n) w c =
      let k = request_read-keeps s addr in
      let up = sym k.1 ∙ c in
      subst (λ x. Waits (waiting addr) x (if s.connected then suc n else n)) (sym k.0)
        (requested-Waits s.connected s.mmio_pending addr n up (w up))
  Step-WhileConnected (answer s p n value status up) w c = answered-Waits p s.mmio_pending n (w up)
  Step-WhileConnected (other s s' p n type payload up ne e) w c =
      subst (λ x. Waits p x n) (sym (other_messages_keep_read bus s s' type payload ne e).0) (w up)
  Step-WhileConnected (finish s addr n down) w c =
      let k = mmio_read_end-keeps s addr in
      subst (λ x. Waits idle x n) (sym k.0)
        (finished-Waits s.mmio_pending addr n down (w (sym k.1 ∙ c)))
  Step-WhileConnected (lost s p n) w c = absurd cc

  pub Reach-WhileConnected : {a b : Sys M} → WhileConnected a → Reach a b → WhileConnected b
  Reach-WhileConnected w here = w
  Reach-WhileConnected w (next r st) = Step-WhileConnected st (Reach-WhileConnected w r)

  -- No wake-up is lost. From a device at rest, in whatever order the guest's thread and the I/O
  -- thread take their steps: while the peer is connected, a read that waits has either been
  -- answered, and then the flag is down, or exactly one answer is due, which takes it down.
  pub no_lost_wake_up :
      (s : ScBridge M) (t : Sys M)
      → s.mmio_pending ≡ false
      → Reach (sys s idle 0) t
      → t.bridge.connected ≡ true
      → Waits t.place t.bridge.mmio_pending t.unanswered
  no_lost_wake_up s t rest r up = Reach-WhileConnected (λ _. (refl, rest)) r up
