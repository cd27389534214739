-- ===== src/Bridge/Waiting/Stuck.antt =====
-- Reads of sc_bridge_mmio_read that nobody ends: the connection or the request is lost.
use smart_eth.Base.{ℕ, suc, ◌≡◌, ◌∙◌, sym, ◌⊎◌, inl, inr, subst, refl, arith, Bool, true, false}
use smart_eth.Device.{Bus}
use smart_eth.Bridge.{ScBridge, hang_up, arm_read, request_read, handle_mmio_read_resp}
use smart_eth.Bridge.Messages.{other_messages_keep_read}
use smart_eth.Bridge.Waiting.{
  Place, idle, armed, waiting, Sys, sys, Waits, Step, begin, request, answer, other, finish, lost,
  Reach, here, next, WhileConnected, Reach-WhileConnected, request_read-keeps,
}

module _ {M : Type 0} (bus : Bus M) where
  -- The flag is up and nobody will take it down: the peer is gone, or owes no answer.
  abbrev Unanswered : ScBridge M → ℕ → Type 0
  Unanswered s n = (s.connected ≡ false) ⊎ (n ≡ 0)

  abbrev Stuck : ℕ → Sys M → Type 0
  Stuck addr t =
      (t.place ≡ waiting addr) × (t.bridge.mmio_pending ≡ true) × Unanswered t.bridge t.unanswered

  Step-Stuck : {a b : Sys M} (addr : ℕ) → Step bus a b → Stuck addr a → Stuck addr b
  unfolding hang_up
  Step-Stuck addr (begin s a n up) (at, flag, alone) = absurd cc
  Step-Stuck addr (request s a n) (at, flag, alone) = absurd cc
  Step-Stuck addr (answer s p n value status up) (at, flag, inl down) = absurd cc
  Step-Stuck addr (answer s p n value status up) (at, flag, inr none_due) =
      absurd (omega (arith, none_due))
  Step-Stuck addr (other s s' p n type payload up ne e) (at, flag, inl down) = absurd cc
  Step-Stuck addr (other s s' p n type payload up ne e) (at, flag, inr none_due) =
      (at, (other_messages_keep_read bus s s' type payload ne e).0 ∙ flag, inr none_due)
  Step-Stuck addr (finish s a n clear) (at, flag, alone) = absurd cc
  Step-Stuck addr (lost s p n) (at, flag, alone) = (at, flag, inl refl)

  Reach-Stuck : {a b : Sys M} (addr : ℕ) → Stuck addr a → Reach bus a b → Stuck addr b
  Reach-Stuck addr w here = w
  Reach-Stuck addr w (next r st) = Step-Stuck addr st (Reach-Stuck addr w r)

  -- The end of the I/O thread wakes nobody: when the connection is lost while a read waits for its
  -- answer, the read waits with its flag up in every state that the two threads can reach.
  pub lost_connection_hangs :
      (s : ScBridge M) (addr n : ℕ) (t : Sys M)
      → s.mmio_pending ≡ true
      → Reach bus (sys (hang_up s) (waiting addr) n) t
      → (t.place ≡ waiting addr) × (t.bridge.mmio_pending ≡ true)
  unfolding hang_up
  lost_connection_hangs s addr n t flag r =
      let stuck = Reach-Stuck addr (refl, flag, inl refl) r in (stuck.0, stuck.1)

  abbrev Flagged : Place → Bool → Type 0
  Flagged (armed addr) pending = pending ≡ true
  Flagged p pending = Unit

  answered-Flagged : (p : Place) (b : Bool) (n : ℕ) → Waits p b (suc n) → Flagged p false
  answered-Flagged idle b n w = tt
  answered-Flagged (armed addr) b n w = absurd (omega (arith, w.0))
  answered-Flagged (waiting addr) b n w = tt

  Step-Flagged :
      {a b : Sys M}
      → Step bus a b
      → WhileConnected bus a
      → Flagged a.place a.bridge.mmio_pending
      → Flagged b.place b.bridge.mmio_pending
  unfolding arm_read handle_mmio_read_resp hang_up
  Step-Flagged (begin s addr n up) w f = refl
  Step-Flagged (request s addr n) w f = tt
  Step-Flagged (answer s p n value status up) w f = answered-Flagged p s.mmio_pending n (w up)
  Step-Flagged (other s s' p n type payload up ne e) w f =
      subst (Flagged p) (sym (other_messages_keep_read bus s s' type payload ne e).0) f
  Step-Flagged (finish s addr n down) w f = tt
  Step-Flagged (lost s p n) w f = f

  Reach-Flagged :
      {a b : Sys M}
      → WhileConnected bus a
      → Flagged a.place a.bridge.mmio_pending
      → Reach bus a b
      → Flagged b.place b.bridge.mmio_pending
  Reach-Flagged w f here = f
  Reach-Flagged w f (next r st) =
      Step-Flagged st (Reach-WhileConnected bus w r) (Reach-Flagged w f r)

  armed-Unanswered :
      (c : Bool) (s : ScBridge M) (addr n : ℕ)
      → s.connected ≡ c
      → WhileConnected bus (sys s (armed addr) n)
      → Unanswered s n
  armed-Unanswered true s addr n up w = inr (w up).0
  armed-Unanswered false s addr n down w = inl down

  -- From a device at rest, in every interleaving: a read whose request has been made and owes the peer
  -- no answer, since the connection was lost before or the send has failed, waits with its flag up
  -- in every state that the two threads can reach from there.
  pub unsent_request_hangs :
      (s b : ScBridge M) (addr n : ℕ) (t : Sys M)
      → s.mmio_pending ≡ false
      → Reach bus (sys s idle 0) (sys b (armed addr) n)
      → Reach bus (sys (request_read addr b) (waiting addr) n) t
      → (t.place ≡ waiting addr) × (t.bridge.mmio_pending ≡ true)
  unsent_request_hangs s b addr n t rest before after =
      let start : WhileConnected bus (sys s idle 0) = λ _. (refl, rest) in
      let kept = request_read-keeps bus b addr in
      let flag = Reach-Flagged start tt before in
      let alone =
        armed-Unanswered (request_read addr b).connected (request_read addr b) addr n refl (λ up.
          let w = Reach-WhileConnected bus start before (sym kept.1 ∙ up) in
          (w.0, kept.0 ∙ flag)) in
      let stuck = Reach-Stuck addr (refl, kept.0 ∙ flag, alone) after in (stuck.0, stuck.1)
