-- ===== src/Sim/PcieBridge/Thread/Delivery.antt =====
-- From sc_bridge_send_all of firmware/qemu-dev/smarteth_sc_bridge.c to socket_thread of
-- pcie_bridge.cpp: the messages that QEMU's bridge sends, as the simulator's thread takes them off
-- the socket.
use mathlib.Core.List.{append_assoc, append-nil}
use smart_eth.Base.{
  ℕ, ◌+◌, ◌-◌, ◌≤◌, ◌<◌, ◌^◌, ◌≡◌, ◌∙◌, sym, refl, ap, arith, Bool, false, Option, none, some, List,
  [], ◌∷◌, ◌++◌, length, take, drop, length-take, length-append, take-append-drop, if◌then◌else◌,
}
use smart_eth.Bridge.Socket.{Send, failed, send_all, recv_all, transmit}
use smart_eth.Bridge.Socket.Streams.{AllPositive, transmit-whole, transmit-torn, recv_all-front}
use smart_eth.Bridge.Wire.{le32, frame, header_size}
use smart_eth.Bridge.Thread.Dispatch.{Message, on_wire}
use smart_eth.Sim.PcieBridge.{PcieBridge, Callbacks, handle_message}
use smart_eth.Sim.PcieBridge.Thread.{
  Round, message, receive, finish_round, socket_loop, dispatch, and_then, closed,
}
use smart_eth.Sim.PcieBridge.Thread.Dispatch.{
  WholeHeader, Delivers, receive-header, handle_all, socket_loop_lem,
}

-- Each message is sent with answers of the kernel that take all of it.
abbrev Sends : List Send → List Message → Type 0
Sends [] [] = Unit
Sends [] (m ∷ ms) = ⊥
Sends (s ∷ ss) [] = ⊥
Sends ((answers, bytes) ∷ ss) ((type, payload) ∷ ms) =
    (bytes ≡ frame type payload)
    × AllPositive answers
    × (length bytes ≤ length answers)
    × Sends ss ms

transmit-on_wire :
    (sends : List Send) (messages : List Message)
    → Sends sends messages
    → transmit sends ≡ on_wire messages
unfolding transmit
transmit-on_wire [] [] h = refl
transmit-on_wire [] (m ∷ ms) h = absurd h
transmit-on_wire (s ∷ ss) [] h = absurd h
transmit-on_wire ((answers, bytes) ∷ ss) ((type, payload) ∷ ms) (same, positive, enough, h) =
    transmit-whole answers bytes ss positive enough
    ∙ ap (λ (x : List ℕ). x ++ transmit ss) same
    ∙ ap (◌++◌ (frame type payload)) (transmit-on_wire ss ms h)

-- What is on the wire when the first message fails inside its payload and the second is sent whole.
transmit-pair :
    (cut whole : List (Option ℕ)) (type sent : ℕ) (payload second : List ℕ)
    → (send_all cut (frame type payload)).outcome ≡ failed
    → length (send_all cut (frame type payload)).moved ≡ header_size + sent
    → sent ≤ length payload
    → AllPositive whole
    → length second ≤ length whole
    → transmit ((cut, frame type payload) ∷ (whole, second) ∷ [])
      ≡ le32 type ++ le32 (length payload) ++ take sent payload ++ second
unfolding transmit
transmit-pair cut whole type sent payload second fails at inside pw ew =
    let front = le32 type ++ le32 (length payload) ++ take sent payload in
    let back = drop sent payload in
    let parts : front ++ back ≡ frame type payload =
      ap (λ (x : List ℕ). le32 type ++ le32 (length payload) ++ x)
        (take-append-drop sent payload) in
    let at_front : length (send_all cut (front ++ back)).moved ≡ length front =
      ap (λ x. length (send_all cut x).moved) parts ∙ omega (arith, at, length-take sent payload) in
    ap (λ x. transmit ((cut, x) ∷ (whole, second) ∷ [])) (sym parts)
    ∙ transmit-torn cut front back ((whole, second) ∷ [])
        (ap (λ x. (send_all cut x).outcome) parts ∙ fails) at_front
    ∙ ap (◌++◌ front) (transmit-whole whole second [] pw ew ∙ append-nil second)

-- The rest of the payload is taken from the message behind it.
receive-torn :
    (r : Round) (type sent : ℕ) (payload later : List ℕ)
    → type < 2 ^ 32
    → length payload < 2 ^ 32
    → WholeHeader r.header
    → length r.junk ≡ header_size
    → AllPositive r.payload
    → length payload ≤ length r.payload
    → sent ≤ length payload
    → length payload - sent ≤ length later
    → (let missing = length payload - sent in
        receive r (le32 type ++ le32 (length payload) ++ take sent payload ++ later)
        ≡ message type (take sent payload ++ take missing later) (drop missing later))
receive-torn r type sent payload later ht hp wh junk pp ep cut fits =
    let missing = length payload - sent in
    let mixed = take sent payload ++ take missing later in
    let len : length payload ≡ length mixed = omega (
      arith,
      length-append (take sent payload) (take missing later),
      length-take sent payload,
      length-take missing later,
    ) in
    let split : take sent payload ++ later ≡ mixed ++ drop missing later =
      ap (◌++◌ (take sent payload)) (sym (take-append-drop missing later))
      ∙ sym (append_assoc (take sent payload) (take missing later) (drop missing later)) in
    receive-header r type (length payload) (take sent payload ++ later) ht hp wh junk
    ∙ ap (λ x. finish_round type (recv_all r.payload (length payload) x)) split
    ∙ ap (finish_round type)
        (recv_all-front r.payload mixed (drop missing later) (length payload) len pp ep)

and_then-some : {N : Type 0} (r : Option (N × PcieBridge)) → and_then r some ≡ r
and_then-some none = refl
and_then-some (some w) = refl

module _ {N : Type 0} (cbs : Callbacks N) where
  -- When QEMU's bridge sends messages, each `write` takes some bytes of them, and the simulator
  -- gets each header in one piece and the payloads in any pieces, then handle_message has been
  -- called on each of the messages, whole and in order, and the thread stops early only where a
  -- message is too short for its type.
  pub socket_loop-transmit :
      (sends : List Send) (rounds : List Round) (messages : List Message) (w : N × PcieBridge)
      → Sends sends messages
      → Delivers rounds messages
      → socket_loop cbs rounds (transmit sends) w ≡ handle_all cbs messages w
  socket_loop-transmit sends rounds messages w s d =
      ap (λ x. socket_loop cbs rounds x w) (transmit-on_wire sends messages s)
      ∙ socket_loop_lem cbs rounds messages w d

  one_message :
      (r : Round) (stream : List ℕ) (type : ℕ) (payload later : List ℕ) (w : N × PcieBridge)
      → r.stopped ≡ false
      → receive r stream ≡ message type payload later
      → socket_loop cbs (r ∷ []) stream w ≡ handle_message cbs type payload w
  unfolding socket_loop
  one_message r stream type payload later w on got =
      ap
        (λ (b : Bool).
          if b then some (closed w) else dispatch cbs (receive r stream) w (socket_loop cbs []))
        on
      ∙ ap (λ x. dispatch cbs x w (socket_loop cbs [])) got
      ∙ and_then-some (handle_message cbs type payload w)

  -- QEMU's bridge ignores a failed send. When a message fails behind its header, `sent` bytes into its
  -- payload, and the next one is sent whole, the simulator's thread handles a message with the
  -- first one's type, the bytes that were sent and, for the rest, the beginning of the second
  -- message with its header.
  pub failed_send_mixes_messages :
      (cut whole : List (Option ℕ)) (r : Round) (type sent : ℕ) (payload : List ℕ) (next : Message)
      (w : N × PcieBridge)
      → type < 2 ^ 32
      → length payload < 2 ^ 32
      → (send_all cut (frame type payload)).outcome ≡ failed
      → length (send_all cut (frame type payload)).moved ≡ header_size + sent
      → sent ≤ length payload
      → length payload ≤ sent + length (frame next.0 next.1)
      → AllPositive whole
      → length (frame next.0 next.1) ≤ length whole
      → r.stopped ≡ false
      → WholeHeader r.header
      → length r.junk ≡ header_size
      → AllPositive r.payload
      → length payload ≤ length r.payload
      → (let sends : List Send = (cut, frame type payload) ∷ (whole, frame next.0 next.1) ∷ [] in
          let mixed = take sent payload ++ take (length payload - sent) (frame next.0 next.1) in
          socket_loop cbs (r ∷ []) (transmit sends) w ≡ handle_message cbs type mixed w)
  failed_send_mixes_messages cut whole r type sent payload next w ht hp fails at inside fits pw ew
        on wh junk pp ep =
      let second = frame next.0 next.1 in
      let missing = length payload - sent in
      let sends : List Send = (cut, frame type payload) ∷ (whole, second) ∷ [] in
      one_message r (transmit sends) type (take sent payload ++ take missing second)
        (drop missing second) w on
        (ap (receive r) (transmit-pair cut whole type sent payload second fails at inside pw ew)
          ∙ receive-torn r type sent payload second ht hp wh junk pp ep inside (omega arith))
