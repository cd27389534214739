-- ===== src/Bridge/Thread/Dispatch.antt =====
-- The loop hands the peer's messages to the handlers whole and in order.
use smart_eth.Base.{
  ℕ, ◌≤◌, ◌<◌, ◌^◌, ◌≡◌, ◌∙◌, refl, ap, arith, true, Option, none, some, List, [], ◌∷◌, ◌++◌,
  length, if◌then◌else◌,
}
use smart_eth.Device.{Bus}
use smart_eth.Bridge.{
  ScBridge, hang_up, handle_msg, handle_mmio_read_resp, handle_dma_read, handle_dma_write,
  handle_msi,
}
use smart_eth.Bridge.Wire.{le32, u32_at, frame, header_size}
use smart_eth.Bridge.Wire.Framing.{u32_at-le32}
use smart_eth.Bridge.Socket.{recv_all}
use smart_eth.Bridge.Socket.Streams.{AllPositive, recv_all-front}
use smart_eth.Bridge.Thread.{
  Round, message, receive, receive_payload, finish_round, io_loop, dispatch, and_then,
}

-- A type and a payload.
abbrev pub Message : Type 0
Message = ℕ × List ℕ

-- The messages as the peer puts them on the wire.
abbrev pub on_wire : List Message → List ℕ
on_wire [] = []
on_wire ((type, payload) ∷ messages) = frame type payload ++ on_wire messages

-- One round for each message; the fields fit their words; in each round the kernel moves some bytes
-- in every call.
abbrev pub Delivers : List Round → List Message → Type 0
Delivers [] [] = Unit
Delivers [] (m ∷ ms) = ⊥
Delivers (r ∷ rs) [] = ⊥
Delivers (r ∷ rs) ((type, payload) ∷ ms) =
    (type < 2 ^ 32)
    × (length payload < 2 ^ 32)
    × AllPositive r.header
    × (header_size ≤ length r.header)
    × AllPositive r.payload
    × (length payload ≤ length r.payload)
    × Delivers rs ms

receive-frame :
    (r : Round) (type : ℕ) (payload later : List ℕ)
    → type < 2 ^ 32
    → length payload < 2 ^ 32
    → AllPositive r.header
    → header_size ≤ length r.header
    → AllPositive r.payload
    → length payload ≤ length r.payload
    → receive r (frame type payload ++ later) ≡ message type payload later
receive-frame r type payload later ht hp ph eh pp ep =
    let header = le32 type ++ le32 (length payload) in
    let first = recv_all-front r.header header (payload ++ later) header_size refl ph eh in
    let second = recv_all-front r.payload payload later (length payload) refl pp ep in
    ap (receive_payload r) first
    ∙ ap (λ n. finish_round (u32_at header) (recv_all r.payload n (payload ++ later)))
        (u32_at-le32 (length payload) [] hp)
    ∙ ap (finish_round (u32_at header)) second
    ∙ ap (λ t. message t payload later) (u32_at-le32 type (le32 (length payload)) ht)

module _ {M : Type 0} (bus : Bus M) where
  -- The handlers one after the other.
  abbrev pub handle_all : List Message → ScBridge M → Option (ScBridge M)
  handle_all [] s = some s
  handle_all ((type, payload) ∷ ms) s = and_then (handle_msg bus s type payload) (handle_all ms)

  handle_msg-running :
      (s s' : ScBridge M) (type : ℕ) (payload : List ℕ)
      → handle_msg bus s type payload ≡ some s'
      → s'.io_thread_running ≡ s.io_thread_running
  unfolding handle_msg handle_mmio_read_resp handle_dma_read handle_dma_write handle_msi
  handle_msg-running s s' type payload h = ground arith

  and_then-agree :
      (r : Option (ScBridge M)) (f g : ScBridge M → Option (ScBridge M))
      → ((s : ScBridge M) → r ≡ some s → f s ≡ g s)
      → and_then r f ≡ and_then r g
  and_then-agree none f g h = refl
  and_then-agree (some s) f g h = h s refl

  -- When the peer sends messages and the kernel delivers their bytes, however it cuts them up, the
  -- running thread has called the handler on each of them, whole and in order, and stops early
  -- only where a handler does.
  pub io_loop_lem :
      (rounds : List Round) (messages : List Message) (s : ScBridge M)
      → s.io_thread_running ≡ true
      → Delivers rounds messages
      → io_loop bus rounds (on_wire messages) s ≡ handle_all messages s
  unfolding io_loop
  io_loop_lem [] [] s on d = refl
  io_loop_lem [] (m ∷ ms) s on d = absurd d
  io_loop_lem (r ∷ rs) [] s on d = absurd d
  io_loop_lem (r ∷ rs) ((type, payload) ∷ ms) s on (ht, hp, ph, eh, pp, ep, d) =
      let taken = receive-frame r type payload (on_wire ms) ht hp ph eh pp ep in
      ap
        (λ b.
          if b
          then dispatch bus (receive r (frame type payload ++ on_wire ms)) s (io_loop bus rs)
          else some (hang_up s))
        on
      ∙ ap (λ x. dispatch bus x s (io_loop bus rs)) taken
      ∙ and_then-agree (handle_msg bus s type payload) (io_loop bus rs (on_wire ms)) (handle_all ms)
          (λ s' h. io_loop_lem rs ms s' (handle_msg-running s s' type payload h ∙ on) d)
