-- ===== src/Sim/PcieBridge/Thread/Dispatch.antt =====
-- The simulator's thread hands QEMU's messages to handle_message whole and in order.
use smart_eth.Base.{
  ℕ, ◌≤◌, ◌<◌, ◌^◌, ◌≡◌, ◌∙◌, refl, ap, arith, Bool, false, Option, none, some, List, [], ◌∷◌, ◌++◌,
  length, min, replicate, suc, drop-all, if◌then◌else◌,
}
use smart_eth.Bridge.Socket.{recv_all}
use smart_eth.Bridge.Socket.Streams.{AllPositive, recv_all-front}
use smart_eth.Bridge.Wire.{le32, u32_at, frame, header_size}
use smart_eth.Bridge.Wire.Framing.{u32_at-le32}
use smart_eth.Bridge.Thread.Dispatch.{Message, on_wire}
use smart_eth.Sim.PcieBridge.{PcieBridge, Callbacks, handle_message}
use smart_eth.Sim.PcieBridge.Thread.{
  Round, message, read_header, receive, receive_payload, finish_round, socket_loop, dispatch,
  and_then, closed,
}

-- A `read` of a header that returns all of it.
abbrev pub WholeHeader : Option ℕ → Type 0
WholeHeader none = ⊥
WholeHeader (some n) = 7 ≤ n

-- One round for each message, in which the thread goes on, the header comes in one piece and the payload
-- in any pieces.
abbrev pub Delivers : List Round → List Message → Type 0
Delivers [] [] = Unit
Delivers [] (m ∷ ms) = ⊥
Delivers (r ∷ rs) [] = ⊥
Delivers (r ∷ rs) ((type, payload) ∷ ms) =
    (type < 2 ^ 32)
    × (length payload < 2 ^ 32)
    × (r.stopped ≡ false)
    × WholeHeader r.header
    × (length r.junk ≡ header_size)
    × AllPositive r.payload
    × (length payload ≤ length r.payload)
    × Delivers rs ms

read_header-WholeHeader :
    (answer : Option ℕ) (junk : List ℕ) (type len : ℕ) (later : List ℕ)
    → WholeHeader answer
    → length junk ≡ header_size
    → read_header answer junk (le32 type ++ le32 len ++ later) ≡ some (le32 type ++ le32 len, later)
read_header-WholeHeader none junk type len later h e = absurd h
read_header-WholeHeader (some n) junk type len later h e =
    let k : min (suc n) header_size ≡ 8 = omega arith in rw (k, drop-all 8 junk (omega arith)) refl

pub receive-header :
    (r : Round) (type len : ℕ) (later : List ℕ)
    → type < 2 ^ 32
    → len < 2 ^ 32
    → WholeHeader r.header
    → length r.junk ≡ header_size
    → receive r (le32 type ++ le32 len ++ later) ≡ finish_round type (recv_all r.payload len later)
receive-header r type len later ht hl wh junk =
    let header = le32 type ++ le32 len in
    ap (receive_payload r) (read_header-WholeHeader r.header r.junk type len later wh junk)
    ∙ ap (λ n. finish_round (u32_at header) (recv_all r.payload n later)) (u32_at-le32 len [] hl)
    ∙ ap (λ t. finish_round t (recv_all r.payload len later)) (u32_at-le32 type (le32 len) ht)

receive-frame :
    (r : Round) (type : ℕ) (payload later : List ℕ)
    → type < 2 ^ 32
    → length payload < 2 ^ 32
    → WholeHeader r.header
    → length r.junk ≡ header_size
    → AllPositive r.payload
    → length payload ≤ length r.payload
    → receive r (frame type payload ++ later) ≡ message type payload later
receive-frame r type payload later ht hp wh junk pp ep =
    receive-header r type (length payload) (payload ++ later) ht hp wh junk
    ∙ ap (finish_round type) (recv_all-front r.payload payload later (length payload) refl pp ep)

module _ {N : Type 0} (cbs : Callbacks N) where
  abbrev pub handle_all : List Message → N × PcieBridge → Option (N × PcieBridge)
  handle_all [] w = some w
  handle_all ((type, payload) ∷ ms) w = and_then (handle_message cbs type payload w) (handle_all ms)

  and_then-agree :
      (r : Option (N × PcieBridge)) (f g : N × PcieBridge → Option (N × PcieBridge))
      → ((w : N × PcieBridge) → f w ≡ g w)
      → and_then r f ≡ and_then r g
  and_then-agree none f g h = refl
  and_then-agree (some w) f g h = h w

  -- When QEMU's messages, whose fields fit their words, arrive with each header in one piece
  -- and the payloads cut up in any way, and the thread is not stopped, it has called
  -- handle_message on each of them, whole and in order, and stops early only where a message
  -- is too short for its type.
  pub socket_loop_lem :
      (rounds : List Round) (messages : List Message) (w : N × PcieBridge)
      → Delivers rounds messages
      → socket_loop cbs rounds (on_wire messages) w ≡ handle_all messages w
  unfolding socket_loop
  socket_loop_lem [] [] w d = refl
  socket_loop_lem [] (m ∷ ms) w d = absurd d
  socket_loop_lem (r ∷ rs) [] w d = absurd d
  socket_loop_lem (r ∷ rs) ((type, payload) ∷ ms) w (ht, hp, on, wh, junk, pp, ep, d) =
      ap
        (λ (b : Bool).
          if b
          then some (closed w)
          else dispatch cbs (receive r (frame type payload ++ on_wire ms)) w (socket_loop cbs rs))
        on
      ∙ ap (λ x. dispatch cbs x w (socket_loop cbs rs))
          (receive-frame r type payload (on_wire ms) ht hp wh junk pp ep)
      ∙ and_then-agree (handle_message cbs type payload w) (socket_loop cbs rs (on_wire ms))
          (handle_all ms) (λ w'. socket_loop_lem rs ms w' d)

-- The header is read by one `read`. When the kernel returns its first four bytes only, and the
-- header on the stack was zero, a message with a payload is taken for one without, and the length of the
-- payload is what the next header is read from.
pub split_header_loses_payload :
    (r : Round) (type : ℕ) (payload later : List ℕ)
    → type < 2 ^ 32
    → r.header ≡ some 3
    → r.junk ≡ replicate 8 0
    → receive r (frame type payload ++ later)
      ≡ message type [] (le32 (length payload) ++ payload ++ later)
unfolding recv_all
split_header_loses_payload r type payload later ht h junk =
    rw (h, junk)
      (ap (λ (t : ℕ). message t [] (le32 (length payload) ++ payload ++ later))
        (u32_at-le32 type [] ht))
