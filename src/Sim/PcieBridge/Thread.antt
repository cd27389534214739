-- ===== src/Sim/PcieBridge/Thread.antt =====
-- socket_thread of pcie_bridge.cpp.
pub mod Dispatch
pub mod Delivery
mod Tests
use smart_eth.Base.{
  ℕ, ◌+◌, ◌-◌, ◌≤◌, ◌<◌, ◌^◌, ◌≡◌, ◌∙◌, refl, ap, arith, Bool, true, false, Option, none, some,
  List, [], ◌∷◌, ◌++◌, length, take, drop, min, take-append, drop-append, drop-all, if◌then◌else◌,
  suc,
}
use smart_eth.Bridge.Socket.{Outcome, done, failed, blocked, Transfer, recv_all}
use smart_eth.Bridge.Socket.Streams.{AllPositive, recv_all-front}
use smart_eth.Bridge.Wire.{le32, u32_at, frame, header_size}
use smart_eth.Bridge.Wire.Framing.{u32_at-le32}
use smart_eth.Bridge.Thread.Dispatch.{Message, on_wire}
use smart_eth.Sim.PcieBridge.{PcieBridge, Callbacks, handle_message}
use smart_eth.Sim.PcieBridge.Socket.{connect, read_payload}

-- One round of the loop: whether the destructor has cleared m_running, the kernel's answer to the one
-- `read` of the header, what the header on the stack held before, and the answers for the payload.
pub record Round : Type 0 where
  pub stopped : Bool
  pub header : Option ℕ
  pub junk : List ℕ
  pub payload : List (Option ℕ)

-- A message with what follows it in the stream, a header or a payload that does not come, or no end.
pub data Received : Type 0 where
  message : ℕ → List ℕ → List ℕ → Received
  no_header : Received
  no_payload : Received
  still_reading : Received

-- `read(m_sock_fd, &hdr, sizeof(hdr))`, with `none` for a result of 0 or below.
abbrev pub read_header : Option ℕ → List ℕ → List ℕ → Option (List ℕ × List ℕ)
read_header none junk stream = none
read_header (some n) junk [] = none
read_header (some n) junk (b ∷ bs) =
    let k = min (suc n) header_size in
    let got = take k (b ∷ bs) in some (got ++ drop (length got) junk, drop k (b ∷ bs))

abbrev pub by_outcome : Outcome → Received → Received
by_outcome done r = r
by_outcome failed r = no_payload
by_outcome blocked r = still_reading

abbrev pub finish_round : ℕ → Transfer → Received
finish_round type body = by_outcome body.outcome (message type body.moved body.rest)

abbrev pub receive_payload : Round → Option (List ℕ × List ℕ) → Received
receive_payload round none = no_header
receive_payload round (some (header, rest)) =
    finish_round (u32_at header) (read_payload round.payload (u32_at (drop 4 header)) rest)

abbrev pub receive : Round → List ℕ → Received
receive round stream = receive_payload round (read_header round.header round.junk stream)

module _ {N : Type 0} where
  -- Behind the loop, and the return from within it.
  abbrev pub closed : N × PcieBridge → N × PcieBridge
  closed (n, b) = (n, record b { sock_open = false })

  abbrev pub cut_off : N × PcieBridge → N × PcieBridge
  cut_off (n, b) = (n, record b { running = false })

  abbrev pub connected : N × PcieBridge → N × PcieBridge
  connected (n, b) = (n, record b { sock_open = true; writable = true; running = true })

  abbrev pub and_then :
      Option (N × PcieBridge) → (N × PcieBridge → Option (N × PcieBridge)) → Option (N × PcieBridge)
  and_then none k = none
  and_then (some w) k = k w

module _ {N : Type 0} (cbs : Callbacks N) where
  abbrev pub dispatch :
      Received
      → N × PcieBridge
      → (List ℕ → N × PcieBridge → Option (N × PcieBridge))
      → Option (N × PcieBridge)
  dispatch (message type payload rest) w k = and_then (handle_message cbs type payload w) (k rest)
  dispatch no_header w k = some (closed w)
  dispatch no_payload w k = some (cut_off w)
  dispatch still_reading w k = some w

  -- The receive loop with what follows it. Where the rounds end the thread waits for a header.
  unfoldable pub socket_loop : List Round → List ℕ → N × PcieBridge → Option (N × PcieBridge)
  socket_loop [] stream w = some w
  socket_loop (round ∷ rounds) stream w =
      let again = socket_loop rounds in
      if round.stopped then some (closed w) else dispatch (receive round stream) w again

  -- The thread, by whether `socket` succeeds and which attempts to connect do.
  unfoldable pub socket_thread :
      Bool → List Bool → List Round → List ℕ → N × PcieBridge → Option (N × PcieBridge)
  unfolding connect socket_loop
  socket_thread made attempts rounds stream w =
      if made
      then (if connect 100 attempts
          then socket_loop rounds stream (connected w)
          else some (closed w))
      else some w
