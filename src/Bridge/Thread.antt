-- ===== src/Bridge/Thread.antt =====
-- sc_bridge_io_thread of smarteth_sc_bridge.c: the loop that takes the peer's messages off the socket.
pub mod Dispatch
use smart_eth.Base.{
  ℕ, ◌≡◌, Bool, true, false, not, Option, none, some, List, [], ◌∷◌, drop, if◌then◌else◌,
}
use smart_eth.Device.{Bus}
use smart_eth.Bridge.{ScBridge, hang_up, handle_msg}
use smart_eth.Bridge.Wire.{header_size, u32_at}
use smart_eth.Bridge.Socket.{Outcome, Transfer, done, failed, blocked, recv_all}

-- The kernel's answers to one round of the loop.
pub record Round : Type 0 where
  pub header : List (Option ℕ)
  pub payload : List (Option ℕ)

-- A message with what follows it in the stream, the end of the connection, or no end of the round.
pub data Received : Type 0 where
  message : ℕ → List ℕ → List ℕ → Received
  connection_lost : Received
  still_reading : Received

abbrev pub by_outcome : Outcome → Received → Received
by_outcome done r = r
by_outcome failed r = connection_lost
by_outcome blocked r = still_reading

-- The end of a round, when the payload has been read.
abbrev pub finish_round : ℕ → Transfer → Received
finish_round type body = by_outcome body.outcome (message type body.moved body.rest)

-- The rest of a round, when the header has been read.
abbrev pub receive_payload : Round → Transfer → Received
receive_payload round hdr =
    let length = u32_at (drop 4 hdr.moved) in
    by_outcome hdr.outcome
      (finish_round (u32_at hdr.moved) (recv_all round.payload length hdr.rest))

abbrev pub receive : Round → List ℕ → Received
receive round stream = receive_payload round (recv_all round.header header_size stream)

-- The handler's state goes to the next round.
abbrev pub and_then :
    {M : Type 0} → Option (ScBridge M) → (ScBridge M → Option (ScBridge M)) → Option (ScBridge M)
and_then none k = none
and_then (some s) k = k s

module _ {M : Type 0} (bus : Bus M) where
  abbrev pub dispatch :
      Received → ScBridge M → (List ℕ → ScBridge M → Option (ScBridge M)) → Option (ScBridge M)
  dispatch (message type payload rest) s k = and_then (handle_msg bus s type payload) (k rest)
  dispatch connection_lost s k = some (hang_up s)
  dispatch still_reading s k = some s

  -- The loop with what follows it. `none` is a read beyond the end of a message. Where the rounds end
  -- the thread waits for a header.
  pub io_loop : List Round → List ℕ → ScBridge M → Option (ScBridge M)
  io_loop [] stream s = some s
  io_loop (round ∷ rounds) stream s =
      let again = io_loop rounds in
      if s.io_thread_running then dispatch (receive round stream) s again else some (hang_up s)
