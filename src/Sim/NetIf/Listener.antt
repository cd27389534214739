-- ===== src/Sim/NetIf/Listener.antt =====
-- NetIf::listener_thread of net_if.cpp.
use smart_eth.Base.{
  ℕ, suc, Bool, false, ◌||◌, Option, none, some, List, [], ◌∷◌, ◌++◌, length, take, drop, min, ltb,
  ◌==◌, if◌then◌else◌,
}
use smart_eth.Bridge.Socket.{Outcome, done, failed, blocked, Transfer, recv_all}
use smart_eth.Bridge.Wire.{u32_at}
use smart_eth.Sim.NetIf.{NetIf}

-- One round of the loop: whether the destructor has cleared m_running, the kernel's answer to the
-- one `read` of the length, what `pkt_len` on the stack held before, and the answers for the frame.
pub record Round : Type 0 where
  pub stopped : Bool
  pub head : Option ℕ
  pub junk : List ℕ
  pub body : List (Option ℕ)

abbrev pub max_frame : ℕ
max_frame = 16384

-- `read(m_rx_fd, &pkt_len, sizeof(pkt_len))`, with `none` for a result of 0 or below.
abbrev pub read_length : Option ℕ → List ℕ → List ℕ → Option (List ℕ × List ℕ)
read_length none junk stream = none
read_length (some k) junk [] = none
read_length (some k) junk (b ∷ bs) =
    let n = min (suc k) 4 in
    let got = take n (b ∷ bs) in some (got ++ drop (length got) junk, drop n (b ∷ bs))

-- A frame or a length that is passed over, each with what follows it in the stream; the end of the
-- peer's stream, an end within a frame, or no end yet.
pub data Heard : Type 0 where
  frame : List ℕ → List ℕ → Heard
  passed_over : List ℕ → Heard
  hung_up : Heard
  cut_short : Heard
  still_reading : Heard

abbrev pub by_outcome : Transfer → Outcome → Heard
by_outcome t done = frame t.moved t.rest
by_outcome t failed = cut_short
by_outcome t blocked = still_reading

abbrev pub read_frame : List (Option ℕ) → ℕ → List ℕ → Heard
read_frame answers pkt_len stream =
    let t = recv_all answers pkt_len stream in
    if pkt_len == 0 || ltb max_frame pkt_len then passed_over stream else by_outcome t t.outcome

abbrev pub hear_frame : Round → Option (List ℕ × List ℕ) → Heard
hear_frame r none = hung_up
hear_frame r (some (len, rest)) = read_frame r.body (u32_at len) rest

abbrev pub hear : Round → List ℕ → Heard
hear r stream = hear_frame r (read_length r.head r.junk stream)

-- The frames that were given to the callback, each of which also notifies m_rx_event, and the
-- interface behind the loop.
abbrev pub Deliveries : Type 0
Deliveries = List (List ℕ) × NetIf

abbrev pub delivered : List ℕ → Deliveries → Deliveries
delivered bytes (frames, n) = (bytes ∷ frames, n)

abbrev pub dispatch : Heard → NetIf → (List ℕ → NetIf → Deliveries) → Deliveries
dispatch (frame bytes rest) n again = delivered bytes (again rest n)
dispatch (passed_over rest) n again = again rest n
dispatch hung_up n again = ([], n)
dispatch cut_short n again = ([], record n { running = false })
dispatch still_reading n again = ([], n)

-- The loop. Where the rounds end the thread waits in its first `read`.
unfoldable pub listen_loop : List Round → List ℕ → NetIf → Deliveries
listen_loop [] stream n = ([], n)
listen_loop (r ∷ rs) stream n =
    let again = listen_loop rs in
    if r.stopped then ([], record n { running = false }) else dispatch (hear r stream) n again

-- The thread, by whether it gets its connection; a `read` of descriptor -1 fails.
unfoldable pub listener_thread : Bool → List Round → List ℕ → NetIf → Deliveries
unfolding listen_loop
listener_thread accepted rounds stream n =
    let n1 = record n { rx = accepted; rx_listen = false } in
    if accepted then listen_loop rounds stream n1 else ([], n1)
