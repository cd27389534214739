-- ===== src/Sim/NetIf.antt =====
-- sim/systemc/src/net_if.cpp: the packet sockets beside the NIC. A frame travels as its length in
-- four bytes and then its bytes. The socket files and the log lines are left out.
pub mod Listener
pub mod Streams
mod Tests
use smart_eth.Base.{
  ℕ, Bool, true, false, not, Option, none, some, List, [], ◌∷◌, ◌++◌, length, take, if◌then◌else◌,
  suc,
}
use smart_eth.Bridge.Wire.{le32}

-- Each descriptor by whether it is not negative. `tx` is first the listening socket, then the
-- connection; `thread` is m_thread.joinable().
pub record NetIf : Type 0 where
  pub rx_listen : Bool
  pub rx : Bool
  pub tx : Bool
  pub running : Bool
  pub thread : Bool

-- The constructor `NetIf(name, rx_socket_path, tx_socket_path)`.
unfoldable pub new_net_if : NetIf
new_net_if = record { rx_listen = false; rx = false; tx = false; running = false; thread = false }

-- Which calls of `start` succeed; it does not look at what `listen` returns.
pub record StartCalls : Type 0 where
  pub rx_socket : Bool
  pub rx_bind : Bool
  pub tx_socket : Bool
  pub tx_bind : Bool
  pub tx_accept : Bool

unfoldable pub start : StartCalls → NetIf → NetIf
start calls n =
    if not calls.rx_socket
    then record n { rx_listen = false }
    else if not calls.rx_bind
    then record n { rx_listen = true }
    else if not calls.tx_socket
    then record n { rx_listen = true; tx = false }
    else if not calls.tx_bind
    then record n { rx_listen = true; tx = true }
    else record n { rx_listen = true; tx = calls.tx_accept; running = true; thread = true }

-- The destructor `~NetIf()`. It joins the thread, and leaves the descriptors' numbers as they are.
unfoldable pub stop : NetIf → NetIf
stop n = record n { rx_listen = false; rx = false; tx = false; running = false; thread = false }

-- What one `write` puts on the socket: `some k` takes k + 1 bytes at most, `none` is a failure.
-- transmit looks at neither result.
abbrev pub written : Option ℕ → List ℕ → List ℕ
written none bytes = []
written (some k) bytes = take (suc k) bytes

-- The bytes that a call of `transmit` puts on the socket, by the kernel's answers to its two writes.
unfoldable pub transmit : Option ℕ → Option ℕ → List ℕ → NetIf → List ℕ
transmit head body frame n =
    if not n.tx then [] else written head (le32 (length frame)) ++ written body frame
