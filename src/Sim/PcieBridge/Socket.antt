-- ===== src/Sim/PcieBridge/Socket.antt =====
-- The loops of pcie_bridge.cpp on its socket: send_all, the reading of a payload and the connection.
-- The first two are the loops of Bridge/Socket.antt, with the same kernel.
use smart_eth.Base.{ℕ, zero, suc, Bool, true, false, Option, List, [], ◌∷◌}
use smart_eth.Bridge.Socket
use smart_eth.Bridge.Socket.{Transfer}

abbrev pub send_all : List (Option ℕ) → List ℕ → Transfer
send_all answers bytes = Socket.send_all answers bytes

-- The loop of socket_thread over `remaining`.
abbrev pub read_payload : List (Option ℕ) → ℕ → List ℕ → Transfer
read_payload answers remaining stream = Socket.recv_all answers remaining stream

-- The loop that connects: so many attempts are left, and `answers` say which succeed.
unfoldable pub connect : ℕ → List Bool → Bool
connect zero answers = false
connect (suc tries) [] = false
connect (suc tries) (true ∷ answers) = true
connect (suc tries) (false ∷ answers) = connect tries answers
