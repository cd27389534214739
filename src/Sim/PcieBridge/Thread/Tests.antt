-- ===== src/Sim/PcieBridge/Thread/Tests.antt =====
-- The simulator's thread at concrete streams.
use smart_eth.Base.{◌≡◌, refl, arith, true, false, none, some, List, [], ◌∷◌, ◌++◌, replicate}
use smart_eth.Bridge.Socket.{Send, transmit}
use smart_eth.Bridge.Wire.{le32, le64, frame}
use smart_eth.Bridge.Thread.Dispatch.{Message}
use smart_eth.Sim.Samples.{ring_nic, sim_end, irq_link}
use smart_eth.Sim.PcieBridge.{handle_message}
use smart_eth.Sim.PcieBridge.Wired.{nic_callbacks, no_callbacks}
use smart_eth.Sim.PcieBridge.Thread.{Round, socket_loop}
use smart_eth.Sim.PcieBridge.Thread.Dispatch.{handle_all}
use smart_eth.Sim.PcieBridge.Thread.Delivery.{socket_loop-transmit, failed_send_mixes_messages}

-- A reset, then a DMA answer of two bytes.
abbrev two_messages : List Message
two_messages = (5, []) ∷ (2, 0 ∷ 0 ∷ 0 ∷ 0 ∷ 7 ∷ 8 ∷ []) ∷ []

-- A kernel that takes a few bytes at a time.
abbrev two_sends : List Send
two_sends =
    (replicate 8 (some 2), frame 5 [])
    ∷ (some 9 ∷ replicate 13 (some 0), frame 2 (0 ∷ 0 ∷ 0 ∷ 0 ∷ 7 ∷ 8 ∷ []))
    ∷ []

abbrev two_rounds : List Round
two_rounds =
    record { stopped = false; header = some 7; junk = replicate 8 0xCC; payload = [] }
    ∷ record {
      stopped = false;
      header = some 7;
      junk = replicate 8 0xCC;
      payload = some 0 ∷ some 1 ∷ some 0 ∷ some 9 ∷ some 0 ∷ some 0 ∷ [];
    }
    ∷ []

socket_loop-transmit_example :
    socket_loop no_callbacks two_rounds (transmit two_sends) (true, sim_end)
    ≡ handle_all no_callbacks two_messages (true, sim_end)
socket_loop-transmit_example =
    socket_loop-transmit no_callbacks two_sends two_rounds two_messages (true, sim_end)
      (refl, tt, omega arith, (refl, tt, omega arith, tt))
      (
        omega arith,
        omega arith,
        refl,
        omega arith,
        refl,
        tt,
        omega arith,
        (omega arith, omega arith, refl, omega arith, refl, tt, omega arith, tt),
      )

-- A register write that fails behind its address, and a write of 7 to another register.
abbrev torn_sends : List Send
torn_sends =
    (some 15 ∷ none ∷ [], frame 1 (le64 0x308 ++ le32 64))
    ∷ (replicate 20 (some 0), frame 1 (le64 0x30C ++ le32 7))
    ∷ []

abbrev one_round : Round
one_round = record {
  stopped = false;
  header = some 7;
  junk = replicate 8 0;
  payload = replicate 12 (some 0);
}

-- The register gets the type of the next message.
failed_send_mixes_messages_example :
    socket_loop (nic_callbacks irq_link) (one_round ∷ []) (transmit torn_sends) (ring_nic, sim_end)
    ≡ handle_message (nic_callbacks irq_link) 1 (le64 0x308 ++ le32 1) (ring_nic, sim_end)
unfolding transmit
failed_send_mixes_messages_example =
    failed_send_mixes_messages (nic_callbacks irq_link) (some 15 ∷ none ∷ [])
      (replicate 20 (some 0)) one_round 1 8 (le64 0x308 ++ le32 64) (1, le64 0x30C ++ le32 7)
      (ring_nic, sim_end) (omega arith) (omega arith) refl refl (omega arith) (omega arith) tt
      (omega arith) refl (omega arith) refl tt (omega arith)
