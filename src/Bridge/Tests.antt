-- ===== src/Bridge/Tests.antt =====
-- The theorems on the bridge at concrete inputs.
use smart_eth.Base.{ℕ, ◌≡◌, refl, arith, true, false, Option, some, List, [], ◌∷◌, ◌++◌}
use smart_eth.Device.Samples.{Memory, byte_bus, counting_memory}
use smart_eth.Bridge.{ScBridge, default_regs, arm_read, request_read, hang_up}
use smart_eth.Bridge.Wire.{le32, sc_msg_mmio_read, sc_msg_msi_irq}
use smart_eth.Bridge.Waiting.{waiting, sys, Step, Reach, Waits, no_lost_wake_up}
use smart_eth.Bridge.Waiting.Stuck.{lost_connection_hangs, unsent_request_hangs}
use smart_eth.Bridge.Thread.{Round, io_loop}
use smart_eth.Bridge.Thread.Dispatch.{Message, handle_all, on_wire, io_loop_lem}

abbrev connected_bridge : ScBridge Memory
connected_bridge = record {
  listen_open = true;
  sock_open = true;
  connected = true;
  io_thread_running = true;
  mmio_pending = false;
  mmio_resp_data = 0;
  mmio_resp_status = 0;
  regs = default_regs;
  sent = [];
  msix = true;
  notified = [];
  memory = counting_memory;
}

-- A kernel that moves one or two bytes at a time.
abbrev slow_kernel : List (Option ℕ)
slow_kernel =
    some 0
    ∷ some 1
    ∷ some 0
    ∷ some 0
    ∷ some 0
    ∷ some 0
    ∷ some 0
    ∷ some 0
    ∷ some 0
    ∷ some 0
    ∷ some 0
    ∷ some 0
    ∷ []

no_lost_wake_up_example :
    (let t = request_read 0x304 (arm_read connected_bridge) in
      Waits (waiting 0x304) t.mmio_pending 1)
unfolding arm_read request_read
no_lost_wake_up_example =
    no_lost_wake_up byte_bus connected_bridge
      (sys (request_read 0x304 (arm_read connected_bridge)) (waiting 0x304) 1) refl
      (Reach.next (Reach.next Reach.here (Step.begin connected_bridge 0x304 0 refl))
        (Step.request (arm_read connected_bridge) 0x304 0))
      refl

lost_connection_hangs_example :
    (let s = hang_up (request_read 0x304 (arm_read connected_bridge)) in
      (waiting 0x304 ≡ waiting 0x304) × (s.mmio_pending ≡ true))
unfolding arm_read request_read hang_up
lost_connection_hangs_example =
    lost_connection_hangs byte_bus (request_read 0x304 (arm_read connected_bridge)) 0x304 1
      (sys (hang_up (request_read 0x304 (arm_read connected_bridge))) (waiting 0x304) 1) refl
      Reach.here

-- The request is made, and does not arrive.
unsent_request_hangs_example :
    (let s = request_read 0x304 (arm_read connected_bridge) in
      (waiting 0x304 ≡ waiting 0x304) × (s.mmio_pending ≡ true))
unfolding arm_read request_read
unsent_request_hangs_example =
    unsent_request_hangs byte_bus connected_bridge (arm_read connected_bridge) 0x304 0
      (sys (request_read 0x304 (arm_read connected_bridge)) (waiting 0x304) 0) refl
      (Reach.next Reach.here (Step.begin connected_bridge 0x304 0 refl)) Reach.here

io_loop_lem_example :
    (let round : Round = record { header = slow_kernel; payload = slow_kernel } in
      let messages : List Message =
        (sc_msg_msi_irq, le32 1) ∷ (sc_msg_mmio_read, le32 7 ++ le32 0) ∷ [] in
      io_loop byte_bus (round ∷ round ∷ []) (on_wire messages) connected_bridge
      ≡ handle_all byte_bus messages connected_bridge)
io_loop_lem_example =
    io_loop_lem byte_bus
      (record { header = slow_kernel; payload = slow_kernel }
        ∷ record { header = slow_kernel; payload = slow_kernel }
        ∷ [])
      ((sc_msg_msi_irq, le32 1) ∷ (sc_msg_mmio_read, le32 7 ++ le32 0) ∷ []) connected_bridge refl
      (
        omega arith,
        omega arith,
        tt,
        omega arith,
        tt,
        omega arith,
        (omega arith, omega arith, tt, omega arith, tt, omega arith, tt),
      )
