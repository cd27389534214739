-- ===== src/Sim/Samples.antt =====
-- A NIC, a host and the two ends of the socket for the tests.
use smart_eth.Base.{ℕ, true, false, none, List, [], store, replicate}
use smart_eth.Device.{default_mac}
use smart_eth.Device.Samples.{Memory, byte_bus, counting_memory}
use smart_eth.Bridge.{ScBridge, default_regs}
use smart_eth.Sim.DmaEngine.{Link}
use smart_eth.Sim.Host.{Host, host_link}
use smart_eth.Sim.Nic.{Nic}
use smart_eth.Sim.PcieBridge.{PcieBridge}
use smart_eth.Sim.PcieBridge.Wired.{Ends}

-- A transmit ring of 4 descriptors at 0x4000 with its tail at 3 and one descriptor to send; a receive
-- ring of 4 at 0x8000; a DMA transfer of 16 bytes from 0x1000.
abbrev ring_regs : ℕ → ℕ
ring_regs =
    store
      (store
        (store
          (store (store (store (store (store (store (λ _. 0) 2 0xF) 192 0x4000) 194 4) 195 1) 196 3)
            200 0x8000)
          202 4)
        16 0x1000)
      20 16

abbrev pub ring_nic : Nic
ring_nic = record {
  regs = record { regs = ring_regs; mac = default_mac };
  dma = record {
    src = 0;
    dst = 0;
    len = 0;
    ctrl = 0;
    busy = false;
    dir_write = false;
    irq_en = false;
    buf = replicate 4096 0;
  };
  pkt = record {
    pkt = record {
      len = 0;
      payload_offset = 0;
      ethertype = 0;
      dest_mac = [];
      src_mac = [];
      crc_valid = false;
    };
    buf = [];
  };
  has_netif = true;
  dma_pending = false;
  tx_pending = true;
  tx_event = false;
}

-- Guest memory with a descriptor for two bytes at 0x4030, and one for a buffer of 64 bytes at 0x8000,
-- both owned by the NIC.
abbrev ring_memory : Memory
ring_memory = store (store (store (store (λ _. 0) 0x403F 0x80) 0x4038 2) 0x800F 0x80) 0x8008 64

abbrev pub ring_host : Host Memory
ring_host = record { memory = ring_memory; irqs = []; frames = [] }

abbrev pub ring_link : Link (Host Memory)
ring_link = host_link byte_bus

-- The uninitialised bytes of a descriptor.
abbrev pub junk : List ℕ
junk = replicate 16 0xCC

abbrev pub sim_end : PcieBridge
sim_end = record {
  sock_open = true;
  writable = true;
  running = true;
  dma_pending = false;
  dma_resp = [];
  sent = [];
}

abbrev pub qemu_end : ScBridge Memory
qemu_end = record {
  listen_open = true;
  sock_open = true;
  connected = true;
  io_thread_running = true;
  mmio_pending = false;
  mmio_resp_data = 0;
  mmio_resp_status = 0;
  regs = default_regs;
  sent = [];
  msix = true;
  notified = [];
  memory = counting_memory;
}

abbrev pub both_ends : Ends Memory
both_ends = (sim_end, (qemu_end, []))

-- The NIC's way to its bridge, of which a register access uses the interrupts only.
abbrev pub irq_link : Link PcieBridge
irq_link = record {
  dma_read = λ addr buf b. (none, b);
  dma_write = λ addr bytes b. (false, b);
  send_irq = λ vector b. b;
  transmit = λ frame b. b;
}
