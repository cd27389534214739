-- ===== src/Sim/Protocol.antt =====
-- sim/systemc/src/protocol.h: the message types, registers, bits and descriptors. Bytes and messages
-- are those of Bridge/Wire.antt, which has the same packed layout.
use smart_eth.Base.{ℕ, List, ◌++◌, drop, length}
use smart_eth.Bridge.Wire.{le32, le64, u32_at, u64_at}

-- `PcieMsgType`
abbrev pub mmio_read_type : ℕ
mmio_read_type = 0

abbrev pub mmio_write_type : ℕ
mmio_write_type = 1

abbrev pub dma_read_type : ℕ
dma_read_type = 2

abbrev pub dma_write_type : ℕ
dma_write_type = 3

abbrev pub msi_irq_type : ℕ
msi_irq_type = 4

abbrev pub bridge_reset_type : ℕ
bridge_reset_type = 5

-- `PcieStatus::OK`
abbrev pub status_ok : ℕ
status_ok = 0

abbrev pub sc_reg_ctrl : ℕ
sc_reg_ctrl = 0x0

abbrev pub sc_reg_status : ℕ
sc_reg_status = 0x4

abbrev pub sc_reg_irq_en : ℕ
sc_reg_irq_en = 0x8

abbrev pub sc_reg_irq_sts : ℕ
sc_reg_irq_sts = 0xC

abbrev pub sc_reg_mac_lo : ℕ
sc_reg_mac_lo = 0x10

abbrev pub sc_reg_mac_hi : ℕ
sc_reg_mac_hi = 0x14

abbrev pub sc_reg_dma_src : ℕ
sc_reg_dma_src = 0x40

abbrev pub sc_reg_dma_dst : ℕ
sc_reg_dma_dst = 0x48

abbrev pub sc_reg_dma_len : ℕ
sc_reg_dma_len = 0x50

abbrev pub sc_reg_dma_ctrl : ℕ
sc_reg_dma_ctrl = 0x58

abbrev pub sc_reg_dma_sts : ℕ
sc_reg_dma_sts = 0x5C

abbrev pub sc_reg_tx_ring_base_lo : ℕ
sc_reg_tx_ring_base_lo = 0x300

abbrev pub sc_reg_tx_ring_base_hi : ℕ
sc_reg_tx_ring_base_hi = 0x304

abbrev pub sc_reg_tx_ring_size : ℕ
sc_reg_tx_ring_size = 0x308

abbrev pub sc_reg_tx_doorbell : ℕ
sc_reg_tx_doorbell = 0x30C

abbrev pub sc_reg_tx_tail : ℕ
sc_reg_tx_tail = 0x310

abbrev pub sc_reg_rx_ring_base_lo : ℕ
sc_reg_rx_ring_base_lo = 0x320

abbrev pub sc_reg_rx_ring_base_hi : ℕ
sc_reg_rx_ring_base_hi = 0x324

abbrev pub sc_reg_rx_ring_size : ℕ
sc_reg_rx_ring_size = 0x328

abbrev pub sc_reg_rx_tail : ℕ
sc_reg_rx_tail = 0x330

abbrev pub sc_reg_dev_id : ℕ
sc_reg_dev_id = 0x100

abbrev pub sc_reg_irq_test : ℕ
sc_reg_irq_test = 0x200

abbrev pub sc_reg_count : ℕ
sc_reg_count = 0x400

abbrev pub sc_ctrl_reset : ℕ
sc_ctrl_reset = 0x1

abbrev pub sc_status_ready : ℕ
sc_status_ready = 0x1

abbrev pub sc_status_dma_bsy : ℕ
sc_status_dma_bsy = 0x2

abbrev pub sc_irq_dma_done : ℕ
sc_irq_dma_done = 0x1

abbrev pub sc_irq_test : ℕ
sc_irq_test = 0x2

abbrev pub sc_irq_tx_done : ℕ
sc_irq_tx_done = 0x4

abbrev pub sc_irq_rx : ℕ
sc_irq_rx = 0x8

abbrev pub sc_dma_start : ℕ
sc_dma_start = 0x1

abbrev pub sc_dma_dir_write : ℕ
sc_dma_dir_write = 0x2

abbrev pub sc_dma_irq_en : ℕ
sc_dma_irq_en = 0x4

abbrev pub desc_flag_own : ℕ
desc_flag_own = 0x80000000

abbrev pub desc_flag_done : ℕ
desc_flag_done = 0x40000000

abbrev pub sc_dev_id : ℕ
sc_dev_id = 0x52414D53

-- `SmartEthDesc`
pub record Desc : Type 0 where
  pub addr : ℕ
  pub len : ℕ
  pub flags : ℕ

abbrev pub desc_size : ℕ
desc_size = 16

-- A descriptor in memory, and a descriptor read from 16 bytes.
abbrev pub desc_bytes : Desc → List ℕ
desc_bytes d = le64 d.addr ++ le32 d.len ++ le32 d.flags

abbrev pub desc_at : List ℕ → Desc
desc_at bytes = record {
  addr = u64_at bytes;
  len = u32_at (drop 8 bytes);
  flags = u32_at (drop 12 bytes);
}

-- `make_msg`
abbrev pub make_msg : ℕ → List ℕ → List ℕ
make_msg type payload = le32 type ++ le32 (length payload) ++ payload
