-- ===== src/Driver.antt =====
-- firmware/host-driver/driver/smarteth_main.c: the Linux driver. The kernel's functions are outside
-- the repository: which of their calls succeed, and the addresses they give, is a `Kernel`; what the
-- driver holds of the kernel is counted in `Held`. The NIC is behind `Mmio`. The log lines are left
-- out, and so are the barriers.
pub mod Buffers
pub mod Probe
pub mod Irq
pub mod SelfTest
mod Tests
use smart_eth.Base.{ℕ, ◌+◌, ◌-◌, ◌/◌, ◌%◌, ◌^◌, Bool, true, false, Option, none, some, store, u32}

abbrev pub ring_size : ℕ
ring_size = 64

abbrev pub rx_buf_size : ℕ
rx_buf_size = 2048

abbrev pub reg_status : ℕ
reg_status = 0x004

abbrev pub reg_irq_en : ℕ
reg_irq_en = 0x008

abbrev pub reg_irq_sts : ℕ
reg_irq_sts = 0x00C

abbrev pub reg_scratch0 : ℕ
reg_scratch0 = 0x020

abbrev pub reg_dma_src : ℕ
reg_dma_src = 0x040

abbrev pub reg_dma_dst : ℕ
reg_dma_dst = 0x048

abbrev pub reg_dma_len : ℕ
reg_dma_len = 0x050

abbrev pub reg_dma_ctrl : ℕ
reg_dma_ctrl = 0x058

abbrev pub reg_tx_ring_base_lo : ℕ
reg_tx_ring_base_lo = 0x300

abbrev pub reg_tx_ring_base_hi : ℕ
reg_tx_ring_base_hi = 0x304

abbrev pub reg_tx_ring_size : ℕ
reg_tx_ring_size = 0x308

abbrev pub reg_tx_doorbell : ℕ
reg_tx_doorbell = 0x30C

abbrev pub reg_tx_tail : ℕ
reg_tx_tail = 0x310

abbrev pub reg_rx_ring_base_lo : ℕ
reg_rx_ring_base_lo = 0x320

abbrev pub reg_rx_ring_base_hi : ℕ
reg_rx_ring_base_hi = 0x324

abbrev pub reg_rx_ring_size : ℕ
reg_rx_ring_size = 0x328

abbrev pub reg_rx_doorbell : ℕ
reg_rx_doorbell = 0x32C

abbrev pub reg_dev_id : ℕ
reg_dev_id = 0x100

abbrev pub reg_irq_test : ℕ
reg_irq_test = 0x200

abbrev pub status_ready : ℕ
status_ready = 1

abbrev pub irq_dma_done : ℕ
irq_dma_done = 1

abbrev pub irq_test : ℕ
irq_test = 2

abbrev pub irq_tx_done : ℕ
irq_tx_done = 4

abbrev pub irq_rx : ℕ
irq_rx = 8

abbrev pub desc_flag_own : ℕ
desc_flag_own = 0x80000000

abbrev pub dev_id : ℕ
dev_id = 0x52414D53

-- The numbers of errno.h that the driver returns, with the sign left out.
abbrev pub enomem : ℕ
enomem = 12

abbrev pub enodev : ℕ
enodev = 19

abbrev pub etimedout : ℕ
etimedout = 110

-- `struct smarteth_desc`
pub record Desc : Type 0 where
  pub addr : ℕ
  pub len : ℕ
  pub flags : ℕ

-- `struct smarteth_adapter`: the count of `test_done` is that of a completion; an entry of `rx_buf` is
-- `none` for a null pointer.
pub record Adapter : Type 0 where
  pub tx_ring : ℕ → Desc
  pub tx_ring_dma : ℕ
  pub tx_head : ℕ
  pub rx_ring : ℕ → Desc
  pub rx_ring_dma : ℕ
  pub rx_buf : ℕ → Option ℕ
  pub rx_dma : ℕ → ℕ
  pub test_done : ℕ
  pub irq_count : ℕ

-- What the driver has got from the kernel and not given back. What devres frees by itself is not
-- counted.
pub record Held : Type 0 where
  pub enabled : Bool
  pub region : Bool
  pub iomap : Bool
  pub vectors : Bool
  pub irq : Bool
  pub allocs : ℕ
  pub maps : ℕ

-- The device's registers.
pub record Mmio (D : Type 0) : Type 0 where
  pub read : D → ℕ → ℕ
  pub write : D → ℕ → ℕ → D

pub record Driver (D : Type 0) : Type 0 where
  pub adapter : Adapter
  pub held : Held
  pub dev : D

module _ {D : Type 0} (mmio : Mmio D) where
  -- smarteth_read_reg
  abbrev pub read_reg : Driver D → ℕ → ℕ
  read_reg d reg = mmio.read d.dev reg

  -- smarteth_write_reg
  abbrev pub write_reg : ℕ → ℕ → Driver D → Driver D
  write_reg reg val d = record d { dev = mmio.write d.dev reg val }

abbrev pub lower_32_bits : ℕ → ℕ
lower_32_bits n = u32 n

abbrev pub upper_32_bits : ℕ → ℕ
upper_32_bits n = u32 (n / 2 ^ 32)
