-- ===== src/Device/Consts.antt =====
-- The `#define`s of firmware/qemu-dev/smarteth_pci.c.
use smart_eth.Base.{ℕ}

abbrev pub reg_ctrl : ℕ
reg_ctrl = 0x000

abbrev pub reg_status : ℕ
reg_status = 0x004

abbrev pub reg_irq_sts : ℕ
reg_irq_sts = 0x00C

abbrev pub reg_mac_lo : ℕ
reg_mac_lo = 0x010

abbrev pub reg_mac_hi : ℕ
reg_mac_hi = 0x014

abbrev pub reg_dma_src : ℕ
reg_dma_src = 0x040

abbrev pub reg_dma_dst : ℕ
reg_dma_dst = 0x048

abbrev pub reg_dma_len : ℕ
reg_dma_len = 0x050

abbrev pub reg_dma_ctrl : ℕ
reg_dma_ctrl = 0x058

abbrev pub reg_dma_sts : ℕ
reg_dma_sts = 0x05C

abbrev pub reg_dev_id : ℕ
reg_dev_id = 0x100

abbrev pub reg_irq_test : ℕ
reg_irq_test = 0x200

-- REG_COUNT * 4, the bytes of the register file
abbrev pub reg_bytes : ℕ
reg_bytes = 0x400

abbrev pub ctrl_reset : ℕ
ctrl_reset = 0x00000001

abbrev pub status_ready : ℕ
status_ready = 0x00000001

abbrev pub status_dma_bsy : ℕ
status_dma_bsy = 0x00000002

abbrev pub irq_dma_done : ℕ
irq_dma_done = 0x00000001

abbrev pub irq_test : ℕ
irq_test = 0x00000002

abbrev pub dma_start : ℕ
dma_start = 0x00000001

abbrev pub dma_dir_write : ℕ
dma_dir_write = 0x00000002

abbrev pub dma_irq_en : ℕ
dma_irq_en = 0x00000004

abbrev pub dma_buf_size : ℕ
dma_buf_size = 4096

abbrev pub smarteth_dev_id : ℕ
smarteth_dev_id = 0x52414D53
