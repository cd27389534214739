-- ===== src/Bridge/Wire.antt =====
-- firmware/qemu-dev/sc_protocol.h: the messages as bytes, little-endian and packed.
pub mod Framing
use smart_eth.Base.{
  ℕ, ◌+◌, ◌*◌, ◌/◌, ◌%◌, ◌^◌, List, [], ◌∷◌, ◌++◌, length, take, drop, get_elem?, Option, none,
  some,
}

abbrev pub sc_msg_mmio_read : ℕ
sc_msg_mmio_read = 0

abbrev pub sc_msg_mmio_write : ℕ
sc_msg_mmio_write = 1

abbrev pub sc_msg_dma_read : ℕ
sc_msg_dma_read = 2

abbrev pub sc_msg_dma_write : ℕ
sc_msg_dma_write = 3

abbrev pub sc_msg_msi_irq : ℕ
sc_msg_msi_irq = 4

abbrev pub sc_status_ok : ℕ
sc_status_ok = 0

-- `ScMsgHeader`
abbrev pub header_size : ℕ
header_size = 8

-- A `uint32_t` in memory.
abbrev pub le32 : ℕ → List ℕ
le32 v = v % 256 ∷ v / 256 % 256 ∷ v / 65536 % 256 ∷ v / 16777216 % 256 ∷ []

-- A `uint64_t` in memory.
abbrev pub le64 : ℕ → List ℕ
le64 v = le32 (v % 2 ^ 32) ++ le32 (v / 2 ^ 32)

-- `memcpy(&x, p, 4)`, for bytes that are there.
abbrev pub u32_at : List ℕ → ℕ
u32_at (a ∷ b ∷ c ∷ d ∷ rest) = a + b * 256 + c * 65536 + d * 16777216
u32_at _ = 0

abbrev pub u64_at : List ℕ → ℕ
u64_at bytes = u32_at bytes + u32_at (drop 4 bytes) * 2 ^ 32

-- A message: its header, then its payload.
abbrev pub frame : ℕ → List ℕ → List ℕ
frame type payload = le32 type ++ le32 (length payload) ++ payload

-- `ScMmioReadReq`
abbrev pub mmio_read_req : ℕ → List ℕ
mmio_read_req addr = le32 sc_msg_mmio_read ++ le32 8 ++ le64 addr

-- `ScMmioReadResp`
abbrev pub mmio_read_resp : ℕ → ℕ → List ℕ
mmio_read_resp value status = le32 sc_msg_mmio_read ++ le32 8 ++ le32 value ++ le32 status

-- `ScMmioWriteMsg`
abbrev pub mmio_write_msg : ℕ → ℕ → List ℕ
mmio_write_msg addr value = le32 sc_msg_mmio_write ++ le32 12 ++ le64 addr ++ le32 value

-- `ScDmaReadResp` and the data behind it
abbrev pub dma_read_resp : ℕ → List ℕ → List ℕ
dma_read_resp status bytes = le32 sc_msg_dma_read ++ le32 (4 + length bytes) ++ le32 status ++ bytes

-- `ScDmaWriteResp`
abbrev pub dma_write_resp : ℕ → List ℕ
dma_write_resp status = le32 sc_msg_dma_write ++ le32 4 ++ le32 status
