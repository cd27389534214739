-- ===== src/Sim/DmaEngine.antt =====
-- sim/systemc/src/dma_engine.cpp, and the interface through which the NIC reaches the host.
use smart_eth.Base.{
  ℕ, ◌+◌, ◌*◌, ◌/◌, Bool, false, ◌||◌, Option, none, some, List, ◌++◌, min, take, drop, replicate,
  ◌==◌, if◌then◌else◌, has,
}
use smart_eth.Sim.Protocol.{sc_dma_dir_write, sc_dma_irq_en, sc_status_dma_bsy}

-- What the NIC asks of `PcieBridge` and `NetIf`, which change a state `S`. A read is given the buffer
-- and returns it filled, or `none` for `false`; a write takes the bytes.
pub record Link (S : Type 0) : Type 0 where
  pub dma_read : ℕ → List ℕ → S → Option (List ℕ) × S
  pub dma_write : ℕ → List ℕ → S → Bool × S
  pub send_irq : ℕ → S → S
  pub transmit : List ℕ → S → S

abbrev pub dma_cycle_ns : ℕ
dma_cycle_ns = 2

abbrev pub dma_start_ns : ℕ
dma_start_ns = 50

abbrev pub dma_max_buf : ℕ
dma_max_buf = 4096

pub record DmaEngine : Type 0 where
  pub src : ℕ
  pub dst : ℕ
  pub len : ℕ
  pub ctrl : ℕ
  pub busy : Bool
  pub dir_write : Bool
  pub irq_en : Bool
  pub buf : List ℕ

-- The constructor `DmaEngine()`.
unfoldable pub new_dma_engine : DmaEngine
new_dma_engine = record {
  src = 0;
  dst = 0;
  len = 0;
  ctrl = 0;
  busy = false;
  dir_write = false;
  irq_en = false;
  buf = replicate dma_max_buf 0;
}

unfoldable pub configure : ℕ → ℕ → ℕ → ℕ → DmaEngine → DmaEngine
configure src dst len ctrl d = record d {
  src = src;
  dst = dst;
  len = min len dma_max_buf;
  ctrl = ctrl;
  dir_write = has ctrl sc_dma_dir_write;
  irq_en = has ctrl sc_dma_irq_en;
}

abbrev pub status : DmaEngine → ℕ
status d = if d.busy then sc_status_dma_bsy else 0

-- The simulated time of a transfer of `len` bytes.
abbrev pub transfer_ns : ℕ → ℕ
transfer_ns len = dma_start_ns + (len + 3) / 4 * dma_cycle_ns

module _ {S : Type 0} (link : Link S) where
  -- What the read callback leaves in the buffer; its answer is not looked at.
  abbrev pub filled : List ℕ → Option (List ℕ) → List ℕ
  filled old none = old
  filled old (some new) = new

  abbrev pub read_in : DmaEngine → S → DmaEngine × S
  read_in d s =
      let r = link.dma_read d.src (take d.len d.buf) s in
      (record d { buf = filled (take d.len d.buf) r.0 ++ drop d.len d.buf }, r.1)

  abbrev pub write_out : DmaEngine → S → DmaEngine × S
  write_out d s = (d, (link.dma_write d.dst (take d.len d.buf) s).1)

  -- The delay, and the engine and the host afterwards.
  unfoldable pub start : DmaEngine → S → ℕ × (DmaEngine × S)
  start d s =
      if d.busy || d.len == 0
      then (0, (d, s))
      else (transfer_ns d.len, if d.dir_write then write_out d s else read_in d s)
