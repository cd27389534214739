-- ===== src/Device.antt =====
-- firmware/qemu-dev/smarteth_pci.c: the registers, DMA engine and interrupts of the PCIe device.
-- The handlers return the new state. QEMU's interrupt functions are recorded in `events`, newest
-- first; what `msix_enabled` and `msi_enabled` answer are the fields `msix` and `msi`; the clock is
-- an argument, and guest memory with the two DMA functions is the parameter `Bus`.
mod Consts
pub use Consts.*
pub mod Registers
pub mod Interrupts
pub mod Engine
pub mod Transfer
pub mod Invariant
pub mod Reset
pub mod Samples
pub mod Identity
mod Tests
use smart_eth.Base.{
  ℕ, ◌+◌, ◌*◌, ◌/◌, ◌^◌, Bool, false, not, ◌&&◌, ◌||◌, Option, none, some, List, [], ◌∷◌, ◌++◌,
  bit_and, bit_or, ltb, leb, ◌==◌, if◌then◌else◌, take, drop, replicate, u32, not32, has, store,
}

-- `pci_dma_read` and `pci_dma_write` of QEMU over a memory `M`.
pub record Bus (M : Type 0) : Type 0 where
  pub dma_read : M → ℕ → ℕ → List ℕ
  pub dma_write : M → ℕ → List ℕ → M

pub data Event : Type 0 where
  msix_notify : ℕ → Event
  msi_notify : ℕ → Event
  pci_set_irq : ℕ → Event

pub record Dma : Type 0 where
  pub src : ℕ
  pub dst : ℕ
  pub len : ℕ
  pub ctrl : ℕ

-- `mac_addr[6]`
pub record Mac : Type 0 where
  pub m0 : ℕ
  pub m1 : ℕ
  pub m2 : ℕ
  pub m3 : ℕ
  pub m4 : ℕ
  pub m5 : ℕ

-- `dma_timer` is the deadline in milliseconds of an armed timer.
pub record SmartEth (M : Type 0) : Type 0 where
  pub regs : ℕ → ℕ
  pub dma : Dma
  pub dma_timer : Option ℕ
  pub dma_buf : List ℕ
  pub mac_addr : Mac
  pub msix : Bool
  pub msi : Bool
  pub events : List Event
  pub memory : M

abbrev pub mac_lo : Mac → ℕ
mac_lo m = u32 (bit_or (bit_or (bit_or m.m0 (m.m1 * 2 ^ 8)) (m.m2 * 2 ^ 16)) (m.m3 * 2 ^ 24))

abbrev pub mac_hi : Mac → ℕ
mac_hi m = u32 (bit_or m.m4 (m.m5 * 2 ^ 8))

-- `mac_addr` after `smarteth_instance_init`
abbrev pub default_mac : Mac
default_mac = record { m0 = 0x52; m1 = 0x54; m2 = 0x00; m3 = 0x12; m4 = 0x34; m5 = 0x56 }

abbrev pub set_mac_regs : Mac → (ℕ → ℕ) → ℕ → ℕ
set_mac_regs m regs = store (store regs (reg_mac_lo / 4) (mac_lo m)) (reg_mac_hi / 4) (mac_hi m)

module _ {M : Type 0} where
  -- The object QEMU allocates is zeroed; then `instance_init` and `realize` run, where the set-up
  -- of MSI-X succeeds.
  unfoldable pub realize : M → SmartEth M
  realize mem = record {
    regs = set_mac_regs default_mac (λ _. 0);
    dma = record { src = 0; dst = 0; len = 0; ctrl = 0 };
    dma_timer = none;
    dma_buf = replicate dma_buf_size 0;
    mac_addr = default_mac;
    msix = false;
    msi = false;
    events = [];
    memory = mem;
  }

  -- `smarteth_exit` deletes the timer.
  pub exit : SmartEth M → SmartEth M
  exit s = record s { dma_timer = none }

  abbrev pub irq_event : SmartEth M → ℕ → Event
  irq_event s bits =
      if s.msix
      then msix_notify (if has bits irq_dma_done then 0 else 1)
      else if s.msi
      then msi_notify 0
      else pci_set_irq 1

  unfoldable pub raise_irq : SmartEth M → ℕ → SmartEth M
  raise_irq s bits = record s {
    regs = store s.regs (reg_irq_sts / 4) (bit_or (s.regs (reg_irq_sts / 4)) bits);
    events = irq_event s bits ∷ s.events;
  }

  -- `now` is what `qemu_clock_get_ms` answers.
  unfoldable pub start_dma : ℕ → SmartEth M → SmartEth M
  start_dma now s = record s {
    dma = record {
      src = s.regs (reg_dma_src / 4);
      dst = s.regs (reg_dma_dst / 4);
      len = s.regs (reg_dma_len / 4);
      ctrl = s.regs (reg_dma_ctrl / 4);
    };
    regs = store s.regs (reg_dma_sts / 4) status_dma_bsy;
    dma_timer = some (now + 1);
  }

  unfoldable pub mmio_read : SmartEth M → ℕ → ℕ
  mmio_read s addr =
      if leb reg_bytes addr
      then 0
      else if addr == reg_dev_id
      then smarteth_dev_id
      else if addr == reg_status
      then status_ready
      else s.regs (addr / 4)

  unfoldable pub write_ctrl : SmartEth M → ℕ → SmartEth M
  write_ctrl s val =
      if has val ctrl_reset
      then record s { regs = set_mac_regs s.mac_addr (λ _. 0) }
      else record s { regs = store s.regs (reg_ctrl / 4) (u32 val) }

  unfoldable pub write_irq_sts : SmartEth M → ℕ → SmartEth M
  write_irq_sts s val =
      let left = bit_and (s.regs (reg_irq_sts / 4)) (not32 val) in
      let s' = record s { regs = store s.regs (reg_irq_sts / 4) left } in
      if left == 0 && not s.msix then record s' { events = pci_set_irq 0 ∷ s.events } else s'

  unfoldable pub write_dma_ctrl : ℕ → SmartEth M → ℕ → SmartEth M
  unfolding start_dma
  write_dma_ctrl now s val =
      let s' = record s { regs = store s.regs (reg_dma_ctrl / 4) (u32 val) } in
      if has val dma_start then start_dma now s' else s'

  unfoldable pub write_irq_test : SmartEth M → ℕ → SmartEth M
  unfolding raise_irq
  write_irq_test s val = if val == 0 then s else raise_irq s irq_test

  unfoldable pub mmio_write : ℕ → SmartEth M → ℕ → ℕ → SmartEth M
  mmio_write now s addr val =
      if leb reg_bytes addr
      then s
      else if addr == reg_ctrl
      then write_ctrl s val
      else if addr == reg_irq_sts
      then write_irq_sts s val
      else if addr == reg_dma_ctrl
      then write_dma_ctrl now s val
      else if addr == reg_irq_test
      then write_irq_test s val
      else if addr == reg_status || addr == reg_dev_id
      then s
      else record s { regs = store s.regs (addr / 4) (u32 val) }

  -- The tail of `smarteth_dma_timer_cb`, behind the transfer.
  unfoldable pub finish_dma : SmartEth M → SmartEth M
  unfolding raise_irq
  finish_dma s =
      let s' = record s {
        dma = record (s.dma) { ctrl = bit_and s.dma.ctrl (not32 dma_start) };
        regs = store s.regs (reg_dma_sts / 4) 0;
      } in
      if has s'.dma.ctrl dma_irq_en then raise_irq s' irq_dma_done else s'

abbrev pub clamp_len : Dma → Dma
clamp_len d = if ltb dma_buf_size d.len then record d { len = dma_buf_size } else d

module _ {M : Type 0} (bus : Bus M) where
  unfoldable pub transfer : SmartEth M → SmartEth M
  transfer s =
      if has s.dma.ctrl dma_dir_write
      then record s { memory = bus.dma_write s.memory s.dma.dst (take s.dma.len s.dma_buf) }
      else record s {
        dma_buf = bus.dma_read s.memory s.dma.src s.dma.len ++ drop s.dma.len s.dma_buf;
      }

  unfoldable pub dma_timer_cb : SmartEth M → SmartEth M
  unfolding transfer finish_dma
  dma_timer_cb s =
      if not (has s.dma.ctrl dma_start)
      then s
      else finish_dma (transfer (record s { dma = clamp_len s.dma }))
