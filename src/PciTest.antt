-- ===== src/PciTest.antt =====
-- firmware/rtos/pci_test.c: how the firmware reaches the PCIe device. The board is a parameter: a
-- state with 32-bit loads and stores at physical addresses, the delay of FreeRTOS and the console.
pub mod Config
pub mod Scan
pub mod Suite
pub mod Samples
mod Tests
use smart_eth.Base.{ℕ, ◌+◌, ◌*◌, ◌/◌, List}
use Prim.Native.String.{String}

-- `delay` is `vTaskDelay` in ticks; `print` is `uart_printf` (and `uart_puts`, with no argument).
pub record Machine (S : Type 0) : Type 0 where
  pub load32 : ℕ → S → ℕ × S
  pub store32 : ℕ → ℕ → S → S
  pub delay : ℕ → S → S
  pub print : String → List ℕ → S → S

-- Code that runs on a board, and its result.
abbrev pub Io : Type 0 → Type 0 → Type 0
Io S A = S → A × S

infixl 5 ◌>>=◌ ◌>>◌
abbrev pub ◌>>=◌ : {S A B : Type 0} → Io S A → (A → Io S B) → Io S B
◌>>=◌ m f s = f (m s).0 (m s).1

-- A step without a result, then the rest.
abbrev pub ◌>>◌ : {S B : Type 0} → (S → S) → Io S B → Io S B
◌>>◌ m k s = k (m s)

abbrev pub pure : {S A : Type 0} → A → Io S A
pure a s = (a, s)

module _ {S : Type 0} (m : Machine S) where
  -- `((volatile uint32_t *)base)[offset >> 2]`
  abbrev pub peek : ℕ → ℕ → Io S ℕ
  peek base offset = m.load32 (base + offset / 4 * 4)

  abbrev pub poke : ℕ → ℕ → ℕ → S → S
  poke base offset val = m.store32 (base + offset / 4 * 4) val

  -- `smarteth_reg_read`
  pub reg_read : ℕ → ℕ → Io S ℕ
  reg_read bar0 offset = peek bar0 offset

  -- `smarteth_reg_write`
  pub reg_write : ℕ → ℕ → ℕ → S → S
  reg_write bar0 offset val = poke bar0 offset val
