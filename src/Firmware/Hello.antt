-- ===== src/Firmware/Hello.antt =====
-- firmware/baremetal/hello/hello.c, which has functions of its own for the UART.
pub mod Output
use smart_eth.Base.{
  codes, ℕ, zero, suc, ◌+◌, ◌*◌, ◌/◌, ◌^◌, Option, none, some, List, [], ◌∷◌, bit_and, ◌==◌,
  if◌then◌else◌, u8, u32, has,
}
use smart_eth.Uart.{hex_char}
use smart_eth.Uart.Port.{
  Port, uart_base, uart_lsr, uart_thr, uart_lsr_thre, read, write, poll, ◌>>=◌,
}

module _ {S : Type 0} (port : Port S) where
  pub uart_wait_txrdy : ℕ → S → Option S
  uart_wait_txrdy zero s = none
  uart_wait_txrdy (suc fuel) s =
      let lsr = read port uart_lsr s in
      let again = uart_wait_txrdy fuel lsr.1 in
      if has lsr.0 uart_lsr_thre then some lsr.1 else again

  -- uart_putc up to its test for a line feed.
  abbrev pub put_byte : ℕ → ℕ → S → Option S
  unfolding uart_wait_txrdy
  put_byte fuel c s = do ready ← uart_wait_txrdy fuel s; some (write port uart_thr (u8 c) ready)

  pub uart_putc : ℕ → ℕ → S → Option S
  unfolding uart_wait_txrdy
  uart_putc fuel c s = do
    sent ← put_byte fuel c s
    if c == 10 then put_byte fuel 13 sent else some sent

  pub uart_puts : ℕ → List ℕ → S → Option S
  unfolding uart_putc
  uart_puts fuel [] s = some s
  uart_puts fuel (c ∷ cs) s = do sent ← uart_putc fuel c s; uart_puts fuel cs sent

-- `buf` after the loop of uart_puthex, from the right.
pub hex_digits : ℕ → ℕ → List ℕ → List ℕ
hex_digits zero val buf = buf
hex_digits (suc left) val buf = hex_digits left (val / 2 ^ 4) (hex_char (bit_and val 0xf) ∷ buf)

module _ {S : Type 0} (port : Port S) (fuel : ℕ) where
  pub uart_puthex : ℕ → S → Option S
  unfolding uart_puts hex_digits
  uart_puthex val s = uart_puts port fuel (hex_digits 16 val []) s

  pub uart_puthex_pfx : List ℕ → ℕ → S → Option S
  unfolding uart_puts uart_puthex uart_putc
  uart_puthex_pfx label val s = do
    labelled ← uart_puts port fuel label s
    shown ← uart_puthex val labelled
    uart_putc port fuel 10 shown

  -- main in front of its loop, by the registers that it reads.
  pub greeting : ℕ → ℕ → ℕ → S → Option S
  unfolding uart_puts uart_puthex_pfx
  greeting mhartid marchid mimpid s = do
    s1 ← uart_puts port fuel (codes "\n========================================\n") s
    s2 ← uart_puts port fuel (codes "  SmartEth RISC-V NIC Firmware\n") s1
    s3 ← uart_puts port fuel (codes "  Phase 1: QEMU RISC-V Baremetal\n") s2
    s4 ← uart_puts port fuel (codes "========================================\n") s3
    s5 ← uart_puts port fuel (codes "BSP Init OK\n") s4
    s6 ← uart_puts port fuel (codes "Platform: QEMU riscv64 virt\n\n") s5
    s7 ← uart_puts port fuel (codes "--- CPU Info ---\n") s6
    s8 ← uart_puthex_pfx (codes "  mhartid: 0x") mhartid s7
    s9 ← uart_puthex_pfx (codes "  marchid: 0x") marchid s8
    s10 ← uart_puthex_pfx (codes "  mimpid:  0x") mimpid s9
    uart_puts port fuel (codes "---\n\n") s10

  -- A round of main's loop: the counter after it, and the board. The delay only takes time.
  pub heartbeat : ℕ → S → Option (ℕ × S)
  unfolding uart_puts uart_puthex uart_putc
  heartbeat counter s = do
    labelled ← uart_puts port fuel (codes "[HB] count=0x") s
    shown ← uart_puthex counter labelled
    ended ← uart_putc port fuel 10 shown
    some (u32 (counter + 1), ended)
