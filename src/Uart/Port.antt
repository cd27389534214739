-- ===== src/Uart/Port.antt =====
-- The registers of the UART in firmware/bsp/uart.c, over a board with loads and stores of bytes. A
-- loop that polls the line status takes fuel, and `none` is a loop that has not ended with it.
pub mod Line
mod Tests
use smart_eth.Base.{
  ℕ, zero, suc, ◌+◌, ◌-◌, Bool, true, false, not, Option, none, some, List, [], ◌∷◌, bit_and,
  bit_or, ◌==◌, if◌then◌else◌, u8, has,
}

abbrev pub uart_base : ℕ
uart_base = 0x10000000

abbrev pub uart_rbr : ℕ
uart_rbr = 0

abbrev pub uart_thr : ℕ
uart_thr = 0

abbrev pub uart_dll : ℕ
uart_dll = 0

abbrev pub uart_ier : ℕ
uart_ier = 1

abbrev pub uart_dlm : ℕ
uart_dlm = 1

abbrev pub uart_fcr : ℕ
uart_fcr = 2

abbrev pub uart_lcr : ℕ
uart_lcr = 3

abbrev pub uart_lsr : ℕ
uart_lsr = 5

abbrev pub uart_lsr_dr : ℕ
uart_lsr_dr = 0x01

abbrev pub uart_lsr_thre : ℕ
uart_lsr_thre = 0x20

-- The UART behind its registers: a load can change it.
pub record Port (S : Type 0) : Type 0 where
  pub load8 : ℕ → S → ℕ × S
  pub store8 : ℕ → ℕ → S → S

-- The step after a loop that may not have ended.
infixl 5 ◌>>=◌
abbrev pub ◌>>=◌ : {A B : Type 0} → Option A → (A → Option B) → Option B
none >>= f = none
some a >>= f = f a

module _ {S : Type 0} (port : Port S) where
  -- `UART[offset]`
  abbrev pub read : ℕ → S → ℕ × S
  read offset s = port.load8 (uart_base + offset) s

  abbrev pub write : ℕ → ℕ → S → S
  write offset value s = port.store8 (uart_base + offset) value s

  unfoldable pub uart_init : S → S
  uart_init s =
      let lcr = read uart_lcr s in
      let s1 = write uart_ier 0 lcr.1 in
      let s2 = write uart_lcr (bit_or lcr.0 0x80) s1 in
      let s3 = write uart_dlm 0 (write uart_dll 1 s2) in
      let s4 = write uart_lcr (bit_and lcr.0 (255 - 0x80)) s3 in
      write uart_fcr 1 (write uart_lcr 3 s4)

  -- `while (!(UART[UART_LSR] & mask)) ;`
  unfoldable pub poll : ℕ → ℕ → S → Option S
  poll zero mask s = none
  poll (suc fuel) mask s =
      let r = read uart_lsr s in
      let again = poll fuel mask r.1 in if has r.0 mask then some r.1 else again

  -- uart_putc up to its test for a line feed.
  abbrev pub put_byte : ℕ → ℕ → S → Option S
  unfolding poll
  put_byte fuel c s = do ready ← poll fuel uart_lsr_thre s; some (write uart_thr (u8 c) ready)

  unfoldable pub uart_putc : ℕ → ℕ → S → Option S
  unfolding poll
  uart_putc fuel c s = do
    sent ← put_byte fuel c s
    if c == 10 then put_byte fuel 13 sent else some sent

  unfoldable pub uart_puts : ℕ → List ℕ → S → Option S
  unfolding uart_putc
  uart_puts fuel [] s = some s
  uart_puts fuel (c ∷ cs) s = do sent ← uart_putc fuel c s; uart_puts fuel cs sent

  pub uart_getc : ℕ → S → Option (ℕ × S)
  unfolding poll
  uart_getc fuel s = do ready ← poll fuel uart_lsr_dr s; some (read uart_rbr ready)

  -- -1 is `none`; a `char` has no sign on this machine.
  unfoldable pub uart_getc_nonblock : S → Option ℕ × S
  uart_getc_nonblock s =
      let lsr = read uart_lsr s in
      let rbr = read uart_rbr lsr.1 in
      if has lsr.0 uart_lsr_dr then (some rbr.0, rbr.1) else (none, lsr.1)
