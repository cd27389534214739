-- ===== src/Bsp.antt =====
-- firmware/bsp/plic.c, firmware/bsp/clint.c and the handler of external interrupts in
-- firmware/rtos/main.c, over a board with loads and stores.
pub mod Plic
mod Tests
use smart_eth.Base.{
  ℕ, ◌+◌, ◌-◌, ◌*◌, ◌/◌, ◌%◌, ◌^◌, Bool, true, false, ◌||◌, bit_and, bit_or, ltb, ◌==◌,
  if◌then◌else◌, u32, not32, List, ◌∷◌,
}
use smart_eth.Libc.{ℤ, pos, negsuc}

abbrev pub plic_base : ℕ
plic_base = 0x0C000000

abbrev pub plic_priority : ℕ → ℕ
plic_priority irq = plic_base + irq * 4

abbrev pub plic_enable : ℕ
plic_enable = plic_base + 0x2000

abbrev pub plic_threshold : ℕ
plic_threshold = plic_base + 0x200000

abbrev pub plic_claim_reg : ℕ
plic_claim_reg = plic_base + 0x200004

abbrev pub plic_max_irq : ℕ
plic_max_irq = 127

abbrev pub clint_mtimecmp : ℕ
clint_mtimecmp = 0x02004000

abbrev pub clint_mtime : ℕ
clint_mtime = 0x0200BFF8

abbrev pub clint_default_tick : ℕ
clint_default_tick = 10000

abbrev pub uint64_max : ℕ
uint64_max = 2 ^ 64 - 1

-- The interrupt controller and the timer: a load can change them.
pub record Board (S : Type 0) : Type 0 where
  pub load32 : ℕ → S → ℕ × S
  pub store32 : ℕ → ℕ → S → S
  pub load64 : ℕ → S → ℕ × S
  pub store64 : ℕ → ℕ → S → S

-- The word of the enable bits that has the bit of an interrupt.
abbrev pub enable_word : ℕ → ℕ
enable_word irq = plic_enable + irq / 32 * 4

-- `(int)` of a word
abbrev pub int_of : ℕ → ℤ
int_of n = if ltb n (2 ^ 31) then pos n else negsuc (2 ^ 32 - 1 - n)

abbrev pub word_of : ℤ → ℕ
word_of (pos n) = u32 n
word_of (negsuc n) = 2 ^ 32 - 1 - u32 n

module _ {S : Type 0} (board : Board S) where
  unfoldable pub plic_init : S → S
  plic_init s = board.store32 plic_threshold 0 s

  unfoldable pub plic_enable_irq : ℤ → S → S
  plic_enable_irq (negsuc n) s = s
  plic_enable_irq (pos irq) s =
      let r = board.load32 (enable_word irq) s in
      if ltb plic_max_irq irq
      then s
      else board.store32 (enable_word irq) (u32 (bit_or r.0 (2 ^ (irq % 32)))) r.1

  unfoldable pub plic_disable_irq : ℤ → S → S
  plic_disable_irq (negsuc n) s = s
  plic_disable_irq (pos irq) s =
      let r = board.load32 (enable_word irq) s in
      if ltb plic_max_irq irq
      then s
      else board.store32 (enable_word irq) (bit_and r.0 (not32 (2 ^ (irq % 32)))) r.1

  unfoldable pub plic_set_priority : ℤ → ℕ → S → S
  plic_set_priority (negsuc n) priority s = s
  plic_set_priority (pos irq) priority s =
      if ltb plic_max_irq irq || ltb 7 priority
      then s
      else board.store32 (plic_priority irq) priority s

  unfoldable pub plic_set_threshold : ℕ → S → S
  plic_set_threshold threshold s = board.store32 plic_threshold threshold s

  unfoldable pub plic_claim : S → ℤ × S
  plic_claim s = let r = board.load32 plic_claim_reg s in (int_of r.0, r.1)

  unfoldable pub plic_complete : ℤ → S → S
  plic_complete irq s = board.store32 plic_claim_reg (word_of irq) s

  -- freertos_risc_v_application_interrupt_handler; the message on the console is left out.
  abbrev pub handled : ℤ × S → S
  handled (negsuc n, s) = s
  handled (pos irq, s) = if irq == 0 then s else plic_complete (pos irq) s

  unfoldable pub interrupt_handler : S → S
  unfolding plic_claim
  interrupt_handler s = handled (plic_claim s)

  unfoldable pub clint_init : S → S
  clint_init s = board.store64 clint_mtimecmp uint64_max s

  unfoldable pub clint_set_mtimecmp : ℕ → S → S
  clint_set_mtimecmp value s = board.store64 clint_mtimecmp value s

  unfoldable pub clint_get_time : S → ℕ × S
  clint_get_time s = board.load64 clint_mtime s

  unfoldable pub clint_set_tick : ℕ → S → S
  unfolding clint_get_time clint_set_mtimecmp
  clint_set_tick tick_interval s =
      let current = clint_get_time s in
      clint_set_mtimecmp ((current.0 + tick_interval) % 2 ^ 64) current.1

  unfoldable pub clint_clear_timer_int : S → S
  unfolding clint_get_time
  clint_clear_timer_int s =
      let current = clint_get_time s in
      board.store64 clint_mtimecmp ((current.0 + clint_default_tick) % 2 ^ 64)
        (board.store64 clint_mtimecmp uint64_max current.1)
