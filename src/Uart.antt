-- ===== src/Uart.antt =====
-- firmware/bsp/uart.c: characters on the line, and the numbers of uart_puthex and uart_printf. A
-- character is its code, a string the list of its codes without the final 0.
pub mod Numbers
pub mod Format
pub mod Port
mod Tests
use smart_eth.Base.{
  ℕ, zero, suc, ◌+◌, ◌-◌, ◌*◌, ◌/◌, ◌%◌, ◌^◌, Bool, true, false, not, ◌||◌, List, [], ◌∷◌, ◌++◌,
  ltb, ◌==◌, if◌then◌else◌, bit_and,
}

-- What `uart_putc` sends.
abbrev pub putc : ℕ → List ℕ
putc c = if c == 10 then 10 ∷ 13 ∷ [] else c ∷ []

-- `uart_puts`
unfoldable pub puts : List ℕ → List ℕ
puts [] = []
puts (c ∷ cs) = putc c ++ puts cs

-- The character of a nibble in "0123456789abcdef".
abbrev pub hex_char : ℕ → ℕ
hex_char n = if ltb n 10 then 48 + n else 87 + n

-- The loop of `uart_puthex`, which fills `buf` from the right: `left` characters in front of those
-- that are there.
unfoldable pub puthex_loop : ℕ → ℕ → List ℕ → List ℕ
puthex_loop zero val buf = buf
puthex_loop (suc left) val buf = puthex_loop left (val / 2 ^ 4) (hex_char (bit_and val 0xf) ∷ buf)

-- The text of `uart_puthex`.
unfoldable pub puthex : ℕ → List ℕ
unfolding puthex_loop
puthex val = puthex_loop 16 val []

-- The loop of `%x`, with `left` nibbles to come: `shift` is 4 * (left - 1).
pub hex_loop : ℕ → ℕ → Bool → List ℕ
hex_loop zero v started = []
hex_loop (suc left) v started =
    let nibble = bit_and (v / 2 ^ (left * 4)) 0xf in
    let shown = not (nibble == 0) || started || left == 0 in
    let rest = hex_loop left v (started || shown) in if shown then hex_char nibble ∷ rest else rest

-- `tmp` after the loop of `%d` and `%u`, last digit first, in at most `fuel` rounds.
pub dec_loop : ℕ → ℕ → List ℕ
dec_loop zero u = []
dec_loop (suc fuel) u =
    let rest = dec_loop fuel (u / 10) in if u == 0 then [] else (48 + u % 10) ∷ rest

-- `tmp` with the `if` in front of that loop.
pub dec_tmp : ℕ → ℕ → List ℕ
unfolding dec_loop
dec_tmp fuel u = if u == 0 then 48 ∷ [] else dec_loop fuel u
