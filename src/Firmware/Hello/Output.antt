-- ===== src/Firmware/Hello/Output.antt =====
-- What hello.c sends on a transmitter.
use smart_eth.Base.{
  codes, ℕ, zero, suc, ◌+◌, ◌/◌, ◌^◌, ◌≤◌, ◌<◌, ◌≡◌, ◌∙◌, sym, refl, ap, arith, Option, some, List,
  [], ◌∷◌, ◌++◌, bit_and, u32, fun_ext, ◌==◌, if◌then◌else◌, u8,
}
use mathlib.Core.List.{append_assoc}
use smart_eth.Uart.{puts, putc, puthex, puthex_loop, hex_char}
use smart_eth.Uart.Port
use smart_eth.Uart.Port.{Port, poll, ◌>>=◌, write, uart_thr}
use smart_eth.Base.Bits.{bit_and-ones}
use smart_eth.Uart.Port.Line.{Transmitter, AllBytes, uart_puts-puts, uart_putc-Sent}
use smart_eth.Firmware.Hello.{
  uart_wait_txrdy, uart_putc, uart_puts, uart_puthex, hex_digits, heartbeat,
}

module _ {S : Type 0} (port : Port S) where
  uart_wait_txrdy-poll : (fuel : ℕ) (s : S) → uart_wait_txrdy port fuel s ≡ poll port fuel 0x20 s
  unfolding uart_wait_txrdy poll
  uart_wait_txrdy-poll zero s = refl
  uart_wait_txrdy-poll (suc fuel) s = rw (uart_wait_txrdy-poll fuel) refl

  with_wait : (S → Option S) → ℕ → S → Option S
  with_wait wait c s = do
    sent ← (wait s >>= λ r. some (write port uart_thr (u8 c) r))
    if c == 10 then (wait sent >>= λ r. some (write port uart_thr (u8 13) r)) else some sent

  uart_putc-same : (fuel c : ℕ) (s : S) → uart_putc port fuel c s ≡ Port.uart_putc port fuel c s
  unfolding uart_putc Port.uart_putc with_wait
  uart_putc-same fuel c s =
      ap (λ (w : S → Option S). with_wait w c s) (fun_ext (uart_wait_txrdy-poll fuel))

  uart_puts-same :
      (fuel : ℕ) (text : List ℕ) (s : S)
      → uart_puts port fuel text s ≡ Port.uart_puts port fuel text s
  unfolding uart_puts Port.uart_puts
  uart_puts-same fuel [] s = refl
  uart_puts-same fuel (c ∷ cs) s =
      ap (λ (o : Option S). o >>= uart_puts port fuel cs) (uart_putc-same fuel c s)
      ∙ ap (λ (k : S → Option S). Port.uart_putc port fuel c s >>= k)
          (fun_ext (uart_puts-same fuel cs))

hex_char-byte : (v : ℕ) → hex_char (bit_and v 0xf) < 256
hex_char-byte v = ground (arith, bit_and-ones 4 v)

pub hex_digits-AllBytes :
    (left v : ℕ) (buf : List ℕ) → AllBytes buf → AllBytes (hex_digits left v buf)
unfolding hex_digits
hex_digits-AllBytes zero v buf h = h
hex_digits-AllBytes (suc left) v buf h =
    hex_digits-AllBytes left (v / 2 ^ 4) (hex_char (bit_and v 0xf) ∷ buf) (hex_char-byte v, h)

pub hex_digits-puthex : (left v : ℕ) (buf : List ℕ) → hex_digits left v buf ≡ puthex_loop left v buf
unfolding hex_digits puthex_loop
hex_digits-puthex zero v buf = refl
hex_digits-puthex (suc left) v buf =
    hex_digits-puthex left (v / 2 ^ 4) (hex_char (bit_and v 0xf) ∷ buf)

three_parts :
    (o a b c : List ℕ) {o1 o2 o3 : List ℕ}
    → o1 ≡ o ++ a
    → o2 ≡ o1 ++ b
    → o3 ≡ o2 ++ c
    → o3 ≡ o ++ ((a ++ b) ++ c)
three_parts o a b c e1 e2 e3 =
    e3
    ∙ ap (λ (x : List ℕ). x ++ c) (e2 ∙ ap (λ (x : List ℕ). x ++ b) e1 ∙ append_assoc o a b)
    ∙ append_assoc o (a ++ b) c

puts-append : (xs ys : List ℕ) → puts (xs ++ ys) ≡ puts xs ++ puts ys
unfolding puts
puts-append [] ys = refl
puts-append (x ∷ xs) ys =
    ap (◌++◌ (putc x)) (puts-append xs ys) ∙ sym (append_assoc (putc x) (puts xs) (puts ys))

module _ {S : Type 0} (port : Port S) (out : S → List ℕ) (busy : S → ℕ) (slowness : ℕ)
    (line : Transmitter port out busy slowness) (fuel : ℕ) where
  abbrev line_of : ℕ → List ℕ
  line_of counter = codes "[HB] count=0x" ++ puthex counter ++ 10 ∷ []

  -- On a transmitter that is ready again after at most `slowness` looks, with more rounds than that
  -- for each loop that polls, a round of hello's main ends: it has sent the label, the counter in 16 digits and
  -- the end of the line, and counts on.
  pub heartbeat-sends :
      (counter : ℕ) (s : S)
      → slowness < fuel
      → busy s ≤ slowness
      → (s' : S) × (heartbeat port fuel counter s ≡ some (u32 (counter + 1), s'))
        × (out s' ≡ out s ++ puts (line_of counter))
        × (busy s' ≤ slowness)
  unfolding heartbeat uart_puthex puthex puts
  heartbeat-sends counter s enough idle =
      let label = codes "[HB] count=0x" in
      let digits = hex_digits 16 counter [] in
      let (s1, sent1, text1, quiet1) =
        uart_puts-puts port out busy slowness line fuel label s (omega arith) enough idle in
      let (s2, sent2, text2, quiet2) =
        uart_puts-puts port out busy slowness line fuel digits s1
          (hex_digits-AllBytes 16 counter [] tt) enough quiet1 in
      let (s3, sent3, text3, quiet3) =
        uart_putc-Sent port out busy slowness line fuel 10 s2 (omega arith) enough quiet2 in
      let feed = putc 10 in
      let whole : puts (line_of counter) ≡ (puts label ++ puts digits) ++ feed =
        puts-append (label ++ puthex counter) (10 ∷ [])
        ∙ ap (λ (x : List ℕ). x ++ feed)
            (puts-append label (puthex counter)
              ∙ ap (λ (x : List ℕ). puts label ++ puts x)
                  (sym (hex_digits-puthex 16 counter []))) in
      let last = λ (x : S). uart_putc port fuel 10 x >>= λ e. some (u32 (counter + 1), e) in
      (
        s3,
        ap (λ (o : Option S). o >>= λ l. uart_puts port fuel digits l >>= last)
              (uart_puts-same port fuel label s ∙ sent1)
            ∙ ap (λ (o : Option S). o >>= last) (uart_puts-same port fuel digits s1 ∙ sent2)
            ∙ ap (λ (o : Option S). o >>= λ e. some (u32 (counter + 1), e))
                (uart_putc-same port fuel 10 s2 ∙ sent3),
        three_parts (out s) (puts label) (puts digits) feed text1 text2 text3
            ∙ ap (◌++◌ (out s)) (sym whole),
        quiet3,
      )
