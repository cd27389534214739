-- ===== src/Uart/Port/Line.antt =====
-- What the polled functions of uart.c put on a line that gets ready again after each character.
use mathlib.Core.List.{append_assoc, append-nil}
use smart_eth.Base.{
  ℕ, zero, suc, ◌+◌, ◌≤◌, ◌<◌, ◌≡◌, ◌∙◌, sym, ap, refl, arith, true, false, Option, some, List, [],
  ◌∷◌, ◌++◌, ◌==◌, if◌then◌else◌, u8, has, if_true, if_false, Bool-cases, inl, inr,
}
use smart_eth.Uart.{putc, puts}
use smart_eth.Uart.Port.{
  Port, uart_lsr, uart_thr, uart_lsr_thre, read, write, poll, put_byte, uart_putc, uart_puts, ◌>>=◌,
}

-- A transmitter: what has gone out, and how many looks at the line status still find it busy, which is
-- at most `slowness` after a character.
pub record Transmitter {S : Type 0} (port : Port S) (out : S → List ℕ) (busy : S → ℕ) (slowness : ℕ)
    : Type 0 where
  pub ready : (s : S) → busy s ≡ 0 → has (read port uart_lsr s).0 uart_lsr_thre ≡ true
  pub not_ready : (s : S) → 1 ≤ busy s → has (read port uart_lsr s).0 uart_lsr_thre ≡ false
  pub look :
      (s : S)
      → (out (read port uart_lsr s).1 ≡ out s) × (busy (read port uart_lsr s).1 + 1 ≤ busy s + 1)
  pub wear : (s : S) → 1 ≤ busy s → busy (read port uart_lsr s).1 + 1 ≤ busy s
  pub goes_out : (s : S) (c : ℕ) → busy s ≡ 0 → out (write port uart_thr c s) ≡ out s ++ c ∷ []
  pub slow : (s : S) (c : ℕ) → busy (write port uart_thr c s) ≤ slowness

abbrev pub AllBytes : List ℕ → Type 0
AllBytes [] = Unit
AllBytes (c ∷ cs) = (c < 256) × AllBytes cs

module _ {S : Type 0} (port : Port S) (out : S → List ℕ) (busy : S → ℕ) (slowness : ℕ)
    (line : Transmitter port out busy slowness) where
  -- What a call leaves behind: it has ended, and these characters have gone out.
  abbrev pub Sent : Option S → S → List ℕ → Type 0
  Sent r s cs = (s' : S) × (r ≡ some s') × (out s' ≡ out s ++ cs) × (busy s' ≤ slowness)

  poll-ready :
      (fuel : ℕ) (s : S)
      → busy s < fuel
      → (s' : S) × (poll port fuel uart_lsr_thre s ≡ some s') × (out s' ≡ out s) × (busy s' ≡ 0)
  unfolding poll
  poll-ready zero s h = absurd (omega arith)
  poll-ready (suc fuel) s h =
      let s1 = (read port uart_lsr s).1 in
      elim (Bool-cases (busy s == 0)) [
        | inl e ↦
            let idle : busy s ≡ 0 = ground (arith, e) in
            (s1, if_true _ _ (line.ready s idle), (line.look s).0, omega (arith, line.look s))
        | inr e ↦
            let waits : 1 ≤ busy s = ground (arith, e) in
            let (s', got, same, idle) = poll-ready fuel s1 (omega (arith, line.wear s waits)) in
            (s', if_false _ _ (line.not_ready s waits) ∙ got, same ∙ (line.look s).0, idle)
      ]

  put_byte-Sent :
      (fuel c : ℕ) (s : S)
      → c < 256
      → slowness < fuel
      → busy s ≤ slowness
      → Sent (put_byte port fuel c s) s (c ∷ [])
  unfolding poll
  put_byte-Sent fuel c s byte enough idle =
      let (r, polled, same, ready) = poll-ready fuel s (omega arith) in
      let whole : u8 c ≡ c = omega arith in
      (
        write port uart_thr c r,
        ap (λ (o : Option S). o >>= λ x. some (write port uart_thr (u8 c) x)) polled
            ∙ ap (λ (x : ℕ). some (write port uart_thr x r)) whole,
        line.goes_out r c ready ∙ ap (λ (x : List ℕ). x ++ c ∷ []) same,
        line.slow r c,
      )

  pub uart_putc-Sent :
      (fuel c : ℕ) (s : S)
      → c < 256
      → slowness < fuel
      → busy s ≤ slowness
      → Sent (uart_putc port fuel c s) s (putc c)
  unfolding uart_putc
  uart_putc-Sent fuel c s byte enough idle =
      let (r, sent, text, quiet) = put_byte-Sent fuel c s byte enough idle in
      let rest = λ (x : S). if c == 10 then put_byte port fuel 13 x else some x in
      let first : uart_putc port fuel c s ≡ rest r = ap (λ (o : Option S). o >>= rest) sent in
      elim (Bool-cases (c == 10)) [
        | inl feed ↦
            let (r', sent', text', quiet') = put_byte-Sent fuel 13 r (omega arith) enough quiet in
            let is_feed : c ≡ 10 = ground (arith, feed) in
            (
              r',
              first ∙ if_true _ _ feed ∙ sent',
              text'
                  ∙ ap (λ (x : List ℕ). x ++ 13 ∷ []) text
                  ∙ append_assoc (out s) (c ∷ []) (13 ∷ [])
                  ∙ ap (λ (x : ℕ). out s ++ x ∷ 13 ∷ []) is_feed
                  ∙ ap (◌++◌ (out s)) (sym (if_true _ (c ∷ []) feed)),
              quiet',
            )
        | inr other ↦ (
          r,
          first ∙ if_false _ _ other,
          text ∙ ap (◌++◌ (out s)) (sym (if_false (10 ∷ 13 ∷ []) (c ∷ []) other)),
          quiet,
        )
      ]

  -- On a transmitter that is ready again after at most `slowness` looks at its status, with more rounds
  -- than that for each loop that polls, uart_puts ends, and has sent the characters of the string in order,
  -- with a carriage return behind each line feed.
  pub uart_puts-puts :
      (fuel : ℕ) (text : List ℕ) (s : S)
      → AllBytes text
      → slowness < fuel
      → busy s ≤ slowness
      → Sent (uart_puts port fuel text s) s (puts text)
  unfolding uart_puts puts
  uart_puts-puts fuel [] s bytes enough idle = (s, refl, sym (append-nil (out s)), idle)
  uart_puts-puts fuel (c ∷ cs) s (byte, bytes) enough idle =
      let (r, sent, text, quiet) = uart_putc-Sent fuel c s byte enough idle in
      let (r', sent', text', quiet') = uart_puts-puts fuel cs r bytes enough quiet in
      (
        r',
        ap (λ (o : Option S). o >>= uart_puts port fuel cs) sent ∙ sent',
        text' ∙ ap (λ (x : List ℕ). x ++ puts cs) text ∙ append_assoc (out s) (putc c) (puts cs),
        quiet',
      )
