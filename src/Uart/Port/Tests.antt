-- ===== src/Uart/Port/Tests.antt =====
-- A transmitter that is busy for three looks after each character.
use smart_eth.Base.{ℕ, ◌-◌, ◌≤◌, ◌≡◌, refl, arith, true, false, List, [], ◌∷◌, ◌++◌, has, zero, suc}
use smart_eth.Uart.{puts}
use smart_eth.Uart.Port.{Port, uart_puts, uart_init}
use smart_eth.Uart.Port.Line.{Transmitter, Sent, uart_puts-puts}

-- What has gone out, and the looks to come.
abbrev Wire : Type 0
Wire = List ℕ × ℕ

abbrev status : ℕ → ℕ
status zero = 0x60
status (suc n) = 0

abbrev loaded : ℕ → Wire → ℕ × Wire
loaded a (out, busy) = (status busy, (out, busy - 1))

abbrev stored : ℕ → ℕ → Wire → Wire
stored a v (out, busy) = (out ++ v ∷ [], 3)

abbrev wire_port : Port Wire
wire_port = record { load8 = loaded; store8 = stored }

-- uart_init enables neither interrupts nor the divisor at its end.
init_writes : (uart_init wire_port ([], 0)).0 ≡ 0 ∷ 0xE0 ∷ 1 ∷ 0 ∷ 0x60 ∷ 3 ∷ 1 ∷ []
unfolding uart_init
init_writes = refl

status_ready : (n : ℕ) → n ≡ 0 → has (status n) 0x20 ≡ true
status_ready zero h = refl
status_ready (suc n) h = absurd (omega arith)

status_busy : (n : ℕ) → 1 ≤ n → has (status n) 0x20 ≡ false
status_busy zero h = absurd (omega arith)
status_busy (suc n) h = refl

wire-Transmitter : Transmitter wire_port (λ w. w.0) (λ w. w.1) 3
wire-Transmitter = record {
  ready = λ w h. status_ready w.1 h;
  not_ready = λ w h. status_busy w.1 h;
  look = λ w. (refl, omega arith);
  wear = λ w h. omega arith;
  goes_out = λ w c h. refl;
  slow = λ w c. omega arith;
}

uart_puts-puts_example :
    Sent wire_port
      (λ w. w.0)
      (λ w. w.1)
      3
      wire-Transmitter
      (uart_puts wire_port 4 (72 ∷ 10 ∷ []) ([], 0))
      ([], 0)
      (72 ∷ 10 ∷ 13 ∷ [])
unfolding puts
uart_puts-puts_example =
    uart_puts-puts wire_port (λ w. w.0) (λ w. w.1) 3 wire-Transmitter 4 (72 ∷ 10 ∷ []) ([], 0)
      (omega arith) (omega arith) (omega arith)
