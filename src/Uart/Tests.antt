-- ===== src/Uart/Tests.antt =====
-- The console at concrete inputs.
use smart_eth.Base.{◌≡◌, refl, [], ◌∷◌}
use smart_eth.Uart.{puts}

-- A line feed is followed by a carriage return.
puts_line : puts (65 ∷ 10 ∷ []) ≡ 65 ∷ 10 ∷ 13 ∷ []
unfolding puts
puts_line = refl
