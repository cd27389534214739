-- ===== src/Uart/Format/Tests.antt =====
-- uart_printf on concrete formats.
use smart_eth.Base.{arith}
use smart_eth.Uart.{puts}
use smart_eth.Uart.Format.Numerals.{numeral}
use smart_eth.Uart.Format.Pieces.{character, decimal, string, spelled}
use smart_eth.Uart.Format.Rendering.{printf-rendered}
use smart_eth.Base.{◌≡◌, refl, [], ◌∷◌, ◌++◌, ◌-◌, ◌^◌, replicate, some, none}
use smart_eth.Uart.Format.{word, text, printf}

-- "n=%d\n" with -5
printf_negative :
    printf (110 ∷ 61 ∷ 37 ∷ 100 ∷ 10 ∷ []) (word (2 ^ 64 - 5) ∷ [])
    ≡ some (110 ∷ 61 ∷ 45 ∷ 53 ∷ 10 ∷ 13 ∷ [])
unfolding printf
printf_negative = refl

-- 250 characters and a "%x" of 8 digits go beyond the buffer.
printf_beyond : printf (replicate 250 65 ++ 37 ∷ 120 ∷ []) (word 0xFFFFFFFF ∷ []) ≡ none
unfolding printf
printf_beyond = refl

-- 250 characters and a string of 8 are cut to 255.
printf_cut :
    printf (replicate 250 65 ++ 37 ∷ 115 ∷ []) (text (replicate 8 66) ∷ [])
    ≡ some (replicate 250 65 ++ replicate 5 66)
unfolding printf
printf_cut = refl

-- A format that ends in a percent sign is read beyond its end.
printf_percent : printf (65 ∷ 37 ∷ []) [] ≡ none
unfolding printf
printf_percent = refl

-- "n=%d, %s\n"
printf-rendered_example :
    printf
      (spelled (character 110 ∷ decimal ∷ string ∷ []))
      (word (2 ^ 64 - 5) ∷ text (72 ∷ 73 ∷ []) ∷ [])
    ≡ some (110 ∷ 45 ∷ 53 ∷ 72 ∷ 73 ∷ [])
unfolding numeral puts
printf-rendered_example =
    printf-rendered (character 110 ∷ decimal ∷ string ∷ [])
      (word (2 ^ 64 - 5) ∷ text (72 ∷ 73 ∷ []) ∷ []) (110 ∷ 45 ∷ 53 ∷ 72 ∷ 73 ∷ []) (omega arith)
      refl (omega arith) (omega arith)
