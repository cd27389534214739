-- ===== src/Uart/Format.antt =====
-- The format loop of uart_printf in firmware/bsp/uart.c. The loop reads one character at a time and
-- keeps whether a percent sign, or one and an l, stand in front of it.
pub mod Numerals
pub mod Pieces
pub mod Rendering
mod Tests
use smart_eth.Base.{
  ℕ, ◌+◌, ◌-◌, ◌^◌, ◌%◌, Bool, ◌||◌, List, [], ◌∷◌, ◌++◌, length, take, Option, none, some, ltb,
  ◌==◌, if◌then◌else◌, u32, false, ◌≡◌, refl,
}
use smart_eth.Uart.{puts, hex_loop, dec_tmp}

-- A variable argument: a word of 64 bits, or the string that a pointer leads to.
pub data Arg : Type 0 where
  word : ℕ → Arg
  text : List ℕ → Arg

pub data Mode : Type 0 where
  plain : Mode
  percent : Mode
  long : Mode

-- `buf[len++] = tmp[i]`, from the last to the first.
pub turned : List ℕ → List ℕ → List ℕ
turned [] out = out
turned (c ∷ tmp) out = turned tmp (c ∷ out)

pub unsigned_text : ℕ → List ℕ
unfolding turned dec_tmp
unsigned_text v = turned (dec_tmp 20 v) []

-- A signed number of `bits` bits, as the word that holds it.
pub signed_text : ℕ → ℕ → List ℕ
unfolding unsigned_text
signed_text bits v =
    if ltb v (2 ^ (bits - 1)) then unsigned_text v else 45 ∷ unsigned_text (2 ^ bits - v)

-- A conversion that takes no argument.
abbrev pub literal : List ℕ → List Arg → Option (List ℕ × List Arg)
literal out args = some (out, args)

-- A conversion that takes a word; nothing is said of one that finds none.
abbrev pub from_word : (ℕ → List ℕ) → List Arg → Option (List ℕ × List Arg)
from_word show (word v ∷ args) = some (show v, args)
from_word show (text s ∷ args) = none
from_word show [] = none

-- `%s`, with `len` characters in `buf`.
abbrev pub from_text : ℕ → List Arg → Option (List ℕ × List Arg)
from_text len (text s ∷ args) = some (take (255 - len) s, args)
from_text len (word v ∷ args) = none
from_text len [] = none

-- The character behind a percent sign.
pub convert : ℕ → ℕ → List Arg → Option (List ℕ × List Arg)
unfolding unsigned_text signed_text hex_loop
convert len c args =
    if c == 115
    then from_text len args
    else if c == 120
    then from_word (λ v. hex_loop 8 (u32 v) false) args
    else if c == 100 || c == 105
    then from_word (λ v. signed_text 32 (u32 v)) args
    else if c == 117
    then from_word (λ v. unsigned_text (u32 v)) args
    else if c == 99
    then from_word (λ v. v % 2 ^ 8 ∷ []) args
    else if c == 37
    then literal (37 ∷ []) args
    else literal (37 ∷ c ∷ []) args

-- The character behind a percent sign and an l.
pub convert_long : ℕ → List Arg → Option (List ℕ × List Arg)
unfolding unsigned_text signed_text hex_loop
convert_long c args =
    if c == 120
    then from_word (λ v. hex_loop 16 v false) args
    else if c == 100 || c == 105
    then from_word (signed_text 64) args
    else if c == 117
    then from_word unsigned_text args
    else literal (37 ∷ 108 ∷ c ∷ []) args

pub record Printing : Type 0 where
  pub mode : Mode
  pub args : List Arg
  pub buf : List ℕ

abbrev pub appended : List ℕ → Option (List ℕ × List Arg) → Option Printing
appended buf none = none
appended buf (some (out, args)) = some (record { mode = plain; args = args; buf = buf ++ out })

-- One character of the format. When `buf` is full the loop ends: the rest changes nothing.
pub print_in : Mode → ℕ → Printing → Option Printing
unfolding convert convert_long
print_in plain c p =
    if ltb (length p.buf) 255
    then (if c == 37
        then some (record p { mode = percent })
        else appended p.buf (literal (c ∷ []) p.args))
    else some p
print_in percent c p =
    if c == 108
    then some (record p { mode = long })
    else appended p.buf (convert (length p.buf) c p.args)
print_in long c p = appended p.buf (convert_long c p.args)

-- The format to its end.
pub format_loop : List ℕ → Option Printing → Option Printing
unfolding print_in
format_loop [] p = p
format_loop (c ∷ fmt) none = none
format_loop (c ∷ fmt) (some p) = format_loop fmt (print_in p.mode c p)

-- The string ends before the first 0, which `%c` may have put in it.
pub c_string : List ℕ → List ℕ
c_string [] = []
c_string (c ∷ cs) = let rest = c_string cs in if c == 0 then [] else c ∷ rest

-- What is sent when the loop has stayed in `buf` and the 0 behind the text lies in it too, and the
-- format has not ended in the middle of a conversion.
pub ended : Mode → List ℕ → Option (List ℕ)
unfolding puts c_string
ended plain buf = if ltb 255 (length buf) then none else some (puts (c_string buf))
ended percent buf = none
ended long buf = none

abbrev pub sent : Option Printing → Option (List ℕ)
sent none = none
sent (some p) = ended p.mode p.buf

-- What `uart_printf` sends; none where the C code has no defined behaviour.
pub printf : List ℕ → List Arg → Option (List ℕ)
unfolding format_loop ended
printf fmt args = sent (format_loop fmt (some (record { mode = plain; args = args; buf = [] })))
