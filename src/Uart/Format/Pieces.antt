-- ===== src/Uart/Format/Pieces.antt =====
-- Formats of uart_printf as lists of pieces, and the text that they stand for, with no buffer.
use smart_eth.Base.{
  ℕ, ◌≢◌, ◌%◌, ◌^◌, Option, none, some, List, [], ◌∷◌, ◌++◌, u32, ltb, if◌then◌else◌,
}
use smart_eth.Uart.Format.{Arg, word, text, from_word}
use smart_eth.Uart.Format.Numerals.{numeral, signed_numeral}

pub data Piece : Type 0 where
  character : ℕ → Piece
  percent_sign : Piece
  string : Piece
  hex : Piece
  decimal : Piece
  unsigned : Piece
  one_char : Piece
  long_hex : Piece
  long_decimal : Piece
  long_unsigned : Piece

-- How a piece stands in a format.
abbrev pub spelling : Piece → List ℕ
spelling (character c) = c ∷ []
spelling percent_sign = 37 ∷ 37 ∷ []
spelling string = 37 ∷ 115 ∷ []
spelling hex = 37 ∷ 120 ∷ []
spelling decimal = 37 ∷ 100 ∷ []
spelling unsigned = 37 ∷ 117 ∷ []
spelling one_char = 37 ∷ 99 ∷ []
spelling long_hex = 37 ∷ 108 ∷ 120 ∷ []
spelling long_decimal = 37 ∷ 108 ∷ 100 ∷ []
spelling long_unsigned = 37 ∷ 108 ∷ 117 ∷ []

abbrev pub spelled : List Piece → List ℕ
spelled [] = []
spelled (p ∷ ps) = spelling p ++ spelled ps

-- A conversion of a word of 64 bits.
abbrev pub from_long : (ℕ → List ℕ) → List Arg → Option (List ℕ × List Arg)
from_long show (word v ∷ args) = if ltb v (2 ^ 64) then some (show v, args) else none
from_long show (text s ∷ args) = none
from_long show [] = none

-- The text of a piece, and the arguments that it leaves.
abbrev pub shown : Piece → List Arg → Option (List ℕ × List Arg)
shown (character c) args = some (c ∷ [], args)
shown percent_sign args = some (37 ∷ [], args)
shown string (text s ∷ args) = some (s, args)
shown string (word v ∷ args) = none
shown string [] = none
shown hex args = from_word (λ v. numeral 16 8 (u32 v)) args
shown decimal args = from_word (λ v. signed_numeral 32 (u32 v)) args
shown unsigned args = from_word (λ v. numeral 10 20 (u32 v)) args
shown one_char args = from_word (λ v. v % 2 ^ 8 ∷ []) args
shown long_hex args = from_long (numeral 16 16) args
shown long_decimal args = from_long (signed_numeral 64) args
shown long_unsigned args = from_long (numeral 10 20) args

abbrev pub in_front : List ℕ → Option (List ℕ) → Option (List ℕ)
in_front out none = none
in_front out (some rest) = some (out ++ rest)

abbrev pub and_rest : Option (List ℕ × List Arg) → (List Arg → Option (List ℕ)) → Option (List ℕ)
and_rest none rest = none
and_rest (some (out, args)) rest = in_front out (rest args)

-- The text of a format: of its pieces in order, as long as each finds its argument.
abbrev pub rendered : List Piece → List Arg → Option (List ℕ)
rendered [] args = some []
rendered (p ∷ ps) args = and_rest (shown p args) (rendered ps)

-- A character of a format that stands for itself.
abbrev pub IsPlain : Piece → Type 0
IsPlain (character c) = c ≢ 37
IsPlain _ = Unit

abbrev pub AllPlain : List Piece → Type 0
AllPlain [] = Unit
AllPlain (p ∷ ps) = IsPlain p × AllPlain ps
