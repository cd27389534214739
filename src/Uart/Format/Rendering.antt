-- ===== src/Uart/Format/Rendering.antt =====
-- uart_printf against the texts of Pieces.
use mathlib.Core.List.{append_assoc, append-nil}
use smart_eth.Base.{
  ℕ, ◌+◌, ◌≤◌, ◌≡◌, ◌∙◌, sym, ap, refl, arith, true, false, Option, none, some, List, [], ◌∷◌, ◌++◌,
  ◌<◌, ◌^◌, u32, ◌-◌, subst, length, length-append, ltb, ◌==◌, if_true, if_false, Bool-cases,
  Option-cases, inl, inr, take-all,
}
use smart_eth.Uart.{puts}
use smart_eth.Uart.Format.Pieces.{
  Piece, character, percent_sign, string, hex, decimal, unsigned, one_char, long_hex, long_decimal,
  long_unsigned, spelling, spelled, shown, from_long, in_front, and_rest, rendered, IsPlain,
  AllPlain,
}
use smart_eth.Uart.Format.{
  Arg, word, text, plain, percent, Printing, convert, convert_long, print_in, format_loop, printf,
  c_string, appended, sent, from_word,
}
use smart_eth.Uart.Format.Numerals.{hex_loop-numeral, unsigned_text-numeral, signed_text-numeral}

abbrev at : List Arg → List ℕ → Option Printing
at args buf = some (record { mode = plain; args = args; buf = buf })

-- What the loop does at a piece whose text has room.
abbrev Prints : List ℕ → List ℕ → Option Printing → Option (List ℕ × List Arg) → Type 0
Prints fmt buf whole none = Unit
Prints fmt buf whole (some (out, args)) =
    length buf + length out ≤ 255 → whole ≡ format_loop fmt (at args (buf ++ out))

appended-Prints :
    (fmt buf : List ℕ) (r : Option (List ℕ × List Arg))
    → Prints fmt buf (format_loop fmt (appended buf r)) r
appended-Prints fmt buf none = tt
appended-Prints fmt buf (some (out, args)) = λ room. refl

-- Behind a percent sign.
converting :
    (fmt : List ℕ) (args : List Arg) (buf : List ℕ)
    → ltb (length buf) 255 ≡ true
    → format_loop (37 ∷ fmt) (at args buf)
      ≡ format_loop fmt (some (record { mode = percent; args = args; buf = buf }))
unfolding format_loop
converting fmt args buf room = ap (format_loop fmt) (if_true _ (at args buf) room)

converted :
    (fmt after : List ℕ) (args : List Arg) (buf : List ℕ) (r : Option (List ℕ × List Arg))
    → ltb (length buf) 255 ≡ true
    → format_loop after (some (record { mode = percent; args = args; buf = buf }))
      ≡ format_loop fmt (appended buf r)
    → Prints fmt buf (format_loop (37 ∷ after) (at args buf)) r
converted fmt after args buf r room e =
    subst (λ w. Prints fmt buf w r) (sym (converting after args buf room ∙ e))
      (appended-Prints fmt buf r)

from_word-same :
    (f g : ℕ → List ℕ) (args : List Arg)
    → ((v : ℕ) → f v ≡ g v)
    → from_word f args ≡ from_word g args
from_word-same f g (word v ∷ args) same = ap (λ x. some (x, args)) (same v)
from_word-same f g (text s ∷ args) same = refl
from_word-same f g [] same = refl

-- A conversion of long words that are made as `f` and shown as `g`.
from_long-Prints :
    (f g : ℕ → List ℕ) (fmt after : List ℕ) (args : List Arg) (buf : List ℕ)
    → ltb (length buf) 255 ≡ true
    → ((v : ℕ) → v < 2 ^ 64 → f v ≡ g v)
    → format_loop after (some (record { mode = percent; args = args; buf = buf }))
      ≡ format_loop fmt (appended buf (from_word f args))
    → Prints fmt buf (format_loop (37 ∷ after) (at args buf)) (from_long g args)
from_long-Prints f g fmt after (text s ∷ args) buf room same e = tt
from_long-Prints f g fmt after [] buf room same e = tt
from_long-Prints f g fmt after (word v ∷ args) buf room same e =
    let whole = format_loop (37 ∷ after) (at (word v ∷ args) buf) in
    elim (Bool-cases (ltb v (2 ^ 64))) [
      | inl small ↦ subst (Prints fmt buf whole) (sym (if_true (some (g v, args)) none small)) (
          converted fmt after (word v ∷ args) buf (some (g v, args)) room
            (e ∙ ap (λ x. format_loop fmt (at args (buf ++ x))) (same v (ground arith))))
      | inr big ↦ subst (Prints fmt buf whole) (sym (if_false (some (g v, args)) none big)) tt
    ]

piece-Prints :
    (p : Piece) (fmt : List ℕ) (args : List Arg) (buf : List ℕ)
    → ltb (length buf) 255 ≡ true
    → IsPlain p
    → Prints fmt buf (format_loop (spelling p ++ fmt) (at args buf)) (shown p args)
unfolding format_loop convert convert_long print_in
piece-Prints (character c) fmt args buf room ok =
    let plain_one : (c == 37) ≡ false = ground (arith, ok) in
    λ fits. ap (format_loop fmt) (if_true _ (at args buf) room ∙ if_false _ _ plain_one)
piece-Prints percent_sign fmt args buf room ok =
    converted fmt (37 ∷ fmt) args buf (shown percent_sign args) room refl
piece-Prints string fmt (text s ∷ args) buf room ok = λ fits.
    converting (115 ∷ fmt) (text s ∷ args) buf room
    ∙ ap (λ (x : List ℕ). format_loop fmt (at args (buf ++ x)))
        (take-all (255 - length buf) s (omega arith))
piece-Prints string fmt (word v ∷ args) buf room ok = tt
piece-Prints string fmt [] buf room ok = tt
piece-Prints hex fmt args buf room ok = converted fmt (120 ∷ fmt) args buf (shown hex args) room (
    ap (λ r. format_loop fmt (appended buf r))
      (from_word-same _ _ args (λ v. hex_loop-numeral 7 (u32 v) (omega arith))))
piece-Prints decimal fmt args buf room ok =
    converted fmt (100 ∷ fmt) args buf (shown decimal args) room (
      ap (λ r. format_loop fmt (appended buf r))
        (from_word-same _ _ args
          (λ v. signed_text-numeral 32 (u32 v) (omega arith) (omega arith) (omega arith))))
piece-Prints unsigned fmt args buf room ok =
    converted fmt (117 ∷ fmt) args buf (shown unsigned args) room (
      ap (λ r. format_loop fmt (appended buf r))
        (from_word-same _ _ args (λ v. unsigned_text-numeral (u32 v) (omega arith))))
piece-Prints one_char fmt args buf room ok =
    converted fmt (99 ∷ fmt) args buf (shown one_char args) room refl
piece-Prints long_hex fmt args buf room ok =
    from_long-Prints _ _ fmt (108 ∷ 120 ∷ fmt) args buf room
      (λ v h. hex_loop-numeral 15 v (omega (arith, h))) refl
piece-Prints long_decimal fmt args buf room ok =
    from_long-Prints _ _ fmt (108 ∷ 100 ∷ fmt) args buf room
      (λ v h. signed_text-numeral 64 v h (omega arith) (omega arith)) refl
piece-Prints long_unsigned fmt args buf room ok =
    from_long-Prints _ _ fmt (108 ∷ 117 ∷ fmt) args buf room unsigned_text-numeral refl

-- When the buffer is full the loop is over.
full :
    (fmt : List ℕ) (args : List Arg) (buf : List ℕ)
    → ltb (length buf) 255 ≡ false
    → format_loop fmt (at args buf) ≡ at args buf
unfolding format_loop
full [] args buf h = refl
full (c ∷ fmt) args buf h = ap (format_loop fmt) (if_false _ (at args buf) h) ∙ full fmt args buf h

-- The loop has put this text behind what stood in the buffer.
abbrev Ends : Option Printing → List ℕ → Type 0
Ends r buf = (args : List Arg) × (r ≡ at args buf)

no_text :
    (buf out : List ℕ) → length buf + length out ≤ 255 → ltb (length buf) 255 ≡ false → out ≡ []
no_text buf [] h f = refl
no_text buf (c ∷ out) h f = absurd (ground (arith, f))

and_rest-some :
    (r : Option (List ℕ × List Arg)) (k : List Arg → Option (List ℕ)) (out : List ℕ)
    → and_rest r k ≡ some out
    → (first : List ℕ) × (args : List Arg) × (rest : List ℕ) × (r ≡ some (first, args))
      × (k args ≡ some rest)
      × (out ≡ first ++ rest)
and_rest-some none k out e = absurd cc
and_rest-some (some (first, args)) k out e = elim (Option-cases (k args)) [
  | inl nothing ↦ absurd (cc (e, ap (in_front first) nothing))
  | inr (rest, some_rest) ↦
      (first, args, rest, refl, some_rest, cc (e, ap (in_front first) some_rest))
]

format_loop-rendered :
    (ps : List Piece) (args : List Arg) (buf out : List ℕ)
    → AllPlain ps
    → rendered ps args ≡ some out
    → length buf + length out ≤ 255
    → Ends (format_loop (spelled ps) (at args buf)) (buf ++ out)
unfolding format_loop
format_loop-rendered [] args buf out ok e fits =
    let empty : [] ≡ out = cc in (args, ap (at args) (sym (append-nil buf) ∙ ap (◌++◌ buf) empty))
format_loop-rendered (p ∷ ps) args buf out (ok, oks) e fits =
    elim (Bool-cases (ltb (length buf) 255)) [
      | inl room ↦
          let (first, args', rest, shows, renders, parts) =
            and_rest-some (shown p args) (rendered ps) out e in
          let size : length out ≡ length first + length rest =
            ap length parts ∙ length-append first rest in
          let step =
            subst (Prints (spelled ps) buf (format_loop (spelled (p ∷ ps)) (at args buf))) shows
              (piece-Prints p (spelled ps) args buf room ok) (omega (arith, size)) in
          let (args'', loops) =
            format_loop-rendered ps args' (buf ++ first) rest oks renders
              (omega (arith, size, length-append buf first)) in
          (
            args'',
            step ∙ loops ∙ ap (at args'') (append_assoc buf first rest ∙ ap (◌++◌ buf) (sym parts)),
          )
      | inr over ↦ (
        args,
        full (spelled (p ∷ ps)) args buf over
            ∙ ap (at args) (sym (append-nil buf) ∙ ap (◌++◌ buf) (sym (no_text buf out fits over))),
      )
    ]

abbrev pub NoZero : List ℕ → Type 0
NoZero [] = Unit
NoZero (c ∷ cs) = (1 ≤ c) × NoZero cs

c_string-NoZero : (cs : List ℕ) → NoZero cs → c_string cs ≡ cs
unfolding c_string
c_string-NoZero [] h = refl
c_string-NoZero (c ∷ cs) (pos, h) =
    let shown_one : (c == 0) ≡ false = ground (arith, pos) in
    if_false [] (c ∷ c_string cs) shown_one ∙ ap (◌∷◌ c) (c_string-NoZero cs h)

-- A format of characters, %%, %s, %x, %d, %u, %c, %lx, %ld and %lu whose arguments fit and whose text has
-- at most 255 characters, none of them 0: uart_printf sends that text.
pub printf-rendered :
    (ps : List Piece) (args : List Arg) (out : List ℕ)
    → AllPlain ps
    → rendered ps args ≡ some out
    → length out ≤ 255
    → NoZero out
    → printf (spelled ps) args ≡ some (puts out)
unfolding printf
printf-rendered ps args out ok e fits nonzero =
    let (args', loops) = format_loop-rendered ps args [] out ok e (omega arith) in
    let inside : ltb 255 (length out) ≡ false = ground arith in
    ap sent loops
    ∙ if_false none (some (puts (c_string out))) inside
    ∙ ap (λ (x : List ℕ). some (puts x)) (c_string-NoZero out nonzero)
