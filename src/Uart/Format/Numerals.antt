-- ===== src/Uart/Format/Numerals.antt =====
-- Numerals, first digit first, and the digits that uart_printf makes.
use mathlib.Core.List.{append_assoc, append-nil}
use native.Mathlib.Nat.{div-div-eq-div-mul, zero-div}
use smart_eth.Base.{
  ℕ, zero, suc, ◌+◌, ◌-◌, ◌*◌, ◌/◌, ◌%◌, ◌^◌, ◌<◌, ◌≤◌, ◌≡◌, ◌≢◌, ◌∙◌, sym, refl, ap, arith, true,
  false, List, [], ◌∷◌, ◌++◌, ltb, ◌==◌, bit_and, Bool-cases, inl, inr, if◌then◌else◌, if_true,
  if_false,
}
use smart_eth.Base.Bits.{bit_and-ones}
use smart_eth.Uart.{hex_char, hex_loop, dec_loop, dec_tmp}
use smart_eth.Uart.Numbers.{pow_nibble, nibble_up}
use smart_eth.Uart.Format.{turned, unsigned_text, signed_text}

-- The character of a digit.
abbrev pub digit : ℕ → ℕ
digit d = if ltb d 10 then 48 + d else 97 + (d - 10)

-- A number of at most so many places in a base.
unfoldable pub numeral : ℕ → ℕ → ℕ → List ℕ
numeral base zero v = []
numeral base (suc places) v =
    let front = numeral base places (v / base) in
    if ltb v base then digit v ∷ [] else front ++ digit (v % base) ∷ []

numeral_small : (base places v : ℕ) → v < base → numeral base (suc places) v ≡ digit v ∷ []
unfolding numeral
numeral_small base places v h = let e : ltb v base ≡ true = ground arith in if_true _ _ e

numeral_more :
    (base places v : ℕ)
    → ltb v base ≡ false
    → numeral base (suc places) v ≡ numeral base places (v / base) ++ digit (v % base) ∷ []
unfolding numeral
numeral_more base places v e = if_false _ _ e

dec_loop_zero : (fuel : ℕ) → dec_loop fuel 0 ≡ []
unfolding dec_loop
dec_loop_zero zero = refl
dec_loop_zero (suc fuel) = refl

dec_loop_next :
    (fuel u : ℕ) → u ≢ 0 → dec_loop (suc fuel) u ≡ (48 + u % 10) ∷ dec_loop fuel (u / 10)
unfolding dec_loop
dec_loop_next fuel u ne = let e : (u == 0) ≡ false = ground arith in if_false _ _ e

turned-dec_loop :
    (fuel u : ℕ) (out : List ℕ)
    → u ≢ 0
    → u < 10 ^ fuel
    → turned (dec_loop fuel u) out ≡ numeral 10 fuel u ++ out
unfolding turned
turned-dec_loop zero u out ne h = absurd (omega arith)
turned-dec_loop (suc fuel) u out ne h =
    let last : 48 + u % 10 ≡ digit (u % 10) = ground arith in
    ap (λ (x : List ℕ). turned x out) (dec_loop_next fuel u ne) ∙ elim (Bool-cases (ltb u 10)) [
      | inl small ↦
          let none_left : u / 10 ≡ 0 = ground arith in
          let low : 48 + u % 10 ≡ digit u = ground arith in
          ap (λ (x : ℕ). turned (dec_loop fuel x) ((48 + u % 10) ∷ out)) none_left
          ∙ ap (λ (x : List ℕ). turned x ((48 + u % 10) ∷ out)) (dec_loop_zero fuel)
          ∙ ap (λ (x : ℕ). x ∷ out) low
          ∙ ap (λ (x : List ℕ). x ++ out) (sym (numeral_small 10 fuel u (ground arith)))
      | inr more ↦
          turned-dec_loop fuel (u / 10) ((48 + u % 10) ∷ out) (ground arith) (omega arith)
          ∙ ap (λ (x : ℕ). numeral 10 fuel (u / 10) ++ x ∷ out) last
          ∙ sym (append_assoc (numeral 10 fuel (u / 10)) (digit (u % 10) ∷ []) out)
          ∙ ap (λ (x : List ℕ). x ++ out) (sym (numeral_more 10 fuel u more))
    ]

nibble_down : (left v : ℕ) → v / 16 / 2 ^ (left * 4) ≡ v / 2 ^ (suc left * 4)
nibble_down left v =
    let e : suc left * 4 ≡ left * 4 + 4 = omega arith in
    div-div-eq-div-mul v 16 (2 ^ (left * 4))
    ∙ ap (λ (x : ℕ). v / x) (rw (e, pow_nibble (left * 4)) (omega arith))

-- The character of the nibble with so many below it.
abbrev nibble : ℕ → ℕ → ℕ
nibble left v = hex_char (bit_and (v / 2 ^ (left * 4)) 0xf)

nibble_shift : (left v : ℕ) → nibble (suc left) v ≡ nibble left (v / 16)
nibble_shift left v = ap (λ (x : ℕ). hex_char (bit_and x 0xf)) (sym (nibble_down left v))

last_nibble : (v : ℕ) → nibble 0 v ≡ digit (v % 16)
last_nibble v =
    ap (λ (x : ℕ). hex_char (bit_and x 0xf)) (omega arith)
    ∙ ap hex_char (bit_and-ones 4 v)
    ∙ ground arith

started : (left v : ℕ) → hex_loop (suc left) v true ≡ nibble left v ∷ hex_loop left v true
unfolding hex_loop
started left v = ground arith

hex_loop-started :
    (left v : ℕ) → hex_loop (suc left) v true ≡ hex_loop left (v / 16) true ++ digit (v % 16) ∷ []
unfolding hex_loop
hex_loop-started zero v = started 0 v ∙ ap (λ (x : ℕ). x ∷ []) (last_nibble v)
hex_loop-started (suc left) v =
    started (suc left) v
    ∙ ap (λ (x : ℕ). x ∷ hex_loop (suc left) v true) (nibble_shift left v)
    ∙ ap (λ (x : List ℕ). nibble left (v / 16) ∷ x) (hex_loop-started left v)
    ∙ ap (λ (x : List ℕ). x ++ digit (v % 16) ∷ []) (sym (started left (v / 16)))

-- With no digit so far, a nibble that is zero and not the last is passed over, and any other starts.
passed :
    (left v : ℕ)
    → (bit_and (v / 2 ^ (suc left * 4)) 0xf == 0) ≡ true
    → hex_loop (suc (suc left)) v false ≡ hex_loop (suc left) v false
unfolding hex_loop
passed left v e = ground arith

starting :
    (left v : ℕ)
    → (bit_and (v / 2 ^ (left * 4)) 0xf == 0) ≡ false
    → hex_loop (suc left) v false ≡ nibble left v ∷ hex_loop left v true
unfolding hex_loop
starting left v e = ground arith

one_nibble : (v : ℕ) → v < 16 → hex_loop 1 v false ≡ digit v ∷ []
unfolding hex_loop
one_nibble v h =
    let e : hex_loop 1 v false ≡ nibble 0 v ∷ [] = ground arith in
    let low : v % 16 ≡ v = omega arith in
    e ∙ ap (λ (x : ℕ). x ∷ []) (last_nibble v) ∙ ap (λ (x : ℕ). digit x ∷ []) low

zero_above :
    (left v : ℕ)
    → v / 2 ^ (suc left * 4) ≡ 0
    → (bit_and (v / 2 ^ (left * 4)) 0xf == 0) ≡ true
    → v / 2 ^ (left * 4) ≡ 0
zero_above left v fits skip =
    let x : ℕ = v / 2 ^ (left * 4) in ground (arith, nibble_up left v, bit_and-ones 4 x, skip)

-- The last digit of a longer number stands behind those of a sixteenth of it.
shows_now :
    (left v : ℕ)
    → (bit_and (v / 2 ^ (suc left * 4)) 0xf == 0) ≡ false
    → hex_loop (suc (suc left)) v false ≡ hex_loop (suc left) (v / 16) false ++ digit (v % 16) ∷ []
shows_now left v show =
    let below : (bit_and (v / 16 / 2 ^ (left * 4)) 0xf == 0) ≡ false =
      ap (λ (x : ℕ). bit_and x 0xf == 0) (nibble_down left v) ∙ show in
    starting (suc left) v show
    ∙ ap (λ (x : ℕ). x ∷ hex_loop (suc left) v true) (nibble_shift left v)
    ∙ ap (λ (x : List ℕ). nibble left (v / 16) ∷ x) (hex_loop-started left v)
    ∙ ap (λ (x : List ℕ). x ++ digit (v % 16) ∷ []) (sym (starting left (v / 16) below))

hex_loop-more :
    (left v : ℕ)
    → v / 2 ^ (suc (suc left) * 4) ≡ 0
    → v / 16 ≢ 0
    → hex_loop (suc (suc left)) v false ≡ hex_loop (suc left) (v / 16) false ++ digit (v % 16) ∷ []
hex_loop-more zero v fits more = elim (Bool-cases (bit_and (v / 2 ^ (1 * 4)) 0xf == 0)) [
  | inl skip ↦ absurd (more (omega (arith, zero_above 1 v fits skip)))
  | inr show ↦ shows_now zero v show
]
hex_loop-more (suc left) v fits more =
    elim (Bool-cases (bit_and (v / 2 ^ (suc (suc left) * 4)) 0xf == 0)) [
      | inl skip ↦
          let below : (bit_and (v / 16 / 2 ^ (suc left * 4)) 0xf == 0) ≡ true =
            ap (λ (x : ℕ). bit_and x 0xf == 0) (nibble_down (suc left) v) ∙ skip in
          passed (suc left) v skip
          ∙ hex_loop-more left v (zero_above (suc (suc left)) v fits skip) more
          ∙ ap (λ (x : List ℕ). x ++ digit (v % 16) ∷ []) (sym (passed left (v / 16) below))
      | inr show ↦ shows_now (suc left) v show
    ]

small_above : (left v : ℕ) → v < 16 → v / 2 ^ (suc left * 4) ≡ 0
small_above left v h =
    sym (nibble_down left v)
    ∙ ap (λ (x : ℕ). x / 2 ^ (left * 4)) (omega arith)
    ∙ zero-div (2 ^ (left * 4))

-- The digits of `%x` and `%lx`.
pub hex_loop-numeral :
    (left v : ℕ)
    → v / 2 ^ (suc left * 4) ≡ 0
    → hex_loop (suc left) v false ≡ numeral 16 (suc left) v
hex_loop-numeral zero v fits =
    let small : v < 16 = omega (arith, fits) in
    one_nibble v small ∙ sym (numeral_small 16 0 v small)
hex_loop-numeral (suc left) v fits = elim (Bool-cases (ltb v 16)) [
  | inl less ↦
      let small : v < 16 = ground arith in
      let fits' : v / 2 ^ (suc left * 4) ≡ 0 = small_above left v small in
      passed left v (ap (λ (x : ℕ). bit_and x 0xf == 0) fits')
      ∙ hex_loop-numeral left v fits'
      ∙ numeral_small 16 left v small
      ∙ sym (numeral_small 16 (suc left) v small)
  | inr more ↦
      hex_loop-more left v fits (ground arith)
      ∙ ap (λ (x : List ℕ). x ++ digit (v % 16) ∷ [])
          (hex_loop-numeral left (v / 16) (nibble_down (suc left) v ∙ fits))
      ∙ sym (numeral_more 16 (suc left) v more)
]

dec_tmp-positive : (fuel v : ℕ) → v ≢ 0 → dec_tmp fuel v ≡ dec_loop fuel v
unfolding dec_tmp
dec_tmp-positive fuel v ne = let e : (v == 0) ≡ false = ground arith in if_false _ _ e

of_nought : turned (dec_tmp 20 0) [] ≡ numeral 10 20 0
unfolding turned dec_tmp numeral
of_nought = refl

turned-dec_tmp : (v : ℕ) → v < 2 ^ 64 → turned (dec_tmp 20 v) [] ≡ numeral 10 20 v
turned-dec_tmp v h = elim (Bool-cases (v == 0)) [
  | inl nought ↦
      let e : v ≡ 0 = ground arith in
      ap (λ (x : ℕ). turned (dec_tmp 20 x) []) e ∙ of_nought ∙ ap (numeral 10 20) (sym e)
  | inr other ↦
      let ne : v ≢ 0 = ground arith in
      ap (λ (x : List ℕ). turned x []) (dec_tmp-positive 20 v ne)
      ∙ turned-dec_loop 20 v [] ne (omega arith)
      ∙ append-nil (numeral 10 20 v)
]

-- The digits of `%u` and `%lu`.
pub unsigned_text-numeral : (v : ℕ) → v < 2 ^ 64 → unsigned_text v ≡ numeral 10 20 v
unfolding unsigned_text
unsigned_text-numeral v h = turned-dec_tmp v h

-- The numeral of a signed number of so many bits, of the word that holds it.
abbrev pub signed_numeral : ℕ → ℕ → List ℕ
signed_numeral bits v =
    if ltb v (2 ^ (bits - 1)) then numeral 10 20 v else 45 ∷ numeral 10 20 (2 ^ bits - v)

-- The characters of `%d` and `%ld`.
pub signed_text-numeral :
    (bits v : ℕ)
    → v < 2 ^ 64
    → 2 ^ bits ≤ 2 ^ 64
    → 1 ≤ 2 ^ (bits - 1)
    → signed_text bits v ≡ signed_numeral bits v
unfolding signed_text
signed_text-numeral bits v h wide one = elim (Bool-cases (ltb v (2 ^ (bits - 1)))) [
  | inl low ↦ if_true _ _ low ∙ unsigned_text-numeral v h ∙ sym (if_true _ _ low)
  | inr high ↦
      if_false _ _ high
      ∙ ap (◌∷◌ 45) (unsigned_text-numeral (2 ^ bits - v) (ground (arith, one)))
      ∙ sym (if_false _ _ high)
]
