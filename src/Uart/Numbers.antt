-- ===== src/Uart/Numbers.antt =====
-- The numbers that uart.c prints, read back.
use smart_eth.Base.{
  ℕ, zero, suc, ◌+◌, ◌-◌, ◌*◌, ◌/◌, ◌^◌, ◌≤◌, ◌<◌, ◌≡◌, ◌∙◌, sym, ap, arith, Bool, true, false,
  List, [], ◌∷◌, ltb, ◌==◌, if◌then◌else◌, bit_and, length, Bool-cases, inl, inr,
}
use native.Mathlib.Nat.{div-div-eq-div-mul, div-eq_of_lt}
use smart_eth.Base.Bits.{bit_and-ones}
use smart_eth.Uart.{hex_char, puthex_loop, puthex, hex_loop, dec_loop, dec_tmp}

-- The value of a hexadecimal or decimal digit.
abbrev pub digit_value : ℕ → ℕ
digit_value c = if ltb c 58 then c - 48 else c - 87

-- A numeral read from its first digit on, after those of value `acc`.
read_hex : ℕ → List ℕ → ℕ
read_hex acc [] = acc
read_hex acc (c ∷ cs) = read_hex (acc * 16 + digit_value c) cs

-- A numeral that is stored last digit first.
read_dec : List ℕ → ℕ
read_dec [] = 0
read_dec (c ∷ cs) = digit_value c + 10 * read_dec cs

digit_value-hex_char : (n : ℕ) → n < 16 → digit_value (hex_char n) ≡ n
digit_value-hex_char n h = ground arith

puthex_loop-value :
    (left val : ℕ) (buf : List ℕ)
    → val < 16 ^ left
    → read_hex 0 (puthex_loop left val buf) ≡ read_hex val buf
unfolding puthex_loop read_hex
puthex_loop-value zero val buf h = ap (λ x. read_hex x buf) (omega arith)
puthex_loop-value (suc left) val buf h =
    puthex_loop-value left (val / 2 ^ 4) (hex_char (bit_and val 0xf) ∷ buf) (omega arith)
    ∙ ap (λ x. read_hex x buf)
        (omega (
          arith,
          bit_and-ones 4 val,
          digit_value-hex_char (bit_and val 0xf) (omega (arith, bit_and-ones 4 val)),
        ))

puthex_loop-length :
    (left val : ℕ) (buf : List ℕ) → length (puthex_loop left val buf) ≡ left + length buf
unfolding puthex_loop
puthex_loop-length zero val buf = omega arith
puthex_loop-length (suc left) val buf =
    puthex_loop-length left (val / 2 ^ 4) (hex_char (bit_and val 0xf) ∷ buf) ∙ omega arith

-- `uart_puthex` writes 16 characters, which read as the number in base 16.
puthex_lem : (val : ℕ) → val < 2 ^ 64 → (length (puthex val) ≡ 16) × (read_hex 0 (puthex val) ≡ val)
unfolding puthex read_hex
puthex_lem val h = (puthex_loop-length 16 val [], puthex_loop-value 16 val [] (omega arith))

dec_loop-value : (fuel u : ℕ) → u < 10 ^ fuel → read_dec (dec_loop fuel u) ≡ u
unfolding dec_loop read_dec
dec_loop-value zero u h = omega arith
dec_loop-value (suc fuel) u h = ground (arith, dec_loop-value fuel (u / 10) (omega arith))

dec_loop-length : (fuel u : ℕ) → length (dec_loop fuel u) ≤ fuel
unfolding dec_loop
dec_loop-length zero u = omega arith
dec_loop-length (suc fuel) u = ground (arith, dec_loop-length fuel (u / 10))

dec_tmp-value : (fuel u : ℕ) → read_dec (dec_loop fuel u) ≡ u → read_dec (dec_tmp fuel u) ≡ u
unfolding dec_tmp read_dec
dec_tmp-value fuel u e = ground (arith, e)

dec_tmp-length :
    (fuel u : ℕ) → (1 ≤ length (dec_tmp (suc fuel) u)) × (length (dec_tmp (suc fuel) u) ≤ suc fuel)
unfolding dec_tmp dec_loop
dec_tmp-length fuel u =
    (ground (arith, dec_loop-length fuel (u / 10)), ground (arith, dec_loop-length fuel (u / 10)))

-- 20 rounds are enough for a 64-bit number: the digits in `tmp` read as the number, and there are
-- between 1 and 20 of them, fewer than the 24 places of `tmp`.
dec_tmp_lem :
    (u : ℕ)
    → u < 2 ^ 64
    → (read_dec (dec_tmp 20 u) ≡ u) × (1 ≤ length (dec_tmp 20 u)) × (length (dec_tmp 20 u) ≤ 20)
dec_tmp_lem u h = (
  dec_tmp-value 20 u (dec_loop-value 20 u (omega arith)),
  (dec_tmp-length 19 u).0,
  (dec_tmp-length 19 u).1,
)

pub pow_nibble : (a : ℕ) → 2 ^ (a + 4) ≡ 2 ^ a * 16
pow_nibble a = let e : a + 4 ≡ suc (suc (suc (suc a))) = omega arith in rw e (omega arith)

pub nibble_up : (left v : ℕ) → v / 2 ^ (suc left * 4) ≡ v / 2 ^ (left * 4) / 16
nibble_up left v =
    let e : suc left * 4 ≡ left * 4 + 4 = omega arith in
    rw (e, pow_nibble (left * 4)) (sym (div-div-eq-div-mul v (2 ^ (left * 4)) 16))

-- A number above its lowest `left + 1` nibbles, and the next nibble.
next-nibble :
    (left v : ℕ)
    → v / 2 ^ (suc left * 4) * 16 + digit_value (hex_char (bit_and (v / 2 ^ (left * 4)) 0xf))
      ≡ v / 2 ^ (left * 4)
next-nibble left v =
    let x : ℕ = v / 2 ^ (left * 4) in
    let low = bit_and-ones 4 x in
    let digit = digit_value-hex_char (bit_and x 0xf) (omega (arith, low)) in
    omega (arith, low, digit, nibble_up left v)

hex_loop-started : (left v : ℕ) → read_hex (v / 2 ^ (left * 4)) (hex_loop left v true) ≡ v
unfolding hex_loop read_hex
hex_loop-started zero v = omega arith
hex_loop-started (suc left) v =
    let shown : hex_loop (suc left) v true
        ≡ hex_char (bit_and (v / 2 ^ (left * 4)) 0xf) ∷ hex_loop left v true =
      ground arith in
    ap (read_hex (v / 2 ^ (suc left * 4))) shown
    ∙ ap (λ x. read_hex x (hex_loop left v true)) (next-nibble left v)
    ∙ hex_loop-started left v

hex_loop-starting :
    (left v : ℕ) → v / 2 ^ (suc left * 4) ≡ 0 → read_hex 0 (hex_loop (suc left) v false) ≡ v
unfolding hex_loop read_hex
hex_loop-starting zero v h =
    let shown : hex_loop 1 v false ≡ hex_char (bit_and (v / 2 ^ (0 * 4)) 0xf) ∷ [] = ground arith in
    ap (read_hex 0) shown ∙ omega (arith, next-nibble 0 v)
hex_loop-starting (suc left) v h =
    let x : ℕ = v / 2 ^ (suc left * 4) in
    let c : ℕ = hex_char (bit_and x 0xf) in
    elim (Bool-cases (bit_and x 0xf == 0)) [
      | inl e ↦
          let skipped : hex_loop (suc (suc left)) v false ≡ hex_loop (suc left) v false =
            ground arith in
          ap (read_hex 0) skipped
          ∙ hex_loop-starting left v (ground (arith, bit_and-ones 4 x, nibble_up (suc left) v))
      | inr e ↦
          let shown : hex_loop (suc (suc left)) v false ≡ c ∷ hex_loop (suc left) v true =
            ground arith in
          ap (read_hex 0) shown
          ∙ ap (λ y. read_hex y (hex_loop (suc left) v true))
              (omega (arith, next-nibble (suc left) v))
          ∙ hex_loop-started (suc left) v
    ]

hex_loop-length : (left v : ℕ) (started : Bool) → length (hex_loop left v started) ≤ left
unfolding hex_loop
hex_loop-length zero v started = omega arith
hex_loop-length (suc left) v true = ground (arith, hex_loop-length left v true)
hex_loop-length (suc left) v false =
    ground (arith, hex_loop-length left v true, hex_loop-length left v false)

hex_loop-nonempty : (left v : ℕ) → 1 ≤ length (hex_loop (suc left) v false)
unfolding hex_loop
hex_loop-nonempty zero v = ground arith
hex_loop-nonempty (suc left) v = ground (arith, hex_loop-nonempty left v)

-- `%x` and `%lx`, for a number of `left + 1` nibbles: the characters read as the number in base
-- 16, there is at least one of them and at most one for each nibble.
hex_loop_lem :
    (left v : ℕ)
    → v < 2 ^ (suc left * 4)
    → (read_hex 0 (hex_loop (suc left) v false) ≡ v)
      × (1 ≤ length (hex_loop (suc left) v false))
      × (length (hex_loop (suc left) v false) ≤ suc left)
hex_loop_lem left v h = (
  hex_loop-starting left v (div-eq_of_lt h),
  hex_loop-nonempty left v,
  hex_loop-length (suc left) v false,
)
