-- ===== src/Libc/Compare.antt =====
-- What memcmp of libc_supp.c answers.
use smart_eth.Base.{ℕ, zero, suc, ◌+◌, ◌<◌, ◌≡◌, ◌≢◌, ◌∙◌, sym, refl, true, false, arith, ◌==◌}
use smart_eth.Libc.{pos, byte_diff, memcmp}

next-byte :
    (mem : ℕ → ℕ) (s1 s2 i : ℕ)
    → mem (s1 + suc i) ≡ mem (s2 + suc i)
    → mem (s1 + 1 + i) ≡ mem (s2 + 1 + i)
next-byte mem s1 s2 i e = grind arith

first-byte : (mem : ℕ → ℕ) (s1 s2 : ℕ) → mem (s1 + 0) ≡ mem (s2 + 0) → mem s1 ≡ mem s2
first-byte mem s1 s2 e = grind arith

-- Equal areas compare as 0.
pub memcmp-equal :
    (n : ℕ) (mem : ℕ → ℕ) (s1 s2 : ℕ)
    → ((i : ℕ) → i < n → mem (s1 + i) ≡ mem (s2 + i))
    → memcmp mem s1 s2 n ≡ pos 0
unfolding memcmp
memcmp-equal zero mem s1 s2 same = refl
memcmp-equal (suc n) mem s1 s2 same =
    let rest =
      memcmp-equal n mem (s1 + 1) (s2 + 1)
        (λ i h. next-byte mem s1 s2 i (same (suc i) (omega arith))) in
    ground (arith, rest, first-byte mem s1 s2 (same 0 (omega arith)))

memcmp-first :
    (n : ℕ) (mem : ℕ → ℕ) (s1 s2 k : ℕ)
    → k < n
    → ((i : ℕ) → i < k → mem (s1 + i) ≡ mem (s2 + i))
    → mem (s1 + k) ≢ mem (s2 + k)
    → memcmp mem s1 s2 n ≡ byte_diff (mem (s1 + k)) (mem (s2 + k))
unfolding memcmp
memcmp-first zero mem s1 s2 k h same differ = absurd (omega arith)
memcmp-first (suc n) mem s1 s2 zero h same differ =
    let f : mem s1 ≢ mem s2 = λ e. differ (grind arith) in
    let g : (mem s1 == mem s2) ≡ false = ground arith in rw g (grind arith)
memcmp-first (suc n) mem s1 s2 (suc k) h same differ =
    let rest =
      memcmp-first n mem (s1 + 1) (s2 + 1) k (omega arith)
        (λ i l. next-byte mem s1 s2 i (same (suc i) (omega arith))) (λ e. differ (grind arith)) in
    let f : mem s1 ≡ mem s2 = first-byte mem s1 s2 (same 0 (omega arith)) in
    let g : (mem s1 == mem s2) ≡ true = ground arith in rw g (rest ∙ grind arith)

byte_diff-nonzero : (a b : ℕ) → a ≢ b → byte_diff a b ≢ pos 0
byte_diff-nonzero a b ne = ground arith

-- Otherwise the answer is the difference of the first two bytes that differ, and it is not 0.
pub memcmp-differ :
    (n : ℕ) (mem : ℕ → ℕ) (s1 s2 k : ℕ)
    → k < n
    → ((i : ℕ) → i < k → mem (s1 + i) ≡ mem (s2 + i))
    → mem (s1 + k) ≢ mem (s2 + k)
    → (memcmp mem s1 s2 n ≡ byte_diff (mem (s1 + k)) (mem (s2 + k))) × (memcmp mem s1 s2 n ≢ pos 0)
memcmp-differ n mem s1 s2 k h same differ =
    let first = memcmp-first n mem s1 s2 k h same differ in
    (first, λ e. byte_diff-nonzero (mem (s1 + k)) (mem (s2 + k)) differ (sym first ∙ e))
