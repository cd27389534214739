-- ===== src/Bsp/Plic.antt =====
-- The enable bits of plic.c, and the interrupt that the handler gives back.
use native.Mathlib.Nat.{pow-suc, pow-le-pow_right}
use smart_eth.Base.{
  ℕ, zero, suc, ◌/◌, ◌%◌, ◌^◌, ◌≤◌, ◌<◌, ◌≡◌, ◌≢◌, Bool-cases, inl, inr, refl, sym, ap, ◌∙◌, arith,
  Bool, true, false, ltb, ◌==◌, if◌then◌else◌, bit_and, bit_or, u32, not32,
}
use smart_eth.Base.Bits.{bit, bit-le, zero-bit, bit-bit_or}
use smart_eth.Base.Masks.{bit-clear, bit_and-lt, bit_or_lt}
use smart_eth.Libc.{pos}
use smart_eth.Bsp.{
  Board, enable_word, plic_enable_irq, plic_disable_irq, plic_claim, plic_complete,
  interrupt_handler, plic_claim_reg,
}

-- The handler gives back the interrupt that it has claimed, and nothing when none is pending.
interrupt_handler-plic_claim :
    {S : Type 0} (board : Board S) (s t : S) (irq : ℕ)
    → irq < 2 ^ 31
    → board.load32 plic_claim_reg s ≡ (irq, t)
    → interrupt_handler board s ≡ (if irq == 0 then t else board.store32 plic_claim_reg irq t)
unfolding interrupt_handler plic_claim plic_complete
interrupt_handler-plic_claim board s t irq h e =
    let small : ltb irq (2 ^ 31) ≡ true = ground (arith, h) in
    let same : u32 irq ≡ irq = omega (arith, h) in
    rw e (rw small (ap (λ w. if irq == 0 then t else board.store32 plic_claim_reg w t) same))

-- Every register but the claim register holds a 32-bit word, which a load gives and a store replaces.
pub record Plain {S : Type 0} (board : Board S) (word : S → ℕ → ℕ) : Type 0 where
  pub fits : (s : S) (a : ℕ) → word s a < 2 ^ 32
  pub loads : (s : S) (a : ℕ) → a ≢ plic_claim_reg → board.load32 a s ≡ (word s a, s)
  pub stores :
      (s : S) (a v b : ℕ)
      → a ≢ plic_claim_reg
      → word (board.store32 a v s) b ≡ (if a == b then u32 v else word s b)

-- A power of two has one digit.
bit-pow : (k m : ℕ) → bit (2 ^ k) m ≡ (if k == m then 1 else 0)
bit-pow zero zero = refl
bit-pow zero (suc m) =
    let e : (0 == suc m) ≡ false = ground arith in
    zero-bit m ∙ sym (ap (λ (b : Bool). if b then 1 else 0) e)
bit-pow (suc k) zero =
    let e : (suc k == 0) ≡ false = ground arith in
    let even : 2 ^ suc k % 2 ≡ 0 = omega (arith, pow-suc 2 k) in
    even ∙ sym (ap (λ (b : Bool). if b then 1 else 0) e)
bit-pow (suc k) (suc m) =
    let half : 2 ^ suc k / 2 ≡ 2 ^ k = omega (arith, pow-suc 2 k) in
    let e : (suc k == suc m) ≡ (k == m) = ground arith in
    ap (λ x. bit x m) half ∙ bit-pow k m ∙ sym (ap (λ (b : Bool). if b then 1 else 0) e)

below_word : (k : ℕ) → k < 32 → 2 ^ k < 2 ^ 32
below_word k h =
    let below : 2 ^ k ≤ 2 ^ 31 = pow-le-pow_right (ground arith) {j = 31} (omega (arith, h)) in
    omega (arith, below)

or_bit :
    (x k m : ℕ)
    → x < 2 ^ 32
    → k < 32
    → bit (u32 (bit_or x (2 ^ k))) m ≡ (if k == m then 1 else bit x m)
or_bit x k m hx hk =
    let e : u32 (bit_or x (2 ^ k)) ≡ bit_or x (2 ^ k) =
      omega (arith, bit_or_lt x (2 ^ k) hx (below_word k hk)) in
    rw e (bit-bit_or m x (2 ^ k) ∙ ground (arith, bit-pow k m, bit-le x m))

clear_bit :
    (x k m : ℕ)
    → k < 32
    → m < 32
    → bit (bit_and x (not32 (2 ^ k))) m ≡ (if k == m then 0 else bit x m)
clear_bit x k m hk hm =
    let e : u32 (2 ^ k) ≡ 2 ^ k = omega (arith, below_word k hk) in
    bit-clear m x (2 ^ k) hm ∙ rw e (ground (arith, bit-pow k m, bit-le x m))

again : (x : ℕ) → u32 (u32 x) ≡ u32 x
again x = omega arith

-- Two interrupts have one bit just when they are one.
same_bit :
    (irq j : ℕ)
    → (if enable_word irq == enable_word j then (irq % 32 == j % 32) else false) ≡ (irq == j)
same_bit irq j = ground arith

module _ {S : Type 0} (board : Board S) (word : S → ℕ → ℕ) (plain : Plain board word) where
  -- The enable bit of an interrupt.
  pub enabled : S → ℕ → ℕ
  enabled s j = bit (word s (enable_word j)) (j % 32)

  stored :
      (s : S) (irq v j : ℕ)
      → irq ≤ 127
      → enabled (board.store32 (enable_word irq) v s) j
        ≡ bit (if enable_word irq == enable_word j then u32 v else word s (enable_word j)) (j % 32)
  unfolding enabled
  stored s irq v j h =
      ap (λ w. bit w (j % 32))
        (plain.stores s (enable_word irq) v (enable_word j) (ground (arith, h)))

  same_word :
      (s : S) (irq v d j : ℕ)
      → irq ≤ 127
      → ((m : ℕ)
          → m < 32
          → bit (u32 v) m ≡ (if irq % 32 == m then d else bit (word s (enable_word irq)) m))
      → enable_word irq ≡ enable_word j
      → enabled (board.store32 (enable_word irq) v s) j ≡ (if irq == j then d else enabled s j)
  unfolding enabled
  same_word s irq v d j h digits e =
      let here : (enable_word irq == enable_word j) ≡ true = ground (arith, e) in
      let both : (irq % 32 == j % 32) ≡ (irq == j) = ground (arith, e) in
      rw (stored s irq v j h) (rw here (digits (j % 32) (omega arith)))
      ∙ ap (λ (b : Bool). if b then d else bit (word s (enable_word irq)) (j % 32)) both
      ∙ ap (λ w. if irq == j then d else bit (word s w) (j % 32)) e

  other_word :
      (s : S) (irq v d j : ℕ)
      → irq ≤ 127
      → enable_word irq ≢ enable_word j
      → enabled (board.store32 (enable_word irq) v s) j ≡ (if irq == j then d else enabled s j)
  unfolding enabled
  other_word s irq v d j h e =
      let there : (enable_word irq == enable_word j) ≡ false = ground (arith, e) in
      let apart : (irq == j) ≡ false = ground (arith, e) in
      stored s irq v j h ∙ rw there (rw apart refl)

  changed :
      (s : S) (irq v d j : ℕ)
      → irq ≤ 127
      → ((m : ℕ)
          → m < 32
          → bit (u32 v) m ≡ (if irq % 32 == m then d else bit (word s (enable_word irq)) m))
      → enabled (board.store32 (enable_word irq) v s) j ≡ (if irq == j then d else enabled s j)
  changed s irq v d j h digits = elim (Bool-cases (enable_word irq == enable_word j)) [
    | inl e ↦ same_word s irq v d j h digits (ground (arith, e))
    | inr e ↦ other_word s irq v d j h (ground (arith, e))
  ]

  -- Enabling an interrupt of the controller sets its enable bit and leaves those of all others.
  plic_enable_irq-enabled :
      (s : S) (irq j : ℕ)
      → irq ≤ 127
      → enabled (plic_enable_irq board (pos irq) s) j ≡ (if irq == j then 1 else enabled s j)
  unfolding plic_enable_irq
  plic_enable_irq-enabled s irq j h =
      let inside : ltb 127 irq ≡ false = ground (arith, h) in
      rw inside (
        rw (plain.loads s (enable_word irq) (ground (arith, h))) (
          changed s irq (u32 (bit_or (word s (enable_word irq)) (2 ^ (irq % 32)))) 1 j h (λ m hm.
            rw (again (bit_or (word s (enable_word irq)) (2 ^ (irq % 32)))) (
              or_bit (word s (enable_word irq)) (irq % 32) m (plain.fits s (enable_word irq))
                (omega arith)))))

  -- Disabling an interrupt of the controller clears its enable bit and leaves those of all others.
  plic_disable_irq-enabled :
      (s : S) (irq j : ℕ)
      → irq ≤ 127
      → enabled (plic_disable_irq board (pos irq) s) j ≡ (if irq == j then 0 else enabled s j)
  unfolding plic_disable_irq
  plic_disable_irq-enabled s irq j h =
      let inside : ltb 127 irq ≡ false = ground (arith, h) in
      let x : ℕ = bit_and (word s (enable_word irq)) (not32 (2 ^ (irq % 32))) in
      let word32 : u32 x ≡ x = omega (
        arith,
        bit_and-lt (word s (enable_word irq)) (not32 (2 ^ (irq % 32)))
            (plain.fits s (enable_word irq)),
      ) in
      rw inside (
        rw (plain.loads s (enable_word irq) (ground (arith, h))) (
          changed s irq x 0 j h (λ m hm.
            ap (λ w. bit w m) word32
            ∙ clear_bit (word s (enable_word irq)) (irq % 32) m (omega arith) hm)))

  -- On a board whose registers keep what is stored in them, enabling an interrupt from 0 to 127 sets
  -- its enable bit, disabling it clears the bit, and neither changes the bit of another interrupt.
  pub plic_enabled_lem :
      (s : S) (irq j : ℕ)
      → irq ≤ 127
      → (enabled (plic_enable_irq board (pos irq) s) j ≡ (if irq == j then 1 else enabled s j))
        × (enabled (plic_disable_irq board (pos irq) s) j ≡ (if irq == j then 0 else enabled s j))
  plic_enabled_lem s irq j h =
      (plic_enable_irq-enabled s irq j h, plic_disable_irq-enabled s irq j h)
