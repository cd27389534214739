-- ===== src/Sim/Nic/Descriptors.antt =====
-- The descriptors of nic.cpp in numbers: the flags of one that is handed back, and the place behind it.
use smart_eth.Base.{ℕ, ◌+◌, ◌%◌, ◌^◌, ◌<◌, ◌≡◌, ◌∙◌, ap, arith, bit_or}
use smart_eth.Base.Bits.{bit_and-ones, bit_and-pow, bit_or-add-bit_and}
use smart_eth.Sim.Nic.{done_flags, next_tail}

-- OWN, bit 31, is cleared, DONE, bit 30, is set, and the other bits stay.
abbrev pub handed_back : ℕ → ℕ
handed_back flags = flags % 2 ^ 30 + 2 ^ 30

pub done_flags_lem : (flags : ℕ) → done_flags flags ≡ handed_back flags
done_flags_lem flags =
    let low = flags % 2 ^ 31 in
    ap (λ x. bit_or x (2 ^ 30)) (bit_and-ones 31 flags)
    ∙ omega (arith, bit_or-add-bit_and low low (2 ^ 30) (omega arith), bit_and-pow 30 low)

-- The place behind `tail` in a ring.
pub next_tail_lem :
    (tail size : ℕ) → tail < size → size < 2 ^ 32 → next_tail tail size ≡ (tail + 1) % size
next_tail_lem tail size inside word = ap (◌% size) (omega arith)
