-- ===== src/Libc/Tests.antt =====
-- The theorems on the memory functions at concrete inputs.
use smart_eth.Base.{ℕ, ◌≡◌, arith, inl}
use smart_eth.Libc.{pos, memcpy, memcmp}
use smart_eth.Libc.Copy.{memcpy_lem}
use smart_eth.Libc.Compare.{memcmp-equal}

abbrev zeros : ℕ → ℕ
zeros _ = 0

abbrev counting : ℕ → ℕ
counting a = a

memcpy_lem_example : memcpy counting 16 18 4 17 ≡ 19
memcpy_lem_example = memcpy_lem 4 counting 16 18 17 (inl (omega arith))

memcmp-equal_example : memcmp zeros 16 32 4 ≡ pos 0
memcmp-equal_example = memcmp-equal 4 zeros 16 32 (λ i h. omega arith)
