-- ===== src/Bridge/Wire/Framing.antt =====
-- What is written into a message is read from it.
use smart_eth.Base.{ℕ, ◌^◌, ◌<◌, ◌≡◌, arith, List, ◌++◌}
use smart_eth.Bridge.Wire.{le32, le64, u32_at, u64_at}

pub u32_at-le32 : (v : ℕ) (rest : List ℕ) → v < 2 ^ 32 → u32_at (le32 v ++ rest) ≡ v
u32_at-le32 v rest h = omega arith

pub u64_at-le64 : (v : ℕ) (rest : List ℕ) → v < 2 ^ 64 → u64_at (le64 v ++ rest) ≡ v
u64_at-le64 v rest h = omega arith
