-- ===== src/Bsp/Tests.antt =====
-- The enable bits of an interrupt controller whose registers are a map from addresses to words.
use smart_eth.Base.{ℕ, ◌≡◌, refl, arith, inl, inr, Bool-cases, ◌==◌, if◌then◌else◌, u32}
use smart_eth.Libc.{pos}
use smart_eth.Bsp.{Board, plic_enable_irq, plic_disable_irq}
use smart_eth.Bsp.Plic.{Plain, enabled, plic_enabled_lem}

abbrev written : ℕ → ℕ → (ℕ → ℕ) → ℕ → ℕ
written a v s b = if a == b then v else s b

abbrev map_board : Board (ℕ → ℕ)
map_board = record {
  load32 = λ a s. (u32 (s a), s);
  store32 = written;
  load64 = λ a s. (s a, s);
  store64 = written;
}

abbrev map_word : (ℕ → ℕ) → ℕ → ℕ
map_word s a = u32 (s a)

map_board-Plain : Plain map_board map_word
map_board-Plain = record {
  fits = λ s a. omega arith;
  loads = λ s a h. refl;
  stores = λ s a v b h. elim (Bool-cases (a == b)) [ inl e ↦ rw e refl | inr e ↦ rw e refl ];
}

abbrev reset : ℕ → ℕ
reset a = 0

abbrev only_33 : ℕ → ℕ
unfolding plic_enable_irq
only_33 = plic_enable_irq map_board (pos 33) reset

plic_enabled_lem_example :
    (enabled map_board map_word map_board-Plain (plic_enable_irq map_board (pos 65) only_33) 33
      ≡ (if 65 == 33 then 1 else enabled map_board map_word map_board-Plain only_33 33))
    × (enabled map_board map_word map_board-Plain (plic_disable_irq map_board (pos 65) only_33) 33
        ≡ (if 65 == 33 then 0 else enabled map_board map_word map_board-Plain only_33 33))
plic_enabled_lem_example =
    plic_enabled_lem map_board map_word map_board-Plain only_33 65 33 (omega arith)
