-- ===== src/Device/Samples.antt =====
-- Concrete memories and devices for the tests of the modules.
use smart_eth.Base.{ℕ, zero, suc, ◌+◌, ◌%◌, refl, ap, List, [], ◌∷◌, store}
use smart_eth.Device.{Bus, Dma, SmartEth, realize}
use smart_eth.Device.Transfer.{FillsLength}

-- A byte for each address.
abbrev pub Memory : Type 0
Memory = ℕ → ℕ

abbrev load_bytes : Memory → ℕ → ℕ → List ℕ
load_bytes m a zero = []
load_bytes m a (suc n) = m a ∷ load_bytes m (a + 1) n

abbrev store_bytes : Memory → ℕ → List ℕ → Memory
store_bytes m a [] = m
store_bytes m a (b ∷ bs) = store_bytes (store m a b) (a + 1) bs

abbrev pub byte_bus : Bus Memory
byte_bus = record { dma_read = load_bytes; dma_write = store_bytes }

pub byte_bus-FillsLength : FillsLength byte_bus
byte_bus-FillsLength m a zero = refl
byte_bus-FillsLength m a (suc n) = ap suc (byte_bus-FillsLength m (a + 1) n)

abbrev pub counting_memory : Memory
counting_memory a = a % 256

abbrev pub fresh_device : SmartEth Memory
fresh_device = realize counting_memory

-- 16 bytes from 0x1000 into the device, with an interrupt at the end.
abbrev pub sample_read : Dma
sample_read = record { src = 0x1000; dst = 0; len = 16; ctrl = 5 }

-- The same bytes from the device to 0x2000.
abbrev pub sample_write : Dma
sample_write = record { src = 0; dst = 0x2000; len = 16; ctrl = 3 }
