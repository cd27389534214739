-- ===== src/PciTest/Suite/Board.antt =====
-- A board that carries the device of smarteth_pci.c, for the tests of pci_test.c to run on.
use Prim.Native.String.{String}
use smart_eth.Base.{
  ℕ, zero, suc, ◌+◌, ◌-◌, ◌*◌, ◌/◌, ◌%◌, ◌<◌, ◌≡◌, Bool, ◌&&◌, List, ◌∷◌, if◌then◌else◌, ltb, leb,
  arith, Option, none, some,
}
use smart_eth.PciTest.{Machine, reg_read, reg_write}
use smart_eth.Device.{SmartEth, Bus, mmio_read, mmio_write}
use smart_eth.Device.Engine.{expire}

-- Guest RAM as the CPU sees it.
pub record Ram (M : Type 0) : Type 0 where
  pub ram_load : M → ℕ → ℕ
  pub ram_store : M → ℕ → ℕ → M

-- The device, the clock in milliseconds, what was printed (newest first), and the number of delays
-- that pass before the device's timer runs out.
pub record Board (M : Type 0) : Type 0 where
  pub dev : SmartEth M
  pub clock : ℕ
  pub countdown : ℕ
  pub console : List (String × List ℕ)

module _ {M : Type 0} (bus : Bus M) (ram : Ram M) (bar0 : ℕ) where
  abbrev in_window : ℕ → Bool
  in_window a = leb bar0 a && ltb a (bar0 + 4096)

  abbrev pub run_out : SmartEth M → Option ℕ → SmartEth M
  run_out dev none = dev
  run_out dev (some _) = expire bus dev

  abbrev pub after_delay : Board M → ℕ → Board M
  after_delay b zero = record b { dev = run_out b.dev b.dev.dma_timer }
  after_delay b (suc n) = record b { countdown = n }

  abbrev pub board : Machine (Board M)
  board = record {
    load32 =
        λ a b. (if in_window a then mmio_read b.dev (a - bar0) else ram.ram_load b.dev.memory a, b);
    store32 = λ a v b.
        if in_window a
        then record b { dev = mmio_write b.clock b.dev (a - bar0) v }
        else record b { dev = record (b.dev) { memory = ram.ram_store b.dev.memory a v } };
    delay = λ ticks b. after_delay b b.countdown;
    print = λ text args b. record b { console = (text, args) ∷ b.console };
  }

  -- The firmware's register accesses reach the device's handlers.
  pub reg_read-mmio_read :
      (offset : ℕ) (b : Board M)
      → offset < 4096
      → offset % 4 ≡ 0
      → reg_read board bar0 offset b ≡ (mmio_read b.dev offset, b)
  unfolding reg_read
  reg_read-mmio_read offset b h al =
      let e : offset / 4 * 4 ≡ offset = omega arith in
      let d : bar0 + offset - bar0 ≡ offset = omega arith in rw e (ground arith)

  pub reg_write-mmio_write :
      (offset v : ℕ) (b : Board M)
      → offset < 4096
      → offset % 4 ≡ 0
      → reg_write board bar0 offset v b ≡ record b { dev = mmio_write b.clock b.dev offset v }
  unfolding reg_write
  reg_write-mmio_write offset v b h al =
      let e : offset / 4 * 4 ≡ offset = omega arith in rw e (ground arith)
