-- ===== src/PciTest/Tests.antt =====
-- The theorems on pci_test.c at concrete inputs.
use smart_eth.Base.{ℕ, ◌≡◌, refl, arith, [], store}
use smart_eth.Device.Samples.{Memory, byte_bus, fresh_device}
use smart_eth.PciTest.Samples.{words, populated}
use smart_eth.PciTest.Config.{config_read16, config_write16}
use smart_eth.PciTest.Config.Layout.{IsPlace}
use smart_eth.PciTest.Config.Halves.{word_address}
use smart_eth.PciTest.Config.RoundTrip.{IsPlainWord, config_read16-config_write16}
use smart_eth.PciTest.Scan.{pci_mmio_base}
use smart_eth.PciTest.Suite.{pass, run_tests}
use smart_eth.PciTest.Suite.Board.{Ram, Board, board}
use smart_eth.PciTest.Suite.Run.{run_tests_verdict}

words-IsPlainWord : (a : ℕ) → IsPlainWord words a
words-IsPlainWord a = record { reads_back = λ v s h. ground arith; is_word = λ s. omega arith }

command-IsPlace : IsPlace 0 1 0 4
command-IsPlace = record {
  bus_fits = omega arith;
  dev_fits = omega arith;
  func_fits = omega arith;
  offset_fits = omega arith;
}

status-IsPlace : IsPlace 0 1 0 6
status-IsPlace = record {
  bus_fits = omega arith;
  dev_fits = omega arith;
  func_fits = omega arith;
  offset_fits = omega arith;
}

config_read16-config_write16_example :
    ((config_read16 words 0 1 0 4 (config_write16 words 0 1 0 4 0x0107 populated)).0 ≡ 0x0107)
    × ((config_read16 words 0 1 0 6 (config_write16 words 0 1 0 4 0x0107 populated)).0
        ≡ (config_read16 words 0 1 0 6 populated).0)
config_read16-config_write16_example =
    config_read16-config_write16 words command-IsPlace status-IsPlace refl (omega arith)
      (omega arith) (words-IsPlainWord (word_address 0 1 0 4)) populated

-- Words at whole addresses.
abbrev word_ram : Ram Memory
word_ram = record { ram_load = λ m a. m a; ram_store = store }

abbrev slow_board : Board Memory
slow_board = record { dev = fresh_device; clock = 0; countdown = 498; console = [] }

abbrev fast_board : Board Memory
fast_board = record { dev = fresh_device; clock = 0; countdown = 1; console = [] }

run_tests_verdict_example :
    (run_tests (board byte_bus word_ram pci_mmio_base) pci_mmio_base fast_board).0 ≡ pass
run_tests_verdict_example = run_tests_verdict byte_bus word_ram pci_mmio_base fast_board
