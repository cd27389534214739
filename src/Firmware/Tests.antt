-- ===== src/Firmware/Tests.antt =====
-- The task on a bus with the card in its second slot.
use smart_eth.Base.{◌≡◌, refl, arith}
use smart_eth.Base.Bits.{bit}
use smart_eth.Device.Samples.{Memory}
use smart_eth.PciTest.Samples.{card_board, card_config, card_board-ConfigBus, populated}
use smart_eth.PciTest.Scan.{pci_mmio_base, pci_command}
use smart_eth.PciTest.Scan.Slots.{slot_word}
use smart_eth.PciTest.Suite.{run_tests}
use smart_eth.Firmware.{Kernel, pci_test_task}
use smart_eth.Firmware.PciTask.{said_complete, pci_test_task-present}

-- A kernel that leaves the board alone.
abbrev idle_kernel : Kernel Memory
idle_kernel = record {
  create = λ name stack priority s. s;
  start_scheduler = λ s. s;
  delete_self = λ s. s;
  disable_interrupts = λ s. s;
  free_heap = λ s. (0, s);
}

pci_test_task-present_example :
    (t : Memory) × (pci_test_task card_board idle_kernel populated
      ≡ said_complete card_board idle_kernel card_config card_board-ConfigBus
          (λ n s a. refl)
          (run_tests card_board pci_mmio_base t).1)
    × (bit (card_config t (slot_word 1 pci_command)) 1 ≡ 1)
    × (bit (card_config t (slot_word 1 pci_command)) 2 ≡ 1)
pci_test_task-present_example =
    pci_test_task-present card_board idle_kernel card_config card_board-ConfigBus (λ n s a. refl)
      populated 1 (omega arith) (λ e lt. ground arith) refl
