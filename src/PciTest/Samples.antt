-- ===== src/PciTest/Samples.antt =====
-- Boards with configuration space for the tests.
use smart_eth.Base.{
  Bool, ◌+◌, ◌*◌, ◌/◌, ◌≡◌, ◌≢◌, ◌==◌, ◌&&◌, leb, ltb, if◌then◌else◌, ℕ, ◌%◌, ◌^◌, refl, arith,
  store,
}
use smart_eth.Device.Samples.{Memory}
use smart_eth.PciTest.{Machine}
use smart_eth.PciTest.Scan.{pci_bar0, pci_command}
use smart_eth.PciTest.Scan.Slots.{slot_word, smarteth_id, ConfigBus}

-- A board of plain 32-bit words, each at its own address.
abbrev pub words : Machine Memory
words = record {
  load32 = λ a s. (s a % 2 ^ 32, s);
  store32 = λ a v s. store s a v;
  delay = λ n s. s;
  print = λ t l s. s;
}

-- A bus with a card in slot 1 and nothing else: absent slots read as ones and take no store; of the
-- card's header, only BAR0 and three bits of COMMAND can be written.
abbrev in_slot_1 : ℕ → Bool
in_slot_1 a = leb (slot_word 1 0) a && ltb a (slot_word 1 0 + 64)

abbrev pub card_config : Memory → ℕ → ℕ
card_config s a = if in_slot_1 a then s a % 2 ^ 32 else 0xFFFF_FFFF

abbrev card_store : ℕ → ℕ → Memory → Memory
card_store a v s =
    if a == slot_word 1 pci_bar0
    then store s a (v / 4096 * 4096)
    else if a == slot_word 1 pci_command
    then store s a (v % 8)
    else s

abbrev pub card_board : Machine Memory
card_board = record {
  load32 = λ a s. (card_config s a, s);
  store32 = card_store;
  delay = λ n s. s;
  print = λ t l s. s;
}

in_slot : (dev : ℕ) (s : Memory) → card_config s (slot_word dev 0) ≡ smarteth_id → dev ≡ 1
in_slot dev s ours = ground arith

card_store_other :
    (a v b : ℕ) (s : Memory) → a ≢ b → card_config (card_store a v s) b ≡ card_config s b
card_store_other a v b s ne = ground arith

pub card_board-ConfigBus : ConfigBus card_board card_config
card_board-ConfigBus = record {
  load = λ dev o s h k. refl;
  is_word = λ s a. ground arith;
  printed = λ t l s a. refl;
  stored_other = λ dev o v b s h ours which ne. card_store_other (slot_word dev o) v b s ne;
  stored_bar0 = λ dev s h ours. let e = in_slot dev s ours in rw e refl;
  stored_command = λ dev v s h ours. let e = in_slot dev s ours in rw e (omega arith, omega arith);
}

-- SmartEth in slot 1.
abbrev pub populated : Memory
populated = store (λ _. 0) (slot_word 1 0) smarteth_id
