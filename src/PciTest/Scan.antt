-- ===== src/PciTest/Scan.antt =====
-- `smarteth_pci_scan` of pci_test.c.
pub mod Slots
pub mod Claim
pub mod First
use Prim.Native.String.{String}
use smart_eth.Base.{
  ℕ, zero, suc, ◌+◌, ◌-◌, ◌*◌, ◌/◌, ◌%◌, ◌^◌, ◌≡◌, Bool, true, false, ◌&&◌, ◌||◌, bit_and, bit_or,
  List, [], ◌∷◌, ◌==◌, if◌then◌else◌, u8, u16, u32, not32, has, Option, none, some,
}
use smart_eth.PciTest.{Machine, Io, ◌>>=◌, ◌>>◌, pure}
use smart_eth.PciTest.Config.{
  config_read32, config_read16, config_read8, config_write32, config_write16,
}

abbrev pub pci_vendor_id : ℕ
pci_vendor_id = 0x00

abbrev pub pci_device_id : ℕ
pci_device_id = 0x02

abbrev pub pci_command : ℕ
pci_command = 0x04

abbrev pub pci_header_type : ℕ
pci_header_type = 0x0E

abbrev pub pci_bar0 : ℕ
pci_bar0 = 0x10

abbrev pub smarteth_vendor_id : ℕ
smarteth_vendor_id = 0x1efd

abbrev pub smarteth_device_id : ℕ
smarteth_device_id = 0x0001

-- The address that the firmware gives to an unassigned BAR0.
abbrev pub pci_mmio_base : ℕ
pci_mmio_base = 0x40000000

module _ {S : Type 0} (m : Machine S) where
  abbrev pub log : String → List ℕ → S → S
  log text args = m.print text args

  -- BAR0 is programmed only if it holds no address.
  pub assign_bar0 : ℕ → ℕ → S → S
  assign_bar0 dev bar0_lo =
      if bit_and bar0_lo (not32 0xF) == 0
      then (λ s.
          config_write32 m 0 dev 0 pci_bar0 pci_mmio_base (log "      Programming BAR0...\n" [] s))
      else (λ s. s)

  -- Memory space and bus mastering are switched on in the COMMAND register.
  pub enable_device : ℕ → S → S
  enable_device dev s =
      let r = config_read16 m 0 dev 0 pci_command s in
      let cmd = bit_or r.0 0x0006 in
      log "      COMMAND reg = 0x%x\n" (cmd ∷ []) (config_write16 m 0 dev 0 pci_command cmd r.1)

  pub read_back_bar0 : ℕ → Io S ℕ
  read_back_bar0 dev = do
    bar0_lo ← config_read32 m 0 dev 0 pci_bar0
    let bar0 = bit_and bar0_lo (not32 0xF)
    log "      BAR0 after prog = 0x%x\n" (bar0 ∷ [])
    if bit_and bar0 (not32 0xF) == 0
        then (do log "[PCI] BAR0 still zero after programming!\n" []; pure 0)
        else (do log "[PCI] BAR0 programmed successfully\n" []; pure bar0)

  -- The body of the scan behind the test for SmartEth's ids.
  pub claim_device : ℕ → Io S ℕ
  claim_device dev = do
    log "[PCI] Found SmartEth at Dev %d\n" (dev ∷ [])
    raw ← config_read32 m 0 dev 0 pci_bar0
    log "      RAW BAR0 before = 0x%x\n" (raw ∷ [])
    assign_bar0 dev raw
    enable_device dev
    read_back_bar0 dev

  -- One round of the loop: `some` is a return, `none` goes on to the next slot.
  pub scan_slot : ℕ → Io S (Option ℕ)
  scan_slot dev = do
    vendor ← config_read16 m 0 dev 0 pci_vendor_id
    if vendor == 0xFFFF || vendor == 0x0000 then pure none else (do
      device ← config_read16 m 0 dev 0 pci_device_id
      hdr_type ← config_read8 m 0 dev 0 pci_header_type
      log "  Dev %d: vendor=0x%x device=0x%x hdr=0x%x\n" (dev ∷ vendor ∷ device ∷ hdr_type ∷ [])
      if vendor == smarteth_vendor_id && device == smarteth_device_id
          then (do bar0 ← claim_device dev; pure (some bar0))
          else pure none)

  -- Return from the loop, or go on.
  abbrev pub return_or : Option ℕ → Io S ℕ → Io S ℕ
  return_or (some bar0) k = pure bar0
  return_or none k = k

  -- `left` slots from `dev` on.
  pub scan_from : ℕ → ℕ → Io S ℕ
  scan_from zero dev = do log "[PCI] SmartEth device NOT found!\n" []; pure 0
  scan_from (suc left) dev = do found ← scan_slot dev; return_or found (scan_from left (dev + 1))

  unfoldable pub pci_scan : Io S ℕ
  pci_scan = do log "[PCI] Scanning for SmartEth device...\n" []; scan_from 32 0
