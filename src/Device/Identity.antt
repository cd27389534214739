-- ===== src/Device/Identity.antt =====
-- By what the two QEMU devices present themselves (smarteth_class_init and smarteth_mmio_ops, and their
-- counterparts in smarteth_sc_bridge.c) and by what the Linux driver (smarteth_ids) and the firmware's
-- scan know them.
use smart_eth.Base.{
  ℕ, ◌+◌, ◌*◌, ◌^◌, ◌<◌, ◌≡◌, ◌↔◌, refl, arith, Bool, true, false, ◌&&◌, ◌||◌, List, [], ◌∷◌, ◌==◌,
}
use smart_eth.PciTest.Scan.Slots.{smarteth_id}

-- What a class function writes into its PCIDeviceClass, without the device class of the PCI standard.
pub record Identity : Type 0 where
  pub vendor_id : ℕ
  pub device_id : ℕ
  pub revision : ℕ

abbrev pub smarteth_class : Identity
smarteth_class = record { vendor_id = 0x1efd; device_id = 0x0001; revision = 0x01 }

abbrev pub sc_bridge_class : Identity
sc_bridge_class = record { vendor_id = 0x1efd; device_id = 0x0001; revision = 0x01 }

-- The sizes of access that a region takes, and those that its handlers are called with.
pub record AccessSizes : Type 0 where
  pub valid_min : ℕ
  pub valid_max : ℕ
  pub impl_min : ℕ
  pub impl_max : ℕ

abbrev pub smarteth_mmio_ops : AccessSizes
smarteth_mmio_ops = record { valid_min = 4; valid_max = 8; impl_min = 4; impl_max = 8 }

abbrev pub sc_bridge_mmio_ops : AccessSizes
sc_bridge_mmio_ops = record { valid_min = 4; valid_max = 8; impl_min = 4; impl_max = 8 }

-- The table of the Linux driver: vendor and device.
abbrev pub smarteth_ids : List (ℕ × ℕ)
smarteth_ids = (0x1efd, 0x0001) ∷ []

abbrev pub in_table : List (ℕ × ℕ) → ℕ → ℕ → Bool
in_table [] vendor device = false
in_table ((v, d) ∷ ids) vendor device = (v == vendor && d == device) || in_table ids vendor device

-- The first word of configuration space.
abbrev pub id_word : ℕ → ℕ → ℕ
id_word vendor device = device * 2 ^ 16 + vendor

-- The Linux driver and the firmware's scan know the same devices: those with the two ids that both
-- QEMU devices have.
pub in_table-smarteth_id :
    (vendor device : ℕ)
    → vendor < 2 ^ 16
    → (in_table smarteth_ids vendor device ≡ true) ↔ (id_word vendor device ≡ smarteth_id)
in_table-smarteth_id vendor device h = ((λ e. ground (arith, e)), λ e. ground (arith, e))

both_known :
    (id_word smarteth_class.vendor_id smarteth_class.device_id ≡ smarteth_id)
    × (id_word sc_bridge_class.vendor_id sc_bridge_class.device_id ≡ smarteth_id)
both_known = (refl, refl)
