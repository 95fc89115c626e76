-- ===== src/Bdf.antt =====
-- PCIe device addresses: bsa-acs-drv/files/platform/pal_linux/files/include/bsa_pcie_enum.h and
-- src/pal_pcie_enumeration.c beside it. A BDF packs segment, bus, device and function, a byte each.
--
-- The kernel's PCI core is the parameter `PciCore`: its device table and its devfn macros.
pub mod Roundtrip
pub mod Lookup
mod Tests
use linux_acs.Prelude.{
  ℕ, Option, none, some, ◌≡◌, ◌<◌, ◌==◌, if◌then◌else◌, bit_or, shl, shr, low_bits, u32,
}

-- PCIE_EXTRACT_BDF_SEG, _BUS, _DEV and _FUNC, with the mask 0xFF as `low_bits _ 8`.
pub extract_seg : ℕ → ℕ
extract_seg bdf = low_bits (shr bdf 24) 8

pub extract_bus : ℕ → ℕ
extract_bus bdf = low_bits (shr bdf 16) 8

pub extract_dev : ℕ → ℕ
extract_dev bdf = low_bits (shr bdf 8) 8

pub extract_func : ℕ → ℕ
extract_func bdf = low_bits bdf 8

-- PCIE_CREATE_BDF, as the 32-bit value that its callers keep. No operand is masked.
pub create_bdf : ℕ → ℕ → ℕ → ℕ → ℕ
create_bdf seg bus dev func =
    u32 (bit_or (bit_or (bit_or (shl seg 24) (shl bus 16)) (shl dev 8)) func)

-- The fields of a `struct pci_dev` by which it is addressed.
pub record PciDev : Type 0 where
  pub domain_nr : ℕ
  pub bus_number : ℕ
  pub devfn : ℕ
  pub class : ℕ

-- The kernel's PCI core: `pci_get_domain_bus_and_slot`, `pci_get_class` with its previous device,
-- the macros PCI_DEVFN, PCI_SLOT and PCI_FUNC, and the bytes of a configuration space.
pub record PciCore : Type 0 where
  pub get_domain_bus_and_slot : ℕ → ℕ → ℕ → Option PciDev
  pub get_class : ℕ → Option PciDev → Option PciDev
  pub devfn_of : ℕ → ℕ → ℕ
  pub slot_of : ℕ → ℕ
  pub func_of : ℕ → ℕ
  pub config_byte : PciDev → ℕ → ℕ

-- What the kernel documents of the macros: a devfn is a byte that holds a slot of five bits and a
-- function of three, and PCI_DEVFN puts the two together again.
pub record DevfnLaws (k : PciCore) : Type 0 where
  pub slot_small : (d : ℕ) → d < 256 → k.slot_of d < 32
  pub func_small : (d : ℕ) → d < 256 → k.func_of d < 8
  pub join : (d : ℕ) → d < 256 → k.devfn_of (k.slot_of d) (k.func_of d) ≡ d

module _ (k : PciCore) where
  -- pal_pcie_get_bdf
  pub get_bdf : PciDev → ℕ
  unfolding create_bdf
  get_bdf p = create_bdf p.domain_nr p.bus_number (k.slot_of p.devfn) (k.func_of p.devfn)

  -- The lookup that six functions of the file share.
  pub find_dev : ℕ → Option PciDev
  unfolding extract_seg extract_bus extract_dev extract_func
  find_dev bdf =
      k.get_domain_bus_and_slot (extract_seg bdf) (extract_bus bdf)
        (k.devfn_of (extract_dev bdf) (extract_func bdf))

  -- pal_pci_bdf_to_dev. The pointer to the embedded `struct device` stands for its `pci_dev`.
  pub bdf_to_dev : ℕ → Option PciDev
  unfolding find_dev
  bdf_to_dev bdf = elim (find_dev bdf) [ none ↦ none | some p ↦ some p ]

  -- pal_pcie_check_device_valid: 0 if the device is there, else 1.
  pub check_device_valid : ℕ → ℕ
  unfolding find_dev
  check_device_valid bdf = elim (find_dev bdf) [ none ↦ 1 | some p ↦ 0 ]

  -- pal_pcie_get_bdf_wrapper. `none` is the dereference of the null pointer that
  -- `pci_get_class` returns when no device of the class is left.
  pub get_bdf_wrapper : ℕ → ℕ → Option ℕ
  unfolding get_bdf find_dev
  get_bdf_wrapper class_code bdf =
      let from = if bdf == 0 then none else find_dev bdf in
      elim (k.get_class class_code from) [ none ↦ none | some p ↦ some (get_bdf p) ]

  -- pal_pci_read_config_byte: `none` is the read through a null device.
  pub read_config_byte : ℕ → ℕ → Option ℕ
  unfolding find_dev
  read_config_byte bdf offset = elim (find_dev bdf) [
    | none ↦ none
    | some p ↦ some (k.config_byte p offset)
  ]

  -- pal_pci_write_config_byte: the device, the offset and the byte of the kernel's call; `none` is
  -- the write through a null device.
  pub write_config_byte : ℕ → ℕ → ℕ → Option (PciDev × ℕ × ℕ)
  unfolding find_dev
  write_config_byte bdf offset val = elim (find_dev bdf) [
    | none ↦ none
    | some p ↦ some (p, offset, val)
  ]
