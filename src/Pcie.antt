-- ===== src/Pcie.antt =====
-- What the PCIe tests ask of the kernel about one device: pal_pcie.c of
-- bsa-acs-drv/files/platform/pal_linux/files/src. The kernel's PCI core is the parameter `Pci`.
pub mod Msi
pub mod Routing
pub mod Mcfg
pub mod Answers
mod Tests
use linux_acs.Prelude.{
  ℕ, ◌+◌, ◌%◌, Bool, true, false, ◌&&◌, not, Option, none, some, List, [], ◌∷◌, ◌==◌, if◌then◌else◌,
  shr, low_bits, ◌>>=◌,
}

-- A `struct pci_dev`: its fields and what the kernel's accessors return for it. `bridge_self` says
-- whether bus->self is there; `root_port` is the segment, bus and devfn of its root port;
-- `subordinate` holds the devices behind it, by their words at configuration offset 0x10.
pub record Device : Type 0 where
  pub iommu_group : Bool
  pub dma_mask : ℕ
  pub driver_name : Bool
  pub subordinate : Option (List ℕ)
  pub bridge_self : Bool
  pub root_port : Option (ℕ × ℕ × ℕ)
  pub class : ℕ
  pub is_bridge : Bool
  pub pcie_type : ℕ
  pub devctl : ℕ
  pub dma_supported : ℕ
  pub dma_coherent : Bool
  pub multifunction : Bool
  pub ext_capability : ℕ → ℕ
  pub config_word : ℕ → ℕ

-- pci_get_domain_bus_and_slot on PCI_DEVFN, the macros PCI_SLOT and PCI_FUNC, and
-- PCI_CLASS_BRIDGE_HOST, DMA_BIT_MASK(64) and DEVCTL_SNOOP_BIT of headers that are not here.
pub record Pci : Type 0 where
  pub get_dev : ℕ → ℕ → ℕ → ℕ → Option Device
  pub slot_of : ℕ → ℕ
  pub func_of : ℕ → ℕ
  pub class_host : ℕ
  pub mask_64 : ℕ
  pub snoop_bit : ℕ

-- The answer for a device that may not be there.
abbrev pub or_absent {ℓ} : {A : Type ℓ} → Option Device → A → (Device → A) → A
or_absent none a f = a
or_absent (some d) a f = f d

abbrev pub flag : Bool → ℕ
flag true = 1
flag false = 0

-- The loop over the devices behind a bridge, with status 0 so far: `data & 0x6` is tested where
-- data is not 0.
unfoldable pub scan_children : List ℕ → ℕ
scan_children [] = 0
scan_children (word ∷ words) =
    let rest = scan_children words in
    if word == 0 then rest else (if low_bits (shr word 1) 2 == 0 then rest else 1)

-- An answer of `none` is a read through a null pointer.
module _ (k : Pci) (seg bus dev fn : ℕ) where
  abbrev pub pdev : Option Device
  pdev = k.get_dev seg bus dev fn

  unfoldable pub is_device_behind_smmu : Option ℕ
  is_device_behind_smmu = pdev >>= λ d. some (flag d.iommu_group)

  unfoldable pub is_devicedma_64bit : ℕ
  is_devicedma_64bit = or_absent pdev 0 λ d. flag (d.dma_mask == k.mask_64)

  unfoldable pub device_driver_present : ℕ
  device_driver_present = or_absent pdev 0 λ d. flag d.driver_name

  unfoldable pub scan_bridge_devices_and_check_memtype : Option ℕ
  unfolding scan_children
  scan_bridge_devices_and_check_memtype =
      pdev >>= λ d. d.subordinate >>= λ ws. some (scan_children ws)

  -- The status, and the four values behind the pointers.
  unfoldable pub get_root_port_bdf : Option (ℕ × ℕ × ℕ × ℕ × ℕ)
  get_root_port_bdf = pdev >>= λ d.
      if not d.bridge_self then some (1, seg, bus, dev, fn) else elim d.root_port [
        | none ↦ some (2, seg, bus, dev, fn)
        | some (seg', bus', devfn) ↦ some (0, seg', bus', k.slot_of devfn, k.func_of devfn)
      ]

  -- class is 16 bits wide.
  unfoldable pub get_device_type : ℕ
  get_device_type =
      or_absent pdev 0 λ d.
        if low_bits (shr d.class 8) 16 == k.class_host then 2 else (if d.is_bridge then 3 else 1)

  unfoldable pub get_pcie_type : ℕ
  get_pcie_type = or_absent pdev 0 λ d. d.pcie_type

  unfoldable pub get_snoop_bit : ℕ
  get_snoop_bit = or_absent pdev 2 λ d. low_bits (shr d.devctl k.snoop_bit) 1

  unfoldable pub get_dma_support : ℕ
  get_dma_support = or_absent pdev 2 λ d. d.dma_supported

  unfoldable pub get_dma_coherent : ℕ
  get_dma_coherent = or_absent pdev 2 λ d. flag d.dma_coherent

  -- The word stored behind `val`.
  unfoldable pub read_ext_cap_word : ℕ → ℕ → ℕ
  read_ext_cap_word ext_cap_id offset = or_absent pdev 0 λ d.
      if d.ext_capability ext_cap_id == 0
      then 0
      else d.config_word (d.ext_capability ext_cap_id + offset)

  -- 0 says that the device is multifunction.
  unfoldable pub multifunction_support : ℕ
  multifunction_support = or_absent pdev 1 λ d. if d.multifunction then 0 else 1
