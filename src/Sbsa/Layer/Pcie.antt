-- ===== src/Sbsa/Layer/Pcie.antt =====
-- The SBSA layer: PCIe devices and peripherals, of sbsa-acs-drv/files/platform/pal_linux/files/src (pal_pcie.c, pal_pcie_enumeration.c, pal_peripherals.c).
-- But for messages the functions have the text of the BSA layer, and their models are the same.
use linux_acs.Prelude.{Bool, List, Option, ℕ}
use linux_acs.Bdf.{
  PciCore, PciDev, bdf_to_dev, check_device_valid, get_bdf, get_bdf_wrapper, read_config_byte,
  write_config_byte,
}
use linux_acs.Pcie.{
  Pci, device_driver_present, get_device_type, get_dma_coherent, get_dma_support, get_pcie_type,
  get_root_port_bdf, get_snoop_bit, is_device_behind_smmu, is_devicedma_64bit, read_ext_cap_word,
  scan_bridge_devices_and_check_memtype,
}
use linux_acs.Pcie.Mcfg.{McfgTable, get_mcfg_ecam}
use linux_acs.Pcie.Msi.{MsiCore, MsiDesc, Vector, get_msi_vectors, irq_to_hwirq, read_msi_vector}
use linux_acs.Pcie.Routing.{IrqMap, Prt, get_legacy_irq_map}
use linux_acs.Peripheral.{
  Device, InfoTable, Remap, is_pcie, memory_ioremap, peripheral_create_info_table,
}

abbrev sbsa_irq_to_hwirq : Option ℕ → ℕ
sbsa_irq_to_hwirq = irq_to_hwirq

abbrev sbsa_pci_read_msi_vector : MsiCore → MsiDesc → Vector
sbsa_pci_read_msi_vector = read_msi_vector

abbrev sbsa_get_msi_vectors : MsiCore → List Bool → Option (List MsiDesc) → List Vector × ℕ
sbsa_get_msi_vectors = get_msi_vectors

abbrev sbsa_pcie_get_mcfg_ecam : Option McfgTable → Option ℕ
sbsa_pcie_get_mcfg_ecam = get_mcfg_ecam

abbrev sbsa_pcie_get_legacy_irq_map : ℕ → Prt → IrqMap → ℕ × IrqMap
sbsa_pcie_get_legacy_irq_map = get_legacy_irq_map

abbrev sbsa_pcie_is_device_behind_smmu : Pci → ℕ → ℕ → ℕ → ℕ → Option ℕ
sbsa_pcie_is_device_behind_smmu = is_device_behind_smmu

abbrev sbsa_pcie_is_devicedma_64bit : Pci → ℕ → ℕ → ℕ → ℕ → ℕ
sbsa_pcie_is_devicedma_64bit = is_devicedma_64bit

abbrev sbsa_pcie_device_driver_present : Pci → ℕ → ℕ → ℕ → ℕ → ℕ
sbsa_pcie_device_driver_present = device_driver_present

abbrev sbsa_pcie_scan_bridge_devices_and_check_memtype : Pci → ℕ → ℕ → ℕ → ℕ → Option ℕ
sbsa_pcie_scan_bridge_devices_and_check_memtype = scan_bridge_devices_and_check_memtype

abbrev sbsa_pcie_get_root_port_bdf : Pci → ℕ → ℕ → ℕ → ℕ → Option (ℕ × ℕ × ℕ × ℕ × ℕ)
sbsa_pcie_get_root_port_bdf = get_root_port_bdf

abbrev sbsa_pcie_get_device_type : Pci → ℕ → ℕ → ℕ → ℕ → ℕ
sbsa_pcie_get_device_type = get_device_type

abbrev sbsa_pcie_get_pcie_type : Pci → ℕ → ℕ → ℕ → ℕ → ℕ
sbsa_pcie_get_pcie_type = get_pcie_type

abbrev sbsa_pcie_get_snoop_bit : Pci → ℕ → ℕ → ℕ → ℕ → ℕ
sbsa_pcie_get_snoop_bit = get_snoop_bit

abbrev sbsa_pcie_get_dma_support : Pci → ℕ → ℕ → ℕ → ℕ → ℕ
sbsa_pcie_get_dma_support = get_dma_support

abbrev sbsa_pcie_get_dma_coherent : Pci → ℕ → ℕ → ℕ → ℕ → ℕ
sbsa_pcie_get_dma_coherent = get_dma_coherent

abbrev sbsa_pcie_read_ext_cap_word : Pci → ℕ → ℕ → ℕ → ℕ → ℕ → ℕ → ℕ
sbsa_pcie_read_ext_cap_word = read_ext_cap_word

abbrev sbsa_pcie_get_bdf : PciCore → PciDev → ℕ
sbsa_pcie_get_bdf = get_bdf

abbrev sbsa_pcie_get_bdf_wrapper : PciCore → ℕ → ℕ → Option ℕ
sbsa_pcie_get_bdf_wrapper = get_bdf_wrapper

abbrev sbsa_pci_bdf_to_dev : PciCore → ℕ → Option PciDev
sbsa_pci_bdf_to_dev = bdf_to_dev

abbrev sbsa_pci_read_config_byte : PciCore → ℕ → ℕ → Option ℕ
sbsa_pci_read_config_byte = read_config_byte

abbrev sbsa_pci_write_config_byte : PciCore → ℕ → ℕ → ℕ → Option (PciDev × ℕ × ℕ)
sbsa_pci_write_config_byte = write_config_byte

abbrev sbsa_pcie_check_device_valid : PciCore → ℕ → ℕ
sbsa_pcie_check_device_valid = check_device_valid

abbrev sbsa_peripheral_create_info_table : PciCore → List Device → InfoTable
sbsa_peripheral_create_info_table = peripheral_create_info_table

abbrev sbsa_peripheral_is_pcie : PciCore → (PciDev → Bool) → ℕ → ℕ → ℕ → ℕ → ℕ
sbsa_peripheral_is_pcie = is_pcie

abbrev sbsa_memory_ioremap : ℕ → Remap
sbsa_memory_ioremap = memory_ioremap
