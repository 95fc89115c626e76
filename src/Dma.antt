-- ===== src/Dma.antt =====
-- The DMA controllers of the machine: pal_dma_create_info_table of
-- bsa-acs-drv/files/platform/pal_linux/files/src/pal_dma.c.
pub mod Buffers
pub mod Controllers
pub mod Attrs
pub mod Transfer
mod Tests
use linux_acs.Prelude.{
  ℕ, ◌+◌, Bool, true, false, Option, none, some, List, [], ◌∷◌, ◌++◌, map, bit_or, ◌==◌,
  if◌then◌else◌,
}

-- A SCSI host: whether its ATA port, if it has one with a device, is attached to an SMMU; the
-- attributes of its DMA device from ACPI or PCI, and from the device tree; and the types of its
-- devices, in the order of __scsi_iterate_devices.
pub record Host : Type 0 where
  pub number : ℕ
  pub port : Option Bool
  pub dma_attr : ℕ
  pub dma_coherent : ℕ
  pub devices : List ℕ

-- An entry of DMA_INFO_TABLE, without the pointers to the port and the device.
pub record DmaEntry : Type 0 where
  pub host : ℕ
  pub flags : ℕ
  pub type : ℕ

-- DMA_INFO_TABLE, and the hosts that scsi_host_lookup returned and that were not put back.
pub record DmaTable : Type 0 where
  pub num_dma_ctrls : ℕ
  pub info : List DmaEntry
  pub held : ℕ

-- IOMMU_ATTACHED of pal_linux.h.
abbrev pub iommu_attached : ℕ
iommu_attached = 0x10

unfoldable pub entry_flags : Host → Bool → ℕ
entry_flags h attached =
    let flags = if h.dma_attr == 0 then h.dma_coherent else h.dma_attr in
    if attached then bit_or flags iommu_attached else flags

-- The loop over the devices of a host.
unfoldable pub device_loop : Host → Bool → List ℕ → DmaTable → DmaTable
unfolding entry_flags
device_loop h attached [] t = t
device_loop h attached (type ∷ types) t =
    let e : DmaEntry = record { host = h.number; flags = entry_flags h attached; type = type } in
    device_loop h attached types
      (record t { num_dma_ctrls = t.num_dma_ctrls + 1; info = t.info ++ e ∷ [] })

-- The loop over the hosts up to the first number without one: `continue` for a host without an
-- ATA port, else the devices and scsi_host_put.
unfoldable pub host_loop : List Host → DmaTable → DmaTable
unfolding device_loop
host_loop [] t = t
host_loop (h ∷ hs) t = elim h.port [
  | none ↦ host_loop hs (record t { held = t.held + 1 })
  | some attached ↦ host_loop hs (device_loop h attached h.devices t)
]

unfoldable pub dma_create_info_table : List Host → DmaTable
unfolding host_loop
dma_create_info_table hs = host_loop hs (record { num_dma_ctrls = 0; info = []; held = 0 })
