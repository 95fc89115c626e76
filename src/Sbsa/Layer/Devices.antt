-- ===== src/Sbsa/Layer/Devices.antt =====
-- The SBSA layer: DMA, interrupts and the SMMU, of sbsa-acs-drv/files/platform/pal_linux/files/src (pal_dma.c, pal_gic.c, pal_smmu.c).
-- But for messages the functions have the text of the BSA layer, and their models are the same.
use linux_acs.Prelude.{Bool, List, Option, ℕ}
use linux_acs.Dma.{DmaTable, Host, dma_create_info_table}
use linux_acs.Dma.Attrs.{Kernel, decode_mem_attr_sh, get_attrs, is_pte}
use linux_acs.Dma.Buffers.{Allocated, Dma, DmaAnswers, mem_alloc, mem_free}
use linux_acs.Dma.Transfer.{Scsi, start_from_device, start_to_device}
use linux_acs.Gic.{IsrWorld, Run, bsa_install_isr}
use linux_acs.Mmio.{Io}
use linux_acs.Mmio.Pasids.{max_pasids}
use linux_acs.Smmu.{
  Answer, Device, Range, check_dev_attach, check_device_iova, start_monitor_iova, stop_monitor_iova,
}

abbrev sbsa_dma_mem_alloc : Bool → DmaAnswers → Dma → Option Allocated
sbsa_dma_mem_alloc = mem_alloc

abbrev sbsa_dma_mem_free : Bool → ℕ → ℕ → Dma → Option Dma
sbsa_dma_mem_free = mem_free

abbrev sbsa_dma_create_info_table : List Host → DmaTable
sbsa_dma_create_info_table = dma_create_info_table

abbrev sbsa_dma_start_from_device : Scsi → ℕ → ℕ
sbsa_dma_start_from_device = start_from_device

abbrev sbsa_dma_start_to_device : Scsi → ℕ → ℕ
sbsa_dma_start_to_device = start_to_device

abbrev sbsa_is_pte : ℕ → Bool
sbsa_is_pte = is_pte

abbrev sbsa_decode_mem_attr_sh : Kernel → ℕ → ℕ × ℕ
sbsa_decode_mem_attr_sh = decode_mem_attr_sh

abbrev sbsa_dma_mem_get_attrs : Kernel → Option (ℕ × ℕ)
sbsa_dma_mem_get_attrs = get_attrs

abbrev sbsa_gic_install_isr : IsrWorld → ℕ → Run
sbsa_gic_install_isr = bsa_install_isr

abbrev sbsa_smmu_check_dev_attach : Option Device → Bool
sbsa_smmu_check_dev_attach = check_dev_attach

abbrev sbsa_smmu_device_start_monitor_iova : Option Device → Bool
sbsa_smmu_device_start_monitor_iova = start_monitor_iova

abbrev sbsa_smmu_device_stop_monitor_iova : Option Device → Bool
sbsa_smmu_device_stop_monitor_iova = stop_monitor_iova

abbrev sbsa_smmu_check_device_iova : List Range → Option Device → ℕ → Answer
sbsa_smmu_check_device_iova = check_device_iova

abbrev sbsa_smmu_max_pasids : (io : Io) → ℕ → io.State → Option (ℕ × io.State)
sbsa_smmu_max_pasids = max_pasids
