-- ===== src/Sbsa/Layer/Memory.antt =====
-- The SBSA layer: memory and registers, of sbsa-acs-drv/files/platform/pal_linux/files/src (pal_misc.c).
-- But for messages the functions have the text of the BSA layer, and their models are the same.
use linux_acs.Prelude.{Option, ℕ}
use linux_acs.Bdf.{PciCore, PciDev}
use linux_acs.Mem.{
  aligned_alloc, mem_alloc_cacheable, mem_allocate_shared, mem_free_cacheable, mem_get_shared_addr,
}
use linux_acs.Mmio.{Io}
use linux_acs.Mmio.Bsa.{
  bsa_mmio_read, bsa_mmio_read16, bsa_mmio_read64, bsa_mmio_read8, bsa_mmio_write, bsa_mmio_write16,
  bsa_mmio_write64, bsa_mmio_write8,
}

abbrev sbsa_mmio_read8 : (io : Io) → ℕ → io.State → Option (ℕ × io.State)
sbsa_mmio_read8 = bsa_mmio_read8

abbrev sbsa_mmio_read16 : (io : Io) → ℕ → io.State → Option (ℕ × io.State)
sbsa_mmio_read16 = bsa_mmio_read16

abbrev sbsa_mmio_read64 : (io : Io) → ℕ → io.State → Option (ℕ × io.State)
sbsa_mmio_read64 = bsa_mmio_read64

abbrev sbsa_mmio_read : (io : Io) → ℕ → io.State → Option (ℕ × io.State)
sbsa_mmio_read = bsa_mmio_read

abbrev sbsa_mmio_write8 : (io : Io) → ℕ → ℕ → io.State → Option io.State
sbsa_mmio_write8 = bsa_mmio_write8

abbrev sbsa_mmio_write16 : (io : Io) → ℕ → ℕ → io.State → Option io.State
sbsa_mmio_write16 = bsa_mmio_write16

abbrev sbsa_mmio_write64 : (io : Io) → ℕ → ℕ → io.State → Option io.State
sbsa_mmio_write64 = bsa_mmio_write64

abbrev sbsa_mmio_write : (io : Io) → ℕ → ℕ → io.State → Option io.State
sbsa_mmio_write = bsa_mmio_write

abbrev sbsa_mem_alloc_cacheable :
    PciCore → (Option PciDev → ℕ → Option (ℕ × ℕ)) → ℕ → ℕ → Option (ℕ × ℕ)
sbsa_mem_alloc_cacheable = mem_alloc_cacheable

abbrev sbsa_mem_free_cacheable : PciCore → ℕ → ℕ → ℕ → ℕ → Option PciDev × ℕ × ℕ × ℕ
sbsa_mem_free_cacheable = mem_free_cacheable

abbrev sbsa_mem_allocate_shared : (ℕ → Option ℕ) → ℕ → ℕ → ℕ
sbsa_mem_allocate_shared = mem_allocate_shared

abbrev sbsa_mem_get_shared_addr : ℕ → ℕ
sbsa_mem_get_shared_addr = mem_get_shared_addr

abbrev sbsa_aligned_alloc : (ℕ → Option ℕ) → ℕ → ℕ → Option ℕ
sbsa_aligned_alloc = aligned_alloc
