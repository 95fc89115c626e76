-- ===== src/Mem.antt =====
-- Memory of the BSA layer: pal_aligned_alloc, and shared and cacheable memory of
-- bsa-acs-drv/files/platform/pal_linux/files/src/pal_misc.c.
pub mod Aligned
pub mod Print
mod Tests
use linux_acs.Prelude.{
  ℕ, ◌+◌, ◌-◌, ◌^◌, Option, none, some, ◌>>=◌, bit_and, shr, low_bits, u32, u64, ◌==◌,
  if◌then◌else◌, ◌*◌,
}
use linux_acs.Bdf.{PciDev, PciCore, bdf_to_dev}

-- `~` of a uint64_t.
abbrev pub not64 : ℕ → ℕ
not64 x = 2 ^ 64 - 1 - x

-- `alloc` is kzalloc, from a size to an address. Mem + alignment - 1 is 64 bits wide, alignment - 1
-- and size + alignment are 32 bits wide.
unfoldable pub aligned_alloc : (ℕ → Option ℕ) → ℕ → ℕ → Option ℕ
aligned_alloc alloc alignment size =
    let mask = not64 (u32 (alignment + (2 ^ 32 - 1))) in
    alloc (u32 (size + alignment)) >>= λ mem.
    some (bit_and (u64 (u64 (mem + alignment) + (2 ^ 64 - 1))) mask)

-- gSharedMemory, with 0 for null. pal_mem_allocate_shared does not look at it before, and the
-- product is 32 bits wide.
unfoldable pub mem_allocate_shared : (ℕ → Option ℕ) → ℕ → ℕ → ℕ
mem_allocate_shared kmalloc num_pe sizeofentry = elim (kmalloc (u32 (num_pe * sizeofentry))) [
  | none ↦ 0
  | some p ↦ p
]

-- pal_mem_get_shared_addr
unfoldable pub mem_get_shared_addr : ℕ → ℕ
mem_get_shared_addr shared = u64 shared

-- pal_mem_alloc_cacheable and pal_mem_free_cacheable: the device of the address, and the call of
-- dma_alloc_coherent or dma_free_coherent for it, null included.
unfoldable pub mem_alloc_cacheable :
    PciCore → (Option PciDev → ℕ → Option (ℕ × ℕ)) → ℕ → ℕ → Option (ℕ × ℕ)
mem_alloc_cacheable k alloc_coherent bdf size = alloc_coherent (bdf_to_dev k bdf) size

unfoldable pub mem_free_cacheable : PciCore → ℕ → ℕ → ℕ → ℕ → Option PciDev × ℕ × ℕ × ℕ
mem_free_cacheable k bdf size va pa = (bdf_to_dev k bdf, size, va, pa)
