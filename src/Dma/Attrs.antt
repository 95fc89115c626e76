-- ===== src/Dma/Attrs.antt =====
-- The memory attributes of a buffer, from the kernel's page tables: is_pte, decode_mem_attr_sh and
-- pal_dma_mem_get_attrs of bsa-acs-drv/files/platform/pal_linux/files/src/pal_dma.c.
pub mod Leaf
use linux_acs.Prelude.{
  ℕ, zero, suc, ◌*◌, Bool, true, false, not, Option, none, some, ◌>>=◌, bit_and, shr, u32, ◌==◌,
  if◌then◌else◌,
}

-- The kernel: PTE_ATTRINDX_MASK and PTE_SHARED, the register MAIR_EL1, the offset functions for
-- the buffer, from the pointer to an entry to a pointer into the next table, and the entry at a
-- pointer.
pub record Kernel : Type 0 where
  pub attrindx_mask : ℕ
  pub shared_mask : ℕ
  pub mair : ℕ
  pub pgd_offset : Option ℕ
  pub pud_offset : ℕ → Option ℕ
  pub pmd_offset : ℕ → Option ℕ
  pub pte_offset : ℕ → Option ℕ
  pub entry : ℕ → ℕ

unfoldable pub is_pte : ℕ → Bool
is_pte val = not (bit_and val 0x2 == 0)

-- *attr and *sh.
unfoldable pub decode_mem_attr_sh : Kernel → ℕ → ℕ × ℕ
decode_mem_attr_sh k val =
    let attrindx = u32 (shr (bit_and val k.attrindx_mask) 2) in
    (u32 (bit_and (shr k.mair (attrindx * 8)) 0xff), u32 (shr (bit_and val k.shared_mask) 8))

-- `none` is the result -1.
unfoldable pub get_attrs : Kernel → Option (ℕ × ℕ)
unfolding is_pte decode_mem_attr_sh
get_attrs k = k.pgd_offset >>= λ pgd. k.pud_offset pgd >>= λ pud.
    if bit_and (k.entry pud) 0x2 == 0
    then some (decode_mem_attr_sh k (k.entry pud))
    else (k.pmd_offset pud >>= λ pmd.
        if bit_and (k.entry pmd) 0x2 == 0
        then some (decode_mem_attr_sh k (k.entry pmd))
        else (k.pte_offset pmd >>= λ pte.
            if is_pte (k.entry pte) then some (decode_mem_attr_sh k (k.entry pte)) else none))
