-- ===== src/Dma/Tests.antt =====
-- The DMA table of a machine with two hosts, a page table, and a buffer.
use linux_acs.Prelude.{
  ℕ, ◌+◌, ◌%◌, ◌≡◌, refl, true, false, none, some, List, [], ◌∷◌, ◌>>=◌, ◌==◌, if◌then◌else◌, arith,
}
use linux_acs.Dma.{Host, entry_flags, dma_create_info_table}
use linux_acs.Dma.Attrs.{Kernel, get_attrs}
use linux_acs.Dma.Attrs.Leaf.{IsArm, IsMapped, leaf, attributes, get_attrs-leaf}
use linux_acs.Dma.Buffers.{
  map_error, Dma, DmaAnswers, Allocated, mem_alloc, IsSettled, mem_alloc-IsSettled,
}
use linux_acs.Dma.Controllers.{table, dma_create_info_table-all_entries}

-- A host without an ATA port, and one with a disk behind an SMMU.
abbrev hosts : List Host
hosts =
    record { number = 0; port = none; dma_attr = 1; dma_coherent = 0; devices = 5 ∷ [] }
    ∷ record { number = 1; port = some true; dma_attr = 0; dma_coherent = 1; devices = 0 ∷ [] }
    ∷ []

dma_create_info_table-all_entries_example :
    dma_create_info_table hosts ≡ table 1 (record { host = 1; flags = 0x11; type = 0 } ∷ []) 1
unfolding entry_flags
dma_create_info_table-all_entries_example = dma_create_info_table-all_entries hosts

-- A buffer in a block of 2 MiB: the entry at 2 is a table, that at 3 a block with the attributes
-- of index 4 that is inner shareable.
abbrev tables : Kernel
tables = record {
  attrindx_mask = 0x1c;
  shared_mask = 0x300;
  mair = 0x000000ff440c0400;
  pgd_offset = some 1;
  pud_offset = λ pgd. some 2;
  pmd_offset = λ pud. some 3;
  pte_offset = λ pmd. none;
  entry = λ p. if p == 3 then 0x40000711 else 0x80003;
}

tables-IsArm : IsArm tables
tables-IsArm = record { attrindx = refl; shared = refl }

tables-IsMapped : IsMapped tables
tables-IsMapped = record { valid = λ p h. odd p }
  where
    odd : (p : ℕ) → tables.entry p % 2 ≡ 1
    odd p = ground arith

attrs_run : get_attrs tables ≡ some (0xff, 3)
unfolding get_attrs
attrs_run = refl

-- An entry that is not valid is taken for a block.
invalid_runs : get_attrs (record tables { entry = λ p. 0 }) ≡ some (0, 0)
unfolding get_attrs
invalid_runs = refl

get_attrs-leaf_example : get_attrs tables ≡ (leaf tables >>= λ val. some (attributes tables val))
get_attrs-leaf_example = get_attrs-leaf tables tables-IsArm tables-IsMapped

-- A buffer that cannot be mapped, and one that can.
abbrev unmapped : DmaAnswers
unmapped = record { coherent = none; granted = true; map = λ b. none }

abbrev mappable : DmaAnswers
mappable = record { coherent = none; granted = true; map = λ b. some (b + 0x1000) }

abbrev in_use : Dma
in_use = record {
  coherent = (0x100, 0x200) ∷ [];
  heap = record { next = 9; live = 8 ∷ [] };
  mapped = 0x300 ∷ [];
}

-- The buffer was freed, and `*buffer` still has its address.
unmapped_runs :
    mem_alloc false unmapped in_use
    ≡ some (record {
      ret = map_error;
      buffer = 9;
      dma = record in_use { heap = record { next = 10; live = 8 ∷ [] } };
    })
unfolding mem_alloc
unmapped_runs = refl

mem_alloc-IsSettled_example :
    (r : Allocated) × (mem_alloc false mappable in_use ≡ some r) × IsSettled false mappable in_use r
mem_alloc-IsSettled_example =
    mem_alloc-IsSettled false mappable in_use (omega arith) (λ (c, g, m). cc)
