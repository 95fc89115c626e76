-- ===== src/Sdei/Platform.antt =====
-- Tables, shared memory and ACPI of the SDEI layer: pal_pe_create_info_table of
-- sdei-acs-drv/sdei-acs-pal/files/src/pal_pe.c, pal_pe_alloc_shared_mem and
-- pal_pe_free_shared_mem of sdei-acs-drv/sdei-acs-pal/files/src/pal_misc.c, and pal_acpi_present of
-- pal_sdei_interface.c.
use linux_acs.Prelude.{
  ℕ, zero, suc, ◌*◌, ◌≡◌, refl, Bool, true, false, Option, none, some, u64, Option-cases, inl, inr,
}
use linux_acs.Driver.{Heap, kfree}
use linux_acs.Madt.{Madt, PeTable, pe_create_info_table}

-- pal_pe_create_info_table: the loop is that of the BSA layer; without a MADT the table stays as it
-- was allocated.
unfoldable pub sdei_pe_create_info_table : Option Madt → PeTable → Option PeTable
sdei_pe_create_info_table none t = some t
sdei_pe_create_info_table (some m) t = pe_create_info_table m

-- acpi_get_table for the SDEI table.
pub data SdeiTable : Type 0 where
  there not_found failed : SdeiTable

-- pal_acpi_present
unfoldable pub acpi_present : (acpi_disabled : Bool) → SdeiTable → Bool
acpi_present true table = false
acpi_present false there = true
acpi_present false table = false

-- g_pe_shared_mem, if it is not null, and the number of blocks that kzalloc gave out.
pub record Shared : Type 0 where
  pub pe_shared_mem : Option ℕ
  pub blocks : ℕ

-- `kzalloc` is the address for a size. The result is whether the status is ACS_SUCCESS.
unfoldable pub alloc_shared_mem : (ℕ → Option ℕ) → ℕ → ℕ → Shared → Bool × Shared
alloc_shared_mem kzalloc num_pe sizeofentry s = elim (kzalloc (u64 (num_pe * sizeofentry))) [
  | none ↦ (false, record s { pe_shared_mem = none })
  | some p ↦ (true, record { pe_shared_mem = some p; blocks = suc s.blocks })
]

-- The pointer is kept. `none`: kfree of what is not allocated.
unfoldable pub free_shared_mem : Shared → Option Shared
free_shared_mem s = elim s.pe_shared_mem [
  | none ↦ some s
  | some p ↦ elim s.blocks [ zero ↦ none | suc n ↦ some (record s { blocks = n }) ]
]

-- Whatever kzalloc answers, a call of pal_pe_alloc_shared_mem followed by one of
-- pal_pe_free_shared_mem leaves as many blocks given out as before.
pub free_shared_mem-alloc_shared_mem :
    (kzalloc : ℕ → Option ℕ) (num_pe sizeofentry : ℕ) (s : Shared)
    → (t : Shared) × (free_shared_mem (alloc_shared_mem kzalloc num_pe sizeofentry s).1 ≡ some t)
      × (t.blocks ≡ s.blocks)
unfolding free_shared_mem alloc_shared_mem
free_shared_mem-alloc_shared_mem kzalloc num_pe sizeofentry s =
    elim (Option-cases (kzalloc (u64 (num_pe * sizeofentry)))) [
      | inl e ↦ (record s { pe_shared_mem = none }, rw (e, alloc_shared_mem) refl, refl)
      | inr (p, e) ↦ (record s { pe_shared_mem = some p }, rw (e, alloc_shared_mem) refl, refl)
    ]

-- pal_free_mem of pal_misc.c
abbrev free_mem : ℕ → Heap → Option Heap
free_mem = kfree
