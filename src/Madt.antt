-- ===== src/Madt.antt =====
-- The ACPI MADT and the tables made from it: pal_pe_create_info_table of
-- bsa-acs-drv/files/platform/pal_linux/files/src/pal_pe.c, and pal_gic_create_info_table of
-- sdei-acs-drv/sdei-acs-pal/files/src/pal_gic.c.
pub mod Walk
pub mod Pe
pub mod Gic
mod Tests
use linux_acs.Prelude.{
  ℕ, ◌+◌, ◌≡◌, Bool, true, false, Option, none, some, List, [], ◌∷◌, ◌++◌, u32, ltb, ◌==◌,
  if◌then◌else◌, ◌>>=◌,
}

-- The structures that the code reads, by `header.type`: ACPI_MADT_TYPE_GENERIC_INTERRUPT,
-- _DISTRIBUTOR, _REDISTRIBUTOR, _TRANSLATOR, and all others.
pub data MadtBody : Type 0 where
  interrupt : (base_address arm_mpidr performance_interrupt : ℕ) → MadtBody
  distributor : (base_address version : ℕ) → MadtBody
  redistributor : (base_address : ℕ) → MadtBody
  translator : (base_address : ℕ) → MadtBody
  other : (type : ℕ) → MadtBody

-- `length` is `header.length`.
pub record MadtEntry : Type 0 where
  pub length : ℕ
  pub body : MadtBody

-- `size` is sizeof(struct acpi_table_madt), `length` is header.length, and `entries` are the
-- structures behind the header, each one `header.length` bytes behind the one before.
pub record Madt : Type 0 where
  pub size : ℕ
  pub length : ℕ
  pub entries : List MadtEntry

-- The `do … while (length < table_length)` over the structures. `none`: the loop reads a
-- structure that is not there, or stays for ever at one of length 0.
unfoldable pub walk {ℓ} : {S : Type ℓ} → (S → MadtBody → S) → ℕ → ℕ → List MadtEntry → S → Option S
walk visit table_length len [] s = none
walk visit table_length len (e ∷ es) s =
    let s' = visit s e.body in
    let len' = u32 (len + e.length) in
    let rest = walk visit table_length len' es s' in
    if ltb len' table_length then (if e.length == 0 then none else rest) else some s'

abbrev pub over {ℓ} : {S : Type ℓ} → Madt → (S → MadtBody → S) → S → Option S
over m visit = walk visit m.length m.size m.entries

-- PE_INFO_ENTRY and PE_INFO_TABLE; `pe_info` holds the entries that were written.
pub record PeEntry : Type 0 where
  pub mpidr : ℕ
  pub pe_num : ℕ
  pub pmu_gsiv : ℕ

pub record PeTable : Type 0 where
  pub num_of_pe : ℕ
  pub pe_info : List PeEntry

unfoldable pub visit_pe : PeTable → MadtBody → PeTable
visit_pe t (interrupt base mpidr gsiv) = record {
  num_of_pe = t.num_of_pe + 1;
  pe_info = t.pe_info ++ record { mpidr = mpidr; pe_num = t.num_of_pe; pmu_gsiv = gsiv } ∷ [];
}
visit_pe t _ = t

-- pal_pe_create_info_table where there is a MADT.
unfoldable pub pe_create_info_table : Madt → Option PeTable
unfolding walk visit_pe
pe_create_info_table m = over m visit_pe (record { num_of_pe = 0; pe_info = [] })

-- gic_info_entry_t; the type 0xFF ends the table.
pub data GicType : Type 0 where
  cpuif gicd gicrd gicits end_of_data : GicType

pub record GicEntry : Type 0 where
  pub type : GicType
  pub base : ℕ

-- `type` alone is stored in the last entry, so its base is left out.
pub record GicTable : Type 0 where
  pub gic_version : ℕ
  pub num_gicrd : ℕ
  pub num_gicd : ℕ
  pub num_its : ℕ
  pub gic_info : List GicEntry
  pub ended : Bool

abbrev pub append_entry : GicTable → GicType → ℕ → GicTable
append_entry t ty b = record t { gic_info = t.gic_info ++ record { type = ty; base = b } ∷ [] }

-- The bodies of the four loops; a structure with a zero address is passed over.
unfoldable pub visit_cpuif : GicTable → MadtBody → GicTable
visit_cpuif t (interrupt base mpidr gsiv) = if base == 0 then t else append_entry t cpuif base
visit_cpuif t _ = t

unfoldable pub visit_gicd : GicTable → MadtBody → GicTable
visit_gicd t (distributor base version) =
    if base == 0
    then t
    else record (append_entry t gicd base) { gic_version = version; num_gicd = t.num_gicd + 1 }
visit_gicd t _ = t

unfoldable pub visit_gicrd : GicTable → MadtBody → GicTable
visit_gicrd t (redistributor base) =
    if base == 0 then t else record (append_entry t gicrd base) { num_gicrd = t.num_gicrd + 1 }
visit_gicrd t _ = t

unfoldable pub visit_its : GicTable → MadtBody → GicTable
visit_its t (translator base) =
    if base == 0 then t else record (append_entry t gicits base) { num_its = t.num_its + 1 }
visit_its t _ = t

abbrev pub no_gic : GicTable
no_gic = record {
  gic_version = 0;
  num_gicrd = 0;
  num_gicd = 0;
  num_its = 0;
  gic_info = [];
  ended = false;
}

-- pal_gic_create_info_table. With no MADT the table stays as it is: the inner `none`.
unfoldable pub gic_create_info_table : Option Madt → Option (Option GicTable)
unfolding walk visit_cpuif visit_gicd visit_gicrd visit_its
gic_create_info_table none = some none
gic_create_info_table (some m) = do
  t ← over m visit_cpuif no_gic
  t ← over m visit_gicd t
  t ← over m visit_gicrd t
  t ← over m visit_its t
  some (some (record t { ended = true }))
