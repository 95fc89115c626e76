-- ===== src/Dt.antt =====
-- The tables that are read from a device tree: pal_dt.c of
-- bsa-acs-drv/files/platform/pal_linux/files/src. The functions of of.h are not in the repository: the
-- nodes that the kernel's searches return, one after the other, are lists, and a property is the
-- list of its cells, already in the byte order of the CPU.
pub mod Laws
mod Tests
use linux_acs.Prelude.{
  ℕ, ◌+◌, Bool, true, false, Option, none, some, List, [], ◌∷◌, ◌++◌, ltb, ◌==◌, if◌then◌else◌,
  length, get_or,
}
use linux_acs.Madt.{PeEntry, PeTable}
use linux_acs.Iovirt.Table.{NodeType, smmu, smmu_v3, Table}

-- A `struct device_node`: its properties `reg` and `bus-range`, `none` if it has no such property.
pub record DeviceNode : Type 0 where
  pub reg : Option (List ℕ)
  pub bus_range : Option (List ℕ)

-- of_read_number on the address cells of a node, the test against ~MPIDR_HWID_BITMASK, and
-- INVALID_HWID, all of the kernel's headers.
pub record Of : Type 0 where
  pub read_number : List ℕ → ℕ
  pub outside_hwid : ℕ → Bool
  pub invalid_hwid : ℕ

-- A block of PCIE_INFO_TABLE, and the table: the blocks that were written, and their counter.
pub record EcamBlock : Type 0 where
  pub ecam_base : ℕ
  pub start_bus_num : ℕ
  pub end_bus_num : ℕ
  pub segment_num : ℕ

pub record EcamTable : Type 0 where
  pub num_entries : ℕ
  pub blocks : List EcamBlock

abbrev pub add_ecam : EcamTable → EcamBlock → EcamTable
add_ecam t b = record { num_entries = t.num_entries + 1; blocks = t.blocks ++ b ∷ [] }

abbrev pub add_pe : PeTable → ℕ → PeTable
add_pe t hwid = record {
  num_of_pe = t.num_of_pe + 1;
  pe_info = t.pe_info ++ record { mpidr = hwid; pe_num = t.num_of_pe; pmu_gsiv = 0 } ∷ [];
}

-- A property that is there and has `n` cells at least.
unfoldable pub cells : ℕ → Option (List ℕ) → Option (List ℕ)
cells n none = none
cells n (some xs) = if ltb (length xs) n then none else some xs

-- What pal_iovirt_create_info_table_dt writes to one block.
pub record SmmuBlock : Type 0 where
  pub type : NodeType
  pub arch_major_rev : ℕ
  pub base : ℕ

-- The table, and the blocks that were written.
pub record SmmuTable : Type 0 where
  pub table : Table
  pub written : List SmmuBlock

abbrev pub add_smmu : NodeType → ℕ → ℕ → SmmuTable → SmmuTable
add_smmu type rev base s = record {
  table = record s.table { num_smmus = s.table.num_smmus + 1 };
  written = s.written ++ record { type = type; arch_major_rev = rev; base = base } ∷ [];
}

module _ (o : Of) where
  -- of_get_cpu_mpidr
  unfoldable pub get_cpu_mpidr : DeviceNode → ℕ
  get_cpu_mpidr dn = elim dn.reg [
    | none ↦ o.invalid_hwid
    | some xs ↦ if o.outside_hwid (o.read_number xs) then o.invalid_hwid else o.read_number xs
  ]

  -- The loop of pal_pe_create_info_table_dt over the CPU nodes; an invalid one ends it.
  unfoldable pub pe_loop : List DeviceNode → PeTable → PeTable
  pe_loop [] t = t
  pe_loop (dn ∷ dns) t =
      let hwid = get_cpu_mpidr dn in
      let rest = pe_loop dns (add_pe t hwid) in if hwid == o.invalid_hwid then t else rest

  unfoldable pub pe_create_info_table_dt : List DeviceNode → PeTable
  unfolding pe_loop
  pe_create_info_table_dt dns = pe_loop dns (record { num_of_pe = 0; pe_info = [] })

  -- The block of a host bridge; `none` where a property is missing or short.
  unfoldable pub ecam_block : DeviceNode → Option EcamBlock
  unfolding cells
  ecam_block dn = elim (cells 4 dn.reg) [
    | none ↦ none
    | some reg ↦ elim (cells 2 dn.bus_range) [
      | none ↦ none
      | some buses ↦ some (record {
        ecam_base = o.read_number reg;
        start_bus_num = get_or buses 0 0;
        end_bus_num = get_or buses 1 0;
        segment_num = 0;
      })
    ]
  ]

  -- The loop of pal_pcie_create_info_table_dt over the nodes "pci-host-ecam-generic".
  unfoldable pub ecam_loop : List DeviceNode → EcamTable → EcamTable
  ecam_loop [] t = t
  ecam_loop (dn ∷ dns) t = elim (ecam_block dn) [ none ↦ t | some b ↦ ecam_loop dns (add_ecam t b) ]

  unfoldable pub pcie_create_info_table_dt : List DeviceNode → EcamTable
  unfolding ecam_loop
  pcie_create_info_table_dt dns = ecam_loop dns (record { num_entries = 0; blocks = [] })

-- One of the three loops of pal_iovirt_create_info_table_dt. The first component says whether all
-- nodes were taken; else the whole function returns.
unfoldable pub smmu_loop : NodeType → ℕ → List DeviceNode → SmmuTable → Bool × SmmuTable
unfolding cells
smmu_loop type rev [] s = (true, s)
smmu_loop type rev (dn ∷ dns) s = elim (cells 2 dn.reg) [
  | none ↦ (false, s)
  | some reg ↦ smmu_loop type rev dns (add_smmu type rev (get_or reg 0 0) s)
]

-- pal_iovirt_create_info_table_dt for the nodes "arm,smmu-v1", "arm,smmu-v2" and "arm,smmu-v3".
unfoldable pub iovirt_create_info_table_dt :
    List DeviceNode → List DeviceNode → List DeviceNode → Table → SmmuTable
unfolding smmu_loop
iovirt_create_info_table_dt v1 v2 v3 t =
    let (go1, s) = smmu_loop smmu 1 v1 (record { table = t; written = [] }) in
    let (go2, s2) = smmu_loop smmu 2 v2 s in
    let (_, s3) = smmu_loop smmu_v3 3 v3 s2 in if go1 then (if go2 then s3 else s2) else s
