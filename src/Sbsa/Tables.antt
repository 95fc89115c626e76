-- ===== src/Sbsa/Tables.antt =====
-- The info tables of the two suites as wholes: pal_pe_create_info_table, pal_pcie_create_info_table and
-- pal_iovirt_create_info_table of the BSA layer, which fall back to a device tree, and of the SBSA layer
-- (sbsa-acs-drv/files/platform/pal_linux/files/src), which do not. The loops over the ACPI tables are
-- the same in both.
pub mod Queries
use linux_acs.Prelude.{ℕ, Bool, Option, none, some, List, [], ◌∷◌, ◌>>=◌}
use linux_acs.Madt.{Madt, PeTable, pe_create_info_table}
use linux_acs.Dt.{
  Of, DeviceNode, EcamTable, pe_create_info_table_dt, pcie_create_info_table_dt,
  iovirt_create_info_table_dt,
}
use linux_acs.Pcie.Mcfg.{McfgTable, ecam_table, pcie_create_info_table}
use linux_acs.Iovirt.Table.{Layout, Table, Block, DataMap}
use linux_acs.Iovirt.Create.{IortTable, Created, complete, bad_iort, reset}
use linux_acs.Iovirt.Checked.{iovirt_create_info_table}

-- What the machine says of itself: the ACPI tables, and the nodes of the device tree.
pub record Machine : Type 0 where
  pub madt : Option Madt
  pub mcfg : Option McfgTable
  pub iort : Option IortTable
  pub cpus : List DeviceNode
  pub bridges : List DeviceNode
  pub smmus_v1 : List DeviceNode
  pub smmus_v2 : List DeviceNode
  pub smmus_v3 : List DeviceNode

unfoldable pub bsa_pe_create_info_table : Of → Machine → Option PeTable
bsa_pe_create_info_table o m = elim m.madt [
  | none ↦ some (pe_create_info_table_dt o m.cpus)
  | some x ↦ pe_create_info_table x
]

-- Without a MADT the table stays as it was allocated.
unfoldable pub sbsa_pe_create_info_table : Machine → PeTable → Option PeTable
sbsa_pe_create_info_table m t = elim m.madt [ none ↦ some t | some x ↦ pe_create_info_table x ]

unfoldable pub bsa_pcie_create_info_table : Of → Machine → Option EcamTable
bsa_pcie_create_info_table o m = elim m.mcfg [
  | none ↦ some (pcie_create_info_table_dt o m.bridges)
  | some x ↦ pcie_create_info_table x
]

unfoldable pub sbsa_pcie_create_info_table : Machine → Option EcamTable
sbsa_pcie_create_info_table m = elim m.mcfg [
  | none ↦ some (ecam_table 0 [])
  | some x ↦ pcie_create_info_table x
]

-- The table at the end, however the loop ended.
abbrev pub table_of : Created → Table
table_of (complete t) = t
table_of (bad_iort t) = t

module _ (l : Layout) (elsewhere : ℕ → Bool) (past : List Block → ℕ → DataMap) (fuel : ℕ) where
  abbrev from_iort : IortTable → Table → Option Table
  from_iort x t = iovirt_create_info_table l elsewhere past x fuel t >>= λ c. some (table_of c)

  unfoldable pub bsa_iovirt_create_info_table : Machine → Table → Option Table
  bsa_iovirt_create_info_table m t = elim m.iort [
    | none ↦ some (iovirt_create_info_table_dt m.smmus_v1 m.smmus_v2 m.smmus_v3 (reset t)).table
    | some x ↦ from_iort x t
  ]

  unfoldable pub sbsa_iovirt_create_info_table : Machine → Table → Option Table
  sbsa_iovirt_create_info_table m t = elim m.iort [ none ↦ some (reset t) | some x ↦ from_iort x t ]
