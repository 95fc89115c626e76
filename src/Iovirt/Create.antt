-- ===== src/Iovirt/Create.antt =====
-- pal_iovirt_create_info_table of pal_iovirt.c, its loop over the IORT nodes.
use linux_acs.Prelude.{ℕ, zero, suc, ◌+◌, Option, some, leb, if◌then◌else◌, ◌>>=◌}
use linux_acs.Iovirt.Table.{Layout, Table}
use linux_acs.Iovirt.Iort.{Iort}
use linux_acs.Iovirt.Add.{add}

-- The header of the ACPI IORT, with its nodes.
pub record IortTable : Type 0 where
  pub node_offset : ℕ
  pub length : ℕ
  pub node_count : ℕ
  pub nodes : Iort

-- How the loop ended: all nodes were added, or one started behind the end of the IORT.
pub data Created : Type 0 where
  complete : (t : Table) → Created
  bad_iort : (t : Table) → Created

-- The counters that are set to 0 at the start.
abbrev pub reset : Table → Table
reset t = record t {
  num_blocks = 0;
  num_smmus = 0;
  num_pci_rcs = 0;
  num_named_components = 0;
  num_its_groups = 0;
  num_pmcgs = 0;
}

module _ (l : Layout) (x : IortTable) (fuel : ℕ) where
  -- The loop over `n` nodes from the node at `off`, for the block place `cur`.
  unfoldable pub add_nodes : ℕ → ℕ → ℕ → Table → Option Created
  add_nodes zero off cur t = some (complete t)
  add_nodes (suc n) off cur t =
      let rest = x.nodes off >>= λ node.
      add l x.nodes fuel off cur t >>= λ a. add_nodes n (off + node.length) a.next a.table in
      if leb x.length off then some (bad_iort t) else rest

  unfoldable pub create_info_table : Table → Option Created
  unfolding add_nodes
  create_info_table t = add_nodes x.node_count x.node_offset l.blocks (reset t)
