-- ===== src/Dt/Tests.antt =====
-- The device-tree tables at concrete nodes.
use linux_acs.Prelude.{ℕ, ◌^◌, ◌-◌, ◌≡◌, refl, none, some, List, [], ◌∷◌, ltb, get_or}
use linux_acs.Iovirt.Table.{Layout, Table}
use linux_acs.Iovirt.Create.{reset}
use linux_acs.Iovirt.Query.{get_rc_smmu_base}
use linux_acs.Dt.{
  DeviceNode, Of, pe_create_info_table_dt, pcie_create_info_table_dt, iovirt_create_info_table_dt,
}
use linux_acs.Dt.Laws.{iovirt_create_info_table_dt-uncounted}

abbrev of_h : Of
of_h = record {
  read_number = λ xs. get_or xs 0 0;
  outside_hwid = λ n. ltb 0xff00ffffff n;
  invalid_hwid = 2 ^ 64 - 1;
}

abbrev cpu : ℕ → DeviceNode
cpu id = record { reg = some (id ∷ []); bus_range = none }

abbrev bridge : DeviceNode
bridge = record {
  reg = some (0x40000000 ∷ 0 ∷ 0x10000000 ∷ 0 ∷ []);
  bus_range = some (0 ∷ 255 ∷ []);
}

abbrev smmu_node : DeviceNode
smmu_node = record { reg = some (0x2b400000 ∷ 0x20000 ∷ []); bus_range = none }

-- The third node has no registers, and the fourth is not looked at.
abbrev cpus : List DeviceNode
cpus = cpu 0 ∷ cpu 256 ∷ record { reg = none; bus_range = none } ∷ cpu 512 ∷ []

cpus_run : (pe_create_info_table_dt of_h cpus).num_of_pe ≡ 2
unfolding pe_create_info_table_dt linux_acs.Dt.get_cpu_mpidr
cpus_run = refl

bridges_run : (pcie_create_info_table_dt of_h (bridge ∷ smmu_node ∷ bridge ∷ [])).num_entries ≡ 1
unfolding pcie_create_info_table_dt linux_acs.Dt.ecam_block
bridges_run = refl

abbrev layout : Layout
layout = record { blocks = 24; header = 40; map_size = 16; overlay = λ d. d; cca_of = λ p. p }

abbrev empty_table : Table
empty_table = record {
  num_blocks = 7;
  num_smmus = 7;
  num_pci_rcs = 0;
  num_named_components = 0;
  num_its_groups = 0;
  num_pmcgs = 0;
  mem = λ a. none;
}

abbrev from_dt : Table
from_dt =
    (iovirt_create_info_table_dt [] (smmu_node ∷ []) (smmu_node ∷ []) (reset empty_table)).table

iovirt_create_info_table_dt-uncounted_example :
    (from_dt.num_smmus ≡ 2)
    × (from_dt.num_blocks ≡ 0)
    × (get_rc_smmu_base layout 0 8 from_dt ≡ some (2 ^ 32 - 1))
unfolding iovirt_create_info_table_dt
iovirt_create_info_table_dt-uncounted_example =
    iovirt_create_info_table_dt-uncounted layout [] (smmu_node ∷ []) (smmu_node ∷ []) empty_table 0
      8
