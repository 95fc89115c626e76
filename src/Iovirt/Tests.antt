-- ===== src/Iovirt/Tests.antt =====
-- The IO virtualisation table of a small system.
use linux_acs.Prelude.{
  ℕ, Bool, false, ◌≡◌, refl, Option, none, some, List, [], ◌∷◌, arith, ◌==◌, if◌then◌else◌, Ensures,
  Yields,
}
use linux_acs.Iovirt.Table.{
  Layout, Table, Block, DataMap, smmu_v3, root_complex, its_group, rc_data, smmu_data, its_data,
  no_flags, put, next_block,
}
use linux_acs.Iovirt.Iort.{IdMapping, IortNode, Iort, rc, smmu3, its, pmcg1}
use linux_acs.Iovirt.Add.{Added, add, store}
use linux_acs.Iovirt.Add.Pmcg.{pmcg_block, add-pmcg_dropped}
use linux_acs.Iovirt.Create.{IortTable, Created, complete, create_info_table}
use linux_acs.Iovirt.Query.{get_rc_smmu_base, find_map, translate}
use linux_acs.Iovirt.Query.Base.{get_rc_smmu_base-last, Holds}
use linux_acs.Iovirt.Add.Counts.{IsBalanced, create_info_table-IsBalanced, ended}
use linux_acs.Iovirt.Add.Placed.{IsLayout, Ok}
use linux_acs.Iovirt.Checked.Whole.{IsChecked, iovirt_create_info_table-IsChecked}

abbrev layout : Layout
layout = record { blocks = 24; header = 40; map_size = 16; overlay = λ d. d; cca_of = λ p. p }

layout-IsLayout : IsLayout layout
layout-IsLayout = record {
  sized = omega arith;
  behind = omega arith;
  overlay_smmu = λ d base e. (base, e);
}

abbrev id_map : ℕ → ℕ → IdMapping
id_map output ref = record {
  input_base = 0;
  id_count = 0xffff;
  output_base = output;
  output_reference = ref;
}

-- An ITS group at 48, an SMMU at 72 that leads to it, and a root complex at 160 behind the SMMU.
abbrev its_node : IortNode
its_node = record { node_data = its (0 ∷ []); length = 24; mappings = [] }

abbrev smmu_node : IortNode
smmu_node = record { node_data = smmu3 0x2b400000; length = 88; mappings = id_map 0x10000 48 ∷ [] }

abbrev rc_node : IortNode
rc_node = record { node_data = rc 0 1 1; length = 56; mappings = id_map 0 72 ∷ [] }

abbrev nodes : Iort
nodes off =
    if off == 48
    then some its_node
    else (if off == 72 then some smmu_node else (if off == 160 then some rc_node else none))

-- The root complex comes first.
abbrev iort : IortTable
iort = record { node_offset = 160; length = 216; node_count = 1; nodes = nodes }

abbrev empty_table : Table
empty_table = record {
  num_blocks = 7;
  num_smmus = 7;
  num_pci_rcs = 0;
  num_named_components = 0;
  num_its_groups = 0;
  num_pmcgs = 0;
  mem = λ a. none;
}

its-Ok : Ok nodes 1 48
its-Ok = (its_node, refl, refl, tt)

smmu-Ok : Ok nodes 2 72
smmu-Ok = (smmu_node, refl, refl, (its-Ok, tt))

rc-Ok : Ok nodes 3 160
rc-Ok = (rc_node, refl, refl, (smmu-Ok, tt))

abbrev nowhere : ℕ → Bool
nowhere ref = false

abbrev behind : List Block → ℕ → DataMap
behind bs i = record { input_base = 0; id_count = 0; output_base = 0; output_ref = 0 }

iovirt_create_info_table-IsChecked_example : IsChecked layout nowhere behind iort 3 empty_table
iovirt_create_info_table-IsChecked_example =
    iovirt_create_info_table-IsChecked layout layout-IsLayout nowhere behind iort 3 empty_table
      (omega arith, rc-Ok, λ node e. tt)

create_info_table-IsBalanced_example :
    Ensures (λ c. IsBalanced 0 (ended layout c)) (create_info_table layout iort 3 empty_table)
create_info_table-IsBalanced_example = create_info_table-IsBalanced layout iort 3 empty_table

abbrev data_map : ℕ → ℕ → DataMap
data_map output ref = record {
  input_base = 0;
  id_count = 0xffff;
  output_base = output;
  output_ref = ref;
}

abbrev rc_block : Block
rc_block = record {
  type = root_complex;
  num_data_map = 1;
  data' = rc_data 0 1 1 0x2b400000;
  flags = no_flags;
  maps = data_map 0 80 ∷ [];
  ids = [];
}

abbrev smmu_block : Block
smmu_block = record {
  type = smmu_v3;
  num_data_map = 1;
  data' = smmu_data 3 0x2b400000;
  flags = no_flags;
  maps = data_map 0x10000 136 ∷ [];
  ids = [];
}

abbrev its_block : Block
its_block = record {
  type = its_group;
  num_data_map = 1;
  data' = its_data 1;
  flags = no_flags;
  maps = [];
  ids = 0 ∷ [];
}

-- What the construction makes of this IORT.
abbrev table : Table
table = record {
  num_blocks = 3;
  num_smmus = 1;
  num_pci_rcs = 1;
  num_named_components = 0;
  num_its_groups = 1;
  num_pmcgs = 0;
  mem = λ a.
      if a == 24
      then some rc_block
      else (if a == 80 then some smmu_block else (if a == 136 then some its_block else none));
}

abbrev counts_of : Option Created → List ℕ
counts_of (some (complete t)) = t.num_blocks ∷ t.num_smmus ∷ t.num_pci_rcs ∷ t.num_its_groups ∷ []
counts_of _ = []

create_runs : counts_of (create_info_table layout iort 3 empty_table) ≡ 3 ∷ 1 ∷ 1 ∷ 1 ∷ []
unfolding create_info_table add put
create_runs = refl

table-Holds : Holds layout table (rc_block ∷ smmu_block ∷ its_block ∷ [])
table-Holds = record { counted = refl; stored = (refl, (refl, (refl, tt))) }

get_rc_smmu_base-last_example : get_rc_smmu_base layout 0 0x108 table ≡ some 0x2b400000
unfolding find_map translate
get_rc_smmu_base-last_example =
    get_rc_smmu_base-last layout 0 0x108 table [] (smmu_block ∷ its_block ∷ []) rc_block
      (data_map 0 80) smmu_block 3 0x2b400000 table-Holds refl refl (λ e. cc, (λ e. cc, tt)) refl
      refl refl

-- A PMCG that refers to a node which is not in the table yet: the three nodes behind it are added
-- and counted, then the search finds the PMCG's own block at 24 and takes it for a duplicate, so
-- the PMCG is not counted and 24 stays the place for the next block.
abbrev pmcg_node : IortNode
pmcg_node = record { node_data = pmcg1 0x2b600000 32 160; length = 60; mappings = [] }

abbrev with_pmcg : Iort
with_pmcg off = if off == 100 then some pmcg_node else nodes off

abbrev next_of : Option Added → ℕ × ℕ
next_of none = (0, 0)
next_of (some a) = (a.table.num_blocks, a.next)

pmcg_runs :
    next_of (add layout with_pmcg 4 100 24 (record empty_table { num_blocks = 0 })) ≡ (3, 24)
unfolding add put
pmcg_runs = refl

abbrev pmcg_header : Block
unfolding pmcg_block
pmcg_header = pmcg_block 0x2b600000 32 160 []

abbrev no_blocks : Table
no_blocks = record empty_table { num_blocks = 0 }

abbrev or_nothing : Option Added → Added
or_nothing none = record { offset = 0; next = 0; table = no_blocks }
or_nothing (some a) = a

-- The root complex that the PMCG refers to, with the SMMU and the ITS group behind it.
abbrev referenced : Added
referenced = or_nothing (
    add layout with_pmcg 3 160 (next_block layout 24 pmcg_header)
      (store layout 24 pmcg_header no_blocks))

add-pmcg_dropped_example :
    Yields
      (λ u.
        (u.next ≡ 24)
        × (u.table.num_blocks ≡ referenced.table.num_blocks)
        × (u.table.num_pmcgs ≡ referenced.table.num_pmcgs))
      (add layout with_pmcg 4 100 24 no_blocks)
unfolding pmcg_block add put
add-pmcg_dropped_example =
    add-pmcg_dropped layout layout-IsLayout with_pmcg 3 100 24 0x2b600000 32 160 60 [] no_blocks
      referenced refl
      (rc_node, refl, refl, ((smmu_node, refl, refl, ((its_node, refl, refl, tt), tt)), tt)) refl
      refl (omega arith)
