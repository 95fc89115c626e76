-- ===== src/Iovirt/Checked/Tests.antt =====
-- Two root complexes whose stream IDs overlap at one SMMU.
use linux_acs.Prelude.{
  ℕ, Bool, false, ◌≡◌, refl, Option, none, some, List, [], ◌∷◌, arith, ◌==◌, if◌then◌else◌,
}
use linux_acs.Iovirt.Table.{
  Layout, Table, Block, DataMap, smmu_v3, root_complex, its_group, rc_data, smmu_data, its_data,
  no_flags, put,
}
use linux_acs.Iovirt.Iort.{IdMapping, Iort, rc, smmu3, its}
use linux_acs.Iovirt.Add.{add}
use linux_acs.Iovirt.Create.{IortTable, Created, complete, bad_iort, create_info_table}
use linux_acs.Iovirt.Query.Base.{Holds}
use linux_acs.Iovirt.Overlap.{check_mapping_overlap}
use linux_acs.Iovirt.Overlap.Complete.{HasMap}
use linux_acs.Iovirt.Overlap.Shares.{Share, check_mapping_overlap-Each}
use linux_acs.Iovirt.Checked.{
  blocks_from, write_back, check_table, iovirt_create_info_table, its_at,
}
use linux_acs.Iovirt.Checked.Whole.{IsChecked}
use linux_acs.Iovirt.Checked.Answers.{Answers, unique_rid_strid_map-shared}

abbrev layout : Layout
layout = record { blocks = 24; header = 40; map_size = 16; overlay = λ d. d; cca_of = λ p. p }

abbrev id_map : ℕ → ℕ → IdMapping
id_map output ref = record {
  input_base = 0;
  id_count = 0xffff;
  output_base = output;
  output_reference = ref;
}

-- An ITS group at 48, an SMMU at 72 in front of it, root complexes at 160 and 216 in front of that.
abbrev nodes : Iort
nodes off =
    if off == 48
    then some (record { node_data = its (0 ∷ []); length = 24; mappings = [] })
    else (if off == 72
        then some
            (record { node_data = smmu3 0x2b400000; length = 88; mappings = id_map 0 48 ∷ [] })
        else (if off == 160
            then some (record { node_data = rc 0 1 1; length = 56; mappings = id_map 0 72 ∷ [] })
            else (if off == 216
                then some
                    (record { node_data = rc 1 1 1; length = 56; mappings = id_map 0x100 72 ∷ [] })
                else none)))

abbrev iort : IortTable
iort = record { node_offset = 160; length = 272; node_count = 2; nodes = nodes }

abbrev empty_table : Table
empty_table = record {
  num_blocks = 0;
  num_smmus = 0;
  num_pci_rcs = 0;
  num_named_components = 0;
  num_its_groups = 0;
  num_pmcgs = 0;
  mem = λ a. none;
}

abbrev nowhere : ℕ → Bool
nowhere ref = false

abbrev behind : List Block → ℕ → DataMap
behind bs i = record { input_base = 0; id_count = 0; output_base = 0; output_ref = 0 }

abbrev table_of : Option Created → Table
table_of (some (complete t)) = t
table_of (some (bad_iort t)) = t
table_of none = empty_table

abbrev built : Table
built = table_of (create_info_table layout iort 3 empty_table)

abbrev result : Table
result = table_of (iovirt_create_info_table layout nowhere behind iort 3 empty_table)

abbrev data_map : ℕ → ℕ → DataMap
data_map output ref = record {
  input_base = 0;
  id_count = 0xffff;
  output_base = output;
  output_ref = ref;
}

abbrev rc_block : ℕ → DataMap → Block
rc_block segment m = record {
  type = root_complex;
  num_data_map = 1;
  data' = rc_data segment 1 1 0x2b400000;
  flags = no_flags;
  maps = m ∷ [];
  ids = [];
}

abbrev smmu_block : Block
smmu_block = record {
  type = smmu_v3;
  num_data_map = 1;
  data' = smmu_data 3 0x2b400000;
  flags = no_flags;
  maps = data_map 0 136 ∷ [];
  ids = [];
}

abbrev its_block : Block
its_block = record {
  type = its_group;
  num_data_map = 1;
  data' = its_data 1;
  flags = no_flags;
  maps = [];
  ids = 0 ∷ [];
}

abbrev blocks : List Block
blocks = rc_block 0 (data_map 0 80) ∷ smmu_block ∷ its_block ∷ rc_block 1 (data_map 0x100 80) ∷ []

abbrev is_checked : IsChecked layout nowhere behind iort 3 empty_table
unfolding create_info_table add put iovirt_create_info_table check_table blocks_from write_back
    check_mapping_overlap
is_checked = record {
  built = built;
  blocks = blocks;
  builds = refl;
  holds = record { counted = refl; stored = (refl, (refl, (refl, (refl, tt)))) };
  result = result;
  returns = refl;
  keeps = refl;
  checked = record { counted = refl; stored = (refl, (refl, (refl, (refl, tt)))) };
  grown = check_mapping_overlap-Each (its_at nowhere built.mem) behind blocks;
}

alone : its_at nowhere built.mem 80 ≡ false
unfolding create_info_table add put
alone = refl

one_map :
    (segment output : ℕ) → HasMap (rc_block segment (data_map output 80)) 0 (data_map output 80)
one_map segment output = record { mapped = refl; within = omega arith; here = refl }

shared : Share (data_map 0 80) (data_map 0x100 80) 0x180
shared = record {
  same_ref = refl;
  from_key = omega arith;
  to_key = omega arith;
  from_map = omega arith;
  to_map = omega arith;
}

unique_rid_strid_map-shared_example :
    (cs : List Block) × Holds layout is_checked.result cs × Answers cs 0 0 × Answers cs 3 0
unfolding is_checked
unique_rid_strid_map-shared_example =
    unique_rid_strid_map-shared layout nowhere behind iort 3 empty_table is_checked 0 3
      (rc_block 0 (data_map 0 80)) (rc_block 1 (data_map 0x100 80)) 0 0 (data_map 0 80)
      (data_map 0x100 80) 0x180 (omega arith) refl refl (one_map 0 0) (one_map 1 0x100) shared
      (record { fits = omega arith }) (record { fits = omega arith }) alone
