-- ===== src/Iovirt/Dump/Tests.antt =====
-- What is printed of a table with an ITS group and a root complex.
use linux_acs.Prelude.{ℕ, ◌≡◌, refl, none, some, [], ◌∷◌, ◌==◌, if◌then◌else◌}
use linux_acs.Iovirt.Table.{
  Layout, Mem, Block, DataMap, Table, its_group, root_complex, its_data, rc_data, no_flags,
}
use linux_acs.Iovirt.Dump.{
  table_line, its_line, its_id, rc_line, maps_line, map_line, end_line, dump_iovirt_table,
}

abbrev layout : Layout
layout = record { blocks = 24; header = 40; map_size = 16; overlay = λ d. d; cca_of = λ p. p }

abbrev a_map : DataMap
a_map = record { input_base = 0; id_count = 0xffff; output_base = 0; output_ref = 24 }

abbrev its_block : Block
its_block = record {
  type = its_group;
  num_data_map = 1;
  data' = its_data 2;
  flags = no_flags;
  maps = [];
  ids = 3 ∷ 4 ∷ [];
}

abbrev rc_block : Block
rc_block = record {
  type = root_complex;
  num_data_map = 1;
  data' = rc_data 7 1 1 0;
  flags = no_flags;
  maps = a_map ∷ [];
  ids = [];
}

abbrev mem : Mem
mem off = if off == 24 then some its_block else if off == 80 then some rc_block else none

abbrev table_of : ℕ → Table
table_of n = record {
  num_blocks = n;
  num_smmus = 0;
  num_pci_rcs = 1;
  num_named_components = 0;
  num_its_groups = 1;
  num_pmcgs = 0;
  mem = mem;
}

dump_run :
    dump_iovirt_table layout (table_of 2)
    ≡ some (
        table_line 2
        ∷ its_line 3
        ∷ its_id 3
        ∷ its_id 4
        ∷ end_line
        ∷ rc_line 7
        ∷ maps_line 1
        ∷ map_line a_map
        ∷ end_line
        ∷ [])
unfolding dump_iovirt_table
dump_run = refl

-- A count that is too large runs out of the table.
overrun_run : dump_iovirt_table layout (table_of 3) ≡ none
unfolding dump_iovirt_table
overrun_run = refl
