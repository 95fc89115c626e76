-- ===== src/Sbsa/Layer/Iovirt.antt =====
-- The SBSA layer: the IO virtualisation table, of sbsa-acs-drv/files/platform/pal_linux/files/src (pal_iovirt.c).
-- But for messages the functions have the text of the BSA layer, and their models are the same.
use linux_acs.Prelude.{Bool, List, Option, ℕ}
use linux_acs.Iovirt.Add.{Added, add, find_block}
use linux_acs.Iovirt.Dump.{Line, dump_block, dump_iovirt_table}
use linux_acs.Iovirt.Iort.{Iort, smmu_ctx_int_distinct}
use linux_acs.Iovirt.Overlap.{check_mapping_overlap}
use linux_acs.Iovirt.Query.{check_unique_ctx_intid, get_rc_smmu_base, unique_rid_strid_map}
use linux_acs.Iovirt.Table.{Block, DataMap, Layout, Table}

abbrev sbsa_smmu_ctx_int_distinct : List ℕ → Bool
sbsa_smmu_ctx_int_distinct = smmu_ctx_int_distinct

abbrev sbsa_check_mapping_overlap :
    (ℕ → Bool) → (List Block → ℕ → DataMap) → List Block → List Block
sbsa_check_mapping_overlap = check_mapping_overlap

abbrev sbsa_find_block : Layout → Block → Table → Option ℕ
sbsa_find_block = find_block

abbrev sbsa_iovirt_add_block : Layout → Iort → ℕ → ℕ → ℕ → Table → Option Added
sbsa_iovirt_add_block = add

abbrev sbsa_iovirt_check_unique_ctx_intid : Block → ℕ
sbsa_iovirt_check_unique_ctx_intid = check_unique_ctx_intid

abbrev sbsa_iovirt_unique_rid_strid_map : Block → ℕ
sbsa_iovirt_unique_rid_strid_map = unique_rid_strid_map

abbrev pub sbsa_iovirt_get_rc_smmu_base : Layout → ℕ → ℕ → Table → Option ℕ
sbsa_iovirt_get_rc_smmu_base = get_rc_smmu_base

abbrev sbsa_dump_block : Block → Option (List Line)
sbsa_dump_block = dump_block

abbrev sbsa_dump_iovirt_table : Layout → Table → Option (List Line)
sbsa_dump_iovirt_table = dump_iovirt_table
