-- ===== src/Iovirt/Table.antt =====
-- Blocks of the IO virtualisation table and the memory that they stand in, for pal_iovirt.c.
--
-- The sizes and the union layout of IOVIRT_BLOCK come from a header of the validation layer that
-- is not in the repository: they are the parameter `Layout`.
use linux_acs.Prelude.{
  ℕ, ◌+◌, ◌*◌, Bool, true, false, ◌&&◌, Option, none, some, List, ltb, ◌==◌, if◌then◌else◌,
}

-- ACPI_IORT_NODE_* and IOVIRT_NODE_PMCG.
pub data NodeType : Type 0 where
  its_group named_component root_complex smmu smmu_v3 pmcg : NodeType

abbrev pub same_type : NodeType → NodeType → Bool
same_type its_group its_group = true
same_type named_component named_component = true
same_type root_complex root_complex = true
same_type smmu smmu = true
same_type smmu_v3 smmu_v3 = true
same_type pmcg pmcg = true
same_type _ _ = false

abbrev pub is_its : NodeType → Bool
is_its its_group = true
is_its _ = false

abbrev pub is_smmu : NodeType → Bool
is_smmu smmu = true
is_smmu smmu_v3 = true
is_smmu _ = false

abbrev pub is_rc : NodeType → Bool
is_rc root_complex = true
is_rc _ = false

-- The union NODE_DATA, by the member that was filled in.
pub data NodeData : Type 0 where
  its_data : (its_count : ℕ) → NodeData
  name_data : (name : List ℕ) → NodeData
  rc_data : (segment cca ats_attr smmu_base : ℕ) → NodeData
  smmu_data : (arch_major_rev base : ℕ) → NodeData
  pmcg_data : (base overflow_gsiv node_ref : ℕ) → NodeData

-- One `map` of NODE_DATA_MAP.
pub record DataMap : Type 0 where
  pub input_base : ℕ
  pub id_count : ℕ
  pub output_base : ℕ
  pub output_ref : ℕ

-- The three bits of IOVIRT_BLOCK.flags that the file sets.
pub record Flags : Type 0 where
  pub ctx_int : Bool
  pub strid_overlap : Bool
  pub devid_overlap : Bool

abbrev pub no_flags : Flags
no_flags = record { ctx_int = false; strid_overlap = false; devid_overlap = false }

-- IOVIRT_BLOCK. An ITS group has identifiers in the place of its maps.
pub record Block : Type 0 where
  pub type : NodeType
  pub num_data_map : ℕ
  pub data' : NodeData
  pub flags : Flags
  pub maps : List DataMap
  pub ids : List ℕ

-- `blocks`: the offset of blocks[0] in the table; `header`: the offset of data_map in a block;
-- `map_size`: the size of NODE_DATA_MAP; `overlay`: what storing 0 in rc.smmu_base does to
-- another member of the union; `cca_of`: memory_properties & IOVIRT_CCA_MASK.
pub record Layout : Type 0 where
  pub blocks : ℕ
  pub header : ℕ
  pub map_size : ℕ
  pub overlay : NodeData → NodeData
  pub cca_of : ℕ → ℕ

-- The block that starts at an offset from the table; `none` where none starts.
abbrev pub Mem : Type 0
Mem = ℕ → Option Block

module _ (l : Layout) where
  abbrev pub block_size : Block → ℕ
  block_size b = l.header + b.num_data_map * l.map_size

  -- IOVIRT_NEXT_BLOCK, by the rule that iovirt_add_block states for the position of a next block.
  abbrev pub next_block : ℕ → Block → ℕ
  next_block off b = off + block_size b

  -- A block is stored; blocks that started inside its bytes are gone.
  unfoldable pub put : Mem → ℕ → Block → Mem
  put m off b a =
      if a == off then some b else if ltb off a && ltb a (next_block off b) then none else m a

-- IOVIRT_INFO_TABLE: the counters and the memory.
pub record Table : Type 0 where
  pub num_blocks : ℕ
  pub num_smmus : ℕ
  pub num_pci_rcs : ℕ
  pub num_named_components : ℕ
  pub num_its_groups : ℕ
  pub num_pmcgs : ℕ
  pub mem : Mem
