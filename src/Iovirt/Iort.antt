-- ===== src/Iovirt/Iort.antt =====
-- The nodes of the ACPI IORT as pal_iovirt.c reads them, the block header that a node is turned
-- into, and the comparisons of find_block and smmu_ctx_int_distinct.
use linux_acs.Prelude.{
  ℕ, zero, suc, ◌+◌, ◌/◌, Bool, true, false, not, ◌&&◌, Option, none, some, List, [], ◌∷◌, length,
  low_bits, ◌==◌, if◌then◌else◌,
}
use linux_acs.Iovirt.Table.{
  NodeType, its_group, named_component, root_complex, smmu, smmu_v3, pmcg, same_type, is_its,
  NodeData, its_data, name_data, rc_data, smmu_data, pmcg_data, Flags, no_flags, Block, Layout,
}

-- struct acpi_iort_id_mapping
pub record IdMapping : Type 0 where
  pub input_base : ℕ
  pub id_count : ℕ
  pub output_base : ℕ
  pub output_reference : ℕ

-- The node_data of an IORT node, with the counted arrays as lists.
pub data IortData : Type 0 where
  its : (identifiers : List ℕ) → IortData
  named : (device_name : List ℕ) → IortData
  rc : (pci_segment_number memory_properties ats_attribute : ℕ) → IortData
  smmu2 : (base_address : ℕ) (context_interrupts : List ℕ) → IortData
  smmu3 : (base_address : ℕ) → IortData
  pmcg1 : (page0_base_address overflow_gsiv node_reference : ℕ) → IortData
  invalid : (type : ℕ) → IortData

pub record IortNode : Type 0 where
  pub node_data : IortData
  pub length : ℕ
  pub mappings : List IdMapping

-- The node at an offset from the IORT; `none` where none starts.
abbrev pub Iort : Type 0
Iort = ℕ → Option IortNode

-- smmu_ctx_int_distinct: the low words of all entries differ.
unfoldable pub differs : ℕ → List ℕ → Bool
differs c [] = true
differs c (d ∷ ds) = not (low_bits c 32 == low_bits d 32) && differs c ds

unfoldable pub smmu_ctx_int_distinct : List ℕ → Bool
unfolding differs
smmu_ctx_int_distinct [] = true
smmu_ctx_int_distinct (c ∷ cs) = differs c cs && smmu_ctx_int_distinct cs

unfoldable pub same_list : List ℕ → List ℕ → Bool
same_list [] [] = true
same_list (x ∷ xs) (y ∷ ys) = x == y && same_list xs ys
same_list _ _ = false

unfoldable pub same_flags : Flags → Flags → Bool
same_flags f g =
    same f.ctx_int g.ctx_int
    && (same f.strid_overlap g.strid_overlap && same f.devid_overlap g.devid_overlap)
  where
    same : Bool → Bool → Bool
    same true b = b
    same false b = not b

-- memcmp over the union.
unfoldable pub same_data : NodeData → NodeData → Bool
unfolding same_list
same_data (its_data m) (its_data n) = m == n
same_data (name_data s) (name_data t) = same_list s t
same_data (rc_data a b c d) (rc_data a' b' c' d') = a == a' && (b == b' && (c == c' && d == d'))
same_data (smmu_data a b) (smmu_data a' b') = a == a' && b == b'
same_data (pmcg_data a b c) (pmcg_data a' b' c') = a == a' && (b == b' && c == c')
same_data _ _ = false

-- The comparison of find_block: type, num_data_map and data, the fields in front of flags; for an
-- ITS group flags and the identifiers as well.
unfoldable pub same_block : Block → Block → Bool
unfolding same_data same_list same_flags
same_block key b =
    same_type key.type b.type
    && (key.num_data_map == b.num_data_map
        && (same_data key.data' b.data'
            && (if is_its b.type
                then same_flags key.flags b.flags && same_list key.ids b.ids
                else true)))

-- strncpy into a zeroed array of n bytes.
unfoldable pub strncpy : ℕ → List ℕ → List ℕ
strncpy zero s = []
strncpy (suc n) [] = 0 ∷ strncpy n []
strncpy (suc n) (zero ∷ s) = 0 ∷ strncpy n []
strncpy (suc n) (suc c ∷ s) = suc c ∷ strncpy n s

module _ (l : Layout) where
  abbrev bare : NodeType → List IdMapping → NodeData → Block
  bare type ms d = record {
    type = type;
    num_data_map = length ms;
    data' = d;
    flags = no_flags;
    maps = [];
    ids = [];
  }

  -- The header that iovirt_add_block writes for a node, before it follows any reference; `none`
  -- for an invalid type. Four ITS identifiers take one data map.
  unfoldable pub fill : IortNode → Option Block
  unfolding strncpy
  fill n = by_type n.node_data n.mappings
    where
      by_type : IortData → List IdMapping → Option Block
      by_type (its ids) ms = some (record {
        type = its_group;
        num_data_map = (length ids + 3) / 4;
        data' = its_data (length ids);
        flags = no_flags;
        maps = [];
        ids = ids;
      })
      by_type (named s) ms = some (bare named_component ms (name_data (strncpy 16 s)))
      by_type (rc seg props ats) ms =
          some (bare root_complex ms (rc_data seg (l.cca_of props) ats 0))
      by_type (smmu2 base ints) ms = some (bare smmu ms (smmu_data 2 base))
      by_type (smmu3 base) ms = some (bare smmu_v3 ms (smmu_data 3 base))
      by_type (pmcg1 base gsiv ref) ms = some (bare pmcg ms (pmcg_data base gsiv ref))
      by_type (invalid type) ms = none
