-- ===== src/Iovirt/Query.antt =====
-- What the tests ask of the IO virtualisation table: the last functions of pal_iovirt.c.
pub mod Base
use linux_acs.Prelude.{
  ℕ, zero, suc, ◌+◌, ◌-◌, ◌^◌, Bool, false, ◌&&◌, Option, none, some, List, [], ◌∷◌, leb, ◌==◌, u32,
  if◌then◌else◌, ◌>>=◌,
}
use linux_acs.Iovirt.Table.{
  Layout, Mem, Block, DataMap, NodeData, rc_data, smmu_data, is_rc, is_smmu, Table, next_block,
}
use linux_acs.Iovirt.Add.{smmu_base}

-- pal_iovirt_check_unique_ctx_intid and pal_iovirt_unique_rid_strid_map
unfoldable pub check_unique_ctx_intid : Block → ℕ
check_unique_ctx_intid b = if b.flags.ctx_int then 0 else 1

unfoldable pub unique_rid_strid_map : Block → ℕ
unique_rid_strid_map b = if b.flags.strid_overlap then 0 else 1

-- `input_base + id_count` is a sum of 32-bit numbers.
abbrev pub covers : DataMap → ℕ → Bool
covers m rid = leb m.input_base rid && leb rid (u32 (m.input_base + m.id_count))

-- The loop over the maps of a block: the first that covers the ID.
unfoldable pub find_map : ℕ → List DataMap → Option DataMap
find_map rid [] = none
find_map rid (m ∷ ms) = if covers m rid then some m else find_map rid ms

-- rid - input_base + output_base, and output_ref
unfoldable pub translate : ℕ → DataMap → ℕ × ℕ
translate rid m = (u32 (rid - m.input_base + m.output_base), m.output_ref)

abbrev pub segment_is : NodeData → ℕ → Bool
segment_is (rc_data seg cca ats base) n = seg == n
segment_is _ n = false

-- What the loop keeps between blocks: the ID and the reference of the last mapping found.
abbrev pub Found : Type 0
Found = Option (ℕ × ℕ)

unfoldable pub scan_block : ℕ → ℕ → Block → Found → Found
unfolding find_map translate
scan_block seg rid b found =
    if is_rc b.type && segment_is b.data' seg
    then (elim (find_map rid b.maps) [ none ↦ found | some m ↦ some (translate rid m) ])
    else found

module _ (l : Layout) where
  -- The loop over the blocks; a match does not end it. `none` leaves the stored blocks.
  unfoldable pub scan_blocks : ℕ → ℕ → Mem → ℕ → ℕ → Found → Option Found
  unfolding scan_block
  scan_blocks seg rid m zero off found = some found
  scan_blocks seg rid m (suc n) off found =
      m off >>= λ b. scan_blocks seg rid m n (next_block l off b) (scan_block seg rid b found)

  -- pal_iovirt_get_rc_smmu_base: 0xFFFFFFFF without a mapping, 0 without an SMMU.
  unfoldable pub get_rc_smmu_base : ℕ → ℕ → Table → Option ℕ
  unfolding scan_blocks find_map
  get_rc_smmu_base seg rid t = scan_blocks seg rid t.mem t.num_blocks l.blocks none >>= λ found.
      elim found [
        | none ↦ some (2 ^ 32 - 1)
        | some (sid, oref) ↦ (t.mem oref >>= λ b. behind sid b)
      ]
    where
      behind : ℕ → Block → Option ℕ
      behind sid b =
          if is_smmu b.type
          then (elim (find_map sid b.maps) [ none ↦ some 0 | some m ↦ smmu_base b.data' ])
          else some 0
