-- ===== src/Iovirt/Checked/Answers.antt =====
-- What pal_iovirt_unique_rid_strid_map answers on the table that pal_iovirt_create_info_table leaves.
use linux_acs.Prelude.{ℕ, ◌<◌, ◌≡◌, refl, Bool, false, some, List, get_elem?}
use linux_acs.Iovirt.Table.{Layout, Table, Block, DataMap}
use linux_acs.Iovirt.Create.{IortTable}
use linux_acs.Iovirt.Overlap.Growth.{flag}
use linux_acs.Iovirt.Overlap.Complete.{HasMap, FlaggedAt}
use linux_acs.Iovirt.Overlap.Shares.{Share, Fits, check_mapping_overlap-FlaggedAt}
use linux_acs.Iovirt.Query.{unique_rid_strid_map}
use linux_acs.Iovirt.Query.Base.{Holds}
use linux_acs.Iovirt.Checked.{checked_blocks, its_at}
use linux_acs.Iovirt.Checked.Whole.{IsChecked}

-- The answer for the block at an index.
abbrev pub Answers : List Block → ℕ → ℕ → Type 0
Answers bs i n = (b : Block) × (get_elem? bs i ≡ some b) × (unique_rid_strid_map b ≡ n)

FlaggedAt-Answers : (i : ℕ) (bs : List Block) → FlaggedAt false i bs → Answers bs i 0
unfolding flag unique_rid_strid_map
FlaggedAt-Answers i bs (b, g, f) = (b, g, rw f refl)

-- In a table that pal_iovirt_create_info_table has left, pal_iovirt_unique_rid_strid_map answers 0
-- for both of two blocks with maps that have an output ID in common, one that is the last of neither
-- map, and lead to the same node, one that does not read as an ITS group, where the blocks are no ITS
-- groups and the output IDs of the maps do not wrap around.
pub unique_rid_strid_map-shared :
    (l : Layout) (elsewhere : ℕ → Bool) (past : List Block → ℕ → DataMap) (x : IortTable) (fuel : ℕ)
    (t : Table) (r : IsChecked l elsewhere past x fuel t) (i j : ℕ) (b c : Block) (a p : ℕ)
    (key m : DataMap) (id : ℕ)
    → i < j
    → get_elem? r.blocks i ≡ some b
    → get_elem? r.blocks j ≡ some c
    → HasMap b a key
    → HasMap c p m
    → Share key m id
    → Fits key
    → Fits m
    → its_at elsewhere r.built.mem m.output_ref ≡ false
    → (cs : List Block) × Holds l r.result cs × Answers cs i 0 × Answers cs j 0
unique_rid_strid_map-shared l elsewhere past x fuel t r i j b c a p key m id lt g h hb hc s f f'
      stream =
    let cs = checked_blocks l elsewhere past r.built r.blocks in
    let both =
      check_mapping_overlap-FlaggedAt (its_at elsewhere r.built.mem) past r.blocks i j b c a p key m
        id lt g h hb hc s f f' in
    let (first, second) = rw stream at both in
    (cs, r.checked, FlaggedAt-Answers i cs first, FlaggedAt-Answers j cs second)
