-- ===== src/Iovirt/Overlap.antt =====
-- check_mapping_overlap of pal_iovirt.c, which marks blocks whose mappings share output IDs.
--
-- The blocks of the table are a list: the pointers walk them in order, and the check changes only
-- their flags. `to_its` is whether the type at an offset of the table reads as an ITS group, and
-- `past` what the bytes behind the last map of a block read as, of which the code takes some for
-- maps.
pub mod Growth
pub mod Complete
pub mod Shares
pub mod Apart
mod Tests
use linux_acs.Prelude.{
  ℕ, zero, suc, ◌+◌, ◌-◌, ◌^◌, Bool, true, false, ◌&&◌, ◌||◌, none, some, List, [], ◌∷◌, ltb, leb,
  ◌==◌, if◌then◌else◌, length, get_elem?, u32,
}
use linux_acs.Iovirt.Table.{DataMap, Block, is_its}

-- output_base + id_count - 1, 32 bits wide
abbrev pub last_id : DataMap → ℕ
last_id m = u32 (m.output_base + m.id_count + (2 ^ 32 - 1))

-- The test of the innermost loop.
unfoldable pub collides : DataMap → DataMap → Bool
collides key m =
    m.output_ref == key.output_ref
    && (leb m.output_base key.output_base && leb key.output_base (last_id m)
        || (leb m.output_base (last_id key) && leb (last_id key) (last_id m)
            || ltb key.output_base m.output_base && ltb (last_id m) (last_id key)))

-- The flag for the kind of IDs: those of devices in front of an ITS, else those of streams.
unfoldable pub mark : Bool → Block → Block
mark true b = record b { flags = record b.flags { devid_overlap = true } }
mark false b = record b { flags = record b.flags { strid_overlap = true } }

-- The map at an index, in front of the blocks `rest`.
abbrev pub map_at : (List Block → ℕ → DataMap) → Block → List Block → ℕ → DataMap
map_at past b rest i = elim (get_elem? b.maps i) [
  | none ↦ past rest (i - length b.maps)
  | some m ↦ m
]

module _ (to_its : ℕ → Bool) (past : List Block → ℕ → DataMap) where
  -- The maps of the key block itself: `n` of them, from the one at `i` on.
  unfoldable pub scan_own : DataMap → List Block → ℕ → ℕ → Block → Block
  unfolding collides mark
  scan_own key rest zero i b = b
  scan_own key rest (suc n) i b =
      let m = map_at past b rest i in
      scan_own key rest n (i + 1) (if collides key m then mark (to_its m.output_ref) b else b)

  -- The maps of another block, with the key block.
  unfoldable pub scan_other : DataMap → List Block → ℕ → ℕ → Block × Block → Block × Block
  unfolding collides mark
  scan_other key rest zero i (k, b) = (k, b)
  scan_other key rest (suc n) i (k, b) =
      let m = map_at past b rest i in
      scan_other key rest n (i + 1) (
        if collides key m
        then (mark (to_its m.output_ref) k, mark (to_its m.output_ref) b)
        else (k, b))

  -- The blocks behind the key block; an ITS group is passed over.
  unfoldable pub scan_rest : DataMap → Block → List Block → Block × List Block
  unfolding scan_other
  scan_rest key k [] = (k, [])
  scan_rest key k (b ∷ bs) =
      let (k', b') = if is_its b.type then (k, b) else scan_other key bs b.num_data_map 0 (k, b) in
      let (k'', bs') = scan_rest key k' bs in (k'', b' ∷ bs')

  -- The maps of the key block, `n` of them from the one at `i` on.
  unfoldable pub scan_key : ℕ → ℕ → Block → List Block → Block × List Block
  unfolding scan_own scan_rest
  scan_key zero i k bs = (k, bs)
  scan_key (suc n) i k bs =
      let key = map_at past k bs i in
      let own = scan_own key bs (k.num_data_map - 1) (i + 1) k in
      let (k', bs') = scan_rest key own bs in scan_key n (i + 1) k' bs'

  -- The loop over the key blocks, on fuel, the number of blocks.
  unfoldable pub check_blocks : ℕ → List Block → List Block
  unfolding scan_key
  check_blocks zero bs = bs
  check_blocks (suc n) [] = []
  check_blocks (suc n) (k ∷ bs) = elim (is_its k.type) [
    | true ↦ k ∷ check_blocks n bs
    | false ↦ (let r = scan_key k.num_data_map 0 k bs in r.0 ∷ check_blocks n r.1)
  ]

  unfoldable pub check_mapping_overlap : List Block → List Block
  unfolding check_blocks
  check_mapping_overlap bs = check_blocks (length bs) bs
