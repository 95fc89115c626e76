-- ===== src/Iovirt/Checked.antt =====
-- pal_iovirt_create_info_table of pal_iovirt.c as a whole: the construction, then the check of the ID
-- ranges on the blocks that stand in the memory.
pub mod Whole
pub mod Answers
mod Tests
use linux_acs.Prelude.{
  ℕ, zero, suc, Bool, Option, none, some, List, [], ◌∷◌, ◌==◌, if◌then◌else◌, ◌>>=◌,
}
use linux_acs.Iovirt.Table.{Layout, Mem, Table, Block, DataMap, is_its, next_block}
use linux_acs.Iovirt.Create.{IortTable, Created, complete, bad_iort, create_info_table}
use linux_acs.Iovirt.Overlap.{check_mapping_overlap}

-- The type at an offset: that of a block which starts there, else what the bytes read as.
abbrev pub its_at : (ℕ → Bool) → Mem → ℕ → Bool
its_at elsewhere m ref = elim (m ref) [ none ↦ elsewhere ref | some b ↦ is_its b.type ]

module _ (l : Layout) where
  -- IOVIRT_NEXT_BLOCK, `n` times from an offset.
  unfoldable pub blocks_from : Mem → ℕ → ℕ → Option (List Block)
  blocks_from m zero off = some []
  blocks_from m (suc n) off =
      m off >>= λ b. blocks_from m n (next_block l off b) >>= λ bs. some (b ∷ bs)

  -- The blocks with their new flags, at their places.
  unfoldable pub write_back : Mem → ℕ → List Block → Mem
  write_back m off [] a = m a
  write_back m off (b ∷ bs) a =
      let rest = write_back m (next_block l off b) bs a in if a == off then some b else rest

  module _ (elsewhere : ℕ → Bool) (past : List Block → ℕ → DataMap) where
    abbrev pub checked_blocks : Table → List Block → List Block
    checked_blocks t bs = check_mapping_overlap (its_at elsewhere t.mem) past bs

    unfoldable pub check_table : Table → Option Table
    unfolding blocks_from write_back
    check_table t = blocks_from t.mem t.num_blocks l.blocks >>= λ bs.
        some (record t { mem = write_back t.mem l.blocks (checked_blocks t bs) })

    -- The check is left out where the loop ended early. The printing of the table before it
    -- (linux_acs.Iovirt.Dump) changes nothing.
    unfoldable pub iovirt_create_info_table : IortTable → ℕ → Table → Option Created
    unfolding check_table
    iovirt_create_info_table x fuel t = create_info_table l x fuel t >>= λ c. elim c [
      | complete u ↦ check_table u >>= λ v. some (complete v)
      | bad_iort u ↦ some (bad_iort u)
    ]
