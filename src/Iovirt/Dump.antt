-- ===== src/Iovirt/Dump.antt =====
-- What is printed of the IO virtualisation table: dump_block and dump_iovirt_table of
-- bsa-acs-drv/files/platform/pal_linux/files/src/pal_iovirt.c.
mod Tests
use linux_acs.Prelude.{
  ℕ, zero, suc, ◌≡◌, refl, sym, ap, ◌∙◌, Option, none, some, List, [], ◌∷◌, ◌++◌, map, length, All,
  ◌>>=◌, false, if◌then◌else◌,
}
use linux_acs.Iovirt.Table.{
  Layout, Mem, NodeType, its_group, named_component, root_complex, smmu, smmu_v3, pmcg, NodeData,
  is_its, its_data, name_data, rc_data, smmu_data, pmcg_data, Block, DataMap, Table, next_block,
}
use linux_acs.Iovirt.Query.Base.{At, Holds}

-- The calls of bsa_print and pr_info, with their values.
pub data Line : Type 0 where
  table_line : (num_blocks : ℕ) → Line
  its_line : (id : ℕ) → Line
  its_id : (id : ℕ) → Line
  name_line : (name : List ℕ) → Line
  rc_line : (segment : ℕ) → Line
  smmu_line : (arch_major_rev base : ℕ) → Line
  pmcg_line : (base overflow_gsiv node_ref : ℕ) → Line
  maps_line : (num_data_map : ℕ) → Line
  map_line : (m : DataMap) → Line
  end_line : Line

-- The line for a type, from its member of the union; `none` where another member was written.
unfoldable pub head_line : NodeType → NodeData → Option Line
head_line named_component (name_data name) = some (name_line name)
head_line root_complex (rc_data seg cca ats base) = some (rc_line seg)
head_line smmu (smmu_data rev base) = some (smmu_line rev base)
head_line smmu_v3 (smmu_data rev base) = some (smmu_line rev base)
head_line pmcg (pmcg_data base gsiv node) = some (pmcg_line base gsiv node)
head_line _ _ = none

-- A loop that prints the first `n` elements; `none` where there are fewer.
unfoldable pub print_first : {A : Type 0} → (A → Line) → ℕ → List A → Option (List Line)
print_first line zero xs = some []
print_first line (suc n) [] = none
print_first line (suc n) (x ∷ xs) = print_first line n xs >>= λ ls. some (line x ∷ ls)

-- The identifiers of an ITS group, the first of them twice.
unfoldable pub dump_its : NodeData → List ℕ → Option (List Line)
unfolding print_first
dump_its (its_data n) (id ∷ ids) =
    print_first its_id n (id ∷ ids) >>= λ ls. some (its_line id ∷ ls ++ end_line ∷ [])
dump_its _ _ = none

-- A block of another type, with the loop over its maps.
unfoldable pub dump_mapped : Block → Option (List Line)
unfolding head_line print_first
dump_mapped b = head_line b.type b.data' >>= λ line.
    print_first map_line b.num_data_map b.maps >>= λ ls.
    some (line ∷ maps_line b.num_data_map ∷ ls ++ end_line ∷ [])

unfoldable pub dump_block : Block → Option (List Line)
unfolding dump_its dump_mapped
dump_block b = if is_its b.type then dump_its b.data' b.ids else dump_mapped b

module _ (l : Layout) where
  -- The loop over `n` blocks.
  unfoldable pub dump_blocks : Mem → ℕ → ℕ → Option (List Line)
  unfolding dump_block
  dump_blocks m zero off = some []
  dump_blocks m (suc n) off = m off >>= λ b.
      dump_block b >>= λ ls. dump_blocks m n (next_block l off b) >>= λ rest. some (ls ++ rest)

  unfoldable pub dump_iovirt_table : Table → Option (List Line)
  unfolding dump_blocks
  dump_iovirt_table t =
      dump_blocks t.mem t.num_blocks l.blocks >>= λ ls. some (table_line t.num_blocks ∷ ls)

-- An ITS group with identifiers, at least one, and a block of another type whose member of the union
-- was written and that has all its maps.
pub data IsPrintable : Block → Type 0 where
  group :
      {b : Block} (id : ℕ) (ids : List ℕ)
      → b.type ≡ its_group
      → b.data' ≡ its_data (length (id ∷ ids))
      → b.ids ≡ id ∷ ids
      → IsPrintable b
  other :
      {b : Block} (line : Line)
      → head_line b.type b.data' ≡ some line
      → length b.maps ≡ b.num_data_map
      → IsPrintable b

-- What should be printed of a block, and of several.
abbrev pub section_of : {b : Block} → IsPrintable b → List Line
section_of (group id ids t d i) = its_line id ∷ map its_id (id ∷ ids) ++ end_line ∷ []
section_of {b} (other line h n) =
    line ∷ maps_line b.num_data_map ∷ map map_line b.maps ++ end_line ∷ []

abbrev pub sections : (bs : List Block) → All IsPrintable bs → List Line
sections [] p = []
sections (b ∷ bs) p = section_of p.0 ++ sections bs p.1

print_first-map :
    {A : Type 0} (line : A → Line) (xs : List A)
    → print_first line (length xs) xs ≡ some (map line xs)
unfolding print_first
print_first-map line [] = refl
print_first-map line (x ∷ xs) = rw (print_first-map line xs) refl

head_line-some :
    (t : NodeType) (d : NodeData) (line : Line) → head_line t d ≡ some line → is_its t ≡ false
unfolding head_line
head_line-some its_group d line h = cc
head_line-some named_component d line h = refl
head_line-some root_complex d line h = refl
head_line-some smmu d line h = refl
head_line-some smmu_v3 d line h = refl
head_line-some pmcg d line h = refl

dump_block-section_of : (b : Block) (p : IsPrintable b) → dump_block b ≡ some (section_of p)
unfolding dump_block dump_its dump_mapped
dump_block-section_of b (group id ids t d i) = rw (t, d, i, print_first-map its_id (id ∷ ids)) refl
dump_block-section_of b (other line h n) =
    rw (head_line-some b.type b.data' line h, h, sym n, print_first-map map_line b.maps) refl

-- The loop over the blocks.
dump_blocks-sections :
    (l : Layout) (m : Mem) (off : ℕ) (bs : List Block) (p : All IsPrintable bs)
    → At l m off bs
    → dump_blocks l m (length bs) off ≡ some (sections bs p)
unfolding dump_blocks
dump_blocks-sections l m off [] p h = refl
dump_blocks-sections l m off (b ∷ bs) p h =
    rw (h.0, dump_block-section_of b p.0, dump_blocks-sections l m (next_block l off b) bs p.1 h.1)
      refl

-- Of a table whose blocks can be printed, the number of blocks is printed and then a section for
-- each block, in the order of the table; nothing outside of them is read.
pub dump_iovirt_table-sections :
    (l : Layout) (t : Table) (bs : List Block) (p : All IsPrintable bs)
    → Holds l t bs
    → dump_iovirt_table l t ≡ some (table_line (length bs) ∷ sections bs p)
unfolding dump_iovirt_table
dump_iovirt_table-sections l t bs p h =
    rw (h.counted, dump_blocks-sections l t.mem l.blocks bs p h.stored) refl
