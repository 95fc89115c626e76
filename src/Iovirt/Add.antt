-- ===== src/Iovirt/Add.antt =====
-- Construction of the IO virtualisation table from the ACPI IORT: find_block and iovirt_add_block
-- of pal_iovirt.c. A node refers to others, so an add calls itself;
-- `add` runs on fuel, one unit for each level of references.
pub mod Counts
pub mod Placed
pub mod Total
pub mod Pmcg
use linux_acs.Prelude.{
  ℕ, zero, suc, ◌+◌, ◌-◌, ◌^◌, not, ◌&&◌, Option, none, some, List, [], ◌∷◌, ◌++◌, ltb, leb, ◌==◌,
  if◌then◌else◌, ◌>>=◌,
}
use linux_acs.Iovirt.Table.{
  NodeType, its_group, named_component, root_complex, smmu, smmu_v3, pmcg, is_its, is_smmu, is_rc,
  NodeData, rc_data, smmu_data, pmcg_data, DataMap, Block, Layout, Mem, next_block, put, Table,
}
use linux_acs.Iovirt.Iort.{
  IdMapping, IortData, smmu2, IortNode, Iort, smmu_ctx_int_distinct, same_block, fill,
}

-- Where an add ended: the offset that it returns, the place for the next block, and the table.
pub record Added : Type 0 where
  pub offset : ℕ
  pub next : ℕ
  pub table : Table

-- The block whose maps are being copied, the place for the next block, and the table.
pub record Linked : Type 0 where
  pub block : Block
  pub next : ℕ
  pub table : Table

-- (uint32_t) -1
abbrev pub bad_node : ℕ
bad_node = 2 ^ 32 - 1

-- The `*count = *count + 1` and `num_blocks++` at the end of an add.
unfoldable pub count_block : NodeType → Table → Table
count_block its_group t = record t {
  num_blocks = t.num_blocks + 1;
  num_its_groups = t.num_its_groups + 1;
}
count_block named_component t = record t {
  num_blocks = t.num_blocks + 1;
  num_named_components = t.num_named_components + 1;
}
count_block root_complex t = record t {
  num_blocks = t.num_blocks + 1;
  num_pci_rcs = t.num_pci_rcs + 1;
}
count_block smmu t = record t { num_blocks = t.num_blocks + 1; num_smmus = t.num_smmus + 1 }
count_block smmu_v3 t = record t { num_blocks = t.num_blocks + 1; num_smmus = t.num_smmus + 1 }
count_block pmcg t = record t { num_blocks = t.num_blocks + 1; num_pmcgs = t.num_pmcgs + 1 }

-- The flag of an SMMU node whose context interrupts are not distinct.
abbrev pub check_ints : IortData → Block → Block
check_ints (smmu2 base ints) b = record b {
  flags = record b.flags { ctx_int = not (smmu_ctx_int_distinct ints) };
}
check_ints _ b = b

abbrev pub data_map : IdMapping → ℕ → DataMap
data_map m off = record {
  input_base = m.input_base;
  id_count = m.id_count;
  output_base = m.output_base;
  output_ref = off;
}

-- The member smmu.base; `none` where the union holds another member.
abbrev pub smmu_base : NodeData → Option ℕ
smmu_base (smmu_data rev base) = some base
smmu_base _ = none

module _ (l : Layout) where
  -- find_block, from a block at `off` with `n` blocks left: 0 if there is no such block; `none` if
  -- the walk leaves the blocks that were stored.
  unfoldable pub find_from : Block → Mem → ℕ → ℕ → Option ℕ
  unfolding same_block
  find_from key m zero off = some 0
  find_from key m (suc n) off = elim (m off) [
    | none ↦ none
    | some b ↦ if same_block key b then some off else find_from key m n (next_block l off b)
  ]

  unfoldable pub find_block : Block → Table → Option ℕ
  unfolding find_from
  find_block key t = find_from key t.mem t.num_blocks l.blocks

  abbrev pub store : ℕ → Block → Table → Table
  store cur b t = record t { mem = put l t.mem cur b }

  -- The header of a node of an invalid type spoils the place and is not completed.
  abbrev wipe : ℕ → Mem → Mem
  wipe cur m a = if leb cur a && ltb a (cur + l.header) then none else m a

  abbrev with_smmu_base : NodeData → ℕ → NodeData
  with_smmu_base (rc_data seg cca ats _) base = rc_data seg cca ats base
  with_smmu_base d base = l.overlay d

  -- The end of the mapping loop: rc.smmu_base is cleared, whatever the type is, and is set for a
  -- root complex whose mapping leads to an SMMU block.
  unfoldable pub connect : Mem → ℕ → Block → Option Block
  connect m off b =
      if not (is_rc b.type) then some (record b { data' = with_smmu_base b.data' 0 }) else do
        target ← m off
        base ← if is_smmu target.type then smmu_base target.data' else some 0
        some (record b { data' = with_smmu_base b.data' base })

  -- The parts of iovirt_add_block, over the call `rec` that it makes of itself.
  module _ (rec : ℕ → ℕ → Table → Option Added) where
    -- The loop over the ID mappings, for the block at `cur`.
    unfoldable pub map_loop : ℕ → Block → List IdMapping → ℕ → Table → Option Linked
    unfolding connect
    map_loop cur b [] next t = some (record { block = b; next = next; table = t })
    map_loop cur b (m ∷ ms) next t = do
      a ← rec m.output_reference next t
      b' ← connect a.table.mem a.offset (record b { maps = b.maps ++ data_map m a.offset ∷ [] })
      map_loop cur b' ms a.next (store cur b' a.table)

    -- The case of a PMCG adds the node that it refers to, behind the place of its own maps.
    unfoldable pub resolve : ℕ → Block → NodeData → Table → Option (Block × Table)
    resolve cur b (pmcg_data base gsiv ref) t = do
      a ← rec ref (next_block l cur b) (store cur b t)
      some (record b { data' = pmcg_data base gsiv a.offset }, a.table)
    resolve cur b _ t = some (b, t)

    -- The mappings of a block that is not in the table yet; an ITS group has none.
    unfoldable pub link : ℕ → Block → List IdMapping → Table → Option Linked
    unfolding map_loop
    link cur b ms t =
        if is_its b.type
        then some (record { block = b; next = next_block l cur b; table = t })
        else map_loop cur b ms (next_block l cur b) t

    -- From the search for an equal block to the end.
    unfoldable pub settle : ℕ → IortNode → Block → Table → Option Added
    unfolding find_block link count_block
    settle cur n b t = do
      found ← find_block b (store cur b t)
      let b' = check_ints n.node_data b
      let finish = do
        r ← link cur b' n.mappings (store cur b' t)
        some (record { offset = cur; next = r.next; table = count_block b.type r.table })
      if found == 0
          then finish
          else some (record { offset = found; next = cur; table = store cur b t })

    -- iovirt_add_block, once the node has been read.
    unfoldable pub add_node : ℕ → IortNode → Table → Option Added
    unfolding fill resolve settle
    add_node cur n t = elim (fill l n) [
      | none ↦
          some (record { offset = bad_node; next = cur; table = record t { mem = wipe cur t.mem } })
      | some b ↦ resolve cur b b.data' t >>= λ r. settle cur n r.0 r.1
    ]

  module _ (iort : Iort) where
    -- iovirt_add_block for the node at `ref`, at the place `cur`. `none`: the fuel ran out, or the
    -- code read a node or a block where none is.
    unfoldable pub add : ℕ → ℕ → ℕ → Table → Option Added
    unfolding add_node
    add zero ref cur t = none
    add (suc f) ref cur t = iort ref >>= λ n. add_node (add f) cur n t
