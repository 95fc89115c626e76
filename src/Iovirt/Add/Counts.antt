-- ===== src/Iovirt/Add/Counts.antt =====
-- The block counters of the table that iovirt_add_block builds.
use linux_acs.Prelude.{
  ℕ, zero, suc, ◌+◌, ◌≡◌, ◌≤◌, Option, List, [], ◌∷◌, inl, inr, Bool-cases, Option-cases, arith,
  ◌==◌, leb, Ensures, faults, holds, bind-Ensures, any-Ensures,
}
use linux_acs.Iovirt.Table.{
  NodeType, its_group, named_component, root_complex, smmu, smmu_v3, pmcg, NodeData, pmcg_data,
  is_its, Block, Layout, Table,
}
use linux_acs.Iovirt.Iort.{IdMapping, IortNode, Iort, fill}
use linux_acs.Iovirt.Create.{
  IortTable, Created, complete, bad_iort, reset, add_nodes, create_info_table,
}
use linux_acs.Iovirt.Add.{
  Added, count_block, map_loop, resolve, link, settle, add_node, add, store, find_block, check_ints,
}

-- Every block is counted once by its kind, and `n` blocks at least are there.
pub record IsBalanced (n : ℕ) (t : Table) : Type 0 where
  pub total :
      t.num_blocks
      ≡ t.num_smmus + t.num_pci_rcs + t.num_named_components + t.num_its_groups + t.num_pmcgs
  pub grown : n ≤ t.num_blocks

count_block-IsBalanced :
    (k : NodeType) (n : ℕ) (t : Table) → IsBalanced n t → IsBalanced n (count_block k t)
unfolding count_block
count_block-IsBalanced its_group n t h = omega arith
count_block-IsBalanced named_component n t h = omega arith
count_block-IsBalanced root_complex n t h = omega arith
count_block-IsBalanced smmu n t h = omega arith
count_block-IsBalanced smmu_v3 n t h = omega arith
count_block-IsBalanced pmcg n t h = omega arith

module _ (l : Layout) where
  abbrev Keeps : (ℕ → ℕ → Table → Option Added) → Type 0
  Keeps rec =
      (n ref cur : ℕ) (t : Table)
      → IsBalanced n t
      → Ensures (λ a. IsBalanced n a.table) (rec ref cur t)

  module _ (rec : ℕ → ℕ → Table → Option Added) (keeps : Keeps rec) where
    map_loop-IsBalanced :
        (n cur : ℕ) (b : Block) (ms : List IdMapping) (next : ℕ) (t : Table)
        → IsBalanced n t
        → Ensures (λ r. IsBalanced n r.table) (map_loop l rec cur b ms next t)
    unfolding map_loop
    map_loop-IsBalanced n cur b [] next t h = holds h
    map_loop-IsBalanced n cur b (m ∷ ms) next t h =
        bind-Ensures (keeps n m.output_reference next t h) λ a k.
          bind-Ensures (any-Ensures _)
            λ b' _. map_loop-IsBalanced n cur b' ms a.next (store l cur b' a.table) (omega arith)

    link-IsBalanced :
        (n cur : ℕ) (b : Block) (ms : List IdMapping) (t : Table)
        → IsBalanced n t
        → Ensures (λ r. IsBalanced n r.table) (link l rec cur b ms t)
    unfolding link
    link-IsBalanced n cur b ms t h = elim (Bool-cases (is_its b.type)) [
      | inl its ↦ rw its (holds h)
      | inr other ↦ rw other (map_loop-IsBalanced n cur b ms _ t h)
    ]

    settle-IsBalanced :
        (n cur : ℕ) (node : IortNode) (b : Block) (t : Table)
        → IsBalanced n t
        → Ensures (λ a. IsBalanced n a.table) (settle l rec cur node b t)
    unfolding settle
    settle-IsBalanced n cur node b t h =
        bind-Ensures (any-Ensures (find_block l b (store l cur b t))) λ found _.
          elim (Bool-cases (found == 0)) [
            | inl new ↦ rw new (
                bind-Ensures
                  (link-IsBalanced n cur (check_ints node.node_data b) node.mappings _
                    (omega arith))
                  λ r k. holds (count_block-IsBalanced b.type n r.table k))
            | inr old ↦ rw old (holds (omega arith))
          ]

    resolve-IsBalanced :
        (n cur : ℕ) (b : Block) (d : NodeData) (t : Table)
        → IsBalanced n t
        → Ensures (λ r. IsBalanced n r.1) (resolve l rec cur b d t)
    unfolding resolve
    resolve-IsBalanced n cur b (pmcg_data base gsiv ref) t h =
        bind-Ensures (keeps n ref _ (store l cur b t) (omega arith)) λ a k. holds k
    resolve-IsBalanced n cur b _ t h = holds h

    add_node-IsBalanced :
        (n cur : ℕ) (node : IortNode) (t : Table)
        → IsBalanced n t
        → Ensures (λ a. IsBalanced n a.table) (add_node l rec cur node t)
    unfolding add_node
    add_node-IsBalanced n cur node t h = elim (Option-cases (fill l node)) [
      | inl bad ↦ rw (bad, add_node) (holds (omega arith))
      | inr (b, good) ↦
          rw (good, add_node)
            (bind-Ensures (resolve-IsBalanced n cur b b.data' t h)
              λ r k. settle-IsBalanced n cur node r.0 r.1 k)
    ]

  -- Whatever node is added, and at whatever place, a table in which every block is counted once
  -- under its kind stays such a table, and no block count goes down.
  pub add-IsBalanced :
      (iort : Iort) (fuel n ref cur : ℕ) (t : Table)
      → IsBalanced n t
      → Ensures (λ a. IsBalanced n a.table) (add l iort fuel ref cur t)
  unfolding add
  add-IsBalanced iort zero n ref cur t h = faults
  add-IsBalanced iort (suc f) n ref cur t h =
      bind-Ensures (any-Ensures (iort ref))
        λ node _. add_node-IsBalanced (add l iort f) (add-IsBalanced iort f) n cur node t h

  -- The table with which the construction ended, either way.
  abbrev pub ended : Created → Table
  ended (complete t) = t
  ended (bad_iort t) = t

  add_nodes-IsBalanced :
      (x : IortTable) (fuel n off cur : ℕ) (t : Table)
      → IsBalanced 0 t
      → Ensures (λ c. IsBalanced 0 (ended c)) (add_nodes l x fuel n off cur t)
  unfolding add_nodes
  add_nodes-IsBalanced x fuel zero off cur t h = holds h
  add_nodes-IsBalanced x fuel (suc n) off cur t h = elim (Bool-cases (leb x.length off)) [
    | inl behind ↦ rw behind (holds h)
    | inr inside ↦ rw inside (
        bind-Ensures (any-Ensures (x.nodes off)) λ node _.
          bind-Ensures (add-IsBalanced x.nodes fuel 0 off cur t h)
            λ a k. add_nodes-IsBalanced x fuel n (off + node.length) a.next a.table k)
  ]

  -- Whatever the table held before, the construction ends, where it comes to an end, with a table
  -- in which the number of blocks is the sum of the numbers of SMMUs, root complexes, named
  -- components, ITS groups and PMCGs; this also where it stops at a bad IORT.
  pub create_info_table-IsBalanced :
      (x : IortTable) (fuel : ℕ) (t : Table)
      → Ensures (λ c. IsBalanced 0 (ended c)) (create_info_table l x fuel t)
  unfolding create_info_table
  create_info_table-IsBalanced x fuel t = add_nodes-IsBalanced x fuel _ _ _ (reset t) (omega arith)
