-- ===== src/Iovirt/Add/Pmcg.antt =====
-- The case of a PMCG in iovirt_add_block.
use linux_acs.Prelude.{
  ℕ, zero, suc, ◌+◌, ◌≡◌, ◌<◌, refl, true, false, inl, inr, Bool-cases, Option, some, List, [],
  length, arith, ◌==◌, Yields, yields, of_Yields,
}
use linux_acs.Iovirt.Table.{pmcg, pmcg_data, no_flags, Block, Layout, Mem, Table, next_block}
use linux_acs.Iovirt.Iort.{IdMapping, pmcg1, IortNode, Iort, fill, same_block, same_data}
use linux_acs.Iovirt.Add.{Added, find_from, find_block, resolve, settle, add_node, add, store}
use linux_acs.Iovirt.Chain.{Leads, Leads-below, Leads-append, put-at}
use linux_acs.Iovirt.Add.Placed.{Ok, IsLayout, store-Same}
use linux_acs.Iovirt.Add.Total.{add-Grown}

-- The header that is written for a PMCG before its reference is followed.
unfoldable pub pmcg_block : ℕ → ℕ → ℕ → List IdMapping → Block
pmcg_block base gsiv ref ms = record {
  type = pmcg;
  num_data_map = length ms;
  data' = pmcg_data base gsiv ref;
  flags = no_flags;
  maps = [];
  ids = [];
}

same_block-pmcg :
    (base gsiv ref : ℕ) (ms : List IdMapping)
    → same_block (pmcg_block base gsiv ref ms) (pmcg_block base gsiv ref ms) ≡ true
unfolding same_block same_data pmcg_block
same_block-pmcg base gsiv ref ms = ground arith

yielded {ℓ κ} : {A : Type ℓ} {P : A → Type κ} {a : A} → Yields P (some a) → P a
yielded (yields p) = p

module _ (l : Layout) (laws : IsLayout l) where
  -- A search over more blocks than lead to an equal one ends at a block.
  find_from-hits :
      (key : Block) (m : Mem) (n off k to : ℕ)
      → 0 < off
      → k < n
      → Leads l m off k to
      → m to ≡ some key
      → same_block key key ≡ true
      → Yields (λ r. 0 < r) (find_from l key m n off)
  unfolding find_from
  find_from-hits key m zero off k to pos h p at same = absurd (omega arith)
  find_from-hits key m (suc n) off zero to pos h p at same =
      rw (p, at, find_from, same) (yields pos)
  find_from-hits key m (suc n) off (suc k) to pos h (b, e, typed, p) at same =
      elim (Bool-cases (same_block key b)) [
        | inl hit ↦ rw (e, find_from, hit) (yields pos)
        | inr miss ↦
            let s = laws.sized in
            rw (e, find_from, miss)
              (find_from-hits key m n (next_block l off b) k to (omega arith) (omega arith) p at
                same)
      ]

  -- A block that the search finds is not counted.
  settle-dropped :
      (rec : ℕ → ℕ → Table → Option Added) (cur k : ℕ) (n : IortNode) (b : Block) (t : Table)
      → Leads l t.mem l.blocks k cur
      → k < t.num_blocks
      → same_block b b ≡ true
      → Yields
          (λ u.
            (u.next ≡ cur)
            × (u.table.num_blocks ≡ t.num_blocks)
            × (u.table.num_pmcgs ≡ t.num_pmcgs))
          (settle l rec cur n b t)
  unfolding settle find_block
  settle-dropped rec cur k n b t front more same =
      let front' =
        Leads-below l laws.sized t.mem (store l cur b t).mem l.blocks k cur
          (store-Same l laws cur b t) front in
      let (r, e, pos) = of_Yields (
        find_from-hits b (store l cur b t).mem t.num_blocks l.blocks k cur laws.behind more front'
          (put-at l laws.sized t.mem cur b) same) in
      let found : (r == 0) ≡ false = ground arith in rw (e, found) (yields (refl, refl, refl))

  module _ (iort : Iort) where
    -- A PMCG, at the place `cur` behind as many blocks as are counted, that refers to a node that is
    -- not in the table yet, so that following the reference counts more blocks: the search finds a
    -- block, so that the PMCG is not counted, the counts are those of the reference alone, and `cur`
    -- stays the place for the next block.
    pub add-pmcg_dropped :
        (f ref cur base gsiv target len : ℕ) (ms : List IdMapping) (t : Table) (a : Added)
        → iort ref
          ≡ some (record { node_data = pmcg1 base gsiv target; length = len; mappings = ms })
        → Ok iort f target
        → Leads l t.mem l.blocks t.num_blocks cur
        → add l iort f target
            (next_block l cur (pmcg_block base gsiv target ms))
            (store l cur (pmcg_block base gsiv target ms) t)
          ≡ some a
        → t.num_blocks < a.table.num_blocks
        → Yields
            (λ u.
              (u.next ≡ cur)
              × (u.table.num_blocks ≡ a.table.num_blocks)
              × (u.table.num_pmcgs ≡ a.table.num_pmcgs))
            (add l iort (suc f) ref cur t)
    unfolding add add_node resolve pmcg_block fill
    add-pmcg_dropped f ref cur base gsiv target len ms t a node ok front e more =
        let b = pmcg_block base gsiv target ms in
        let place = next_block l cur b in
        let t' = store l cur b t in
        let front' =
          Leads-below l laws.sized t.mem t'.mem l.blocks t.num_blocks cur
            (store-Same l laws cur b t) front in
        let whole =
          Leads-append l laws.sized t'.mem l.blocks t.num_blocks cur 1 place front'
            (b, put-at l laws.sized t.mem cur b, λ q. cc, refl) in
        let grown =
          add-Grown l laws iort f target (t.num_blocks + 1) place t' ok whole (omega arith) in
        let g = yielded (rw e at grown) in
        let s = laws.sized in
        let n : IortNode = record {
          node_data = pmcg1 base gsiv target;
          length = len;
          mappings = ms;
        } in
        rw (node, add_node, e)
          (settle-dropped (add l iort f) cur t.num_blocks n (pmcg_block base gsiv a.offset ms)
            a.table
            (Leads-below l laws.sized t'.mem a.table.mem l.blocks t.num_blocks cur
              (λ x h. g.kept x (omega arith)) front')
            more (same_block-pmcg base gsiv a.offset ms))
