-- ===== src/Iovirt/Checked/Whole.antt =====
-- The whole construction of the IO virtualisation table.
use linux_acs.Prelude.{
  ℕ, zero, suc, ◌≡◌, ◌≤◌, ◌<◌, refl, ap, sym, ◌∙◌, Bool, some, List, [], ◌∷◌, length, arith,
}
use linux_acs.Iovirt.Table.{Layout, Mem, Table, Block, DataMap, next_block}
use linux_acs.Iovirt.Chain.{Leads}
use linux_acs.Iovirt.Create.{IortTable, complete, create_info_table}
use linux_acs.Iovirt.Overlap.Growth.{Each, none_left, one_more}
use linux_acs.Iovirt.Overlap.Shares.{check_mapping_overlap-Each}
use linux_acs.Iovirt.Query.Base.{At, Holds}
use linux_acs.Iovirt.Add.Placed.{IsLayout}
use linux_acs.Iovirt.Add.Total.{AllOk, create_info_table-IsComplete}
use linux_acs.Iovirt.Checked.{
  blocks_from, write_back, checked_blocks, check_table, iovirt_create_info_table, its_at,
}

module _ (l : Layout) where
  blocks_from-Leads :
      (m : Mem) (off k to : ℕ)
      → Leads l m off k to
      → (bs : List Block) × (blocks_from l m k off ≡ some bs) × (length bs ≡ k) × At l m off bs
  unfolding blocks_from
  blocks_from-Leads m off zero to p = ([], refl, refl, tt)
  blocks_from-Leads m off (suc k) to (b, e, typed, p) =
      let (bs, f, n, a) = blocks_from-Leads m (next_block l off b) k to p in
      (b ∷ bs, rw (e, f) refl, ap suc n, (e, a))

  At-above :
      (sized : 0 < l.header) (m m' : Mem) (off : ℕ) (bs : List Block)
      → ((x : ℕ) → off ≤ x → m' x ≡ m x)
      → At l m off bs
      → At l m' off bs
  At-above sized m m' off [] same a = tt
  At-above sized m m' off (b ∷ bs) same (e, a) = (
    same off (omega arith) ∙ e,
    At-above sized m m' (next_block l off b) bs (λ x h. same x (omega arith)) a,
  )

  write_back-At :
      (sized : 0 < l.header) (m : Mem) (off : ℕ) (bs : List Block)
      → At l (write_back l m off bs) off bs
  unfolding write_back
  write_back-At sized m off [] = tt
  write_back-At sized m off (b ∷ bs) = (
    ground arith,
    At-above sized (write_back l m (next_block l off b) bs) _ (next_block l off b) bs
        (λ x h. ground arith) (write_back-At sized m (next_block l off b) bs),
  )

Each-length : {bs cs : List Block} → Each bs cs → length cs ≡ length bs
Each-length none_left = refl
Each-length (one_more g gs) = ap suc (Each-length gs)

-- What the whole function leaves, next to what the construction alone leaves.
pub record IsChecked (l : Layout) (elsewhere : ℕ → Bool) (past : List Block → ℕ → DataMap)
    (x : IortTable) (fuel : ℕ) (t : Table) : Type 0 where
  pub built : Table
  pub blocks : List Block
  pub builds : create_info_table l x fuel t ≡ some (complete built)
  pub holds : Holds l built blocks
  pub result : Table
  pub returns : iovirt_create_info_table l elsewhere past x fuel t ≡ some (complete result)
  pub keeps : result ≡ record built { mem = result.mem }
  pub checked : Holds l result (checked_blocks l elsewhere past built blocks)
  pub grown : Each blocks (checked_blocks l elsewhere past built blocks)

-- On an IORT whose nodes, and all nodes that they refer to, are of known types, are no PMCG, and are
-- nested less deep than the fuel, pal_iovirt_create_info_table comes to its end: its blocks stand one
-- behind the other and are those of the construction after check_mapping_overlap, so that they
-- differ from these in overlap flags that were set and in nothing else; the counters are those of
-- the construction.
pub iovirt_create_info_table-IsChecked :
    (l : Layout) (laws : IsLayout l) (elsewhere : ℕ → Bool) (past : List Block → ℕ → DataMap)
    (x : IortTable) (fuel : ℕ) (t : Table)
    → AllOk x fuel x.node_count x.node_offset
    → IsChecked l elsewhere past x fuel t
unfolding iovirt_create_info_table check_table
iovirt_create_info_table-IsChecked l laws elsewhere past x fuel t ok =
    let (u, e, c) = create_info_table-IsComplete l laws x fuel t ok in
    let (bs, f, n, a) = blocks_from-Leads l u.mem l.blocks u.num_blocks c.end c.path in
    let cs = checked_blocks l elsewhere past u bs in
    let g = check_mapping_overlap-Each (its_at elsewhere u.mem) past bs in
    record {
      built = u;
      blocks = bs;
      builds = e;
      holds = record { counted = sym n; stored = a };
      result = record u { mem = write_back l u.mem l.blocks cs };
      returns = rw (e, f) refl;
      keeps = refl;
      checked = record {
        counted = sym (Each-length g ∙ n);
        stored = write_back-At l laws.sized u.mem l.blocks cs;
      };
      grown = g;
    }
