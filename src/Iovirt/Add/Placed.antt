-- ===== src/Iovirt/Add/Placed.antt =====
-- Where iovirt_add_block puts the blocks.
use linux_acs.Prelude.{
  ℕ, zero, suc, ◌+◌, ◌≡◌, ◌<◌, refl, sym, subst, Bool, true, false, inl, inr, Bool-cases, some,
  arith, All, Yields, yields,
}
use linux_acs.Iovirt.Table.{
  NodeType, its_group, named_component, root_complex, smmu, smmu_v3, pmcg, NodeData, its_data,
  name_data, rc_data, smmu_data, pmcg_data, is_smmu, is_rc, Block, Layout, Mem, Table, next_block,
}
use linux_acs.Iovirt.Iort.{
  IdMapping, IortData, its, named, rc, smmu2, smmu3, pmcg1, invalid, IortNode, Iort,
}
use linux_acs.Iovirt.Add.{Added, count_block, check_ints, connect, with_smmu_base, smmu_base, store}
use linux_acs.Iovirt.Chain.{
  Typed, Leads, Leads-≤, Leads-below, Leads-above, Leads-append, put-below, put-at, put-above,
}

-- A node of a known type that refers to others by its mappings only.
abbrev pub plain : IortData → Bool
plain (pmcg1 base gsiv ref) = false
plain (invalid type) = false
plain _ = true

-- The node at an offset is plain, and its references, which lead to such nodes, are nested less
-- than the given number deep.
abbrev pub Ok : Iort → ℕ → ℕ → Type 0
Ok iort zero ref = true ≡ false
Ok iort (suc f) ref =
    (n : IortNode) × (iort ref ≡ some n)
    × (plain n.node_data ≡ true)
    × All (λ (m : IdMapping). Ok iort f m.output_reference) n.mappings

-- The header and the first block have a size, and clearing rc.smmu_base keeps an SMMU's data that.
pub record IsLayout (l : Layout) : Type 0 where
  pub sized : 0 < l.header
  pub behind : 0 < l.blocks
  pub overlay_smmu :
      (d : NodeData) (base : ℕ)
      → smmu_base d ≡ some base
      → (base' : ℕ) × (smmu_base (l.overlay d) ≡ some base')

-- What an add at the place `cur` did to the table `t`: it put as many blocks one behind the other
-- at `cur` as it counted, left everything in front alone, and returned the offset of a block.
pub record Grown (l : Layout) (cur : ℕ) (t : Table) (a : Added) : Type 0 where
  pub k : ℕ
  pub counted : a.table.num_blocks ≡ t.num_blocks + k
  pub path : Leads l a.table.mem cur k a.next
  pub kept : (x : ℕ) → x < cur → a.table.mem x ≡ t.mem x
  pub target : (b : Block) × (a.table.mem a.offset ≡ some b) × Typed b

-- The same block but for flags, maps and data.
pub record Alike (b b' : Block) : Type 0 where
  pub same_type : b'.type ≡ b.type
  pub same_size : b'.num_data_map ≡ b.num_data_map
  pub typed : Typed b'

pub check_ints-Alike : (d : IortData) (b : Block) → Typed b → Alike b (check_ints d b)
check_ints-Alike (smmu2 base ints) b h = record { same_type = refl; same_size = refl; typed = h }
check_ints-Alike (its ids) b h = record { same_type = refl; same_size = refl; typed = h }
check_ints-Alike (named s) b h = record { same_type = refl; same_size = refl; typed = h }
check_ints-Alike (rc seg props ats) b h = record { same_type = refl; same_size = refl; typed = h }
check_ints-Alike (smmu3 base) b h = record { same_type = refl; same_size = refl; typed = h }
check_ints-Alike (pmcg1 base gsiv ref) b h = record {
  same_type = refl;
  same_size = refl;
  typed = h;
}
check_ints-Alike (invalid type) b h = record { same_type = refl; same_size = refl; typed = h }

count_block-counted :
    (k : NodeType) (t : Table)
    → ((count_block k t).num_blocks ≡ t.num_blocks + 1) × ((count_block k t).mem ≡ t.mem)
unfolding count_block
count_block-counted its_group t = (refl, refl)
count_block-counted named_component t = (refl, refl)
count_block-counted root_complex t = (refl, refl)
count_block-counted smmu t = (refl, refl)
count_block-counted smmu_v3 t = (refl, refl)
count_block-counted pmcg t = (refl, refl)

rc_not_smmu : (k : NodeType) → is_rc k ≡ true → is_smmu k ≡ false
rc_not_smmu root_complex h = refl
rc_not_smmu its_group h = refl
rc_not_smmu named_component h = refl
rc_not_smmu smmu h = sym h
rc_not_smmu smmu_v3 h = sym h
rc_not_smmu pmcg h = refl

rc-Typed :
    (k : NodeType) (d : NodeData)
    → is_rc k ≡ true
    → is_smmu k ≡ true
    → (base : ℕ) × (smmu_base d ≡ some base)
rc-Typed k d p q = let r = rc_not_smmu k p in cc

module _ (l : Layout) (laws : IsLayout l) where
  cleared_smmu :
      (d : NodeData) (base : ℕ)
      → smmu_base d ≡ some base
      → (base' : ℕ) × (smmu_base (with_smmu_base l d 0) ≡ some base')
  cleared_smmu (rc_data seg cca ats b) base e = cc
  cleared_smmu (its_data n) base e = laws.overlay_smmu (its_data n) base e
  cleared_smmu (name_data n) base e = laws.overlay_smmu (name_data n) base e
  cleared_smmu (smmu_data r b) base e = laws.overlay_smmu (smmu_data r b) base e
  cleared_smmu (pmcg_data b g r) base e = laws.overlay_smmu (pmcg_data b g r) base e

  Alike-data :
      (b : Block) (d : NodeData) → Typed (record b { data' = d }) → Alike b (record b { data' = d })
  Alike-data b d h = record { same_type = refl; same_size = refl; typed = h }

  -- The end of the mapping loop goes through where the mapping leads to a block.
  pub connect-Alike :
      (m : Mem) (off : ℕ) (b target : Block)
      → m off ≡ some target
      → Typed target
      → Typed b
      → Yields (Alike b) (connect l m off b)
  unfolding connect
  connect-Alike m off b target e known h = elim (Bool-cases (is_rc b.type)) [
    | inl p ↦ elim (Bool-cases (is_smmu target.type)) [
      | inl q ↦
          let (base, eb) = known q in
          rw (p, e, q, eb) (yields (Alike-data b _ (rc-Typed b.type _ p)))
      | inr q ↦ rw (p, e, q) (yields (Alike-data b _ (rc-Typed b.type _ p)))
    ]
    | inr p ↦
        rw p (yields (Alike-data b _ λ q. let (base, eb) = h q in cleared_smmu b.data' base eb))
  ]

  -- A block at `cur` whose maps are being filled: the blocks behind it that were counted since the
  -- count was `n` lead to `next`.
  pub record Open (cur n : ℕ) (b : Block) (next : ℕ) (t : Table) : Type 0 where
    pub k : ℕ
    pub counted : t.num_blocks ≡ n + k
    pub here : t.mem cur ≡ some b
    pub typed : Typed b
    pub path : Leads l t.mem (next_block l cur b) k next

  abbrev pub Same : ℕ → Mem → Mem → Type 0
  Same cur m m' = (x : ℕ) → x < cur → m' x ≡ m x

  pub store-Same : (cur : ℕ) (b : Block) (t : Table) → Same cur t.mem (store l cur b t).mem
  store-Same cur b t x h = put-below l laws.sized t.mem cur b x h

  pub start-Open :
      (cur : ℕ) (b : Block) (t : Table)
      → Typed b
      → Open cur t.num_blocks b (next_block l cur b) (store l cur b t)
  start-Open cur b t h = record {
    k = 0;
    counted = omega arith;
    here = put-at l laws.sized t.mem cur b;
    typed = h;
    path = refl;
  }

  -- All blocks in front of the next place.
  pub Open-Leads :
      (big cur n : ℕ) (b : Block) (next : ℕ) (t : Table) (o : Open cur n b next t)
      → Leads l t.mem l.blocks big cur
      → Leads l t.mem l.blocks (big + suc o.k) next
  Open-Leads big cur n b next t o front =
      Leads-append l laws.sized t.mem l.blocks big cur (suc o.k) next front
        (b, o.here, o.typed, o.path)

  pub Open-< : (cur n : ℕ) (b : Block) (next : ℕ) (t : Table) → Open cur n b next t → cur < next
  Open-< cur n b next t o =
      let h = Leads-≤ l laws.sized t.mem (next_block l cur b) o.k next o.path in
      let s = laws.sized in omega arith

  -- A referenced node is added, and the block is stored again with one map more.
  pub step-Open :
      (cur n : ℕ) (b b' : Block) (next : ℕ) (t : Table) (a : Added)
      → Open cur n b next t
      → Grown l next t a
      → Alike b b'
      → Open cur n b' a.next (store l cur b' a.table)
  step-Open cur n b b' next t a o g alike =
      let size : next_block l cur b' ≡ next_block l cur b = rw alike.same_size refl in
      let back : Leads l a.table.mem (next_block l cur b) (o.k + g.k) a.next =
        Leads-append l laws.sized a.table.mem (next_block l cur b) o.k next g.k a.next
          (Leads-below l laws.sized t.mem a.table.mem (next_block l cur b) o.k next g.kept o.path)
          g.path in
      let count = g.counted in
      let count' = o.counted in
      record {
        k = o.k + g.k;
        counted = omega arith;
        here = put-at l laws.sized a.table.mem cur b';
        typed = alike.typed;
        path =
            Leads-above l laws.sized a.table.mem _ (next_block l cur b') (o.k + g.k) a.next
              (λ x h. put-above l laws.sized a.table.mem cur b' x h)
              (subst (λ off. Leads l a.table.mem off (o.k + g.k) a.next) (sym size) back);
      }

  pub close-Grown :
      (kind : NodeType) (cur : ℕ) (b : Block) (next : ℕ) (t t' : Table)
      → Open cur t.num_blocks b next t'
      → Same cur t.mem t'.mem
      → Grown l cur t (record { offset = cur; next = next; table = count_block kind t' })
  close-Grown kind cur b next t t' o same =
      let (c, m) = count_block-counted kind t' in
      let count = o.counted in
      record {
        k = suc o.k;
        counted = omega arith;
        path = subst (λ mem. Leads l mem cur (suc o.k) next) (sym m) (b, o.here, o.typed, o.path);
        kept = rw m same;
        target = rw m (b, o.here, o.typed);
      }
