-- ===== src/Iovirt/Add/Total.antt =====
-- iovirt_add_block comes to an end on a plain IORT, and pal_iovirt_create_info_table with it.
use linux_acs.Prelude.{
  ℕ, zero, suc, ◌+◌, ◌≡◌, ◌≤◌, ◌<◌, refl, sym, subst, ◌∙◌, true, false, inl, inr, Bool-cases,
  Option, some, List, [], ◌∷◌, ◌++◌, arith, ◌==◌, leb, All, Yields, yields, bind-Yields, of_Yields,
  weaken-Yields, Yields-≡,
}
use linux_acs.Iovirt.Table.{is_its, Block, Layout, Table, next_block}
use linux_acs.Iovirt.Iort.{
  IdMapping, IortData, its, named, rc, smmu2, smmu3, pmcg1, invalid, IortNode, Iort, fill,
}
use linux_acs.Iovirt.Add.{
  Added, Linked, check_ints, data_map, map_loop, resolve, link, settle, add_node, add, store,
  find_block,
}
use linux_acs.Iovirt.Add.Placed.{
  plain, Ok, IsLayout, Grown, Alike, Open, Same, connect-Alike, check_ints-Alike, store-Same,
  start-Open, Open-Leads, Open-<, step-Open, close-Grown,
}
use linux_acs.Iovirt.Create.{IortTable, complete, reset, add_nodes, create_info_table}
use linux_acs.Iovirt.Chain.{Typed, Leads, Leads-append, Leads-below, find_from-Leads}

-- A plain node has a header, which refers to nothing.
fill-plain :
    (l : Layout) (rec : ℕ → ℕ → Table → Option Added) (cur : ℕ) (t : Table) (d : IortData) (len : ℕ)
    (ms : List IdMapping)
    → plain d ≡ true
    → (b : Block) × (fill l (record { node_data = d; length = len; mappings = ms }) ≡ some b)
      × Typed b
      × (resolve l rec cur b b.data' t ≡ some (b, t))
unfolding fill resolve
fill-plain l rec cur t (its ids) len ms p = (_, refl, λ q. cc, refl)
fill-plain l rec cur t (named s) len ms p = (_, refl, λ q. cc, refl)
fill-plain l rec cur t (rc seg props ats) len ms p = (_, refl, λ q. cc, refl)
fill-plain l rec cur t (smmu2 base ints) len ms p = (_, refl, λ q. (base, refl), refl)
fill-plain l rec cur t (smmu3 base) len ms p = (_, refl, λ q. (base, refl), refl)
fill-plain l rec cur t (pmcg1 base gsiv ref) len ms p = cc
fill-plain l rec cur t (invalid type) len ms p = cc

module _ (l : Layout) (laws : IsLayout l) (iort : Iort) where
  abbrev Good : ℕ → (ℕ → ℕ → Table → Option Added) → Type 0
  Good f rec =
      (ref big cur : ℕ) (t : Table)
      → Ok iort f ref
      → Leads l t.mem l.blocks big cur
      → t.num_blocks ≤ big
      → Yields (Grown l cur t) (rec ref cur t)

  -- The mappings are linked, and nothing in front of the block has changed.
  record Ended (cur n : ℕ) (t : Table) (r : Linked) : Type 0 where
    opened : Open l laws cur n r.block r.next r.table
    same : Same l laws cur t.mem r.table.mem

  module _ (f : ℕ) (rec : ℕ → ℕ → Table → Option Added) (good : Good f rec) where
    map_loop-Ended :
        (big cur n : ℕ) (b : Block) (ms : List IdMapping) (next : ℕ) (t : Table)
        → All (λ (m : IdMapping). Ok iort f m.output_reference) ms
        → Leads l t.mem l.blocks big cur
        → n ≤ big
        → Open l laws cur n b next t
        → Yields (Ended cur n t) (map_loop l rec cur b ms next t)
    unfolding map_loop
    map_loop-Ended big cur n b [] next t ok front h o =
        yields (record { opened = o; same = λ x _. refl })
    map_loop-Ended big cur n b (m ∷ ms) next t ok front h o =
        let count = o.counted in
        bind-Yields
          (good m.output_reference (big + suc o.k) next t ok.0
            (Open-Leads l laws big cur n b next t o front) (omega arith))
          λ a g.
            let (target, at, known) = g.target in
            bind-Yields
              (connect-Alike l laws a.table.mem a.offset
                (record b { maps = b.maps ++ data_map m a.offset ∷ [] }) target at known o.typed)
              λ b' alike.
                let sized : Alike b b' = record {
                  same_type = alike.same_type;
                  same_size = alike.same_size;
                  typed = alike.typed;
                } in
                let near = Open-< l laws cur n b next t o in
                let same : Same l laws cur t.mem (store l cur b' a.table).mem =
                  λ x d. store-Same l laws cur b' a.table x d ∙ g.kept x (omega arith) in
                weaken-Yields
                  (map_loop-Ended big cur n b' ms a.next (store l cur b' a.table) ok.1
                    (Leads-below l laws.sized t.mem (store l cur b' a.table).mem l.blocks big cur
                      same front)
                    h (step-Open l laws cur n b b' next t a o g sized))
                  λ r e. record { opened = e.opened; same = λ x d. e.same x d ∙ same x d }

    link-Ended :
        (big cur : ℕ) (b : Block) (ms : List IdMapping) (t : Table)
        → All (λ (m : IdMapping). Ok iort f m.output_reference) ms
        → Leads l t.mem l.blocks big cur
        → t.num_blocks ≤ big
        → Typed b
        → Yields (Ended cur t.num_blocks (store l cur b t)) (link l rec cur b ms (store l cur b t))
    unfolding link
    link-Ended big cur b ms t ok front h typed =
        let o = start-Open l laws cur b t typed in
        elim (Bool-cases (is_its b.type)) [
          | inl its' ↦ rw its' (yields (record { opened = o; same = λ x _. refl }))
          | inr other ↦ rw other (
              map_loop-Ended big cur t.num_blocks b ms (next_block l cur b) (store l cur b t) ok
                (Leads-below l laws.sized t.mem (store l cur b t).mem l.blocks big cur
                  (store-Same l laws cur b t) front)
                h o)
        ]

    settle-Grown :
        (big cur : ℕ) (node : IortNode) (b : Block) (t : Table)
        → All (λ (m : IdMapping). Ok iort f m.output_reference) node.mappings
        → Leads l t.mem l.blocks big cur
        → t.num_blocks ≤ big
        → Typed b
        → Yields (Grown l cur t) (settle l rec cur node b t)
    unfolding settle find_block
    settle-Grown big cur node b t ok front h typed =
        bind-Yields
          (find_from-Leads l laws.sized b (store l cur b t).mem t.num_blocks l.blocks big cur h (
            Leads-below l laws.sized t.mem (store l cur b t).mem l.blocks big cur
              (store-Same l laws cur b t) front))
          λ found where'. elim (Bool-cases (found == 0)) [
            | inl new ↦ rw new (
                bind-Yields
                  (link-Ended big cur (check_ints node.node_data b) node.mappings t ok front h
                    (check_ints-Alike node.node_data b typed).typed)
                  λ r e. yields (
                    close-Grown l laws b.type cur r.block r.next t r.table e.opened (λ x d.
                      e.same x d ∙ store-Same l laws cur (check_ints node.node_data b) t x d)))
            | inr old ↦ rw old (
                yields (record {
                  k = 0;
                  counted = omega arith;
                  path = refl;
                  kept = store-Same l laws cur b t;
                  target = elim where' [ inl z ↦ absurd (ground (arith, z, old)) | inr at ↦ at ];
                }))
          ]

    add_node-Grown :
        (big cur : ℕ) (node : IortNode) (t : Table)
        → plain node.node_data ≡ true
        → All (λ (m : IdMapping). Ok iort f m.output_reference) node.mappings
        → Leads l t.mem l.blocks big cur
        → t.num_blocks ≤ big
        → Yields (Grown l cur t) (add_node l rec cur node t)
    unfolding add_node
    add_node-Grown big cur node t p ok front h =
        let (b, e, typed, still) =
          fill-plain l rec cur t node.node_data node.length node.mappings p in
        rw (e, add_node)
          (bind-Yields (Yields-≡ {P = λ r. r ≡ (b, t)} still refl)
            λ r q. rw q (settle-Grown big cur node b t ok front h typed))

  -- A plain node whose references are nested less than `f` deep is added with fuel `f`, behind
  -- blocks that stand one behind the other and are as many as are counted, or more.
  pub add-Grown : (f : ℕ) → Good f (add l iort f)
  unfolding add
  add-Grown zero ref big cur t ok front h = cc
  add-Grown (suc f) ref big cur t (node, e, p, ok) front h =
      rw e (add_node-Grown f (add l iort f) (add-Grown f) big cur node t p ok front h)

-- The nodes that the loop comes to start in front of the end of the IORT, and are plain, with
-- references nested less than `f` deep.
abbrev pub AllOk : IortTable → ℕ → ℕ → ℕ → Type 0
AllOk x f zero off = Unit
AllOk x f (suc n) off =
    (off < x.length)
    × Ok x.nodes f off
    × ((node : IortNode) → x.nodes off ≡ some node → AllOk x f n (off + node.length))

-- A complete table: as many blocks as are counted stand one behind the other.
pub record IsComplete (l : Layout) (t : Table) : Type 0 where
  pub end : ℕ
  pub path : Leads l t.mem l.blocks t.num_blocks end

module _ (l : Layout) (laws : IsLayout l) (x : IortTable) where
  found :
      (f n off : ℕ)
      → Ok x.nodes f off
      → ((node : IortNode) → x.nodes off ≡ some node → AllOk x f n (off + node.length))
      → Yields (λ node. AllOk x f n (off + node.length)) (x.nodes off)
  found zero n off ok later = cc
  found (suc f) n off (node, e, p, ok) later = Yields-≡ e (later node e)

  add_nodes-IsComplete :
      (f n off cur : ℕ) (t : Table)
      → AllOk x f n off
      → Leads l t.mem l.blocks t.num_blocks cur
      → Yields (λ c. (u : Table) × (c ≡ complete u) × IsComplete l u) (add_nodes l x f n off cur t)
  unfolding add_nodes
  add_nodes-IsComplete f zero off cur t ok p = yields (t, refl, record { end = cur; path = p })
  add_nodes-IsComplete f (suc n) off cur t (inside, here, later) p =
      let inside' : leb x.length off ≡ false = ground arith in
      rw inside' (
        bind-Yields (found f n off here later) λ node next.
          bind-Yields (add-Grown l laws x.nodes f off t.num_blocks cur t here p (omega arith))
            λ a g. add_nodes-IsComplete f n (off + node.length) a.next a.table next (
              subst (λ k. Leads l a.table.mem l.blocks k a.next) (sym g.counted)
                (Leads-append l laws.sized a.table.mem l.blocks t.num_blocks cur g.k a.next
                  (Leads-below l laws.sized t.mem a.table.mem l.blocks t.num_blocks cur g.kept p)
                  g.path)))

  -- On an IORT of plain nodes whose references are nested less than `f` deep, the construction
  -- with fuel `f` adds all nodes and comes to an end, whatever the table held before, and leaves a
  -- table in which the blocks stand one behind the other, as many as the counter says; the macro
  -- for the next block reaches them all.
  pub create_info_table-IsComplete :
      (f : ℕ) (t : Table)
      → AllOk x f x.node_count x.node_offset
      → (u : Table) × (create_info_table l x f t ≡ some (complete u)) × IsComplete l u
  unfolding create_info_table
  create_info_table-IsComplete f t ok =
      let (c, e, (u, is, h)) =
        of_Yields (add_nodes-IsComplete f x.node_count x.node_offset l.blocks (reset t) ok refl) in
      (u, rw is at e, h)
