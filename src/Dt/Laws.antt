-- ===== src/Dt/Laws.antt =====
-- What the device-tree tables hold.
use linux_acs.Prelude.{
  ℕ, ◌+◌, ◌^◌, ◌-◌, ◌≡◌, refl, ◌∙◌, sym, ap₂, Bool-cases, Option-cases, inl, inr, none, some, List,
  [], ◌∷◌, ◌++◌, append-nil, append_assoc, ◌==◌, if◌then◌else◌, length, arith, get_or,
}
use linux_acs.Madt.{PeEntry, PeTable}
use linux_acs.Iovirt.Table.{NodeType, smmu, smmu_v3, Layout, Table}
use linux_acs.Iovirt.Create.{reset}
use linux_acs.Iovirt.Query.{get_rc_smmu_base}
use linux_acs.Iovirt.Query.Base.{get_rc_smmu_base-none}
use linux_acs.Dt.{
  DeviceNode, Of, EcamBlock, EcamTable, SmmuTable, SmmuBlock, get_cpu_mpidr, pe_loop,
  pe_create_info_table_dt, ecam_block, ecam_loop, pcie_create_info_table_dt, smmu_loop,
  iovirt_create_info_table_dt, cells, add_smmu,
}

module _ (o : Of) where
  -- The identifiers of the CPU nodes in front of the first invalid one.
  abbrev pub valid_ids : List DeviceNode → List ℕ
  valid_ids [] = []
  valid_ids (dn ∷ dns) =
      if get_cpu_mpidr o dn == o.invalid_hwid then [] else get_cpu_mpidr o dn ∷ valid_ids dns

  abbrev pub entries : ℕ → List ℕ → List PeEntry
  entries n [] = []
  entries n (id ∷ ids) = record { mpidr = id; pe_num = n; pmu_gsiv = 0 } ∷ entries (n + 1) ids

  abbrev pub pe_table : ℕ → List PeEntry → PeTable
  pe_table n xs = record { num_of_pe = n; pe_info = xs }

  pe_loop-entries :
      (dns : List DeviceNode) (n : ℕ) (xs : List PeEntry)
      → pe_loop o dns (pe_table n xs)
        ≡ pe_table (n + length (valid_ids dns)) (xs ++ entries n (valid_ids dns))
  unfolding pe_loop
  pe_loop-entries [] n xs = ap₂ pe_table (omega arith) (sym (append-nil xs))
  pe_loop-entries (dn ∷ dns) n xs = elim (Bool-cases (get_cpu_mpidr o dn == o.invalid_hwid)) [
    | inl bad ↦ rw bad (ap₂ pe_table (omega arith) (sym (append-nil xs)))
    | inr good ↦
        let new : PeEntry = record { mpidr = get_cpu_mpidr o dn; pe_num = n; pmu_gsiv = 0 } in
        rw good (
          pe_loop-entries dns (n + 1) (xs ++ new ∷ [])
          ∙ ap₂ pe_table (omega arith)
              (append_assoc xs (new ∷ []) (entries (n + 1) (valid_ids dns))))
  ]

  -- From a device tree, the PE table gets one entry for each CPU node in front of the first
  -- invalid one, in the order of the nodes, with the node's affinity and numbered from 0 on; the
  -- count is the number of entries.
  pub pe_create_info_table_dt-entries :
      (dns : List DeviceNode)
      → pe_create_info_table_dt o dns
        ≡ pe_table (length (valid_ids dns)) (entries 0 (valid_ids dns))
  unfolding pe_create_info_table_dt
  pe_create_info_table_dt-entries dns = pe_loop-entries dns 0 [] ∙ ap₂ pe_table (omega arith) refl

  -- The blocks of the host bridges in front of the first one without its properties.
  abbrev pub valid_blocks : List DeviceNode → List EcamBlock
  valid_blocks [] = []
  valid_blocks (dn ∷ dns) = elim (ecam_block o dn) [ none ↦ [] | some b ↦ b ∷ valid_blocks dns ]

  abbrev pub ecam_table : ℕ → List EcamBlock → EcamTable
  ecam_table n xs = record { num_entries = n; blocks = xs }

  ecam_loop-valid_blocks :
      (dns : List DeviceNode) (n : ℕ) (xs : List EcamBlock)
      → ecam_loop o dns (ecam_table n xs)
        ≡ ecam_table (n + length (valid_blocks dns)) (xs ++ valid_blocks dns)
  unfolding ecam_loop
  ecam_loop-valid_blocks [] n xs = ap₂ ecam_table (omega arith) (sym (append-nil xs))
  ecam_loop-valid_blocks (dn ∷ dns) n xs = elim (Option-cases (ecam_block o dn)) [
    | inl bad ↦
        rw (bad, ecam_loop, valid_blocks) (ap₂ ecam_table (omega arith) (sym (append-nil xs)))
    | inr (b, good) ↦
        rw (good, ecam_loop, valid_blocks)
          (ecam_loop-valid_blocks dns (n + 1) (xs ++ b ∷ [])
            ∙ ap₂ ecam_table (omega arith) (append_assoc xs (b ∷ []) (valid_blocks dns)))
  ]

  -- From a device tree, the PCIe table gets one block for each host bridge in front of the first
  -- one whose properties are missing or short, in order; the count is the number of blocks.
  pub pcie_create_info_table_dt-blocks :
      (dns : List DeviceNode)
      → pcie_create_info_table_dt o dns ≡ ecam_table (length (valid_blocks dns)) (valid_blocks dns)
  unfolding pcie_create_info_table_dt
  pcie_create_info_table_dt-blocks dns =
      ecam_loop-valid_blocks dns 0 [] ∙ ap₂ ecam_table (omega arith) refl

-- The SMMUs are counted by kind, and no block is.
record Counts (s : SmmuTable) : Type 0 where
  smmus : s.table.num_smmus ≡ length s.written
  blocks : s.table.num_blocks ≡ 0

length-snoc : (xs : List SmmuBlock) (x : SmmuBlock) → length (xs ++ x ∷ []) ≡ length xs + 1
length-snoc [] x = omega arith
length-snoc (y ∷ xs) x = let h = length-snoc xs x in omega arith

smmu_loop-Counts :
    (type : NodeType) (rev : ℕ) (dns : List DeviceNode) (s : SmmuTable)
    → Counts s
    → Counts (smmu_loop type rev dns s).1
unfolding smmu_loop
smmu_loop-Counts type rev [] s h = h
smmu_loop-Counts type rev (dn ∷ dns) s h = elim (Option-cases (cells 2 dn.reg)) [
  | inl bad ↦ rw (bad, smmu_loop) h
  | inr (reg, good) ↦
      let base = get_or reg 0 0 in
      let count =
        length-snoc s.written (record { type = type; arch_major_rev = rev; base = base }) in
      let a = h.smmus in
      let c : Counts (add_smmu type rev base s) = record {
        smmus = omega arith;
        blocks = h.blocks;
      } in
      rw (good, smmu_loop) (smmu_loop-Counts type rev dns (add_smmu type rev base s) c)
]

iovirt_create_info_table_dt-Counts :
    (v1 v2 v3 : List DeviceNode) (t : Table)
    → Counts (iovirt_create_info_table_dt v1 v2 v3 (reset t))
unfolding iovirt_create_info_table_dt
iovirt_create_info_table_dt-Counts v1 v2 v3 t =
    let s0 : SmmuTable = record { table = reset t; written = [] } in
    let r = smmu_loop smmu 1 v1 s0 in
    let r2 = smmu_loop smmu 2 v2 r.1 in
    let c1 = smmu_loop-Counts smmu 1 v1 s0 (record { smmus = refl; blocks = refl }) in
    let c2 = smmu_loop-Counts smmu 2 v2 r.1 c1 in
    elim (Bool-cases r.0) [
      | inl p ↦ elim (Bool-cases r2.0) [
        | inl q ↦ rw (p, q) (smmu_loop-Counts smmu_v3 3 v3 r2.1 c2)
        | inr q ↦ rw (p, q) c2
      ]
      | inr p ↦ rw p c1
    ]

-- On any device tree the number of SMMUs is the number of blocks that were written, but the number
-- of blocks stays 0; so a query for the SMMU behind a root complex answers 0xFFFFFFFF for every
-- segment and requester ID.
pub iovirt_create_info_table_dt-uncounted :
    (l : Layout) (v1 v2 v3 : List DeviceNode) (t : Table) (seg rid : ℕ)
    → let s = iovirt_create_info_table_dt v1 v2 v3 (reset t) in
      (s.table.num_smmus ≡ length s.written)
      × (s.table.num_blocks ≡ 0)
      × (get_rc_smmu_base l seg rid s.table ≡ some (2 ^ 32 - 1))
iovirt_create_info_table_dt-uncounted l v1 v2 v3 t seg rid =
    let c = iovirt_create_info_table_dt-Counts v1 v2 v3 t in
    let s = iovirt_create_info_table_dt v1 v2 v3 (reset t) in
    (
      c.smmus,
      c.blocks,
      get_rc_smmu_base-none l seg rid s.table [] (record { counted = c.blocks; stored = tt }) tt,
    )
