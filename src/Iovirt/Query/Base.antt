-- ===== src/Iovirt/Query/Base.antt =====
-- The SMMU behind a root complex, in a table whose blocks stand one behind the other.
use linux_acs.Prelude.{
  ℕ, ◌^◌, ◌-◌, ◌≡◌, refl, ◌∙◌, Bool, true, ◌&&◌, none, some, List, [], ◌∷◌, ◌++◌, length, All,
  Bool-cases, Option-cases, inl, inr,
}
use linux_acs.Iovirt.Table.{
  Layout, Mem, Block, DataMap, smmu_data, is_rc, is_smmu, Table, next_block,
}
use linux_acs.Iovirt.Query.{
  find_map, translate, segment_is, Found, scan_block, scan_blocks, get_rc_smmu_base,
}

-- The blocks `bs` stand one behind the other from `off` on.
abbrev pub At : Layout → Mem → ℕ → List Block → Type 0
At l m off [] = Unit
At l m off (b ∷ bs) = (m off ≡ some b) × At l m (next_block l off b) bs

-- The table consists of the blocks `bs`.
pub record Holds (l : Layout) (t : Table) (bs : List Block) : Type 0 where
  pub counted : t.num_blocks ≡ length bs
  pub stored : At l t.mem l.blocks bs

scan_list : ℕ → ℕ → List Block → Found → Found
scan_list seg rid [] f = f
scan_list seg rid (b ∷ bs) f = scan_list seg rid bs (scan_block seg rid b f)

scan_blocks-scan_list :
    (l : Layout) (seg rid : ℕ) (m : Mem) (off : ℕ) (bs : List Block) (f : Found)
    → At l m off bs
    → scan_blocks l seg rid m (length bs) off f ≡ some (scan_list seg rid bs f)
unfolding scan_blocks scan_list
scan_blocks-scan_list l seg rid m off [] f h = refl
scan_blocks-scan_list l seg rid m off (b ∷ bs) f h =
    rw h.0 (scan_blocks-scan_list l seg rid m (next_block l off b) bs (scan_block seg rid b f) h.1)

-- A root complex of the segment.
abbrev pub serves : ℕ → Block → Bool
serves seg b = is_rc b.type && segment_is b.data' seg

-- A block that has no mapping for the ID.
abbrev pub Silent : ℕ → ℕ → Block → Type 0
Silent seg rid b = (serves seg b ≡ true) → find_map rid b.maps ≡ none

scan_block-Silent :
    (seg rid : ℕ) (b : Block) (f : Found) → Silent seg rid b → scan_block seg rid b f ≡ f
unfolding scan_block
scan_block-Silent seg rid b f h = elim (Bool-cases (serves seg b)) [
  | inl e ↦ rw (e, h e)
  | inr e ↦ rw e
]

scan_list-Silent :
    (seg rid : ℕ) (bs : List Block) (f : Found)
    → All (Silent seg rid) bs
    → scan_list seg rid bs f ≡ f
unfolding scan_list
scan_list-Silent seg rid [] f h = refl
scan_list-Silent seg rid (b ∷ bs) f h =
    rw (scan_block-Silent seg rid b f h.0) (scan_list-Silent seg rid bs f h.1)

scan_list-append :
    (seg rid : ℕ) (xs ys : List Block) (f : Found)
    → scan_list seg rid (xs ++ ys) f ≡ scan_list seg rid ys (scan_list seg rid xs f)
unfolding scan_list
scan_list-append seg rid [] ys f = refl
scan_list-append seg rid (x ∷ xs) ys f = scan_list-append seg rid xs ys (scan_block seg rid x f)

scan_list-last :
    (seg rid : ℕ) (before after : List Block) (b : Block) (m : DataMap) (f : Found)
    → serves seg b ≡ true
    → find_map rid b.maps ≡ some m
    → All (Silent seg rid) after
    → scan_list seg rid (before ++ b ∷ after) f ≡ some (translate rid m)
unfolding scan_list scan_block
scan_list-last seg rid before after b m f s found h =
    let e = scan_list-Silent seg rid after (some (translate rid m)) h in
    scan_list-append seg rid before (b ∷ after) f ∙ rw (s, found) e

-- The answer for a requester ID of a segment comes from the last root complex of the segment that
-- has a mapping for the ID, whatever earlier ones say: if the mapping leads to an SMMU block that
-- has a mapping for the translated ID, it is the base of that SMMU, and if no mapping of that SMMU
-- block covers the translated ID, it is 0.
pub get_rc_smmu_base-last :
    (l : Layout) (seg rid : ℕ) (t : Table) (before after : List Block) (b : Block) (m : DataMap)
    (target : Block) (rev base : ℕ)
    → Holds l t (before ++ b ∷ after)
    → serves seg b ≡ true
    → find_map rid b.maps ≡ some m
    → All (Silent seg rid) after
    → t.mem m.output_ref ≡ some target
    → is_smmu target.type ≡ true
    → target.data' ≡ smmu_data rev base
    → get_rc_smmu_base l seg rid t
      ≡ some (elim (find_map (translate rid m).0 target.maps) [ none ↦ 0 | some m ↦ base ])
unfolding get_rc_smmu_base
get_rc_smmu_base-last l seg rid t before after b m target rev base h s found quiet at smmu is =
    rw
      (
        h.counted,
        scan_blocks-scan_list l seg rid t.mem l.blocks (before ++ b ∷ after) none h.stored,
        scan_list-last seg rid before after b m none s found quiet,
        at,
        smmu,
      )
      (elim (Option-cases (find_map (translate rid m).0 target.maps)) [
        | inl e ↦ rw e
        | inr (n, e) ↦ rw (e, is)
      ])

-- Without a mapping in any root complex of the segment the answer is 0xFFFFFFFF.
pub get_rc_smmu_base-none :
    (l : Layout) (seg rid : ℕ) (t : Table) (bs : List Block)
    → Holds l t bs
    → All (Silent seg rid) bs
    → get_rc_smmu_base l seg rid t ≡ some (2 ^ 32 - 1)
unfolding get_rc_smmu_base
get_rc_smmu_base-none l seg rid t bs h quiet = rw (
  h.counted,
  scan_blocks-scan_list l seg rid t.mem l.blocks bs none h.stored,
  scan_list-Silent seg rid bs none quiet,
)
