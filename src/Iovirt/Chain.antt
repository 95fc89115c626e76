-- ===== src/Iovirt/Chain.antt =====
-- Blocks of the IO virtualisation table that stand one behind the other, and how a block that is
-- stored acts on them.
use linux_acs.Prelude.{
  ℕ, zero, suc, ◌+◌, ◌≡◌, ◌≤◌, ◌<◌, refl, ◌∙◌, true, ◌⊎◌, inl, inr, Bool-cases, some, arith, Yields,
  yields,
}
use linux_acs.Iovirt.Table.{Block, Layout, Mem, is_smmu, next_block, put}
use linux_acs.Iovirt.Iort.{same_block}
use linux_acs.Iovirt.Add.{find_from, smmu_base}

-- An SMMU block has the data of an SMMU.
abbrev pub Typed : Block → Type 0
Typed b = is_smmu b.type ≡ true → (base : ℕ) × (smmu_base b.data' ≡ some base)

-- From `off`, `k` blocks lead to `to`.
abbrev pub Leads : Layout → Mem → ℕ → ℕ → ℕ → Type 0
Leads l m off zero to = off ≡ to
Leads l m off (suc k) to =
    (b : Block) × (m off ≡ some b) × Typed b × Leads l m (next_block l off b) k to

module _ (l : Layout) (sized : 0 < l.header) where
  pub Leads-≤ : (m : Mem) (off k to : ℕ) → Leads l m off k to → off + k ≤ to
  Leads-≤ m off zero to p = omega arith
  Leads-≤ m off (suc k) to (b, e, typed, p) =
      let h = Leads-≤ m (next_block l off b) k to p in omega arith

  pub Leads-below :
      (m m' : Mem) (off k to : ℕ)
      → ((x : ℕ) → x < to → m' x ≡ m x)
      → Leads l m off k to
      → Leads l m' off k to
  Leads-below m m' off zero to same p = p
  Leads-below m m' off (suc k) to same (b, e, typed, p) =
      let h = Leads-≤ m (next_block l off b) k to p in
      (b, same off (omega arith) ∙ e, typed, Leads-below m m' (next_block l off b) k to same p)

  pub Leads-above :
      (m m' : Mem) (off k to : ℕ)
      → ((x : ℕ) → off ≤ x → m' x ≡ m x)
      → Leads l m off k to
      → Leads l m' off k to
  Leads-above m m' off zero to same p = p
  Leads-above m m' off (suc k) to same (b, e, typed, p) = (
    b,
    same off (omega arith) ∙ e,
    typed,
    Leads-above m m' (next_block l off b) k to (λ x h. same x (omega arith)) p,
  )

  pub Leads-append :
      (m : Mem) (off k mid n to : ℕ)
      → Leads l m off k mid
      → Leads l m mid n to
      → Leads l m off (k + n) to
  Leads-append m off zero mid n to p q = let e : 0 + n ≡ n = omega arith in rw (p, e) q
  Leads-append m off (suc k) mid n to (b, e, typed, p) q =
      let s : suc k + n ≡ suc (k + n) = omega arith in
      rw s (b, e, typed, Leads-append m (next_block l off b) k mid n to p q)

  pub put-below : (m : Mem) (cur : ℕ) (b : Block) (x : ℕ) → x < cur → put l m cur b x ≡ m x
  unfolding put
  put-below m cur b x h = ground arith

  pub put-at : (m : Mem) (cur : ℕ) (b : Block) → put l m cur b cur ≡ some b
  unfolding put
  put-at m cur b = ground arith

  pub put-above :
      (m : Mem) (cur : ℕ) (b : Block) (x : ℕ) → next_block l cur b ≤ x → put l m cur b x ≡ m x
  unfolding put
  put-above m cur b x h = let below : cur < next_block l cur b = omega arith in ground arith

  -- A search that stays within the blocks ends, at 0 or at a block.
  pub find_from-Leads :
      (key : Block) (m : Mem) (n off k to : ℕ)
      → n ≤ k
      → Leads l m off k to
      → Yields (λ r. (r ≡ 0) ⊎ ((b : Block) × (m r ≡ some b) × Typed b)) (find_from l key m n off)
  unfolding find_from
  find_from-Leads key m zero off k to h p = yields (inl refl)
  find_from-Leads key m (suc n) off zero to h p = absurd (omega arith)
  find_from-Leads key m (suc n) off (suc k) to h (b, e, typed, p) =
      elim (Bool-cases (same_block key b)) [
        | inl same ↦ rw (e, find_from, same) (yields (inr (b, e, typed)))
        | inr other ↦
            rw (e, find_from, other)
              (find_from-Leads key m n (next_block l off b) k to (omega arith) p)
      ]
