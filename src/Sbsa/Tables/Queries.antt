-- ===== src/Sbsa/Tables/Queries.antt =====
-- What the tests can tell of the two suites' tables.
use linux_acs.Prelude.{
  ℕ, ◌^◌, ◌-◌, ◌≡◌, refl, sym, ◌∙◌, Bool, some, Option-cases, inl, inr, List, ◌>>=◌,
}
use linux_acs.Iovirt.Table.{Layout, Table, Block, DataMap}
use linux_acs.Iovirt.Create.{reset}
use linux_acs.Iovirt.Query.{get_rc_smmu_base}
use linux_acs.Dt.Laws.{iovirt_create_info_table_dt-uncounted}
use linux_acs.Sbsa.Layer.Iovirt.{sbsa_iovirt_get_rc_smmu_base}
use linux_acs.Sbsa.Tables.{Machine, bsa_iovirt_create_info_table, sbsa_iovirt_create_info_table}

-- A table without blocks.
get_rc_smmu_base-reset :
    (l : Layout) (seg rid : ℕ) (t : Table)
    → get_rc_smmu_base l seg rid (reset t) ≡ some (2 ^ 32 - 1)
unfolding get_rc_smmu_base
get_rc_smmu_base-reset l seg rid t = refl

-- On every machine, whether it has an IORT or a device tree, the SMMU base that the BSA suite reads
-- from its IO virtualisation table for a requester ID is the one that the SBSA suite reads from
-- its own, also where a suite runs into a fault.
pub bsa_iovirt-sbsa_iovirt :
    (l : Layout) (elsewhere : ℕ → Bool) (past : List Block → ℕ → DataMap) (fuel : ℕ) (m : Machine)
    (t : Table) (seg rid : ℕ)
    → (bsa_iovirt_create_info_table l elsewhere past fuel m t >>= get_rc_smmu_base l seg rid) ≡ (
        sbsa_iovirt_create_info_table l elsewhere past fuel m t
        >>= sbsa_iovirt_get_rc_smmu_base l seg rid)
unfolding bsa_iovirt_create_info_table sbsa_iovirt_create_info_table
bsa_iovirt-sbsa_iovirt l elsewhere past fuel m t seg rid = elim (Option-cases m.iort) [
  | inr (x, e) ↦ rw e refl
  | inl e ↦
      (let dt =
          iovirt_create_info_table_dt-uncounted l m.smmus_v1 m.smmus_v2 m.smmus_v3 t seg rid in
        rw e (dt.2 ∙ sym (get_rc_smmu_base-reset l seg rid t)))
]
