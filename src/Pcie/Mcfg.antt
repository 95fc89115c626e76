-- ===== src/Pcie/Mcfg.antt =====
-- The ECAM regions of the ACPI MCFG: pal_pcie_get_mcfg_ecam and pal_pcie_create_info_table of
-- pal_pcie.c, where there is an MCFG.
use linux_acs.Prelude.{
  ℕ, suc, ◌+◌, ◌*◌, ◌≡◌, ◌<◌, ◌≤◌, refl, ap, ap₂, ◌∙◌, true, false, Option, none, some, List, [],
  ◌∷◌, ◌++◌, append_assoc, ltb, if◌then◌else◌, length, arith,
}
use linux_acs.Dt.{EcamBlock, EcamTable, add_ecam}

-- The MCFG with the allocations behind its header; `size` is sizeof(struct acpi_table_mcfg),
-- `entry_size` sizeof(struct acpi_mcfg_allocation), `length` is header.length.
pub record McfgTable : Type 0 where
  pub size : ℕ
  pub entry_size : ℕ
  pub length : ℕ
  pub allocations : List EcamBlock

-- pal_pcie_get_mcfg_ecam: 0 without an MCFG; `none` reads behind the allocations.
unfoldable pub get_mcfg_ecam : Option McfgTable → Option ℕ
get_mcfg_ecam none = some 0
get_mcfg_ecam (some m) = elim m.allocations [ [] ↦ none | e ∷ es ↦ some e.ecam_base ]

-- The do-while loop. `none`: it reads behind the allocations.
unfoldable pub mcfg_loop : ℕ → ℕ → ℕ → List EcamBlock → EcamTable → Option EcamTable
mcfg_loop entry_size end len [] t = none
mcfg_loop entry_size end len (e ∷ es) t =
    let t' = add_ecam t e in
    let rest = mcfg_loop entry_size end (len + entry_size) es t' in
    if ltb (len + entry_size) end then rest else some t'

unfoldable pub pcie_create_info_table : McfgTable → Option EcamTable
unfolding mcfg_loop
pcie_create_info_table m =
    mcfg_loop m.entry_size m.length m.size m.allocations (record { num_entries = 0; blocks = [] })

abbrev pub ecam_table : ℕ → List EcamBlock → EcamTable
ecam_table n xs = record { num_entries = n; blocks = xs }

-- The header's length is that of the header and the allocations, one of which there is.
pub record IsFilled (m : McfgTable) : Type 0 where
  pub first : EcamBlock
  pub others : List EcamBlock
  pub is : m.allocations ≡ first ∷ others
  pub sized : 0 < m.entry_size
  pub total : m.length ≡ m.size + m.entry_size * suc (length others)

mcfg_loop-all :
    (k end len n : ℕ) (e : EcamBlock) (es xs : List EcamBlock)
    → 0 < k
    → end ≡ len + k * suc (length es)
    → mcfg_loop k end len (e ∷ es) (ecam_table n xs)
      ≡ some (ecam_table (n + suc (length es)) (xs ++ e ∷ es))
unfolding mcfg_loop
mcfg_loop-all k end len n e [] xs pos total =
    let stop : ltb (len + k) end ≡ false = grind arith in rw stop refl
mcfg_loop-all k end len n e (e' ∷ es) xs pos total =
    let here : end ≡ len + k + k * suc (length es) = grind arith in
    let more : k ≤ k * suc (length es) = grind arith in
    let go : ltb (len + k) end ≡ true = ground arith in
    rw go (
      mcfg_loop-all k end (len + k) (n + 1) e' es (xs ++ e ∷ []) pos here
      ∙ ap some (ap₂ ecam_table (omega arith) (append_assoc xs (e ∷ []) (e' ∷ es))))

-- On an MCFG that its allocations fill, and that has one, the PCIe table gets one block for each of
-- them, in order, the count is the number of blocks, and the ECAM address that is reported for the
-- system is that of the first block.
pub pcie_create_info_table-allocations :
    (m : McfgTable) (f : IsFilled m)
    → (pcie_create_info_table m ≡ some (ecam_table (length m.allocations) m.allocations))
      × (get_mcfg_ecam (some m) ≡ some f.first.ecam_base)
unfolding pcie_create_info_table get_mcfg_ecam
pcie_create_info_table-allocations m f = (
  rw f.is (
      mcfg_loop-all m.entry_size m.length m.size 0 f.first f.others [] f.sized f.total
      ∙ ap some (ap₂ ecam_table (omega arith) refl)),
  rw f.is refl,
)
