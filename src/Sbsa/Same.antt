-- ===== src/Sbsa/Same.antt =====
-- The SBSA module next to the BSA module.
use linux_acs.Prelude.{
  u32, ℕ, ◌≡◌, ◌≢◌, refl, inl, inr, some, arith, Option-cases, Ensures, holds, bind-Ensures,
  any-Ensures, of_Ensures,
}
use linux_acs.Driver.{
  kfree, Params, Drv, Grants, Val, free_tables, execute_command, create_info_tables,
  pcie_execute_test, update_skip_list, exerciser_execute_test, free_info_tables,
}
use linux_acs.Sbsa.{SbsaVal, rciep_disable, sbsa_execute_command}

-- The commands of the SBSA module.
pub data SbsaCommand : Type 0 where
  create free exercise test_pcie skip : SbsaCommand

abbrev pub code : SbsaCommand → ℕ
code create = create_info_tables
code free = free_info_tables
code exercise = exerciser_execute_test
code test_pcie = pcie_execute_test
code skip = update_skip_list

-- The tests of the SBSA layer with the parameters of one command, as those of a BSA layer.
abbrev pub layer_of : SbsaVal → Params → Val
layer_of w p = record {
  execute = λ suite pes view c. w.pcie_execute_tests rciep_disable p.level pes c;
  get_status = w.get_status;
}

free_tables-params :
    (s : Drv) → Ensures (λ (t : Drv). t.params.api_num ≡ s.params.api_num) (free_tables s)
unfolding free_tables
free_tables-params s = bind-Ensures (any-Ensures (kfree s.ptrs.pe_info s.heap)) λ h1 u.
    bind-Ensures (any-Ensures (kfree s.ptrs.pcie_info h1)) λ h2 u.
      bind-Ensures (any-Ensures (kfree s.ptrs.per_info h2)) λ h3 u.
        bind-Ensures (any-Ensures (kfree s.ptrs.dma_info h3)) λ h4 u.
          bind-Ensures (any-Ensures (kfree s.ptrs.iovirt_info h4))
            λ h5 u. bind-Ensures (any-Ensures (kfree s.ptrs.msg_buf h5)) λ h6 u. holds refl

-- A command of the SBSA module does to its globals what the same command of the BSA module does
-- over this layer, whatever is granted to it.
pub sbsa_execute_command-execute_command :
    (w : SbsaVal) (g : Grants) (c : SbsaCommand) (s : Drv)
    → s.params.api_num ≡ code c
    → sbsa_execute_command w g s ≡ execute_command (layer_of w s.params) g s
unfolding sbsa_execute_command execute_command
sbsa_execute_command-execute_command w g create s e = rw e refl
sbsa_execute_command-execute_command w g free s e =
    let params = record s.params { api_num = code free } in
    let started = record s { print_level = u32 s.params.arg1; params = params } in
    elim (Option-cases (free_tables started)) [
      | inl n ↦ rw (e, n) refl
      | inr (t, f) ↦ (let kept = of_Ensures (free_tables-params started) f in rw (e, f, kept) refl)
    ]
sbsa_execute_command-execute_command w g exercise s e = rw e refl
sbsa_execute_command-execute_command w g test_pcie s e = rw e refl
sbsa_execute_command-execute_command w g skip s e = rw e refl

-- Of any other command the SBSA module takes the print level from the second argument, and changes nothing else.
pub sbsa_execute_command-other :
    (w : SbsaVal) (g : Grants) (s : Drv)
    → ((c : SbsaCommand) → s.params.api_num ≢ code c)
    → sbsa_execute_command w g s ≡ some (record s { print_level = u32 s.params.arg1 })
unfolding sbsa_execute_command
sbsa_execute_command-other w g s h =
    let n1 = h create in
    let n2 = h free in
    let n3 = h exercise in let n4 = h test_pcie in let n5 = h skip in ground arith
