-- ===== src/Sbsa/Tests.antt =====
-- The SBSA module at its PCIe command, and the tables of a machine with a device tree.
use linux_acs.Prelude.{ℕ, refl, Yields, arith, Bool, true, false, some, none, List, [], ◌∷◌}
use linux_acs.Driver.{Grants, Drv, pcie_execute_test}
use linux_acs.Dt.{DeviceNode}
use linux_acs.Iovirt.Table.{Layout, Table, Block, DataMap}
use linux_acs.Sbsa.Tables.{Machine}
use linux_acs.Sbsa.{SbsaVal}
use linux_acs.Driver.{Params, create_info_tables, free_info_tables}
use linux_acs.Driver.Commands.{runs}
use linux_acs.Driver.{pcie}
use linux_acs.Driver.Session.{Request, idle, stop, creates, frees, uses, Leaves}
use linux_acs.Sbsa.Session.{sbsa_write_all, sbsa_write_all-InPhase}
use linux_acs.Sbsa.Same.{create, free, test_pcie}

-- All memory but the one for the table of DMA controllers.
abbrev granted : Grants
granted = record {
  msg_buf = true;
  pe_info = true;
  pcie_info = true;
  per_info = true;
  dma_info = false;
  iovirt_info = true;
  shared = true;
}

abbrev start : Drv
start = record {
  params = record {
    api_num = pcie_execute_test;
    num_pe = 4;
    level = 1;
    arg0 = 5;
    arg1 = 6;
    arg2 = 7;
  };
  len = 0;
  print_level = 3;
  sw_view = (1, 1, 1);
  skip_test_num = (0, 0, 0);
  tests = record { total = 0; pass = 0; fail = 0 };
  tail_msg = 1;
  ptrs = record {
    msg_buf = 0;
    pe_info = 0;
    pcie_info = 0;
    per_info = 0;
    dma_info = 0;
    iovirt_info = 0;
    shared = 0;
  };
  heap = record { next = 9; live = 8 ∷ [] };
}

-- A layer in which each PE fails one test.
abbrev sbsa_layer : SbsaVal
sbsa_layer = record {
  pcie_execute_tests = λ flag level pes c. record { total = pes; pass = 0; fail = pes };
  get_status = λ c. c.fail;
}

abbrev request : ℕ → Params
request api = record { api_num = api; num_pe = 4; level = 1; arg0 = 5; arg1 = 6; arg2 = 7 }

abbrev requests : List Request
requests =
    (granted, request create_info_tables)
    ∷ (granted, request pcie_execute_test)
    ∷ (granted, request free_info_tables)
    ∷ []

sbsa_write_all-InPhase_example :
    Yields (Leaves idle (8 ∷ []) 1) (sbsa_write_all sbsa_layer requests start)
sbsa_write_all-InPhase_example =
    sbsa_write_all-InPhase sbsa_layer (8 ∷ []) idle idle 1 requests start
      ((create, refl), ((test_pcie, refl), ((free, refl), tt)))
      (creates refl (uses (runs pcie) refl (frees refl stop)))
      (record { next_positive = omega arith; same = refl })

abbrev smmu_node : DeviceNode
smmu_node = record { reg = some (0x2b400000 ∷ 0x10000 ∷ []); bus_range = none }

abbrev machine : Machine
machine = record {
  madt = none;
  mcfg = none;
  iort = none;
  cpus = [];
  bridges = [];
  smmus_v1 = [];
  smmus_v2 = [];
  smmus_v3 = smmu_node ∷ [];
}

abbrev layout : Layout
layout = record { blocks = 24; header = 40; map_size = 16; overlay = λ d. d; cca_of = λ p. p }

abbrev old_table : Table
old_table = record {
  num_blocks = 7;
  num_smmus = 7;
  num_pci_rcs = 0;
  num_named_components = 0;
  num_its_groups = 0;
  num_pmcgs = 0;
  mem = λ a. none;
}

abbrev nowhere : ℕ → Bool
nowhere ref = false

abbrev behind : List Block → ℕ → DataMap
behind bs i = record { input_base = 0; id_count = 0; output_base = 0; output_ref = 0 }
