-- ===== src/Sdei/Tests.antt =====
-- The SDEI module at concrete worlds.
use linux_acs.Prelude.{
  some, arith, none, ◌==◌, if◌then◌else◌, length, ℕ, ◌≡◌, ◌≢◌, refl, true, false, ◌⊎◌, List, [],
  ◌∷◌, All,
}
use linux_acs.Sdei.Init.{
  Call, World, gic, pe, event, watchdog, timer, test_execute, sdei_proc_write, IsReady, in_order,
  sdei_proc_write-IsReady, create,
}
use linux_acs.Sdei.Firmware.{
  SmcCall, denied, not_supported, status_not_supported, status_denied, other,
}
use linux_acs.Sdei.Hest.{Ghes, hest_table, create_event_info_table, Source}
use linux_acs.Sdei.Conduit.{Operation, conduit_get, interface_broken, invoke, operate_all}

-- There is no memory for the watchdogs.
abbrev short : World
short = record {
  granted = λ t. elim t [ gic ↦ true | pe ↦ true | event ↦ true | watchdog ↦ false | timer ↦ true ];
  status = λ t. 0;
  init_status = 0;
  control_size = 64;
}

short_runs :
    sdei_proc_write short 64 ≡ some (64, 0xFFFFFFFF, create gic ∷ create pe ∷ create event ∷ [])
unfolding sdei_proc_write
short_runs = refl

-- Too many bytes for the variable.
oversize_runs : sdei_proc_write short 65 ≡ none
unfolding sdei_proc_write
oversize_runs = refl

sdei_proc_write-IsReady_example :
    (r : ℕ × ℕ × List Call) × (sdei_proc_write short 64 ≡ some r)
    × (r.0 ≡ 64)
    × (r.1 ≡ 0xFFFFFFFF)
    × (IsReady short → r.2 ≡ in_order)
    × (All (λ c. c ≢ test_execute) r.2 ⊎ IsReady short)
sdei_proc_write-IsReady_example = sdei_proc_write-IsReady short 64 (omega arith)

-- A firmware that denies the function 2 and answers the others with the number of the arguments.
abbrev firmware : SmcCall
firmware id args = if id == 2 then denied else length args

abbrev operations : List Operation
operations =
    invoke 1 (5 ∷ [])
    ∷ conduit_get
    ∷ invoke 1 (1 ∷ 2 ∷ 3 ∷ 4 ∷ 5 ∷ [])
    ∷ invoke 2 []
    ∷ interface_broken
    ∷ invoke 1 []
    ∷ []

operations_run :
    operate_all firmware operations none
    ≡ (status_not_supported, not_supported)
      ∷ (other 0, 7)
      ∷ (status_denied, denied)
      ∷ (status_not_supported, not_supported)
      ∷ []
unfolding operate_all
operations_run = refl

-- Sources of version 1, 2 and 1, one behind the other; the second does not notify by SDEI.
abbrev generic : ℕ → Ghes
generic pos =
    if pos == 64
    then record { kind = 10; notify = 3; vector = 1 }
    else record { kind = 9; notify = 11; vector = if pos == 0 then 804 else 0 }

hest_run :
    create_event_info_table (hest_table (record { error_source_count = 3; read = generic }))
    ≡ (0, record { num_events = 1; hest_found = 1; num_ghes_notify = 2; numbers = 804 ∷ 0 ∷ [] })
unfolding create_event_info_table
hest_run = refl

abbrev sources : List Source
sources =
    record { ghes = generic 0; size = 64 }
    ∷ record { ghes = generic 64; size = 92 }
    ∷ record { ghes = generic 156; size = 64 }
    ∷ []

-- A source for a PCIe root port takes 48 bytes; the generic one behind it is not found.
abbrev root_port : ℕ → Ghes
root_port pos =
    if pos == 48
    then record { kind = 9; notify = 11; vector = 804 }
    else record { kind = 6; notify = 0; vector = 0 }

root_port_run :
    create_event_info_table (hest_table (record { error_source_count = 2; read = root_port }))
    ≡ (0, record { num_events = 0; hest_found = 1; num_ghes_notify = 0; numbers = [] })
unfolding create_event_info_table
root_port_run = refl
