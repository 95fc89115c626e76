-- ===== src/Sbsa.antt =====
-- The SBSA module's /proc interface, sbsa-acs-drv/files/sbsa_acs_drv.c, where it differs from that of
-- the BSA module: the branches that create and free the tables, the parameters and the messages
-- are the same, and the globals of the BSA module but the software view are its globals.
pub mod Layer
pub mod Same
pub mod Session
pub mod Tables
mod Tests
use linux_acs.Prelude.{u32, ℕ, ◌+◌, ◌*◌, Option, none, some, ltb, ◌==◌, if◌then◌else◌, ◌>>=◌}
use linux_acs.MsgLog.{Log, ReadBuffer, Reply, read}
use linux_acs.Driver.{
  Messages, Params, Drv, Counters, Grants, when, args, create_tables, free_tables,
  create_info_tables, pcie_execute_test, update_skip_list, exerciser_execute_test, free_info_tables,
  status_available, status_pending, params_size, msg_size,
}

-- The validation layer of this suite: val_pcie_execute_tests for a flag, a level and a number of
-- PEs, and val_get_status(0).
pub record SbsaVal : Type 0 where
  pub pcie_execute_tests : ℕ → ℕ → ℕ → Counters → Counters
  pub get_status : Counters → ℕ

-- AVS_PCIE_RCiEP_DISABLE of sbsa_acs_drv.h.
abbrev pub rciep_disable : ℕ
rciep_disable = 0

abbrev set_arg0 : ℕ → Drv → Drv
set_arg0 v s = record s { params = record s.params { arg0 = v } }

abbrev finish : SbsaVal → Drv → Option Drv
finish v s =
    let s = set_arg0 status_available s in
    some (record s { params = record s.params { arg1 = v.get_status s.tests } })

-- The exerciser branch, in which the tests are commented out.
unfoldable pub exerciser_branch : SbsaVal → Drv → Option Drv
exerciser_branch v s = finish v (set_arg0 status_pending s)

unfoldable pub pcie_branch : SbsaVal → Drv → Option Drv
pcie_branch v s =
    let s = set_arg0 status_pending s in
    finish v (record s {
      tests = v.pcie_execute_tests rciep_disable s.params.level s.params.num_pe s.tests;
    })

unfoldable pub sbsa_skip_list : Drv → Option Drv
sbsa_skip_list s = some (record s { skip_test_num = args s.params })

-- val_glue_execute_command
unfoldable pub sbsa_execute_command : SbsaVal → Grants → Drv → Option Drv
unfolding create_tables free_tables exerciser_branch pcie_branch sbsa_skip_list
sbsa_execute_command v g s = do
  let s = record s { print_level = u32 s.params.arg1 }
  s ← when (s.params.api_num == create_info_tables) (create_tables g) s
  s ← when (s.params.api_num == free_info_tables) free_tables s
  s ← when (s.params.api_num == exerciser_execute_test) (exerciser_branch v) s
  s ← when (s.params.api_num == pcie_execute_test) (pcie_branch v) s
  when (s.params.api_num == update_skip_list) sbsa_skip_list s

-- sbsa_proc_write of `size` bytes; `none` is also a copy that runs over the end of params.
unfoldable pub sbsa_proc_write : SbsaVal → Grants → ℕ → Params → Drv → Option (ℕ × Drv)
unfolding sbsa_execute_command
sbsa_proc_write v g size copied s =
    if ltb params_size size
    then none
    else (sbsa_execute_command v g (record s { len = size; params = copied }) >>= λ s'.
        some (s'.len, s'))

-- sbsa_proc_read
unfoldable pub sbsa_proc_read : Drv → ℕ
sbsa_proc_read s = s.len

-- sbsa_msg_proc_read at the offset of slot `i`.
unfoldable pub sbsa_msg_proc_read :
    ReadBuffer → ℕ → Messages → Drv → Option (Reply × Messages × Drv)
unfolding read
sbsa_msg_proc_read copy i m s =
    let len = if i * msg_size == s.tail_msg * msg_size then 0 else msg_size in
    let log : Log = record {
      buf = m.slots;
      tail_msg = s.tail_msg;
      num_msg = m.num_msg;
      print_level = s.print_level;
    } in
    read copy msg_size i log >>= λ a.
    some (a.0, record m { slots = a.1.buf }, record s { len = len })
