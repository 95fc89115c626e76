-- ===== src/Driver/Tests.antt =====
-- The /proc interface at concrete commands.
use linux_acs.Prelude.{
  if◌then◌else◌, true, false, ℕ, ◌+◌, ◌≡◌, ◌<◌, refl, some, none, List, [], ◌∷◌, arith, Yields,
}
use linux_acs.MsgLog.{ReadBuffer, copied, message, text, cleared}
use linux_acs.Driver.{
  Messages, Params, Grants, Drv, pcie, Val, create_tables, free_tables, execute_command, proc_write,
  proc_read, msg_proc_read, params_size, msg_size, update_skip_list, create_info_tables,
  free_info_tables, update_sw_view, pcie_execute_test,
}
use linux_acs.Driver.Commands.{runs}
use linux_acs.Driver.Slots.{IsHeap}
use linux_acs.Driver.Memory.{free_tables-create_tables, any_granted}
use linux_acs.Driver.Session.{
  Request, idle, Follows, stop, creates, frees, uses, write_all, Leaves, write_all-InPhase,
}
use linux_acs.Driver.Length.{proc_read-msg_proc_read}

-- All memory, and all but the messages and the table of DMA controllers.
abbrev granted : Grants
granted = record {
  msg_buf = true;
  pe_info = true;
  pcie_info = true;
  per_info = true;
  dma_info = true;
  iovirt_info = true;
  shared = true;
}

abbrev partly : Grants
partly = record granted { msg_buf = false; dma_info = false }

abbrev request : ℕ → Params
request api = record { api_num = api; num_pe = 4; level = 1; arg0 = 5; arg1 = 6; arg2 = 7 }

-- A module with a message in its buffer, and one foreign allocation.
abbrev start : ℕ → Drv
start api = record {
  params = request api;
  len = 0;
  print_level = 3;
  sw_view = (1, 1, 1);
  skip_test_num = (0, 0, 0);
  tests = record { total = 0; pass = 0; fail = 0 };
  tail_msg = 1;
  ptrs = record {
    msg_buf = 0;
    pe_info = 0;
    pcie_info = 0;
    per_info = 0;
    dma_info = 0;
    iovirt_info = 0;
    shared = 0;
  };
  heap = record { next = 9; live = 8 ∷ [] };
}

-- A layer whose suites count one test that passes.
abbrev layer : Val
layer = record {
  execute = λ suite pes views c. record { total = c.total + 1; pass = c.pass + 1; fail = c.fail };
  get_status = λ c. c.fail;
}

stored_runs :
    execute_command layer granted (start update_skip_list)
    ≡ some (record (start update_skip_list) { print_level = 6; skip_test_num = (5, 6, 7) })
unfolding execute_command
stored_runs = refl

start-IsHeap : IsHeap (start 0).heap
start-IsHeap = record { positive = omega arith; below = (omega arith, tt) }

free_tables-create_tables_example :
    (t : Drv) × (u : Drv) × (create_tables partly (start 0) ≡ some t)
    × (free_tables t ≡ some u)
    × (u.heap.live ≡ 13 ∷ 8 ∷ [])
    × (free_tables u ≡ (if any_granted partly then none else some u))
free_tables-create_tables_example = free_tables-create_tables partly (start 0) start-IsHeap

-- A write of all parameters that only stores the software view.
abbrev viewed : Drv
viewed = record (start 0) {
  params = request update_sw_view;
  len = 40;
  print_level = 6;
  sw_view = (5, 6, 7);
}

proc_write_runs : proc_write layer granted 40 (request update_sw_view) (start 0) ≡ some (40, viewed)
unfolding proc_write
proc_write_runs = refl

abbrev whole : ℕ
whole = 40

-- One message, and a kernel that copies what is asked for.
abbrev messages : Messages
messages = record { slots = text 7 ∷ []; num_msg = 1 }

abbrev emptied : Messages
emptied = record { slots = cleared ∷ []; num_msg = 1 }

abbrev exact : ReadBuffer
exact count pos size = copied count

msg_proc_read_runs :
    msg_proc_read exact 0 messages viewed
    ≡ some (message (text 7), emptied, record viewed { len = msg_size })
unfolding msg_proc_read
msg_proc_read_runs = refl

proc_read-msg_proc_read_example :
    (whole ≡ 40)
    × (proc_read viewed ≡ 40)
    × (proc_read (record viewed { len = msg_size }) ≡ msg_size)
    × (params_size < msg_size)
proc_read-msg_proc_read_example =
    proc_read-msg_proc_read layer granted 40 (request update_sw_view) (start 0) exact 0 messages
      (omega arith) proc_write_runs (λ e. absurd (omega (arith, e))) msg_proc_read_runs

-- Create, run the PCIe suite, free.
abbrev requests : List Request
requests =
    (partly, request create_info_tables)
    ∷ (granted, request pcie_execute_test)
    ∷ (granted, request free_info_tables)
    ∷ []

requests-Follows : Follows idle requests idle 1
requests-Follows = creates refl (uses (runs pcie) refl (frees refl stop))

write_all-InPhase_example : Yields (Leaves idle (8 ∷ []) 1) (write_all layer requests (start 0))
write_all-InPhase_example =
    write_all-InPhase layer (8 ∷ []) idle idle 1 requests (start 0) requests-Follows
      (record { next_positive = omega arith; same = refl })
