-- ===== src/Driver/Commands.antt =====
-- What each command of the /proc interface does.
use linux_acs.Prelude.{u32, ℕ, ◌≡◌, some}
use linux_acs.Driver.{
  Drv, Counters, Suite, exerciser, pcie, peripheral, memory, Val, Grants, args, pcie_execute_test,
  update_skip_list, exerciser_execute_test, update_sw_view, per_execute_test, mem_execute_test,
  status_available, execute_command,
}

abbrev pub api_of : Suite → ℕ
api_of exerciser = exerciser_execute_test
api_of pcie = pcie_execute_test
api_of peripheral = per_execute_test
api_of memory = mem_execute_test

-- The counters after a suite has run.
abbrev pub counted : Val → Suite → Drv → Counters
counted v exerciser s = s.tests
counted v suite s = v.execute suite s.params.num_pe s.sw_view s.tests

-- What a command that runs a suite leaves behind.
abbrev pub after_suite : Val → Suite → Drv → Drv
after_suite v suite s = record s {
  print_level = u32 s.params.arg1;
  tests = counted v suite s;
  params = record s.params { arg0 = status_available; arg1 = v.get_status (counted v suite s) };
}

-- The commands of the four suites.
execute_command-suite :
    (v : Val) (g : Grants) (suite : Suite) (s : Drv)
    → s.params.api_num ≡ api_of suite
    → execute_command v g s ≡ some (after_suite v suite s)
unfolding execute_command
execute_command-suite v g exerciser s e = rw e
execute_command-suite v g pcie s e = rw e
execute_command-suite v g peripheral s e = rw e
execute_command-suite v g memory s e = rw e

pub data ListCommand : Type 0 where
  skip_tests software_view : ListCommand

abbrev pub list_api : ListCommand → ℕ
list_api skip_tests = update_skip_list
list_api software_view = update_sw_view

-- What a list command leaves behind.
abbrev pub after_list : ListCommand → Drv → Drv
after_list skip_tests s = record s {
  print_level = u32 s.params.arg1;
  skip_test_num = args s.params;
}
after_list software_view s = record s { print_level = u32 s.params.arg1; sw_view = args s.params }

-- The commands of the two lists.
execute_command-lists :
    (v : Val) (g : Grants) (c : ListCommand) (s : Drv)
    → s.params.api_num ≡ list_api c
    → execute_command v g s ≡ some (after_list c s)
unfolding execute_command
execute_command-lists v g skip_tests s e = rw e
execute_command-lists v g software_view s e = rw e

-- The commands that leave the memory alone.
pub data PlainCommand : Type 0 where
  runs : (suite : Suite) → PlainCommand
  stores : (list : ListCommand) → PlainCommand

abbrev pub plain_api : PlainCommand → ℕ
plain_api (runs suite) = api_of suite
plain_api (stores list) = list_api list

abbrev pub after_plain : Val → PlainCommand → Drv → Drv
after_plain v (runs suite) s = after_suite v suite s
after_plain v (stores list) s = after_list list s

-- A command that names a test suite or one of the two lists always comes back. A suite is run alone,
-- the status word reads available again and not pending, and the next word is the status of the
-- counters that the suite left; a list, the tests to skip or the software views, is set to the
-- low halves of the three arguments. Both take that of the second one for the print level, and all other globals, the memory
-- among them, are as they were.
pub execute_command-plain :
    (v : Val) (g : Grants) (c : PlainCommand) (s : Drv)
    → s.params.api_num ≡ plain_api c
    → execute_command v g s ≡ some (after_plain v c s)
execute_command-plain v g (runs suite) s e = execute_command-suite v g suite s e
execute_command-plain v g (stores list) s e = execute_command-lists v g list s e
