-- ===== src/Sdei/Session.antt =====
-- The SDEI module over a session: the message buffer in the kernel's memory, from sdei_init to the
-- cleanup, with pal_print of the layer and the reads of the user in between
-- (sdei-acs-drv/sdei-acs-drv/files/sdei_acs_drv.c, sdei-acs-drv/sdei-acs-pal/files/src/pal_misc.c).
pub mod Kept
pub mod Phases
pub mod Restart
mod Tests
use linux_acs.Prelude.{
  ℕ, Bool, true, false, Option, none, some, List, [], ◌∷◌, ◌>>=◌, ◌==◌, leb, if◌then◌else◌,
  replicate,
}
use linux_acs.MsgLog.{
  Slot, unwritten, Log, ReadBuffer, Reply, nothing, error, message, partial, print, read,
  min_num_msg,
}
use linux_acs.Driver.{Heap, kmalloc, kfree}
use linux_acs.Sdei.Init.{test_cleanup}

-- The globals: the log behind g_msg_buf with its counters, the pointer itself, and
-- g_test_completion_flag; and the kernel's heap.
pub record Module : Type 0 where
  pub log : Log
  pub msg_buf : ℕ
  pub completion_flag : ℕ
  pub heap : Heap

-- SDEI_TEST_COMPLETE
abbrev pub test_complete : ℕ
test_complete = 0xFFFFFFFF

-- The module after it is loaded.
abbrev pub loaded : Heap → Module
loaded h = record {
  log = record { buf = []; tail_msg = 0; num_msg = min_num_msg; print_level = 0 };
  msg_buf = 0;
  completion_flag = 0;
  heap = h;
}

unfoldable pub allocated : ℕ → List ℕ → Bool
allocated a [] = false
allocated a (x ∷ xs) = let rest = allocated a xs in if a == x then true else rest

-- An access through g_msg_buf; `none` where nothing is allocated there.
unfoldable pub touch : Module → Option Module
unfolding allocated
touch s = if allocated s.msg_buf s.heap.live then some s else none

-- The start of sdei_proc_write: the log control is taken from the user, and sdei_init allocates
-- g_num_msg messages; neither this nor g_tail_msg is set again, and the result is not tested.
unfoldable pub start : ℕ → Bool → Module → Module
unfolding kmalloc
start level granted s =
    let (p, h) = kmalloc granted s.heap in
    record s {
      log = record s.log { print_level = level; buf = replicate s.log.num_msg unwritten };
      msg_buf = p;
      heap = h;
    }

-- The end of sdei_proc_write, with or without tests.
unfoldable pub finish : Module → Module
finish s = record s { completion_flag = test_complete }

-- The larger buffer of pal_print: the messages are copied, the old buffer is freed.
unfoldable pub grow : Bool → Module → Option Module
unfolding kmalloc kfree
grow granted s =
    if leb s.log.num_msg s.log.tail_msg
    then (let (tmp, h) = kmalloc granted s.heap in
        if tmp == 0
        then some s
        else (kfree s.msg_buf h >>= λ h'. some (record s { msg_buf = tmp; heap = h' })))
    else some s

-- pal_print; what it does to the messages is `print`.
unfoldable pub module_print : Bool → ℕ → ℕ → Module → Option Module
unfolding touch grow print
module_print granted verbosity msg s =
    if leb verbosity s.log.print_level
    then (touch s >>= λ s.
        grow granted s >>= λ t. some (record t { log = print granted verbosity msg s.log }))
    else some s

-- The memory is accessed where something is copied or the copy fails.
abbrev pub handed : Module → Reply → Log → Option (Reply × Module)
handed s nothing l = some (nothing, s)
handed s error l = touch s >>= λ t. some (error, record t { log = l })
handed s (message x) l = touch s >>= λ t. some (message x, record t { log = l })
handed s (partial n x) l = touch s >>= λ t. some (partial n x, record t { log = l })

-- sdei_msg_proc_read at a slot; `none` is an access to memory that is not the buffer's.
unfoldable pub module_read : ReadBuffer → ℕ → ℕ → Module → Option (Reply × Module)
unfolding touch
module_read copy size i s = read copy size i s.log >>= λ a. handed s a.0 a.1

-- sdei_proc_read: the flag that the user polls.
unfoldable pub sdei_proc_read : Module → ℕ
sdei_proc_read s = s.completion_flag

-- sdei_msg_proc_write for a flag word, its effect on the module; the pointer is kept. The
-- validation layer frees its tables.
unfoldable pub cleanup : ℕ → Module → Option Module
unfolding kfree
cleanup flag s =
    if flag == test_cleanup
    then (kfree s.msg_buf s.heap >>= λ h. some (record s { heap = h }))
    else some s
