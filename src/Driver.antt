-- ===== src/Driver.antt =====
-- The BSA module's /proc interface: bsa-acs-drv/files/bsa_acs_drv.c.
pub mod Commands
pub mod Slots
pub mod Memory
pub mod Length
pub mod Session
mod Tests
use linux_acs.Prelude.{
  ℕ, ◌+◌, ◌*◌, Bool, true, false, Option, none, some, List, [], ◌∷◌, ltb, ◌==◌, if◌then◌else◌,
  ◌>>=◌, u32,
}
use linux_acs.MsgLog.{Slot, Log, ReadBuffer, Reply, read}

-- test_params_t
pub record Params : Type 0 where
  pub api_num : ℕ
  pub num_pe : ℕ
  pub level : ℕ
  pub arg0 : ℕ
  pub arg1 : ℕ
  pub arg2 : ℕ

-- The constants of bsa_acs_drv.h.
abbrev pub create_info_tables : ℕ
create_info_tables = 0x1000

abbrev pub pcie_execute_test : ℕ
pcie_execute_test = 0x2000

abbrev pub update_skip_list : ℕ
update_skip_list = 0x3000

abbrev pub exerciser_execute_test : ℕ
exerciser_execute_test = 0x4000

abbrev pub update_sw_view : ℕ
update_sw_view = 0x5000

abbrev pub per_execute_test : ℕ
per_execute_test = 0x6000

abbrev pub mem_execute_test : ℕ
mem_execute_test = 0x7000

abbrev pub free_info_tables : ℕ
free_info_tables = 0x9000

abbrev pub status_available : ℕ
status_available = 0x10000000

abbrev pub status_pending : ℕ
status_pending = 0x40000000

-- The kernel heap: the next address that was never given out, and those that are allocated.
pub record Heap : Type 0 where
  pub next : ℕ
  pub live : List ℕ

-- 0 is the null pointer, which kmalloc returns where it fails.
unfoldable pub kmalloc : Bool → Heap → ℕ × Heap
kmalloc true h = (h.next, record { next = h.next + 1; live = h.next ∷ h.live })
kmalloc false h = (0, h)

unfoldable pub remove : ℕ → List ℕ → Option (List ℕ)
remove a [] = none
remove a (x ∷ xs) =
    let rest = remove a xs >>= λ ys. some (x ∷ ys) in if a == x then some xs else rest

-- kfree: null is let pass, an address that is not allocated is a fault.
unfoldable pub kfree : ℕ → Heap → Option Heap
unfolding remove
kfree a h = if a == 0 then some h else (remove a h.live >>= λ xs. some (record h { live = xs }))

-- g_msg_buf, the five table pointers, and gSharedMemory of the platform layer.
pub record Pointers : Type 0 where
  pub msg_buf : ℕ
  pub pe_info : ℕ
  pub pcie_info : ℕ
  pub per_info : ℕ
  pub dma_info : ℕ
  pub iovirt_info : ℕ
  pub shared : ℕ

pub record Counters : Type 0 where
  pub total : ℕ
  pub pass : ℕ
  pub fail : ℕ

-- The globals of the module.
pub record Drv : Type 0 where
  pub params : Params
  pub len : ℕ
  pub print_level : ℕ
  pub sw_view : ℕ × ℕ × ℕ
  pub skip_test_num : ℕ × ℕ × ℕ
  pub tests : Counters
  pub tail_msg : ℕ
  pub ptrs : Pointers
  pub heap : Heap

pub data Suite : Type 0 where
  exerciser pcie peripheral memory : Suite

-- The validation layer: what the tests of a suite do to the counters, for a number of PEs and a
-- software view, and val_get_status(0). The exerciser suite is commented out and runs nothing.
pub record Val : Type 0 where
  pub execute : Suite → ℕ → ℕ × ℕ × ℕ → Counters → Counters
  pub get_status : Counters → ℕ

-- The kmalloc results of one command, in the order of the calls; the last is that of
-- pal_mem_allocate_shared, which the validation layer calls in val_allocate_shared_mem.
pub record Grants : Type 0 where
  pub msg_buf : Bool
  pub pe_info : Bool
  pub pcie_info : Bool
  pub per_info : Bool
  pub dma_info : Bool
  pub iovirt_info : Bool
  pub shared : Bool

abbrev pub when : Bool → (Drv → Option Drv) → Drv → Option Drv
when true f s = f s
when false f s = some s

-- The body of `if (params.api_num == BSA_CREATE_INFO_TABLES)`. The tables are filled by the
-- validation layer behind the pointers, whether or not these are null. The shared memory is the last.
unfoldable pub create_tables : Grants → Drv → Option Drv
unfolding kmalloc
create_tables g s =
    let (m, h) = kmalloc g.msg_buf s.heap in
    let (pe, h) = kmalloc g.pe_info h in
    let (pci, h) = kmalloc g.pcie_info h in
    let (per, h) = kmalloc g.per_info h in
    let (dma, h) = kmalloc g.dma_info h in
    let (iov, h) = kmalloc g.iovirt_info h in
    let (shm, h) = kmalloc g.shared h in
    some (record s {
      params = record s.params { arg0 = status_available; arg1 = 0 };
      tests = record { total = 0; pass = 0; fail = 0 };
      tail_msg = 0;
      ptrs = record {
        msg_buf = m;
        pe_info = pe;
        pcie_info = pci;
        per_info = per;
        dma_info = dma;
        iovirt_info = iov;
        shared = shm;
      };
      heap = h;
    })

-- BSA_FREE_INFO_TABLES; the pointers keep their values, and the shared memory is not freed.
unfoldable pub free_tables : Drv → Option Drv
unfolding kfree
free_tables s = do
  h ← kfree s.ptrs.pe_info s.heap
  h ← kfree s.ptrs.pcie_info h
  h ← kfree s.ptrs.per_info h
  h ← kfree s.ptrs.dma_info h
  h ← kfree s.ptrs.iovirt_info h
  h ← kfree s.ptrs.msg_buf h
  some (record s { heap = h })

abbrev set_arg0 : ℕ → Drv → Drv
set_arg0 v s = record s { params = record s.params { arg0 = v } }

-- The four branches that run a suite.
unfoldable pub run_suite : Val → Suite → Drv → Option Drv
run_suite v suite s =
    let s = set_arg0 status_pending s in
    let s = record s { tests = ran suite s } in
    let s = set_arg0 status_available s in
    some (record s { params = record s.params { arg1 = v.get_status s.tests } })
  where
    ran : Suite → Drv → Counters
    ran exerciser s = s.tests
    ran suite s = v.execute suite s.params.num_pe s.sw_view s.tests

-- The globals that take an argument are 32 bits wide.
abbrev pub args : Params → ℕ × ℕ × ℕ
args p = (u32 p.arg0, u32 p.arg1, u32 p.arg2)

unfoldable pub skip_list : Drv → Option Drv
skip_list s = some (record s { skip_test_num = args s.params })

unfoldable pub view : Drv → Option Drv
view s = some (record s { sw_view = args s.params })

-- val_glue_execute_command: the low half of `params.arg1` is taken for the print level, then eight tests of
-- api_num one after the other. `none`: memory was freed that was not allocated.
unfoldable pub execute_command : Val → Grants → Drv → Option Drv
unfolding create_tables free_tables run_suite skip_list view
execute_command v g s = do
  let s = record s { print_level = u32 s.params.arg1 }
  s ← when (s.params.api_num == create_info_tables) (create_tables g) s
  s ← when (s.params.api_num == free_info_tables) free_tables s
  s ← when (s.params.api_num == exerciser_execute_test) (run_suite v exerciser) s
  s ← when (s.params.api_num == pcie_execute_test) (run_suite v pcie) s
  s ← when (s.params.api_num == per_execute_test) (run_suite v peripheral) s
  s ← when (s.params.api_num == mem_execute_test) (run_suite v memory) s
  s ← when (s.params.api_num == update_skip_list) skip_list s
  when (s.params.api_num == update_sw_view) view s

-- sizeof(test_params_t) and sizeof(test_msg_parms_t) on a 64-bit kernel.
abbrev pub params_size : ℕ
params_size = 40

abbrev pub msg_size : ℕ
msg_size = 104

-- bsa_proc_write of `size` bytes: `copied` is params with that many bytes taken from the user.
-- Nothing in the code bounds the size: `none` is also a copy that runs over the end of params.
unfoldable pub proc_write : Val → Grants → ℕ → Params → Drv → Option (ℕ × Drv)
unfolding execute_command
proc_write v g size copied s =
    if ltb params_size size
    then none
    else (execute_command v g (record s { len = size; params = copied }) >>= λ s'.
        some (s'.len, s'))

-- bsa_proc_read: the number of bytes of params that are copied out and reported.
unfoldable pub proc_read : Drv → ℕ
proc_read s = s.len

-- What g_msg_buf points at, and num_msg.
pub record Messages : Type 0 where
  pub slots : List Slot
  pub num_msg : ℕ

abbrev pub log_of : Messages → Drv → Log
log_of m s = record {
  buf = m.slots;
  tail_msg = s.tail_msg;
  num_msg = m.num_msg;
  print_level = s.print_level;
}

-- bsa_msg_proc_read at the offset of slot `i`: what the user gets, the messages with what memset
-- cleared, and `len`, which is the same variable. `none` is a write in front of the messages.
unfoldable pub msg_proc_read : ReadBuffer → ℕ → Messages → Drv → Option (Reply × Messages × Drv)
unfolding read
msg_proc_read copy i m s =
    let len = if i * msg_size == s.tail_msg * msg_size then 0 else msg_size in
    read copy msg_size i (log_of m s) >>= λ a.
    some (a.0, record m { slots = a.1.buf }, record s { len = len })
