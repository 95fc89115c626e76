-- ===== src/Gtdt.antt =====
-- Timers and watchdogs from the ACPI GTDT: sdei-acs-drv/sdei-acs-pal/files/src/pal_wd_timer.c.
pub mod Fill
pub mod Index
pub mod Registers
pub mod Interrupt
pub mod Second
pub mod Watchdog
mod Tests
use linux_acs.Prelude.{
  ℕ, zero, suc, ◌+◌, ◌-◌, ◌^◌, Bool, true, false, Option, none, some, List, [], ◌∷◌, ◌++◌, bit_or,
  shl, shr, low_bits, u32, ltb, ◌==◌, if◌then◌else◌, ◌>>=◌, set, get_or,
}

-- struct acpi_gtdt_timer_entry, the fields that are read.
pub record TimerEntry : Type 0 where
  pub base_address : ℕ
  pub el0_base_address : ℕ
  pub timer_interrupt : ℕ
  pub virtual_timer_interrupt : ℕ
  pub timer_flags : ℕ
  pub virtual_timer_flags : ℕ
  pub common_flags : ℕ

-- struct acpi_gtdt_timer_block; `timers` are the entries at its timer_offset.
pub record TimerBlock : Type 0 where
  pub block_address : ℕ
  pub timer_count : ℕ
  pub timers : List TimerEntry

-- struct acpi_gtdt_watchdog, and wd_info_entry_t with the same fields.
pub record WdEntry : Type 0 where
  pub refresh_base : ℕ
  pub ctrl_base : ℕ
  pub gsiv : ℕ
  pub flags : ℕ

-- A platform timer structure, by `header.type`: ACPI_GTDT_TYPE_TIMER_BLOCK, _WATCHDOG, or another.
pub data GtdtEntry : Type 0 where
  timer_block : TimerBlock → GtdtEntry
  watchdog : WdEntry → GtdtEntry
  other : (type : ℕ) → GtdtEntry

-- The eight fields that are copied from the fixed part of the GTDT.
pub record TimerHeader : Type 0 where
  pub s_el1_timer_flag : ℕ
  pub ns_el1_timer_flag : ℕ
  pub el2_timer_flag : ℕ
  pub s_el1_timer_gsiv : ℕ
  pub ns_el1_timer_gsiv : ℕ
  pub el2_timer_gsiv : ℕ
  pub virtual_timer_flag : ℕ
  pub virtual_timer_gsiv : ℕ

-- struct acpi_table_gtdt; `entries` are the structures from platform_timer_offset on, each
-- `header.length` bytes behind the one before.
pub record Gtdt : Type 0 where
  pub fixed : TimerHeader
  pub platform_timer_count : ℕ
  pub entries : List GtdtEntry

-- A column of timer_info_gtblock_t, and the block.
pub record GtTimer : Type 0 where
  pub cnt_base : ℕ
  pub el0_base : ℕ
  pub gsiv : ℕ
  pub virt_gsiv : ℕ
  pub flags : ℕ

pub record GtBlock : Type 0 where
  pub cntl_base : ℕ
  pub timer_count : ℕ
  pub timers : List GtTimer

pub record TimerTable : Type 0 where
  pub fixed : TimerHeader
  pub num_platform_timer : ℕ
  pub gt_info : List GtBlock

unfoldable pub copy_timer : TimerEntry → GtTimer
copy_timer e = record {
  cnt_base = e.base_address;
  el0_base = e.el0_base_address;
  gsiv = e.timer_interrupt;
  virt_gsiv = e.virtual_timer_interrupt;
  flags = u32 (bit_or (bit_or e.timer_flags (shl e.virtual_timer_flags 8)) (shl e.common_flags 16));
}

-- The `for` over the timers of a block, with its count of timers so far; `none` is a read behind
-- the last entry.
unfoldable pub copy_timers : ℕ → List TimerEntry → Option (List GtTimer)
unfolding copy_timer
copy_timers zero es = some []
copy_timers (suc n) [] = none
copy_timers (suc n) (e ∷ es) = copy_timers n es >>= λ ts. some (copy_timer e ∷ ts)

-- The `while (num_of_entries)` of pal_timer_create_info_table.
unfoldable pub fill_blocks : ℕ → List GtdtEntry → TimerTable → Option TimerTable
unfolding copy_timers
fill_blocks zero es t = some t
fill_blocks (suc n) [] t = none
fill_blocks (suc n) (timer_block b ∷ es) t = do
  ts ← copy_timers b.timer_count b.timers
  let g : GtBlock = record { cntl_base = b.block_address; timer_count = b.timer_count; timers = ts }
  fill_blocks n es (record t {
    num_platform_timer = t.num_platform_timer + b.timer_count;
    gt_info = t.gt_info ++ g ∷ [];
  })
fill_blocks (suc n) (_ ∷ es) t = fill_blocks n es t

-- pal_timer_create_info_table for a table pointer that is not null. With no GTDT it returns
-- before anything is stored: the inner `none`.
unfoldable pub timer_create_info_table : Option Gtdt → Option (Option TimerTable)
unfolding fill_blocks
timer_create_info_table none = some none
timer_create_info_table (some g) = do
  t ←
      fill_blocks g.platform_timer_count g.entries
        (record { fixed = g.fixed; num_platform_timer = 0; gt_info = [] })
  some (some t)

abbrev pub invalid_index : ℕ
invalid_index = 2 ^ 32 - 1

-- The `while` of pal_platform_timer_get_entry_index. Behind the last block the table holds zeros;
-- `none` is an index that runs on there.
unfoldable pub locate : List GtBlock → ℕ → ℕ → Option (ℕ × ℕ)
locate [] block index = if ltb 0 index then none else some (block, index)
locate (g ∷ gs) block index =
    let rest = locate gs (block + 1) (index - g.timer_count) in
    if ltb g.timer_count index then rest else some (block, index)

-- pal_platform_timer_get_entry_index: the block and the index in it; a block INVALID_INDEX is
-- the inner `none`.
unfoldable pub get_entry_index : TimerTable → ℕ → Option (Option (ℕ × ℕ))
unfolding locate
get_entry_index t index =
    if ltb t.num_platform_timer index
    then some none
    else (locate t.gt_info 0 index >>= λ p. some (some p))

pub data InfoType : Type 0 where
  is_secure sys_intid sys_cnt_base_n : InfoType

-- The table comes zeroed from create_timer_infotable, so slots that were not written read 0.
abbrev pub no_timer : GtTimer
no_timer = record { cnt_base = 0; el0_base = 0; gsiv = 0; virt_gsiv = 0; flags = 0 }

abbrev pub no_block : GtBlock
no_block = record { cntl_base = 0; timer_count = 0; timers = [] }

abbrev pub timer_at : TimerTable → ℕ × ℕ → GtTimer
timer_at t (b, i) = get_or (get_or t.gt_info b no_block).timers i no_timer

abbrev pub read_info : InfoType → GtTimer → ℕ
read_info is_secure g = low_bits (shr g.flags 16) 1
read_info sys_intid g = g.gsiv
read_info sys_cnt_base_n g = g.cnt_base

-- pal_timer_get_info; the global table pointer is the option.
unfoldable pub timer_get_info : Option TimerTable → InfoType → ℕ → Option ℕ
unfolding get_entry_index
timer_get_info none ty index = some invalid_index
timer_get_info (some t) ty index = do
  found ← get_entry_index t index
  elim found [ none ↦ some invalid_index | some p ↦ some (read_info ty (timer_at t p)) ]

-- The loop of pal_configure_second_interrupt over the timers from `n - 1` down: the index and the
-- interrupt of the first one that is not secure.
unfoldable pub search_ns : TimerTable → ℕ → Option (Option (ℕ × ℕ))
search_ns t zero = some none
search_ns t (suc n) = do
  secure ← timer_get_info (some t) is_secure n
  let rest = search_ns t n
  let take = do int_id ← timer_get_info (some t) sys_intid n; some (some (n, int_id))
  if secure == 0 then take else rest

-- pal_configure_second_interrupt: `*index` and `*int_id`, or ACS_ERROR as the inner `none`.
unfoldable pub configure_second_interrupt : TimerTable → Option (Option (ℕ × ℕ))
unfolding search_ns
configure_second_interrupt t = search_ns t t.num_platform_timer

-- wd_info_table_t: the count and the slots behind it.
pub record WdTable : Type 0 where
  pub num_wd : ℕ
  pub wd_info : List WdEntry

-- The `while` of pal_wd_create_info_table. `wd_info` is set before the loop and is not advanced.
unfoldable pub fill_wds : ℕ → List GtdtEntry → WdTable → Option WdTable
fill_wds zero es t = some t
fill_wds (suc n) [] t = none
fill_wds (suc n) (watchdog w ∷ es) t =
    fill_wds n es (record { num_wd = t.num_wd + 1; wd_info = set t.wd_info 0 w })
fill_wds (suc n) (_ ∷ es) t = fill_wds n es t

-- pal_wd_create_info_table: the status, 1 if there is no GTDT, and the table.
unfoldable pub wd_create_info_table : Option Gtdt → WdTable → Option (ℕ × WdTable)
unfolding fill_wds
wd_create_info_table none t = some (1, t)
wd_create_info_table (some g) t = do
  t' ← fill_wds g.platform_timer_count g.entries (record t { num_wd = 0 })
  some (0, t')
