-- ===== src/Gtdt/Tests.antt =====
-- The GTDT theorems at a small table.
use linux_acs.Prelude.{ℕ, suc, ◌+◌, ◌≡◌, refl, Option, some, [], ◌∷◌, arith, length}
use linux_acs.Gtdt.{
  TimerEntry, timer_block, watchdog, WdEntry, TimerHeader, Gtdt, TimerTable,
  timer_create_info_table, get_entry_index, timer_get_info, configure_second_interrupt,
  wd_create_info_table,
}
use linux_acs.Gtdt.Fill.{blocks_of, total, timer_create_info_table-blocks_of}
use linux_acs.Gtdt.Index.{slot, get_entry_index-slot}
use linux_acs.Gtdt.Second.{Chosen, configure_second_interrupt-Chosen}
use linux_acs.Gtdt.Watchdog.{watchdogs, last_or, wd_create_info_table-last}

abbrev entry : ℕ → ℕ → ℕ → TimerEntry
entry base int common = record {
  base_address = base;
  el0_base_address = 0;
  timer_interrupt = int;
  virtual_timer_interrupt = 0;
  timer_flags = 1;
  virtual_timer_flags = 0;
  common_flags = common;
}

abbrev header : TimerHeader
header = record {
  s_el1_timer_flag = 0;
  ns_el1_timer_flag = 0;
  el2_timer_flag = 0;
  s_el1_timer_gsiv = 29;
  ns_el1_timer_gsiv = 30;
  el2_timer_gsiv = 26;
  virtual_timer_flag = 0;
  virtual_timer_gsiv = 27;
}

abbrev dog : ℕ → WdEntry
dog n = record { refresh_base = n; ctrl_base = n + 0x10000; gsiv = 59; flags = 0 }

-- Two blocks of one timer each, the second one secure, and two watchdogs.
abbrev platform : Gtdt
platform = record {
  fixed = header;
  platform_timer_count = 4;
  entries =
      timer_block
        (record { block_address = 0x1000; timer_count = 1; timers = entry 0x2000 60 0 ∷ [] })
      ∷ watchdog (dog 0x3000)
      ∷ timer_block
          (record { block_address = 0x4000; timer_count = 1; timers = entry 0x5000 61 1 ∷ [] })
      ∷ watchdog (dog 0x6000)
      ∷ [];
}

abbrev table : TimerTable
table = record {
  fixed = header;
  num_platform_timer = 2;
  gt_info =
      record {
        cntl_base = 0x1000;
        timer_count = 1;
        timers =
            record { cnt_base = 0x2000; el0_base = 0; gsiv = 60; virt_gsiv = 0; flags = 1 } ∷ [];
      }
      ∷ record {
        cntl_base = 0x4000;
        timer_count = 1;
        timers =
            record { cnt_base = 0x5000; el0_base = 0; gsiv = 61; virt_gsiv = 0; flags = 0x10001 }
            ∷ [];
      }
      ∷ [];
}

platform_runs : timer_create_info_table (some platform) ≡ some (some table)
unfolding timer_create_info_table
platform_runs = refl

-- Timer 1 is the secure timer of the second block; the code reads an empty slot of the first one,
-- takes it for a timer that is not secure, and returns interrupt 0.
second_runs : configure_second_interrupt table ≡ some (some (1, 0))
unfolding configure_second_interrupt timer_get_info
second_runs = refl

timer_create_info_table-blocks_of_example :
    timer_create_info_table (some platform)
    ≡ some (
        some (record {
          fixed = header;
          num_platform_timer = total (blocks_of platform.entries);
          gt_info = blocks_of platform.entries;
        }))
timer_create_info_table-blocks_of_example = timer_create_info_table-blocks_of platform (omega arith)

get_entry_index-slot_example :
    (b : ℕ) × (j : ℕ) × (slot table.gt_info 0 0 ≡ some (b, j))
    × (get_entry_index table 1 ≡ some (some (b, suc j)))
get_entry_index-slot_example = get_entry_index-slot table 0 refl (omega arith)

configure_second_interrupt-Chosen_example :
    (r : Option (ℕ × ℕ)) × (configure_second_interrupt table ≡ some r) × Chosen table 2 r
configure_second_interrupt-Chosen_example = configure_second_interrupt-Chosen table refl

abbrev blank : WdEntry
blank = record { refresh_base = 0; ctrl_base = 0; gsiv = 0; flags = 0 }

wd_create_info_table-last_example :
    wd_create_info_table (some platform) (record { num_wd = 7; wd_info = blank ∷ blank ∷ [] })
    ≡ some (
      0,
      record {
        num_wd = length (watchdogs platform.entries);
        wd_info = last_or blank (watchdogs platform.entries) ∷ blank ∷ [];
      },
    )
wd_create_info_table-last_example = wd_create_info_table-last platform 7 blank (blank ∷ []) refl
