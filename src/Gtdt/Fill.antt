-- ===== src/Gtdt/Fill.antt =====
-- The timer table that pal_timer_create_info_table fills.
use linux_acs.Prelude.{
  ℕ, zero, suc, ◌+◌, ◌≡◌, refl, some, List, [], ◌∷◌, ◌++◌, map, arith, length, All, append-nil,
  append_assoc,
}
use linux_acs.Gtdt.{
  TimerEntry, GtdtEntry, timer_block, Gtdt, GtBlock, TimerTable, copy_timer, copy_timers,
  fill_blocks, timer_create_info_table,
}

-- A timer block has as many entries as it says.
abbrev pub IsWhole : GtdtEntry → Type 0
IsWhole (timer_block b) = b.timer_count ≡ length b.timers
IsWhole _ = Unit

pub record IsFilled (g : Gtdt) : Type 0 where
  pub counted : g.platform_timer_count ≡ length g.entries
  pub whole : All IsWhole g.entries

-- The timer blocks of the GTDT in order, with a copy of each timer.
abbrev pub blocks_of : List GtdtEntry → List GtBlock
blocks_of [] = []
blocks_of (timer_block b ∷ es) =
    record {
      cntl_base = b.block_address;
      timer_count = b.timer_count;
      timers = map copy_timer b.timers;
    }
    ∷ blocks_of es
blocks_of (_ ∷ es) = blocks_of es

abbrev pub total : List GtBlock → ℕ
total [] = 0
total (g ∷ gs) = g.timer_count + total gs

copy_timers-map :
    (n : ℕ) (es : List TimerEntry) → n ≡ length es → copy_timers n es ≡ some (map copy_timer es)
unfolding copy_timers
copy_timers-map zero [] e = refl
copy_timers-map zero (x ∷ es) e = absurd (omega arith)
copy_timers-map (suc n) [] e = absurd (omega arith)
copy_timers-map (suc n) (x ∷ es) e = rw (copy_timers-map n es (omega arith))

fill_blocks-blocks_of :
    (n : ℕ) (es : List GtdtEntry) (t : TimerTable)
    → n ≡ length es
    → All IsWhole es
    → fill_blocks n es t
      ≡ some (record t {
        num_platform_timer = t.num_platform_timer + total (blocks_of es);
        gt_info = t.gt_info ++ blocks_of es;
      })
unfolding fill_blocks
fill_blocks-blocks_of zero [] t e w = ground (arith, append-nil t.gt_info)
fill_blocks-blocks_of zero (x ∷ es) t e w = absurd (omega arith)
fill_blocks-blocks_of (suc n) [] t e w = absurd (omega arith)
fill_blocks-blocks_of (suc n) (timer_block b ∷ es) t e w =
    let g : GtBlock = record {
      cntl_base = b.block_address;
      timer_count = b.timer_count;
      timers = map copy_timer b.timers;
    } in
    let t' : TimerTable = record t {
      num_platform_timer = t.num_platform_timer + b.timer_count;
      gt_info = t.gt_info ++ g ∷ [];
    } in
    rw (copy_timers-map b.timer_count b.timers w.0) (
      ground (
        arith,
        fill_blocks-blocks_of n es t' (omega arith) w.1,
        append_assoc t.gt_info (g ∷ []) (blocks_of es),
      ))
fill_blocks-blocks_of (suc n) (_ ∷ es) t e w = fill_blocks-blocks_of n es t (omega arith) w.1

-- On a GTDT whose counts are right, pal_timer_create_info_table ends with a block for each timer
-- block, in order and with all of its timers, with the sum of the timer counts as the number of
-- platform timers, and with the eight fields of the fixed part.
pub timer_create_info_table-blocks_of :
    (g : Gtdt)
    → IsFilled g
    → timer_create_info_table (some g)
      ≡ some (
          some (record {
            fixed = g.fixed;
            num_platform_timer = total (blocks_of g.entries);
            gt_info = blocks_of g.entries;
          }))
unfolding timer_create_info_table
timer_create_info_table-blocks_of g f = ground (
  arith,
  fill_blocks-blocks_of g.platform_timer_count g.entries
      (record { fixed = g.fixed; num_platform_timer = 0; gt_info = [] }) f.counted f.whole,
)
