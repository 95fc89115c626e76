-- ===== src/Gtdt/Watchdog.antt =====
-- The watchdog table that pal_wd_create_info_table fills.
use linux_acs.Prelude.{ℕ, zero, suc, ◌+◌, ◌≡◌, refl, some, List, [], ◌∷◌, arith, length, set}
use linux_acs.Gtdt.{GtdtEntry, watchdog, WdEntry, Gtdt, WdTable, fill_wds, wd_create_info_table}

-- The watchdogs of the GTDT in order.
abbrev pub watchdogs : List GtdtEntry → List WdEntry
watchdogs [] = []
watchdogs (watchdog w ∷ es) = w ∷ watchdogs es
watchdogs (_ ∷ es) = watchdogs es

-- The slots once the watchdogs of a list have gone through the first one.
abbrev pub overwritten : List WdEntry → List WdEntry → List WdEntry
overwritten slots [] = slots
overwritten slots (w ∷ ws) = overwritten (set slots 0 w) ws

fill_wds-overwritten :
    (n : ℕ) (es : List GtdtEntry) (t : WdTable)
    → n ≡ length es
    → fill_wds n es t
      ≡ some (record {
        num_wd = t.num_wd + length (watchdogs es);
        wd_info = overwritten t.wd_info (watchdogs es);
      })
unfolding fill_wds
fill_wds-overwritten zero [] t e = ground arith
fill_wds-overwritten zero (x ∷ es) t e = absurd (omega arith)
fill_wds-overwritten (suc n) [] t e = absurd (omega arith)
fill_wds-overwritten (suc n) (watchdog w ∷ es) t e = ground (
  arith,
  fill_wds-overwritten n es (record { num_wd = t.num_wd + 1; wd_info = set t.wd_info 0 w })
      (omega arith),
)
fill_wds-overwritten (suc n) (_ ∷ es) t e = fill_wds-overwritten n es t (omega arith)

-- The last element, or a default.
abbrev pub last_or : WdEntry → List WdEntry → WdEntry
last_or s [] = s
last_or s (w ∷ ws) = last_or w ws

overwritten-cons :
    (s : WdEntry) (slots ws : List WdEntry) → overwritten (s ∷ slots) ws ≡ last_or s ws ∷ slots
overwritten-cons s slots [] = refl
overwritten-cons s slots (w ∷ ws) = overwritten-cons w slots ws

-- On a GTDT whose structure count is right, pal_wd_create_info_table reports success and counts
-- every watchdog, but keeps only one: the first slot holds the last watchdog (what it held before
-- if there is none), and every other slot is as it was.
pub wd_create_info_table-last :
    (g : Gtdt) (n : ℕ) (s : WdEntry) (slots : List WdEntry)
    → g.platform_timer_count ≡ length g.entries
    → wd_create_info_table (some g) (record { num_wd = n; wd_info = s ∷ slots })
      ≡ some (
        0,
        record {
          num_wd = length (watchdogs g.entries);
          wd_info = last_or s (watchdogs g.entries) ∷ slots;
        },
      )
unfolding wd_create_info_table
wd_create_info_table-last g n s slots e = ground (
  arith,
  fill_wds-overwritten g.platform_timer_count g.entries (record { num_wd = 0; wd_info = s ∷ slots })
      e,
  overwritten-cons s slots (watchdogs g.entries),
)
