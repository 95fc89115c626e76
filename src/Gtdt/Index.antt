-- ===== src/Gtdt/Index.antt =====
-- Which slot pal_platform_timer_get_entry_index finds for the number of a timer.
use linux_acs.Prelude.{
  ℕ, suc, ◌+◌, ◌-◌, ◌≡◌, ◌<◌, ◌≤◌, refl, Option, none, some, List, [], ◌∷◌, arith, ltb,
  if◌then◌else◌, Bool-cases, inl, inr, lt→ltb,
}
use linux_acs.Gtdt.{GtBlock, TimerTable, locate, get_entry_index}
use linux_acs.Gtdt.Fill.{total}

-- The slot of timer `i`, counting from 0 through the blocks in order.
abbrev pub slot : List GtBlock → ℕ → ℕ → Option (ℕ × ℕ)
slot [] block i = none
slot (g ∷ gs) block i =
    let rest = slot gs (block + 1) (i - g.timer_count) in
    if ltb i g.timer_count then some (block, i) else rest

locate-slot :
    (gs : List GtBlock) (block i : ℕ)
    → i < total gs
    → (b : ℕ) × (j : ℕ) × (slot gs block i ≡ some (b, j))
      × (locate gs block (suc i) ≡ some (b, suc j))
unfolding locate
locate-slot [] block i h = absurd (omega arith)
locate-slot (g ∷ gs) block i h = elim (Bool-cases (ltb i g.timer_count)) [
  | inl here ↦ (block, i, ground arith, ground arith)
  | inr later ↦
      let (b, j, p, q) = locate-slot gs (block + 1) (i - g.timer_count) (ground arith) in
      let e : suc i - g.timer_count ≡ suc (i - g.timer_count) = ground arith in
      (b, j, ground arith, rw (lt→ltb g.timer_count (suc i) (ground arith), e) q)
]

-- For a number that is not 0, pal_platform_timer_get_entry_index gives the slot behind that of the
-- timer before it: in a table whose count is the sum of its blocks, if timer `i` stands in slot `j`
-- of block `b`, the answer for `i + 1` is slot `j + 1` of the same block, also where timer `i` is
-- the last one of that block and slot `j + 1` was never filled.
pub get_entry_index-slot :
    (t : TimerTable) (i : ℕ)
    → t.num_platform_timer ≡ total t.gt_info
    → i < total t.gt_info
    → (b : ℕ) × (j : ℕ) × (slot t.gt_info 0 i ≡ some (b, j))
      × (get_entry_index t (suc i) ≡ some (some (b, suc j)))
unfolding get_entry_index
get_entry_index-slot t i n h =
    let (b, j, p, q) = locate-slot t.gt_info 0 i h in (b, j, p, ground (arith, q))

locate_total :
    (gs : List GtBlock) (block i : ℕ) → i ≤ total gs → (p : ℕ × ℕ) × (locate gs block i ≡ some p)
unfolding locate
locate_total [] block i h = ((block, i), ground arith)
locate_total (g ∷ gs) block i h = elim (Bool-cases (ltb g.timer_count i)) [
  | inl later ↦ rw later (locate_total gs (block + 1) (i - g.timer_count) (ground arith))
  | inr here ↦ rw here ((block, i), refl)
]

-- For no number up to the count does the search run on behind the blocks.
pub get_entry_index_total :
    (t : TimerTable) (i : ℕ)
    → t.num_platform_timer ≡ total t.gt_info
    → i ≤ t.num_platform_timer
    → (p : ℕ × ℕ) × (get_entry_index t i ≡ some (some p))
unfolding get_entry_index
get_entry_index_total t i n h =
    let (p, e) = locate_total t.gt_info 0 i (omega arith) in (p, ground (arith, e))
