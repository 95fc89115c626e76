-- ===== src/Ffa/Tests.antt =====
-- The FF-A platform layer at concrete transfers.
use linux_acs.Prelude.{
  ℕ, ◌+◌, ◌*◌, ◌≡◌, ◌≤◌, ◌<◌, ◌↔◌, ◌⊎◌, refl, Bool, true, false, none, some, arith, ◌==◌, ltb,
  if◌then◌else◌,
}
use linux_acs.Ffa.{pal_success, pal_error, configure_testengine, poll, IrqWorld, register_handler}
use linux_acs.Ffa.Memory.{
  page_size, page_bytes, order_of, memory_alloc, memory_free, memory_alloc-room,
}
use linux_acs.Ffa.Engine.{Halts, configure_testengine-programs, programs}

-- Busy twice, then halted, on every frame.
abbrev reads : ℕ → ℕ → ℕ
reads i n = if ltb n 2 then 2 else 1

reads-Halts : (i : ℕ) → (n : ℕ) × Halts (reads i) n × (n + 1 < 9)
reads-Halts i = (2, record { busy = λ j h. busy j h; ends = refl }, omega arith)
  where
    busy : (j : ℕ) → j < 2 → reads 0 j ≡ 2
    busy j h = ground arith

-- The ranges are equal if they start at the same place of memory, or if the first is the source.
abbrev equal : ℕ → ℕ → ℕ → Bool
equal begin dest size = begin == 0x80000000

poll_runs : (poll (reads 0) 9 0 ≡ pal_success) × (poll (reads 0) 3 0 ≡ pal_error)
unfolding poll
poll_runs = (refl, refl)

-- Two pages were copied right, but the comparison starts at the second one.
configure_testengine-programs_example :
    configure_testengine reads equal 9 7 0x80000000 0x90000000 0x2000 false
    ≡ (pal_error, programs false 7 0x80000000 0x90000000 2 0)
configure_testengine-programs_example =
    configure_testengine-programs reads 9 false 7 0x80000000 0x90000000 reads-Halts equal 0x2000
      (omega arith)

abbrev gic : IrqWorld
gic = record {
  domain = true;
  granted = true;
  hierarchy = true;
  alloc_irqs = λ cell. if cell == 8 then some 50 else none;
  create_mapping = λ irq. none;
  request = λ virq. true;
}

register_runs : (register_handler gic 40).requested ≡ some 50
unfolding register_handler
register_runs = refl

abbrev three : ℕ
three = 0x3000

-- Two orders, where three pages need order 2.
memory_runs : (order_of 0x3000 ≡ 1) × (memory_alloc some 0x6000 ≡ some 3)
unfolding memory_alloc
memory_runs = (refl, refl)

memory_alloc-room_example :
    (order : ℕ) × (memory_alloc some 0x3000 ≡ some order)
    × (memory_free 0x8000 0x3000 ≡ (0x8000, order))
    × ((three ≤ page_bytes order) ↔ (
        (three ≤ page_size)
        ⊎ (three ≡ 2 * page_size)
        ⊎ (three ≡ 4 * page_size)
        ⊎ (6 * page_size ≤ three)))
memory_alloc-room_example = memory_alloc-room some three 0x8000 (omega arith)
