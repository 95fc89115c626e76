-- ===== src/Mem/Tests.antt =====
-- An aligned buffer, and printing.
use linux_acs.Prelude.{
  ◌++◌, [], ◌∷◌, true, ℕ, ◌+◌, ◌*◌, ◌^◌, ◌≡◌, ◌≤◌, refl, Option, some, none, arith, ◌==◌,
  if◌then◌else◌,
}
use linux_acs.Driver.{Heap}
use linux_acs.Mem.Print.{kern_cont, strcpy, print_text, print_text-kern_cont}
use linux_acs.Mem.{aligned_alloc}
use linux_acs.Mem.Aligned.{aligned_alloc-inside}

abbrev allocator : ℕ → Option ℕ
allocator size = some 0x10010

aligned_runs : aligned_alloc allocator 0x1000 0x200 ≡ some 0x11000
unfolding aligned_alloc
aligned_runs = refl

-- 32 bits are too few for the size and the alignment together.
wraps_run : aligned_alloc (λ size. if size == 0 then none else some size) 0x1000 0xfffff000 ≡ none
unfolding aligned_alloc
wraps_run = refl

aligned_alloc-inside_example :
    (q : ℕ) × (aligned_alloc allocator (2 ^ 12) 0x200 ≡ some (q * 2 ^ 12))
    × (0x10010 ≤ q * 2 ^ 12)
    × (q * 2 ^ 12 + 0x200 ≤ 0x10010 + (0x200 + 2 ^ 12))
aligned_alloc-inside_example =
    aligned_alloc-inside allocator 12 0x200 0x10010 (omega arith) (omega arith) refl (omega arith)

abbrev heap : Heap
heap = record { next = 9; live = 8 ∷ [] }

-- The text "a%d".
print_run :
    print_text true (97 ∷ 37 ∷ 100 ∷ []) 5 heap
    ≡ some ((1 ∷ 99 ∷ 97 ∷ 37 ∷ 100 ∷ [], 5) ∷ [], record { next = 10; live = 8 ∷ [] })
unfolding print_text linux_acs.Driver.kmalloc linux_acs.Driver.kfree
print_run = refl

-- A buffer without room for the NUL is written past its end.
overflow_run : strcpy (0 ∷ 0 ∷ []) kern_cont ≡ none
unfolding strcpy
overflow_run = refl

print_text-kern_cont_example :
    print_text true (97 ∷ 37 ∷ 100 ∷ []) 5 heap
    ≡ some ((kern_cont ++ 97 ∷ 37 ∷ 100 ∷ [], 5) ∷ [], record { next = 10; live = 8 ∷ [] })
print_text-kern_cont_example =
    print_text-kern_cont true (97 ∷ 37 ∷ 100 ∷ []) 5 heap (λ e. cc, ((λ e. cc), ((λ e. cc), tt)))
      (omega arith)
