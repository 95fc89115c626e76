-- ===== src/Mem/Aligned.antt =====
-- Where pal_aligned_alloc points to.
use linux_acs.Prelude.{
  ℕ, ◌+◌, ◌-◌, ◌*◌, ◌/◌, ◌%◌, ◌^◌, ◌≤◌, ◌<◌, ◌≡◌, refl, Option, some, bit_and-high, one_le_pow, u32,
  u64, arith,
}
use native.Mathlib.Nat.{div-add-mod', mod-lt}
use linux_acs.Mem.{not64, aligned_alloc}

-- If the allocator gives memory at `mem` for the size and the alignment together, the address that
-- pal_aligned_alloc returns is a multiple of the alignment, and the `size` bytes from it on lie inside
-- the memory that was given. The alignment is a power of two, and the two sizes together are below
-- 2^32.
pub aligned_alloc-inside :
    (alloc : ℕ → Option ℕ) (k size mem : ℕ)
    → k < 32
    → size + 2 ^ k < 2 ^ 32
    → alloc (size + 2 ^ k) ≡ some mem
    → mem + (size + 2 ^ k) < 2 ^ 64
    → (q : ℕ) × (aligned_alloc alloc (2 ^ k) size ≡ some (q * 2 ^ k))
      × (mem ≤ q * 2 ^ k)
      × (q * 2 ^ k + size ≤ mem + (size + 2 ^ k))
unfolding aligned_alloc
aligned_alloc-inside alloc k size mem k_lt fits given room =
    let positive = one_le_pow k in
    let x = mem + 2 ^ k - 1 in
    let q = x / 2 ^ k in
    let r = x % 2 ^ k in
    let whole : q * 2 ^ k + r ≡ x = div-add-mod' x (2 ^ k) in
    let low : r < 2 ^ k = mod-lt x (omega arith) in
    let asked : u32 (size + 2 ^ k) ≡ size + 2 ^ k = omega arith in
    let sum : u64 (u64 (mem + 2 ^ k) + (2 ^ 64 - 1)) ≡ q * 2 ^ k + r = omega arith in
    let mask : not64 (u32 (2 ^ k + (2 ^ 32 - 1))) ≡ 2 ^ 64 - 2 ^ k = omega arith in
    let aligned = bit_and-high k 64 q r low (omega arith) (omega arith) in
    (q, (rw (asked, given, sum, mask, aligned) refl), omega arith, omega arith)
