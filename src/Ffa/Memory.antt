-- ===== src/Ffa/Memory.antt =====
-- Pages of the FF-A layer: pal_memory_alloc and pal_memory_free of
-- ffa-acs-drv/pal_linux/src/pal_misc.c.
use linux_acs.Prelude.{
  ℕ, zero, suc, ◌+◌, ◌*◌, ◌/◌, ◌^◌, ◌≤◌, ◌-◌, ◌<◌, ◌≡◌, ◌↔◌, ◌⊎◌, inr, Option, u32, refl, arith,
}
use native.Mathlib.Nat.{pow-suc}

-- PAGE_SIZE_4K
abbrev pub page_size : ℕ
page_size = 0x1000

-- The order of both functions, 32 bits wide.
unfoldable pub order_of : ℕ → ℕ
order_of size = u32 (size / page_size / 2)

-- __get_free_pages, from an order to an address; `none` is the null pointer.
unfoldable pub memory_alloc : (ℕ → Option ℕ) → ℕ → Option ℕ
unfolding order_of
memory_alloc get_free_pages size = get_free_pages (order_of size)

-- The address and the order of the call of free_pages.
unfoldable pub memory_free : ℕ → ℕ → ℕ × ℕ
unfolding order_of
memory_free address size = (address, order_of size)

-- The bytes behind an address that __get_free_pages documents for an order.
abbrev pub page_bytes : ℕ → ℕ
page_bytes order = 2 ^ order * page_size

many_pages : (d : ℕ) → 2 * (d + 3) + 2 ≤ 2 ^ (d + 3)
many_pages zero = omega arith
many_pages (suc d) =
    let same : suc d + 3 ≡ suc (d + 3) = omega arith in
    rw same (omega (arith, many_pages d, pow-suc 2 (d + 3)))

room_above : (order : ℕ) → 3 ≤ order → 2 * order + 2 ≤ 2 ^ order
room_above order h =
    let d = order - 3 in let same : order ≡ d + 3 = omega arith in rw same (many_pages d)

room :
    (order size : ℕ)
    → order ≡ size / page_size / 2
    → (size ≤ page_bytes order) ↔ (
        (size ≤ page_size)
        ⊎ (size ≡ 2 * page_size)
        ⊎ (size ≡ 4 * page_size)
        ⊎ (6 * page_size ≤ size))
room zero size e = (λ h. ground arith, λ h. ground arith)
room (suc zero) size e = (λ h. ground arith, λ h. ground arith)
room (suc (suc zero)) size e = (λ h. ground arith, λ h. ground arith)
room (suc (suc (suc d))) size e =
    let above = room_above (suc (suc (suc d))) (omega arith) in
    (λ h. inr (inr (inr (omega arith))), λ h. omega arith)

-- For a size below 2^32, pal_memory_alloc is one call of __get_free_pages, whatever this answers, with
-- the order with which pal_memory_free gives the pages back. The pages of that order have room for
-- the size just where this is at most one page, two pages, four pages, or six pages and more.
pub memory_alloc-room :
    (get_free_pages : ℕ → Option ℕ) (size address : ℕ)
    → size < 2 ^ 32
    → (order : ℕ) × (memory_alloc get_free_pages size ≡ get_free_pages order)
      × (memory_free address size ≡ (address, order))
      × ((size ≤ page_bytes order) ↔ (
          (size ≤ page_size)
          ⊎ (size ≡ 2 * page_size)
          ⊎ (size ≡ 4 * page_size)
          ⊎ (6 * page_size ≤ size)))
unfolding memory_alloc memory_free order_of
memory_alloc-room get_free_pages size address h =
    (order_of size, refl, refl, room (order_of size) size (omega arith))
