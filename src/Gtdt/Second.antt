-- ===== src/Gtdt/Second.antt =====
-- The timer that pal_configure_second_interrupt chooses.
use linux_acs.Prelude.{
  List, [], ◌∷◌, ◌>>=◌, ◌/◌, ◌%◌, ◌^◌, ℕ, zero, suc, ◌≡◌, ◌≤◌, ◌<◌, refl, subst, Option, none, some,
  arith, ◌==◌, Bool-cases, inl, inr,
}
use linux_acs.Gtdt.{
  GtTimer, GtBlock, locate, get_entry_index, TimerTable, InfoType, is_secure, sys_intid, read_info,
  timer_at, timer_get_info, search_ns, configure_second_interrupt,
}
use linux_acs.Gtdt.Fill.{total}
use linux_acs.Gtdt.Index.{slot, get_entry_index-slot}

-- The slot that is read for the number of a timer: for number 0 the first one, and for a later
-- number the one behind the slot of the timer before it, in the same block, which is not that of the
-- timer itself.
abbrev pub read_slot : List GtBlock → ℕ → Option (ℕ × ℕ)
read_slot gs zero = some (0, 0)
read_slot gs (suc i) = slot gs 0 i >>= λ p. some (p.0, suc p.1)

-- A number whose read slot holds a timer that is secure, bit 16 of its flags, and one whose read slot
-- holds one that is not; and the interrupt in the read slot.
abbrev pub SlotIs : TimerTable → ℕ → (GtTimer → Type 0) → Type 0
SlotIs t k is = (p : ℕ × ℕ) × (read_slot t.gt_info k ≡ some p) × is (timer_at t p)

abbrev pub IsSecure : TimerTable → ℕ → Type 0
IsSecure t k = SlotIs t k λ g. g.flags / 2 ^ 16 % 2 ≡ 1

abbrev pub IsNonSecure : ℕ → TimerTable → ℕ → Type 0
IsNonSecure int_id t k = SlotIs t k λ g. (g.flags / 2 ^ 16 % 2 ≡ 0) × (g.gsiv ≡ int_id)

-- The choice among the numbers below `n`: the highest one whose read slot is not secure, with the
-- interrupt there; an error if those of all numbers are secure.
abbrev pub Chosen : TimerTable → ℕ → Option (ℕ × ℕ) → Type 0
Chosen t n none = (k : ℕ) → k < n → IsSecure t k
Chosen t n (some (index, int_id)) =
    (index < n) × IsNonSecure int_id t index × ((k : ℕ) → index < k → k < n → IsSecure t k)

-- Bit 16, as the code takes it.
secure_bit : (g : GtTimer) → read_info is_secure g ≡ g.flags / 2 ^ 16 % 2
secure_bit g = omega arith

locate_first : (gs : List GtBlock) → locate gs 0 0 ≡ some (0, 0)
unfolding locate
locate_first [] = refl
locate_first (g ∷ gs) = ground arith

first_entry : (t : TimerTable) → get_entry_index t 0 ≡ some (some (0, 0))
unfolding get_entry_index
first_entry t = ground (arith, locate_first t.gt_info)

module _ (t : TimerTable) (counted : t.num_platform_timer ≡ total t.gt_info) where
  index_read :
      (k : ℕ)
      → k < t.num_platform_timer
      → (p : ℕ × ℕ) × (read_slot t.gt_info k ≡ some p) × (get_entry_index t k ≡ some (some p))
  index_read zero h = ((0, 0), refl, first_entry t)
  index_read (suc i) h =
      let (b, j, p, q) = get_entry_index-slot t i counted (omega arith) in
      ((b, suc j), rw p refl, q)

  info_read :
      (k : ℕ)
      → k < t.num_platform_timer
      → (p : ℕ × ℕ) × (read_slot t.gt_info k ≡ some p)
        × ((ty : InfoType) → timer_get_info (some t) ty k ≡ some (read_info ty (timer_at t p)))
  unfolding timer_get_info
  info_read k h = let (p, r, e) = index_read k h in (p, r, λ ty. rw e refl)

  IsSecure-suc : (n k : ℕ) → k < suc n → IsSecure t n → (k < n → IsSecure t k) → IsSecure t k
  IsSecure-suc n k h s below = elim (Bool-cases (k == n)) [
    | inl e ↦ let e' : n ≡ k = ground arith in subst (IsSecure t) e' s
    | inr e ↦ below (ground arith)
  ]

  Chosen-suc : (n : ℕ) (r : Option (ℕ × ℕ)) → IsSecure t n → Chosen t n r → Chosen t (suc n) r
  Chosen-suc n none s c = λ k h. IsSecure-suc n k h s (c k)
  Chosen-suc n (some (i, d)) s c =
      (omega arith, c.1, λ k above h. IsSecure-suc n k h s (c.2 k above))

  search_ns-Chosen :
      (n : ℕ)
      → n ≤ t.num_platform_timer
      → (r : Option (ℕ × ℕ)) × (search_ns t n ≡ some r) × Chosen t n r
  unfolding search_ns
  search_ns-Chosen zero h = (none, refl, λ k lt. absurd (omega arith))
  search_ns-Chosen (suc n) h =
      let (p, read, found) = info_read n h in
      let flag : ℕ = read_info is_secure (timer_at t p) in
      let same : flag ≡ (timer_at t p).flags / 2 ^ 16 % 2 = secure_bit (timer_at t p) in
      let (r, rest, c) = search_ns-Chosen n (omega arith) in
      elim (Bool-cases (flag == 0)) [
        | inl ns ↦ (
          some (n, read_info sys_intid (timer_at t p)),
          rw (found is_secure, ns, found sys_intid) refl,
          (
            omega arith,
            (p, read, (ground (arith, same), refl)),
            λ k above below. absurd (omega arith),
          ),
        )
        | inr sec ↦
            (r, rw (found is_secure, sec) rest, Chosen-suc n r (p, read, ground (arith, same)) c)
      ]

  -- In a table whose count is the sum of its blocks, pal_configure_second_interrupt always ends: it
  -- chooses the highest number whose read slot holds a timer that is not secure, with the interrupt
  -- in that slot, and reports an error exactly when the read slots of all numbers hold secure ones.
  -- The read slot of a number is the first one for number 0, and for any other number the one behind
  -- the slot of the timer before it, in the same block.
  pub configure_second_interrupt-Chosen :
      (r : Option (ℕ × ℕ)) × (configure_second_interrupt t ≡ some r)
      × Chosen t t.num_platform_timer r
  unfolding configure_second_interrupt
  configure_second_interrupt-Chosen = search_ns-Chosen t.num_platform_timer (omega arith)
