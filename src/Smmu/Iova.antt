-- ===== src/Smmu/Iova.antt =====
-- What pal_smmu_check_device_iova finds.
use linux_acs.Prelude.{
  ℕ, ◌+◌, ◌≤◌, ◌<◌, ◌≡◌, ◌≢◌, ◌↔◌, ◌⊎◌, refl, true, false, some, List, [], ◌∷◌, inl, inr, u64, ◌==◌,
  Bool-cases, arith,
}
use linux_acs.Smmu.{
  Range, success, skip, Device, check_dev_attach, hits, used_loop, active_loop, check_device_iova,
}

-- An address of the range.
pub record In (addr : ℕ) (r : Range) : Type 0 where
  pub above : r.base ≤ addr
  pub below : addr < u64 (r.base + r.size)

-- A list has a range with the address.
pub data Listed (addr : ℕ) : List Range → Type 0 where
  first : {r : Range} {rs : List Range} → In addr r → Listed addr (r ∷ rs)
  later : {r : Range} {rs : List Range} → Listed addr rs → Listed addr (r ∷ rs)

-- The same in front of the first empty range.
pub data Used (addr : ℕ) : List Range → Type 0 where
  used_first : {r : Range} {rs : List Range} → r.size ≢ 0 → In addr r → Used addr (r ∷ rs)
  used_later : {r : Range} {rs : List Range} → r.size ≢ 0 → Used addr rs → Used addr (r ∷ rs)

covers_iff : (addr : ℕ) (r : Range) → (hits addr r ≡ true) ↔ In addr r
unfolding hits
covers_iff addr r = (λ h. record { above = ground arith; below = ground arith }, λ i. ground arith)

active_loop_found : (addr : ℕ) (rs : List Range) → active_loop addr rs ≡ true → Listed addr rs
unfolding active_loop
active_loop_found addr [] h = absurd (cc)
active_loop_found addr (r ∷ rs) h = elim (Bool-cases (hits addr r)) [
  | inl c ↦ first ((covers_iff addr r).0 c)
  | inr c ↦ later (active_loop_found addr rs (rw c at h))
]

Listed-active_loop : (addr : ℕ) (rs : List Range) → Listed addr rs → active_loop addr rs ≡ true
unfolding active_loop
Listed-active_loop addr [] l = elim l [ ]
Listed-active_loop addr (r ∷ rs) (first i) = rw ((covers_iff addr r).1 i) refl
Listed-active_loop addr (r ∷ rs) (later l) = elim (Bool-cases (hits addr r)) [
  | inl c ↦ rw c refl
  | inr c ↦ rw c (Listed-active_loop addr rs l)
]

used_loop_found : (addr : ℕ) (rs : List Range) → used_loop addr rs ≡ true → Used addr rs
unfolding used_loop
used_loop_found addr [] h = absurd (cc)
used_loop_found addr (r ∷ rs) h = elim (Bool-cases (r.size == 0)) [
  | inl z ↦ absurd (ground arith)
  | inr z ↦ elim (Bool-cases (hits addr r)) [
    | inl c ↦ used_first (ground arith) ((covers_iff addr r).0 c)
    | inr c ↦ used_later (ground arith) (used_loop_found addr rs (rw (z, c) at h))
  ]
]

Used-used_loop : (addr : ℕ) (rs : List Range) → Used addr rs → used_loop addr rs ≡ true
unfolding used_loop
Used-used_loop addr [] l = elim l [ ]
Used-used_loop addr (r ∷ rs) (used_first n i) = let c = (covers_iff addr r).1 i in ground arith
Used-used_loop addr (r ∷ rs) (used_later n l) = let h = Used-used_loop addr rs l in ground arith

-- For a port with a device, pal_smmu_check_device_iova answers success just where the device is
-- attached to an SMMU and the address lies in one of the ranges that were used last, up to the
-- first empty one, or in one of the active ranges of the device; it answers skip just where the
-- device is not attached, and an error else.
pub check_device_iova_iff :
    (used : List Range) (d : Device) (addr : ℕ)
    → ((check_device_iova used (some d) addr ≡ success)
        ↔ ((d.has_domain ≡ true) × (Used addr used ⊎ Listed addr d.active)))
      × ((check_device_iova used (some d) addr ≡ skip) ↔ (d.has_domain ≡ false))
unfolding check_device_iova check_dev_attach
check_device_iova_iff used d addr = (
  (
    (λ h. (
      ground arith,
      elim (Bool-cases (used_loop addr used)) [
        | inl u ↦ inl (used_loop_found addr used u)
        | inr u ↦ inr (active_loop_found addr d.active (ground arith))
      ],
    )),
    (λ (a, l). elim l [
      | inl u ↦ (let t = Used-used_loop addr used u in ground arith)
      | inr x ↦ (let t = Listed-active_loop addr d.active x in ground arith)
    ]),
  ),
  ((λ h. ground arith), (λ h. ground arith)),
)
