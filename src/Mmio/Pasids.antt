-- ===== src/Mmio/Pasids.antt =====
-- pal_smmu_max_pasids of bsa-acs-drv/files/platform/pal_linux/files/src/pal_smmu.c.
use linux_acs.Prelude.{
  ℕ, ◌+◌, ◌*◌, ◌/◌, ◌%◌, ◌^◌, ◌≤◌, ◌<◌, ◌≡◌, refl, ap, sym, ◌∙◌, true, Option, some, ◌>>=◌, Yields,
  yields, bind-Yields, arith, bit_and, bit_and-mod, shr, u32, u64, ◌==◌, if◌then◌else◌, Bool-cases,
  inl, inr,
}
use linux_acs.Mmio.{Io}
use linux_acs.Mmio.Words.{word}
use native.Mathlib.Nat.{pow-le-pow_right}
use linux_acs.Mmio.Device.{Device, Gives}
use linux_acs.Mmio.Bsa.{bsa_mmio_read}
use linux_acs.Mmio.Access.{w32, bytes, read_address, read-Gives}
use linux_acs.Mmio.Halves.{bsa_read, bsa_read-read}

module _ (io : Io) where
  open io use {State}

  -- SMMU_V3_IDR1, its shift and its mask; `1 << pasid_bits` in an int of which the caller gets the
  -- 32-bit word.
  unfoldable pub max_pasids : ℕ → State → Option (ℕ × State)
  max_pasids smmu_base s = bsa_mmio_read io (u64 (smmu_base + 0x4)) s >>= λ r.
      let pasid_bits = bit_and (shr r.0 6) 0x1f in
      some (if pasid_bits == 0 then 0 else u32 (2 ^ pasid_bits), r.1)

answer_lt : (bits : ℕ) → bits < 32 → (if bits == 0 then 0 else 2 ^ bits) < 2 ^ 32
answer_lt bits h =
    let low : 2 ^ bits ≤ 2 ^ 31 = pow-le-pow_right (omega arith) {j = 31} (omega arith) in
    elim (Bool-cases (bits == 0)) [ inl e ↦ rw e (omega arith) | inr e ↦ rw e (omega arith) ]

answer_same :
    (bits : ℕ)
    → bits < 32
    → (if bits == 0 then 0 else u32 (2 ^ bits)) ≡ (if bits == 0 then 0 else 2 ^ bits)
answer_same bits h =
    let low : 2 ^ bits ≤ 2 ^ 31 = pow-le-pow_right (omega arith) {j = 31} (omega arith) in
    let whole : 2 ^ bits % 2 ^ 32 ≡ 2 ^ bits = omega arith in rw whole refl

module _ (io : Io) (dev : Device io) where
  open io use {State}
  open dev use {remappable, memory, held}

  -- For an SMMU base that is a multiple of four and below 2^64 - 4, with a mapping granted four bytes
  -- above it, the number is 2 to the power of bits 6 to 10 of the register there, or 0 where these
  -- bits are zero, and it fits 32 bits; memory and mappings stay.
  pub max_pasids-field :
      (base : ℕ) (s : State)
      → base % 4 ≡ 0
      → base + 4 < 2 ^ 64
      → remappable (base + 4) ≡ true
      → Yields
          (λ r.
            (let bits = word 4 (memory s) (base + 4) / 2 ^ 6 % 2 ^ 5 in
              r.0 ≡ (if bits == 0 then 0 else 2 ^ bits))
            × (r.0 < 2 ^ 32)
            × (memory r.1 ≡ memory s)
            × (held r.1 ≡ held s))
          (max_pasids io base s)
  unfolding max_pasids bsa_read bytes read_address
  max_pasids-field base s whole h ok =
      let e : u64 (base + 4) ≡ base + 4 = omega arith in
      let down : (base + 4) / 4 * 4 ≡ base + 4 = omega arith in
      let start = read-Gives io dev w32 (base + 4) s h (ap remappable down ∙ ok) in
      let first : Yields (Gives io dev (word 4 (memory s) (base + 4)) s)
          (bsa_mmio_read io (base + 4) s) =
        rw (sym (bsa_read-read io w32), down) at start in
      rw e (
        bind-Yields first λ x g.
          let bits = word 4 (memory s) (base + 4) / 2 ^ 6 % 2 ^ 5 in
          let small : bits < 32 = omega arith in
          let mask = bit_and-mod 5 (word 4 (memory s) (base + 4) / 2 ^ 6) in
          rw (g.value_same, mask, answer_same bits small)
            (yields (refl, answer_lt bits small, g.memory_same, g.held_same)))
