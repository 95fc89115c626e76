-- ===== src/Prelude/Words.antt =====
-- Machine words as native numbers: shifts, masks, wrap-around, and `|` of disjoint bit fields.
use Prim.Native.Nat.{ℕ, zero, suc, ◌+◌, ◌*◌, ◌/◌, ◌%◌, ◌^◌, ◌≤◌, ◌<◌, max}
use Prim.Native.Nat.{bit_or, bit_or-bitwise}
use linux_acs.Prelude.Digits.{bitwise_step}
use mathlib.Core.Path.{◌≡◌, refl, ap}
use native.Mathlib.Nat.{pow-suc}
use native.Mathlib.Omega.{arith}

-- x >> k, x << k (before truncation) and x & (2^k - 1).
abbrev pub shr : ℕ → ℕ → ℕ
shr x k = x / 2 ^ k

abbrev pub shl : ℕ → ℕ → ℕ
shl x k = x * 2 ^ k

abbrev pub low_bits : ℕ → ℕ → ℕ
low_bits x k = x % 2 ^ k

-- Truncation to uint8_t, uint32_t and uint64_t.
abbrev pub u8 : ℕ → ℕ
u8 x = x % 2 ^ 8

abbrev pub u32 : ℕ → ℕ
u32 x = x % 2 ^ 32

abbrev pub u64 : ℕ → ℕ
u64 x = x % 2 ^ 64

-- The law of the lowest digit.
pub bit_or_step : (a b : ℕ) → bit_or a b ≡ bit_or (a / 2) (b / 2) * 2 + max (a % 2) (b % 2)
bit_or_step a b =
    let step = bitwise_step (λ y. y) max (λ y. omega arith) a b in
    omega (arith, step, bit_or-bitwise a b, bit_or-bitwise (a / 2) (b / 2))

bit_or-zero_fuel : (n a : ℕ) → a ≤ n → bit_or a 0 ≡ a
bit_or-zero_fuel n zero h = refl
bit_or-zero_fuel zero (suc a) h = absurd (omega arith)
bit_or-zero_fuel (suc n) (suc a) h =
    omega (arith, bit_or_step (suc a) 0, bit_or-zero_fuel n (suc a / 2) (omega arith))

pub bit_or-zero : (a : ℕ) → bit_or a 0 ≡ a
bit_or-zero a = bit_or-zero_fuel a a (omega arith)

pub mul-pow-suc : (q k : ℕ) → q * 2 ^ suc k ≡ 2 * (q * 2 ^ k)
mul-pow-suc q k = omega (arith, ap (λ (t : ℕ). q * t) (pow-suc 2 k))

-- `|` of a value shifted left by k and a value of k bits is their sum.
pub bit_or-shl : (k hi lo : ℕ) → lo < 2 ^ k → bit_or (shl hi k) lo ≡ hi * 2 ^ k + lo
bit_or-shl zero hi lo fits = ground (arith, bit_or-zero hi)
bit_or-shl (suc k) hi lo fits = ground (
  arith,
  bit_or_step (hi * 2 ^ suc k) lo,
  mul-pow-suc hi k,
  bit_or-shl k hi (lo / 2) (omega arith),
)
