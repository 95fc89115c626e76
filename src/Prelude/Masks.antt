-- ===== src/Prelude/Masks.antt =====
-- `&` on native numbers: the law of the lowest digit, and masks of consecutive bits.
use Prim.Native.Nat.{ℕ, zero, suc, ◌+◌, ◌-◌, ◌*◌, ◌/◌, ◌%◌, ◌^◌, ◌≤◌, ◌<◌, min}
use Prim.Native.Nat.{bit_and, digits, bit_and-bitwise}
use linux_acs.Prelude.Digits.{bitwise_step}
use linux_acs.Prelude.Words.{mul-pow-suc}
use mathlib.Core.Path.{◌≡◌, refl, sym, ap, subst, ◌∙◌}
use native.Mathlib.Nat.{pow-suc, div-add-mod', mod-lt, div-div-eq-div-mul}
use native.Mathlib.Omega.{arith}

pub bit_and_step : (a b : ℕ) → bit_and a b ≡ bit_and (a / 2) (b / 2) * 2 + min (a % 2) (b % 2)
bit_and_step a b =
    let step = bitwise_step (λ y. 0) min (λ y. omega arith) a b in
    omega (arith, step, bit_and-bitwise a b, bit_and-bitwise (a / 2) (b / 2))

-- No digit of 0 is set.
no_digits : (n a : ℕ) → digits (λ y. 0) min n a 0 ≡ 0
no_digits zero a = refl
no_digits (suc n) zero = refl
no_digits (suc n) (suc a) = omega (arith, no_digits n (suc a / 2))

pub bit_and-zero : (a : ℕ) → bit_and a 0 ≡ 0
bit_and-zero a = omega (arith, bit_and-bitwise a 0, no_digits a a)

zero-bit_and : (b : ℕ) → bit_and 0 b ≡ 0
zero-bit_and b = bit_and-bitwise 0 b

-- The same for numbers given by their halves and lowest digits.
pub bit_and_digits :
    (a b a' b' s t : ℕ)
    → a ≡ a' * 2 + s
    → b ≡ b' * 2 + t
    → s < 2
    → t < 2
    → bit_and a b ≡ bit_and a' b' * 2 + min s t
bit_and_digits a b a' b' s t e f p q =
    let low : (a / 2 ≡ a') × (b / 2 ≡ b') × (a % 2 ≡ s) × (b % 2 ≡ t) =
      (omega arith, omega arith, omega arith, omega arith) in
    rw (bit_and_step a b, low.0, low.1, low.2, low.3) refl

pub one_le_pow : (k : ℕ) → 1 ≤ 2 ^ k
one_le_pow zero = omega arith
one_le_pow (suc k) = omega (arith, one_le_pow k, pow-suc 2 k)

-- `&` with a mask of w ones.
pub bit_and-ones : (w x : ℕ) → x < 2 ^ w → bit_and x (2 ^ w - 1) ≡ x
bit_and-ones zero x h = ground (arith, zero-bit_and 0)
bit_and-ones (suc w) x h =
    let two = pow-suc 2 w in
    let pos = one_le_pow w in
    let step =
      bit_and_digits x (2 ^ suc w - 1) (x / 2) (2 ^ w - 1) (x % 2) 1 (omega arith) (omega arith)
        (omega arith) (omega arith) in
    omega (arith, step, bit_and-ones w (x / 2) (omega arith))

-- The same of a number with bits above the mask.
pub bit_and-low : (w q r : ℕ) → r < 2 ^ w → bit_and (q * 2 ^ w + r) (2 ^ w - 1) ≡ r
bit_and-low zero q r h = ground (arith, bit_and-zero (q * 2 ^ 0 + r))
bit_and-low (suc w) q r h =
    let two = pow-suc 2 w in
    let pos = one_le_pow w in
    let double = mul-pow-suc q w in
    let step =
      bit_and_digits (q * 2 ^ suc w + r) (2 ^ suc w - 1) (q * 2 ^ w + r / 2) (2 ^ w - 1) (r % 2) 1
        (omega arith) (omega arith) (omega arith) (omega arith) in
    omega (arith, step, bit_and-low w q (r / 2) (omega arith))

pub bit_and-mod : (w x : ℕ) → bit_and x (2 ^ w - 1) ≡ x % 2 ^ w
bit_and-mod w x =
    let whole = div-add-mod' x (2 ^ w) in
    let pos = one_le_pow w in
    let low = bit_and-low w (x / 2 ^ w) (x % 2 ^ w) (mod-lt x (omega arith)) in
    subst (λ y. bit_and y (2 ^ w - 1) ≡ x % 2 ^ w) whole low

-- A mask that is shifted by k.
pub bit_and-shl : (k x m : ℕ) → bit_and x (m * 2 ^ k) ≡ bit_and (x / 2 ^ k) m * 2 ^ k
bit_and-shl zero x m =
    let div_one : x / 2 ^ 0 ≡ x = omega arith in
    let mul_one : m * 2 ^ 0 ≡ m = omega arith in rw (div_one, mul_one) (omega arith)
bit_and-shl (suc k) x m =
    let two = pow-suc 2 k in
    let double = mul-pow-suc m k in
    let double' = mul-pow-suc (bit_and (x / 2 / 2 ^ k) m) k in
    let halves : x / 2 ^ suc k ≡ x / 2 / 2 ^ k =
      ap (λ (t : ℕ). x / t) (omega arith) ∙ sym (div-div-eq-div-mul x 2 (2 ^ k)) in
    let step =
      bit_and_digits x (m * 2 ^ suc k) (x / 2) (m * 2 ^ k) (x % 2) 0 (omega arith) (omega arith)
        (omega arith) (omega arith) in
    rw halves (omega (arith, step, bit_and-shl k (x / 2) m))

-- `&` with w ones above k zeros drops the low k bits.
pub bit_and-high :
    (k w q r : ℕ)
    → r < 2 ^ k
    → q * 2 ^ k + r < 2 ^ w
    → k ≤ w
    → bit_and (q * 2 ^ k + r) (2 ^ w - 2 ^ k) ≡ q * 2 ^ k
bit_and-high zero w q r h lt le = omega (arith, bit_and-ones w (q * 2 ^ 0 + r) lt)
bit_and-high (suc k) zero q r h lt le = absurd (omega arith)
bit_and-high (suc k) (suc w) q r h lt le =
    let two = pow-suc 2 k in
    let two' = pow-suc 2 w in
    let double = mul-pow-suc q k in
    let step =
      bit_and_digits (q * 2 ^ suc k + r) (2 ^ suc w - 2 ^ suc k) (q * 2 ^ k + r / 2) (2 ^ w - 2 ^ k)
        (r % 2) 0 (omega arith) (omega arith) (omega arith) (omega arith) in
    omega (arith, step, bit_and-high k w q (r / 2) (omega arith) (omega arith) (omega arith))
