-- ===== src/Prelude/Digits.antt =====
-- The digit recursion that the native `&` and `|` stand for, for any operation on two digits.
use Prim.Native.Nat.{ℕ, zero, suc, ◌+◌, ◌-◌, ◌*◌, ◌/◌, ◌%◌, ◌≤◌, digits, bitwise}
use mathlib.Core.Path.{◌≡◌, refl, ap, ◌∙◌}
use native.Mathlib.Omega.{arith}

module _ (z : ℕ → ℕ) (f : ℕ → ℕ → ℕ) where
  -- One digit of fuel more than the first number needs changes nothing, ...
  one_more_digit : (n a b : ℕ) → a ≤ n → digits z f (suc n) a b ≡ digits z f n a b
  one_more_digit n zero b h = at_zero n
    where
      at_zero : (n : ℕ) → digits z f (suc n) zero b ≡ digits z f n zero b
      at_zero zero = refl
      at_zero (suc n) = refl
  one_more_digit zero (suc a) b h = absurd (omega arith)
  one_more_digit (suc n) (suc a) b h =
      ap (λ (t : ℕ). t * 2 + f (suc a % 2) (b % 2))
        (one_more_digit n (suc a / 2) (b / 2) (omega arith))

  -- ... and so do any number.
  spare_digits : (d a b : ℕ) → digits z f (d + a) a b ≡ digits z f a a b
  spare_digits zero a b = let e : 0 + a ≡ a = omega arith in ap (λ (n : ℕ). digits z f n a b) e
  spare_digits (suc d) a b =
      let e : suc d + a ≡ suc (d + a) = omega arith in
      ap (λ (n : ℕ). digits z f n a b) e
      ∙ one_more_digit (d + a) a b (omega arith)
      ∙ spare_digits d a b

  -- The law of the lowest digit, if it holds where the first number has no digits left.
  pub bitwise_step :
      ((b : ℕ) → z b ≡ z (b / 2) * 2 + f 0 (b % 2))
      → (a b : ℕ) → bitwise z f a b ≡ bitwise z f (a / 2) (b / 2) * 2 + f (a % 2) (b % 2)
  bitwise_step h zero b = h b
  bitwise_step h (suc a) b =
      let half = suc a / 2 in
      let e : a ≡ a - half + half = omega arith in
      ap (λ (t : ℕ). t * 2 + f (suc a % 2) (b % 2))
        (ap (λ (n : ℕ). digits z f n half (b / 2)) e ∙ spare_digits (a - half) half (b / 2))
