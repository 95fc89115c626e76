-- ===== src/Prelude/Partial.antt =====
-- Chains of steps that may fault: `none` is a step that the program must not take, such as a read
-- outside of what was stored.
use mathlib.Core.Path.{◌≡◌, refl}
use mathlib.Core.Option.{Option, none, some}

infixl 5 ◌>>=◌
abbrev pub ◌>>=◌ {ℓ κ} : {A : Type ℓ} {B : Type κ} → Option A → (A → Option B) → Option B
none >>= f = none
some a >>= f = f a

-- What came before a chain that ended well.
pub >>=-eq-some {ℓ κ} :
    {A : Type ℓ} {B : Type κ} (m : Option A) (f : A → Option B) {b : B}
    → (m >>= f) ≡ some b
    → (a : A) × (m ≡ some a) × (f a ≡ some b)
>>=-eq-some none f h = cc
>>=-eq-some (some a) f h = (a, refl, h)

-- A property of the result, if there is one.
pub data Ensures {ℓ κ} {A : Type ℓ} (P : A → Type κ) : Option A → Type (ℓ ⊔ κ) where
  faults : Ensures P none
  holds : {a : A} → P a → Ensures P (some a)

module _ {ℓ κ} {A : Type ℓ} {P : A → Type κ} where
  pub bind-Ensures {μ ν} :
      {B : Type μ} {Q : B → Type ν} {m : Option A} {f : A → Option B}
      → Ensures P m
      → ((a : A) → P a → Ensures Q (f a))
      → Ensures Q (m >>= f)
  bind-Ensures faults next = faults
  bind-Ensures (holds p) next = next _ p

  out : {a : A} → Ensures P (some a) → P a
  out (holds p) = p

  pub of_Ensures : {m : Option A} {a : A} → Ensures P m → m ≡ some a → P a
  of_Ensures h e = out (rw e at h)

-- What holds of any result.
pub any-Ensures {ℓ} : {A : Type ℓ} (m : Option A) → Ensures (λ (a : A). Unit {0}) m
any-Ensures none = faults
any-Ensures (some a) = holds tt

-- A result there is, with a property.
pub data Yields {ℓ κ} {A : Type ℓ} (P : A → Type κ) : Option A → Type (ℓ ⊔ κ) where
  yields : {a : A} → P a → Yields P (some a)

module _ {ℓ κ} {A : Type ℓ} {P : A → Type κ} where
  pub bind-Yields {μ ν} :
      {B : Type μ} {Q : B → Type ν} {m : Option A} {f : A → Option B}
      → Yields P m
      → ((a : A) → P a → Yields Q (f a))
      → Yields Q (m >>= f)
  bind-Yields (yields p) next = next _ p

  pub weaken-Yields {ν} :
      {Q : A → Type ν} {m : Option A} → Yields P m → ((a : A) → P a → Q a) → Yields Q m
  weaken-Yields (yields p) f = yields (f _ p)

  pub of_Yields : {m : Option A} → Yields P m → (a : A) × (m ≡ some a) × P a
  of_Yields (yields p) = (_, refl, p)

  pub Yields-≡ : {m : Option A} {a : A} → m ≡ some a → P a → Yields P m
  Yields-≡ e p = rw e (yields p)
