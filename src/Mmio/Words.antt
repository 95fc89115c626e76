-- ===== src/Mmio/Words.antt =====
-- Words in a memory of bytes, the lowest byte first: how the accesses of the kernel see a device.
use linux_acs.Prelude.{
  ℕ, zero, suc, ◌+◌, ◌*◌, ◌/◌, ◌%◌, ◌^◌, ◌≤◌, ◌<◌, ◌≡◌, refl, ap, sym, ◌∙◌, arith, ◌==◌,
  if◌then◌else◌, ◌⊎◌, inl,
}
use native.Mathlib.Nat.{
  pow-suc, mod-lt, div-add-mod', mul_assoc, add-mul-mod_self_right, mod-eq_of_lt,
}

-- The bytes by physical address.
abbrev pub Bytes : Type 0
Bytes = ℕ → ℕ

-- The word of `k` bytes at `a`, and the memory after `v` was written there.
unfoldable pub word : ℕ → Bytes → ℕ → ℕ
word zero b a = 0
word (suc k) b a = b a % 256 + word k b (suc a) * 256

unfoldable pub put : ℕ → ℕ → ℕ → Bytes → Bytes
put zero v a b x = b x
put (suc k) v a b x = if x == a then v % 256 else put k (v / 256) (suc a) b x

-- Bytes that are the same give the same word.
pub word-agree :
    (k a : ℕ) (b c : Bytes) → ((x : ℕ) → a ≤ x → x < a + k → b x ≡ c x) → word k b a ≡ word k c a
unfolding word
word-agree zero a b c h = refl
word-agree (suc k) a b c h =
    let rest = word-agree k (suc a) b c (λ x p q. h x (omega arith) (omega arith)) in
    rw (h a (omega arith) (omega arith), rest) refl

-- A write changes nothing outside of its word, ...
pub put-outside : (k v a : ℕ) (b : Bytes) (x : ℕ) → (x < a) ⊎ (a + k ≤ x) → put k v a b x ≡ b x
unfolding put
put-outside zero v a b x h = refl
put-outside (suc k) v a b x h = ground (arith, put-outside k (v / 256) (suc a) b x)

-- ... so words that do not overlap stay.
pub word-put_apart :
    (j k v a c : ℕ) (b : Bytes) → (c + j ≤ a) ⊎ (a + k ≤ c) → word j (put k v a b) c ≡ word j b c
word-put_apart j k v a c b h =
    word-agree j c (put k v a b) b (λ x p q. put-outside k v a b x (ground arith))

byte_pow : (k : ℕ) → 0 < 256 ^ k
byte_pow zero = omega arith
byte_pow (suc k) = omega (arith, byte_pow k, pow-suc 256 k)

mod-pow : (k v : ℕ) → v % 256 ^ suc k ≡ v % 256 + v / 256 % 256 ^ k * 256
mod-pow k v =
    let n = 256 ^ k in
    let low = v / 256 % n * 256 + v % 256 in
    let small : v / 256 % n < n = mod-lt (v / 256) (byte_pow k) in
    let parts : v ≡ low + v / 256 / n * (n * 256) =
      omega (arith, div-add-mod' (v / 256) n, div-add-mod' v 256, mul_assoc (v / 256 / n) n 256) in
    let rest : (low + v / 256 / n * (n * 256)) % (n * 256) ≡ low =
      add-mul-mod_self_right low (v / 256 / n) (n * 256) ∙ mod-eq_of_lt (omega arith) in
    omega (arith, ap (λ (x : ℕ). v % x) (pow-suc 256 k), ap (λ (x : ℕ). x % (n * 256)) parts, rest)

pub word-lt : (k a : ℕ) (b : Bytes) → word k b a < 256 ^ k
unfolding word
word-lt zero a b = omega arith
word-lt (suc k) a b = omega (arith, word-lt k (suc a) b, pow-suc 256 k)

-- The low bytes of a write are read back.
pub word-put_low : (j k v a : ℕ) (b : Bytes) → j ≤ k → word j (put k v a b) a ≡ v % 256 ^ j
unfolding word put
word-put_low zero k v a b h = omega arith
word-put_low (suc j) zero v a b h = absurd (omega arith)
word-put_low (suc j) (suc k) v a b h =
    let rest = word-put_low j k (v / 256) (suc a) b (omega arith) in
    let same =
      word-agree j (suc a) (put (suc k) v a b) (put k (v / 256) (suc a) b)
        (λ x p q. ground arith) in
    let first : put (suc k) v a b a ≡ v % 256 = ground arith in
    omega (arith, mod-pow j v, rest, same, first)

-- A word is its first bytes and the others.
pub word-append :
    (j k a : ℕ) (b : Bytes) → word (j + k) b a ≡ word j b a + word k b (a + j) * 256 ^ j
unfolding word
word-append zero k a b =
    let e : 0 + k ≡ k = omega arith in
    let f : a + 0 ≡ a = omega arith in
    omega (arith, ap (λ (n : ℕ). word n b a) e, ap (λ (c : ℕ). word k b c) f)
word-append (suc j) k a b =
    let n = 256 ^ j in
    let e : suc a + j ≡ a + suc j = omega arith in
    let f : suc j + k ≡ suc (j + k) = omega arith in
    let high = word k b (a + suc j) in
    let rest : word (j + k) b (suc a) ≡ word j b (suc a) + high * n =
      word-append j k (suc a) b ∙ ap (λ (c : ℕ). word j b (suc a) + word k b c * n) e in
    omega (
      arith,
      ap (λ (m : ℕ). word m b a) f,
      rest,
      mul_assoc high n 256,
      ap (λ (x : ℕ). high * x) (pow-suc 256 j),
    )

-- The first bytes are the remainder.
pub word-mod : (j k a : ℕ) (b : Bytes) → word j b a ≡ word (j + k) b a % 256 ^ j
word-mod j k a b =
    let n = 256 ^ j in
    let high = word k b (a + j) in
    sym (
      ap (λ (x : ℕ). x % n) (word-append j k a b)
      ∙ add-mul-mod_self_right (word j b a) high n
      ∙ mod-eq_of_lt (word-lt j a b))

-- What a write at `x`, `r` bytes behind `a`, makes of the word at `a`.
pub word-put_behind :
    (n r j v a x : ℕ) (b : Bytes)
    → n ≡ r + j
    → x ≡ a + r
    → word n (put n v x b) a ≡ word n b a % 256 ^ r + v % 256 ^ j * 256 ^ r
word-put_behind n r j v a x b e f =
    let n' = r + j in
    let c = put n' v (a + r) b in
    let low : word r c a ≡ word n' b a % 256 ^ r =
      word-put_apart r n' v (a + r) a b (inl (omega arith)) ∙ word-mod r j a b in
    let high : word j c (a + r) ≡ v % 256 ^ j = word-put_low j n' v (a + r) b (omega arith) in
    rw (e, f) (word-append r j a c ∙ rw (low, high) refl)
