-- ===== src/Driver/Slots.antt =====
-- Allocations of the kernel heap that may fail, in the order they were made.
use linux_acs.Prelude.{
  if◌then◌else◌, Option, ℕ, ◌+◌, ◌≡◌, ◌<◌, ◌≤◌, refl, Bool, true, false, ◌||◌, none, some, List, [],
  ◌∷◌, arith, All, ◌>>=◌,
}
use linux_acs.Driver.{Heap, kmalloc, remove, kfree}

-- Addresses are positive, and those in use were given out.
pub record IsHeap (h : Heap) : Type 0 where
  pub positive : 0 < h.next
  pub below : All (λ (a : ℕ). a < h.next) h.live

remove-fresh : (a n : ℕ) (xs : List ℕ) → n ≤ a → All (λ x. x < n) xs → remove a xs ≡ none
unfolding remove
remove-fresh a n [] h p = refl
remove-fresh a n (x ∷ xs) h p = ground (arith, remove-fresh a n xs h p.1)

-- What kmalloc returns where the next address is `n`, the next address after it, and the
-- allocations after it.
abbrev pub addr : Bool → ℕ → ℕ
addr true n = n
addr false n = 0

abbrev pub past : Bool → ℕ → ℕ
past true n = n + 1
past false n = n

abbrev pub slot : Bool → ℕ → List ℕ → List ℕ
slot true n xs = n ∷ xs
slot false n xs = xs

pub past-≤ : (b : Bool) (n : ℕ) → n ≤ past b n
past-≤ true n = omega arith
past-≤ false n = omega arith

pub kmalloc-slot :
    (b : Bool) (n : ℕ) (xs : List ℕ)
    → kmalloc b (record { next = n; live = xs })
      ≡ (addr b n, record { next = past b n; live = slot b n xs })
unfolding kmalloc
kmalloc-slot true n xs = refl
kmalloc-slot false n xs = refl

-- Allocations, the latest first.
abbrev pub slots : List (Bool × ℕ) → List ℕ → List ℕ
slots [] xs = xs
slots ((b, n) ∷ cs) xs = slot b n (slots cs xs)

remove-slots :
    (n : ℕ) (cs : List (Bool × ℕ)) (xs : List ℕ)
    → All (λ (c : Bool × ℕ). n + 1 ≤ c.1) cs
    → remove n (slots cs (n ∷ xs)) ≡ some (slots cs xs)
unfolding remove
remove-slots n [] xs h = ground arith
remove-slots n ((true, k) ∷ cs) xs h = ground (arith, remove-slots n cs xs h.1)
remove-slots n ((false, k) ∷ cs) xs h = remove-slots n cs xs h.1

-- What was allocated at `n` is freed below the allocations that came after it.
pub kfree-slots :
    (b : Bool) (n m : ℕ) (cs : List (Bool × ℕ)) (xs : List ℕ)
    → 0 < n
    → All (λ (c : Bool × ℕ). past b n ≤ c.1) cs
    → kfree (addr b n) (record { next = m; live = slots cs (slot b n xs) })
      ≡ some (record { next = m; live = slots cs xs })
unfolding kfree
kfree-slots true n m cs xs p h = ground (arith, remove-slots n cs xs h)
kfree-slots false n m cs xs p h = refl

-- What is not among older allocations, nor the latest, is not freed, except for null.
pub kfree-fresh :
    {B : Type 0} (k m : ℕ) (c : Bool) (top : ℕ) (xs : List ℕ)
    → 0 < k
    → All (λ x. x < k) xs
    → (b : Bool) (n : ℕ) (rest : Bool) (next : Heap → Option B) (u : B) → k ≤ n
    → past b n ≤ top
    → next (record { next = m; live = slot c top xs }) ≡ (if rest then none else some u)
    → (kfree (addr b n) (record { next = m; live = slot c top xs }) >>= next)
      ≡ (if b || rest then none else some u)
unfolding kfree remove
kfree-fresh k m true top xs p f true n rest next u l t e =
    let gone = remove-fresh n k xs l f in ground (arith, gone)
kfree-fresh k m false top xs p f true n rest next u l t e =
    let gone = remove-fresh n k xs l f in ground (arith, gone)
kfree-fresh k m c top xs p f false n rest next u l t e = e
