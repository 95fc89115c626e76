-- ===== src/Dma/Attrs/Leaf.antt =====
-- pal_dma_mem_get_attrs against the walk that the architecture describes.
use linux_acs.Prelude.{
  ℕ, ◌*◌, ◌/◌, ◌%◌, ◌^◌, ◌≡◌, ◌⊎◌, inl, inr, refl, ap, ap₂, true, false, Option, none, some, ◌>>=◌,
  bit_and, shr, u32, ◌==◌, if◌then◌else◌, arith, bit_and-mod, bit_and-shl, Bool-cases,
}
use linux_acs.Dma.Attrs.{Kernel, is_pte, decode_mem_attr_sh, get_attrs}

-- The two low bits of a descriptor: a block at levels 1 and 2, a table there and a page at level
-- 3; no valid one else.
pub data Kind : Type 0 where
  invalid block table : Kind

abbrev pub kind : ℕ → Kind
kind val = if val % 4 == 1 then block else (if val % 4 == 3 then table else invalid)

-- The descriptor that maps the buffer.
abbrev pub page : ℕ → Option ℕ
page val = elim (kind val) [ table ↦ some val | _ ↦ none ]

abbrev pub next_level : ℕ → Option ℕ → Option ℕ
next_level val next = elim (kind val) [ invalid ↦ none | block ↦ some val | table ↦ next ]

unfoldable pub leaf : Kernel → Option ℕ
leaf k = do
  pgd ← k.pgd_offset
  pud ← k.pud_offset pgd
  next_level (k.entry pud) (
      k.pmd_offset pud >>= λ pmd.
      next_level (k.entry pmd) (k.pte_offset pmd >>= λ pte. page (k.entry pte)))

-- AttrIndx[2:0] selects a byte of MAIR_EL1; SH[1:0].
unfoldable pub attributes : Kernel → ℕ → ℕ × ℕ
attributes k val = (k.mair / 2 ^ (val / 4 % 8 * 8) % 256, val / 256 % 4)

-- The masks as the kernel documents them: bits 4 to 2 and bits 9 and 8.
pub record IsArm (k : Kernel) : Type 0 where
  pub attrindx : k.attrindx_mask ≡ 0x1c
  pub shared : k.shared_mask ≡ 0x300

-- The entries that the walk reads.
pub data OnPath (k : Kernel) : ℕ → Type 0 where
  pud_at : {pgd pud : ℕ} → k.pgd_offset ≡ some pgd → k.pud_offset pgd ≡ some pud → OnPath k pud
  pmd_at : {pud pmd : ℕ} → OnPath k pud → k.pmd_offset pud ≡ some pmd → OnPath k pmd
  pte_at : {pmd pte : ℕ} → OnPath k pmd → k.pte_offset pmd ≡ some pte → OnPath k pte

-- All of them are valid: bit 0 is set.
pub record IsMapped (k : Kernel) : Type 0 where
  pub valid : (p : ℕ) → OnPath k p → k.entry p % 2 ≡ 1

decode-attributes : (k : Kernel) (val : ℕ) → IsArm k → decode_mem_attr_sh k val ≡ attributes k val
unfolding decode_mem_attr_sh attributes
decode-attributes k val a =
    let index : u32 (shr (bit_and val k.attrindx_mask) 2) ≡ val / 4 % 8 =
      omega (arith, ap (bit_and val) a.attrindx, bit_and-shl 2 val 7, bit_and-mod 3 (val / 4)) in
    let share : u32 (shr (bit_and val k.shared_mask) 8) ≡ val / 256 % 4 =
      omega (arith, ap (bit_and val) a.shared, bit_and-shl 8 val 3, bit_and-mod 2 (val / 256)) in
    let byte = bit_and-mod 8 (shr k.mair (val / 4 % 8 * 8)) in
    rw (index) (ap₂ (λ (x y : ℕ). (x, y)) (omega (arith, byte)) share)

bit_one : (val : ℕ) → bit_and val 2 ≡ val / 2 % 2 * 2
bit_one val = omega (arith, bit_and-shl 1 val 1, bit_and-mod 1 (val / 2))

abbrev with_attributes : Kernel → Option ℕ → Option (ℕ × ℕ)
with_attributes k o = o >>= λ val. some (attributes k val)

kinds :
    (val : ℕ)
    → val % 2 ≡ 1
    → ((bit_and val 2 == 0) ≡ true) × (kind val ≡ block)
      ⊎ ((bit_and val 2 == 0) ≡ false) × (kind val ≡ table)
kinds val h = elim (Bool-cases (val % 4 == 1)) [
  | inl e ↦ inl (ground (arith, bit_one val), ground arith)
  | inr e ↦ inr (ground (arith, bit_one val), ground arith)
]

with_attributes-bind :
    (k : Kernel) (o : Option ℕ) (f : ℕ → Option (ℕ × ℕ)) (g : ℕ → Option ℕ)
    → ((p : ℕ) → o ≡ some p → f p ≡ with_attributes k (g p))
    → (o >>= f) ≡ with_attributes k (o >>= g)
with_attributes-bind k none f g h = refl
with_attributes-bind k (some p) f g h = h p refl

module _ (k : Kernel) (a : IsArm k) where
  level :
      (val : ℕ) (next : Option ℕ) (next' : Option (ℕ × ℕ))
      → val % 2 ≡ 1
      → next' ≡ with_attributes k next
      → (if bit_and val 2 == 0 then some (decode_mem_attr_sh k val) else next')
        ≡ with_attributes k (next_level val next)
  level val next next' odd e = elim (kinds val odd) [
    | inl (b, t) ↦ rw (b, next_level, t, decode-attributes k val a) refl
    | inr (b, t) ↦ rw (b, next_level, t) e
  ]

  last :
      (val : ℕ)
      → val % 2 ≡ 1
      → (if is_pte val then some (decode_mem_attr_sh k val) else none)
        ≡ with_attributes k (page val)
  unfolding is_pte
  last val odd = elim (kinds val odd) [
    | inl (b, t) ↦ rw (b, page, t) refl
    | inr (b, t) ↦ rw (b, page, t, decode-attributes k val a) refl
  ]

  -- Where all entries on the way to a buffer are valid, pal_dma_mem_get_attrs answers the attributes
  -- of the descriptor that maps the buffer by the architecture's rules, a block or a page, and -1
  -- just where these find none.
  pub get_attrs-leaf : IsMapped k → get_attrs k ≡ (leaf k >>= λ val. some (attributes k val))
  unfolding get_attrs leaf
  get_attrs-leaf m = with_attributes-bind k k.pgd_offset _ _ λ pgd e.
      with_attributes-bind k (k.pud_offset pgd) _ _ λ pud e'.
        let on_pud = pud_at e e' in
        level (k.entry pud) _ _ (m.valid pud on_pud) (
          with_attributes-bind k (k.pmd_offset pud) _ _ λ pmd e''.
            let on_pmd = pmd_at on_pud e'' in
            level (k.entry pmd) _ _ (m.valid pmd on_pmd) (
              with_attributes-bind k (k.pte_offset pmd) _ _
                λ pte e'''. last (k.entry pte) (m.valid pte (pte_at on_pmd e'''))))
