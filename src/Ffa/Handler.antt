-- ===== src/Ffa/Handler.antt =====
-- What registering an interrupt handler comes to.
use linux_acs.Prelude.{
  ℕ, ◌+◌, ◌-◌, ◌^◌, ◌≡◌, refl, true, Bool-cases, inl, inr, ◌⊎◌, Option, none, some, u32,
}
use linux_acs.Ffa.{pal_success, pal_error, IrqWorld, IrqRun, mapped, register_handler}

-- A run that gave back its memory, and that requested an interrupt just where it succeeded.
abbrev pub IsClean : IrqWorld → IrqRun → Type 0
IsClean w r =
    (r.freed ≡ r.allocated)
    × ((r.outcome ≡ pal_error) × (r.requested ≡ none)
        ⊎ (r.outcome ≡ pal_success)
          × ((virq : ℕ) × (r.requested ≡ some virq) × (w.request virq ≡ true)))

mapped-IsClean : (w : IrqWorld) (virq : Option ℕ) → IsClean w (mapped w virq)
unfolding mapped
mapped-IsClean w none = (refl, inl (refl, refl))
mapped-IsClean w (some virq) = elim (Bool-cases (w.request virq)) [
  | inl e ↦ rw (e, mapped) (refl, inr (refl, (virq, refl, e)))
  | inr e ↦ rw (e, mapped) (refl, inl (refl, refl))
]

-- Whatever the kernel answers, registering a handler frees the memory that it took, and it reports
-- success just where it requested an interrupt and the request was granted.
pub register_handler-IsClean : (w : IrqWorld) (irq_num : ℕ) → IsClean w (register_handler w irq_num)
unfolding register_handler
register_handler-IsClean w irq_num = elim (Bool-cases w.domain) [
  | inr d ↦ rw d (refl, inl (refl, refl))
  | inl d ↦ elim (Bool-cases w.granted) [
    | inr g ↦ rw (d, g) (refl, inl (refl, refl))
    | inl g ↦ elim (Bool-cases w.hierarchy) [
      | inl h ↦ rw (d, g, h) (mapped-IsClean w (w.alloc_irqs (u32 (irq_num + (2 ^ 32 - 32)))))
      | inr h ↦ rw (d, g, h) (mapped-IsClean w (w.create_mapping irq_num))
    ]
  ]
]
