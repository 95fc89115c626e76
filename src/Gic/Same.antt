-- ===== src/Gic/Same.antt =====
-- The two versions of pal_gic_install_isr side by side.
use linux_acs.Prelude.{map, ℕ, ◌^◌, ◌≤◌, ◌≡◌, true, [], ◌∷◌, ◌++◌, false, arith}
use linux_acs.Gic.{
  bsa, sdei, Call, irq_freed, disposed, free_interrupt, IsrWorld, allocated, requested, kfreed,
  bsa_install_isr, sdei_install_isr,
}

-- The kernel answers an allocation with an error number.
abbrev pub Fails : IsrWorld → ℕ → Type 0
Fails w int_id = (w.hierarchy ≡ true) × (2 ^ 31 ≤ w.alloc_irqs int_id)

-- The calls of the SDEI layer with the name and the dev_id of the BSA layer.
abbrev pub as_bsa : Call → Call
as_bsa allocated = allocated
as_bsa (requested owner virq) = requested bsa virq
as_bsa (irq_freed owner virq) = irq_freed bsa virq
as_bsa (disposed virq) = disposed virq
as_bsa kfreed = kfreed

-- The two versions of pal_gic_install_isr return the same and make the same calls but for the name
-- and the dev_id of the request, unless the allocation of an interrupt in a hierarchy of domains
-- answers an error number.
bsa_install_isr-sdei_install_isr :
    (w : IsrWorld) (int_id : ℕ)
    → ¬ Fails w int_id
    → ((bsa_install_isr w int_id).ret ≡ (sdei_install_isr w int_id).ret)
      × ((bsa_install_isr w int_id).calls ≡ map as_bsa (sdei_install_isr w int_id).calls)
unfolding bsa_install_isr sdei_install_isr
bsa_install_isr-sdei_install_isr w int_id h = (ground arith, ground arith)

-- Where it does, the SDEI layer returns 1 without a request, and the BSA layer requests the
-- interrupt of that error number.
pub install_isr-Fails :
    (w : IsrWorld) (int_id : ℕ)
    → w.domain ≡ true
    → w.granted ≡ true
    → Fails w int_id
    → ((sdei_install_isr w int_id).ret ≡ 1)
      × ((sdei_install_isr w int_id).calls ≡ allocated ∷ kfreed ∷ [])
      × ((bsa_install_isr w int_id).calls
          ≡ allocated ∷ requested bsa (w.alloc_irqs int_id) ∷ kfreed ∷ [])
unfolding bsa_install_isr sdei_install_isr
install_isr-Fails w int_id d g f = ground arith

-- In a plain domain, pal_gic_free_interrupt of the SDEI layer undoes a pal_gic_install_isr that
-- succeeded: the interrupt that was requested is freed, then its mapping is disposed of.
pub free_interrupt-sdei_install_isr :
    (w : IsrWorld) (int_id : ℕ)
    → w.hierarchy ≡ false
    → (sdei_install_isr w int_id).ret ≡ 0
    → (virq : ℕ) × ((sdei_install_isr w int_id).calls ++ (free_interrupt w int_id).calls
        ≡ allocated ∷ requested sdei virq ∷ kfreed ∷ irq_freed sdei virq ∷ disposed virq ∷ [])
unfolding sdei_install_isr free_interrupt
free_interrupt-sdei_install_isr w int_id h s = (w.create_mapping int_id, ground arith)
