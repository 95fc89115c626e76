-- ===== src/Gic/Tests.antt =====
-- Interrupt handlers at concrete answers of the kernel.
use linux_acs.Prelude.{ℕ, ◌^◌, ◌-◌, ◌≡◌, refl, true, [], ◌∷◌}
use linux_acs.Gic.{bsa, IsrWorld, allocated, requested, kfreed, bsa_install_isr, sdei_install_isr}

-- A hierarchy of domains that answers an allocation with a word.
abbrev kernel : ℕ → IsrWorld
kernel word = record {
  domain = true;
  granted = true;
  hierarchy = true;
  alloc_irqs = λ id. word;
  create_mapping = λ id. word;
  request_irq = λ virq. 0;
}

-- -ENOMEM: the BSA layer requests an interrupt all the same.
failing_runs :
    ((bsa_install_isr (kernel (2 ^ 32 - 12)) 40).calls
      ≡ allocated ∷ requested bsa (2 ^ 32 - 12) ∷ kfreed ∷ [])
    × ((sdei_install_isr (kernel (2 ^ 32 - 12)) 40).calls ≡ allocated ∷ kfreed ∷ [])
unfolding bsa_install_isr sdei_install_isr
failing_runs = (refl, refl)
