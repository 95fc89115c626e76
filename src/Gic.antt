-- ===== src/Gic.antt =====
-- Interrupt handlers: pal_gic_install_isr of
-- bsa-acs-drv/files/platform/pal_linux/files/src/pal_gic.c, and pal_gic_install_isr and
-- pal_gic_free_interrupt of sdei-acs-drv/sdei-acs-pal/files/src/pal_gic.c.
--
-- An int of the kernel is its 32-bit word, so that it is negative from 2 ^ 31 on.
pub mod Same
mod Tests
use linux_acs.Prelude.{
  ℕ, ◌^◌, Bool, true, false, ◌||◌, not, Option, none, some, List, [], ◌∷◌, leb, ◌==◌, if◌then◌else◌,
}

-- The kernel's answers: acs_get_irq_domain, kmalloc, irq_domain_is_hierarchy, the words that
-- irq_domain_alloc_irqs, irq_create_mapping and request_irq return.
pub record IsrWorld : Type 0 where
  pub domain : Bool
  pub granted : Bool
  pub hierarchy : Bool
  pub alloc_irqs : ℕ → ℕ
  pub create_mapping : ℕ → ℕ
  pub request_irq : ℕ → ℕ

-- The name and the dev_id of request_irq: "BSA" and null, or "SDEI" and the static dev, which is the
-- same text.
pub data Owner : Type 0 where
  bsa sdei : Owner

-- Calls that change the kernel's state, in order.
pub data Call : Type 0 where
  allocated : Call
  requested : (owner : Owner) (virq : ℕ) → Call
  irq_freed : (owner : Owner) (virq : ℕ) → Call
  disposed : (virq : ℕ) → Call
  kfreed : Call

-- The result and the calls.
pub record Run : Type 0 where
  pub ret : ℕ
  pub calls : List Call

abbrev negative : ℕ → Bool
negative word = leb (2 ^ 31) word

-- From request_irq on, with the label `error`.
abbrev request_from : Owner → IsrWorld → ℕ → Run
request_from o w virq = record {
  ret = if w.request_irq virq == 0 then 0 else 1;
  calls = allocated ∷ requested o virq ∷ kfreed ∷ [];
}

abbrev error_from : Run
error_from = record { ret = 1; calls = allocated ∷ kfreed ∷ [] }

abbrev refused : Run
refused = record { ret = 1; calls = [] }

-- The BSA layer has virq in an unsigned int, which is compared with `<= 0`.
unfoldable pub bsa_install_isr : IsrWorld → ℕ → Run
bsa_install_isr w int_id =
    if not w.domain
    then refused
    else (if not w.granted
        then refused
        else (if w.hierarchy
            then (let virq = w.alloc_irqs int_id in
                if virq == 0 then error_from else request_from bsa w virq)
            else (let virq = w.create_mapping int_id in
                if virq == 0 then error_from else request_from bsa w virq)))

-- The SDEI layer has it in an int32_t.
unfoldable pub sdei_install_isr : IsrWorld → ℕ → Run
sdei_install_isr w int_id =
    if not w.domain
    then refused
    else (if not w.granted
        then refused
        else (if w.hierarchy
            then (let virq = w.alloc_irqs int_id in
                if virq == 0 || negative virq then error_from else request_from sdei w virq)
            else (let virq = w.create_mapping int_id in
                if virq == 0 then error_from else request_from sdei w virq)))

unfoldable pub free_interrupt : IsrWorld → ℕ → Run
free_interrupt w int_id =
    (let virq = w.create_mapping int_id in
      record { ret = 0; calls = irq_freed sdei virq ∷ disposed virq ∷ [] })
