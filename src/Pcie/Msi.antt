-- ===== src/Pcie/Msi.antt =====
-- The MSI(X) vectors of a device: pal_pci_read_msi_vector and pal_get_msi_vectors of pal_pcie.c, as
-- they are for kernels after 5.16.
use linux_acs.Prelude.{
  ℕ, ◌+◌, ◌*◌, ◌≡◌, refl, ap, Bool, true, false, Option, none, some, List, [], ◌∷◌, map, length,
  if◌then◌else◌, arith,
}

-- A `struct msi_desc`; `hwirq` is the interrupt of its irq_data, `none` where there is none.
pub record MsiDesc : Type 0 where
  pub irq : ℕ
  pub hwirq : Option ℕ
  pub nvec_used : ℕ
  pub is_msix : Bool
  pub is_64 : Bool
  pub mask_base : ℕ
  pub msi_index : ℕ

-- PERIPHERAL_VECTOR_BLOCK
pub record Vector : Type 0 where
  pub lower_addr : ℕ
  pub upper_addr : ℕ
  pub data_word : ℕ
  pub control : ℕ
  pub irq_base : ℕ
  pub mapped_irq_base : ℕ
  pub n_irqs : ℕ

-- The kernel: readl, the configuration space of the device, its MSI capability, and the register
-- offsets of pci_regs.h.
pub record MsiCore : Type 0 where
  pub readl : ℕ → ℕ
  pub config_dword : ℕ → ℕ
  pub config_word : ℕ → ℕ
  pub msi_cap : ℕ
  pub entry_size : ℕ
  pub entry_lower : ℕ
  pub entry_upper : ℕ
  pub entry_data : ℕ
  pub entry_control : ℕ
  pub address_lo : ℕ
  pub address_hi : ℕ
  pub data_32 : ℕ
  pub data_64 : ℕ

unfoldable pub irq_to_hwirq : Option ℕ → ℕ
irq_to_hwirq none = 0
irq_to_hwirq (some hwirq) = hwirq

module _ (k : MsiCore) where
  -- pal_pci_read_msi_vector for pointers that are not null.
  unfoldable pub read_msi_vector : MsiDesc → Vector
  unfolding irq_to_hwirq
  read_msi_vector e =
      let base = e.mask_base + e.msi_index * k.entry_size in
      let v : Vector = record {
        lower_addr = 0;
        upper_addr = 0;
        data_word = 0;
        control = 0;
        irq_base = irq_to_hwirq e.hwirq;
        mapped_irq_base = e.irq;
        n_irqs = e.nvec_used;
      } in
      if e.is_msix
      then record v {
        lower_addr = k.readl (base + k.entry_lower);
        upper_addr = k.readl (base + k.entry_upper);
        data_word = k.readl (base + k.entry_data);
        control = k.readl (base + k.entry_control);
      }
      else (if e.is_64
          then record v {
            lower_addr = k.config_dword (k.msi_cap + k.address_lo);
            upper_addr = k.config_dword (k.msi_cap + k.address_hi);
            data_word = k.config_word (k.msi_cap + k.data_64);
          }
          else record v {
            lower_addr = k.config_dword (k.msi_cap + k.address_lo);
            data_word = k.config_word (k.msi_cap + k.data_32);
          })

  -- The loop over the descriptors with the kmalloc results: the list behind `head`, and vcount.
  -- A failed kmalloc ends it, as does the end of the descriptors.
  unfoldable pub vector_loop : List Bool → List MsiDesc → ℕ → List Vector × ℕ
  unfolding read_msi_vector
  vector_loop gs [] n = ([], n)
  vector_loop [] (e ∷ es) n = ([], n)
  vector_loop (false ∷ gs) (e ∷ es) n = ([], n)
  vector_loop (true ∷ gs) (e ∷ es) n =
      let (vs, m) = vector_loop gs es (n + 1) in (read_msi_vector e ∷ vs, m)

  -- pal_get_msi_vectors for a list pointer that is not null: `none` where the device is not there.
  -- What the list pointer of the caller points to is set where the list is not empty.
  unfoldable pub get_msi_vectors : List Bool → Option (List MsiDesc) → List Vector × ℕ
  unfolding vector_loop
  get_msi_vectors gs none = ([], 0)
  get_msi_vectors gs (some es) = vector_loop gs es 0

  -- The descriptors that got memory.
  abbrev pub granted : List Bool → List MsiDesc → List MsiDesc
  granted gs [] = []
  granted [] (e ∷ es) = []
  granted (false ∷ gs) (e ∷ es) = []
  granted (true ∷ gs) (e ∷ es) = e ∷ granted gs es

  vector_loop-granted :
      (gs : List Bool) (es : List MsiDesc) (n : ℕ)
      → ((vector_loop gs es n).0 ≡ map read_msi_vector (granted gs es))
        × ((vector_loop gs es n).1 ≡ n + length (vector_loop gs es n).0)
  unfolding vector_loop
  vector_loop-granted gs [] n = (refl, omega arith)
  vector_loop-granted [] (e ∷ es) n = (refl, omega arith)
  vector_loop-granted (false ∷ gs) (e ∷ es) n = (refl, omega arith)
  vector_loop-granted (true ∷ gs) (e ∷ es) n =
      let (list, count) = vector_loop-granted gs es (n + 1) in
      (ap (λ vs. read_msi_vector e ∷ vs) list, omega arith)

  -- The caller gets the vectors of the device's descriptors in order, up to the first for which
  -- there was no memory, and the number that is returned is the number of vectors in the list.
  pub get_msi_vectors-granted :
      (gs : List Bool) (es : List MsiDesc)
      → ((get_msi_vectors gs (some es)).0 ≡ map read_msi_vector (granted gs es))
        × ((get_msi_vectors gs (some es)).1 ≡ length (get_msi_vectors gs (some es)).0)
  unfolding get_msi_vectors
  get_msi_vectors-granted gs es =
      let (list, count) = vector_loop-granted gs es 0 in (list, omega arith)
