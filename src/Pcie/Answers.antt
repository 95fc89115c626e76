-- ===== src/Pcie/Answers.antt =====
-- What the PCIe queries answer.
use linux_acs.Prelude.{
  ℕ, ◌≡◌, ◌≢◌, refl, ap, true, false, Bool-cases, inl, inr, none, some, List, [], ◌∷◌, ◌⊎◌, arith,
  ◌==◌, shr, low_bits,
}
use linux_acs.Pcie.{
  Device, Pci, is_device_behind_smmu, is_devicedma_64bit, device_driver_present,
  scan_bridge_devices_and_check_memtype, scan_children, get_root_port_bdf, get_device_type,
  get_pcie_type, get_snoop_bit, get_dma_support, get_dma_coherent, read_ext_cap_word,
  multifunction_support,
}

-- For a device that is not there, the queries answer "none of it" or "device error", except that
-- three of them, those for the SMMU, the bridge and the root port, read through the null pointer.
pub absent_lem :
    (k : Pci) (seg bus dev fn cap offset : ℕ)
    → k.get_dev seg bus dev fn ≡ none
    → (is_devicedma_64bit k seg bus dev fn ≡ 0)
      × (device_driver_present k seg bus dev fn ≡ 0)
      × (get_device_type k seg bus dev fn ≡ 0)
      × (get_pcie_type k seg bus dev fn ≡ 0)
      × (get_snoop_bit k seg bus dev fn ≡ 2)
      × (get_dma_support k seg bus dev fn ≡ 2)
      × (get_dma_coherent k seg bus dev fn ≡ 2)
      × (read_ext_cap_word k seg bus dev fn cap offset ≡ 0)
      × (multifunction_support k seg bus dev fn ≡ 1)
      × (is_device_behind_smmu k seg bus dev fn ≡ none)
      × (scan_bridge_devices_and_check_memtype k seg bus dev fn ≡ none)
      × (get_root_port_bdf k seg bus dev fn ≡ none)
unfolding is_devicedma_64bit device_driver_present get_device_type get_pcie_type get_snoop_bit
    get_dma_support get_dma_coherent read_ext_cap_word multifunction_support is_device_behind_smmu
    scan_bridge_devices_and_check_memtype get_root_port_bdf
absent_lem k seg bus dev fn cap offset e =
    rw e (refl, refl, refl, refl, refl, refl, refl, refl, refl, refl, refl, refl)

zero_word : (w : ℕ) → (w == 0) ≡ true → low_bits (shr w 1) 2 ≡ 0
zero_word w e = let z : w ≡ 0 = ground arith in rw z refl

-- A word with one of the memory type bits.
pub data Typed : List ℕ → Type 0 where
  here : {w : ℕ} {ws : List ℕ} → low_bits (shr w 1) 2 ≢ 0 → Typed (w ∷ ws)
  later : {w : ℕ} {ws : List ℕ} → Typed ws → Typed (w ∷ ws)

Typed-scan_children : (ws : List ℕ) → Typed ws → scan_children ws ≡ 1
unfolding scan_children
Typed-scan_children [] t = elim t [ ]
Typed-scan_children (w ∷ ws) (here h) = elim (Bool-cases (w == 0)) [
  | inl e ↦ absurd (h (zero_word w e))
  | inr e ↦ let f : (low_bits (shr w 1) 2 == 0) ≡ false = ground arith in rw (e, f) refl
]
Typed-scan_children (w ∷ ws) (later t) = elim (Bool-cases (w == 0)) [
  | inl e ↦ rw e (Typed-scan_children ws t)
  | inr e ↦ elim (Bool-cases (low_bits (shr w 1) 2 == 0)) [
    | inl f ↦ rw (e, f) (Typed-scan_children ws t)
    | inr f ↦ rw (e, f) refl
  ]
]

scan_children-Typed : (ws : List ℕ) → scan_children ws ≡ 1 → Typed ws
unfolding scan_children
scan_children-Typed [] h = absurd (omega arith)
scan_children-Typed (w ∷ ws) h = elim (Bool-cases (w == 0)) [
  | inl e ↦ later (scan_children-Typed ws (rw e at h))
  | inr e ↦ elim (Bool-cases (low_bits (shr w 1) 2 == 0)) [
    | inl f ↦ later (scan_children-Typed ws (rw (e, f) at h))
    | inr f ↦ here (ground arith)
  ]
]

scan_children-small : (ws : List ℕ) → (scan_children ws ≡ 0) ⊎ (scan_children ws ≡ 1)
unfolding scan_children
scan_children-small [] = inl refl
scan_children-small (w ∷ ws) = elim (Bool-cases (w == 0)) [
  | inl e ↦ rw e (scan_children-small ws)
  | inr e ↦ elim (Bool-cases (low_bits (shr w 1) 2 == 0)) [
    | inl f ↦ rw (e, f) (scan_children-small ws)
    | inr f ↦ rw (e, f) (inr refl)
  ]
]

-- For a bridge that is there the answer is 1 if one of the devices behind it has a word at offset
-- 0x10 with a memory type bit, and only then; else it is 0.
pub scan_bridge-Typed :
    (k : Pci) (seg bus dev fn : ℕ) (d : Device) (ws : List ℕ)
    → k.get_dev seg bus dev fn ≡ some d
    → d.subordinate ≡ some ws
    → (Typed ws → scan_bridge_devices_and_check_memtype k seg bus dev fn ≡ some 1)
      × (scan_bridge_devices_and_check_memtype k seg bus dev fn ≢ some 0 → Typed ws)
unfolding scan_bridge_devices_and_check_memtype
scan_bridge-Typed k seg bus dev fn d ws e s =
    rw (e, s)
      (
        λ t. ap some (Typed-scan_children ws t),
        λ h. elim (scan_children-small ws) [
          | inl z ↦ absurd (h (ap some z))
          | inr o ↦ scan_children-Typed ws o
        ],
      )
