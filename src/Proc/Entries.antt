-- ===== src/Proc/Entries.antt =====
-- What the init and exit functions leave in /proc.
use linux_acs.Prelude.{ℕ, ◌≡◌, refl, Bool, true, false, [], ◌∷◌, if◌then◌else◌, All, ◌++◌, ◌&&◌}
use linux_acs.Proc.{
  Name, bsa, bsa_msg, sbsa, sbsa_msg, sdei, sdei_msg, ffa_acs, same_name, Entries, failure,
  remove_proc_entry, init_bsaproc, exit_bsaproc, init_sbsaproc, exit_sbsaproc, init_sdeiproc,
  exit_sdeiproc, init_ffa_acs, exit_ffa_acs,
}

pub data KernelModule : Type 0 where
  bsa_module sbsa_module sdei_module ffa_module : KernelModule

-- The init function of a module, and its exit function.
abbrev pub init : KernelModule → Bool → Bool → Entries → ℕ × Entries
init bsa_module g h ps = init_bsaproc g h ps
init sbsa_module g h ps = init_sbsaproc g h ps
init sdei_module g h ps = init_sdeiproc g h ps
init ffa_module g h ps = init_ffa_acs g ps

abbrev pub exit : KernelModule → Entries → Entries
exit bsa_module ps = exit_bsaproc ps
exit sbsa_module ps = exit_sbsaproc ps
exit sdei_module ps = exit_sdeiproc ps
exit ffa_module ps = exit_ffa_acs ps

-- The entries of a module; the FF-A module has one.
abbrev pub first : KernelModule → Name
first bsa_module = bsa
first sbsa_module = sbsa
first sdei_module = sdei
first ffa_module = ffa_acs

abbrev pub others : KernelModule → Entries
others bsa_module = bsa_msg ∷ []
others sbsa_module = sbsa_msg ∷ []
others sdei_module = sdei_msg ∷ []
others ffa_module = []

-- The entries that an init function adds, if its calls of proc_create come back as `g` and `h`.
abbrev pub added : KernelModule → Bool → Bool → Entries
added m false h = []
added m true false = first m ∷ []
added m true true = others m ++ first m ∷ []

-- Whether an init function succeeds.
abbrev pub loads : KernelModule → Bool → Bool → Bool
loads ffa_module g h = g
loads m g h = g && h

-- No entry has a name of the module.
abbrev pub Foreign : KernelModule → Entries → Type 0
Foreign m ps =
    All (λ p. same_name (first m) p ≡ false) ps
    × All (λ n. All (λ p. same_name n p ≡ false) ps) (others m)

remove_absent :
    (n : Name) (ps : Entries) → All (λ p. same_name n p ≡ false) ps → remove_proc_entry n ps ≡ ps
unfolding remove_proc_entry
remove_absent n [] a = refl
remove_absent n (p ∷ ps) (e, a) = rw (e, remove_absent n ps a) refl

-- Whatever proc_create answers, an init function returns 0 just where all entries of its module were
-- made, and where it fails after its first call the entry that was made by this call stays; after an
-- init function that succeeded the exit function leaves /proc as it was. No entry has a name of
-- the module before.
pub init-added :
    (m : KernelModule) (g h : Bool) (ps : Entries)
    → Foreign m ps
    → (init m g h ps ≡ ((if loads m g h then 0 else failure), added m g h ++ ps))
      × (exit m (init m true true ps).1 ≡ ps)
unfolding init_bsaproc exit_bsaproc init_sbsaproc exit_sbsaproc init_sdeiproc exit_sdeiproc
    init_ffa_acs exit_ffa_acs
init-added bsa_module true true ps f = (refl, refl)
init-added bsa_module true false ps f = (rw (remove_absent bsa_msg ps f.1.0) refl, refl)
init-added bsa_module false h ps f = (rw (remove_absent bsa ps f.0) refl, refl)
init-added sbsa_module true true ps f = (refl, refl)
init-added sbsa_module true false ps f = (rw (remove_absent sbsa_msg ps f.1.0) refl, refl)
init-added sbsa_module false h ps f = (rw (remove_absent sbsa ps f.0) refl, refl)
init-added sdei_module true true ps f = (refl, refl)
init-added sdei_module true false ps f = (rw (remove_absent sdei_msg ps f.1.0) refl, refl)
init-added sdei_module false h ps f = (rw (remove_absent sdei ps f.0) refl, refl)
init-added ffa_module true true ps f = (refl, refl)
init-added ffa_module true false ps f = (refl, refl)
init-added ffa_module false h ps f = (rw (remove_absent ffa_acs ps f.0) refl, refl)
