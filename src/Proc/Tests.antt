-- ===== src/Proc/Tests.antt =====
-- Registration next to an entry of another module.
use linux_acs.Prelude.{◌≡◌, refl, true, false, [], ◌∷◌}
use linux_acs.Proc.{sdei, bsa, init_bsaproc, failure}
use linux_acs.Proc.Entries.{bsa_module, init, exit, init-added}

-- The second file is refused: the module fails to load, and its first entry stays.
refused_runs : init_bsaproc true false (sdei ∷ []) ≡ (failure, bsa ∷ sdei ∷ [])
unfolding init_bsaproc
refused_runs = refl

init-added_example :
    (init bsa_module true false (sdei ∷ []) ≡ (failure, bsa ∷ sdei ∷ []))
    × (exit bsa_module (init bsa_module true true (sdei ∷ [])).1 ≡ sdei ∷ [])
init-added_example = init-added bsa_module true false (sdei ∷ []) ((refl, tt), ((refl, tt), tt))
