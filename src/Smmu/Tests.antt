-- ===== src/Smmu/Tests.antt =====
-- The IOVA check of one disk.
use linux_acs.Prelude.{◌≡◌, ◌⊎◌, ◌↔◌, refl, true, false, some, List, [], ◌∷◌}
use linux_acs.Smmu.{Range, Device, success, err, skip, check_device_iova}
use linux_acs.Smmu.Iova.{Used, Listed, check_device_iova_iff}

abbrev disk : Device
disk = record { has_domain = true; active = record { base = 0x9000; size = 0x1000 } ∷ [] }

abbrev used_ranges : List Range
used_ranges =
    record { base = 0x4000; size = 0x100 }
    ∷ record { base = 0; size = 0 }
    ∷ record { base = 0x5000; size = 0x100 }
    ∷ []

-- The range behind the empty one is not looked at.
iova_runs :
    (check_device_iova used_ranges (some disk) 0x4080 ≡ success)
    × (check_device_iova used_ranges (some disk) 0x5080 ≡ err)
    × (check_device_iova used_ranges (some disk) 0x9fff ≡ success)
unfolding check_device_iova
iova_runs = (refl, refl, refl)

check_device_iova_iff_example :
    ((check_device_iova used_ranges (some disk) 0x9fff ≡ success)
      ↔ ((true ≡ true) × (Used 0x9fff used_ranges ⊎ Listed 0x9fff disk.active)))
    × ((check_device_iova used_ranges (some disk) 0x9fff ≡ skip) ↔ (true ≡ false))
check_device_iova_iff_example = check_device_iova_iff used_ranges disk 0x9fff
