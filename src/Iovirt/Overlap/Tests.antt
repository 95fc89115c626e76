-- ===== src/Iovirt/Overlap/Tests.antt =====
-- The check of the ID ranges on two root complexes in front of one ITS.
use linux_acs.Prelude.{
  some, All, get_elem?, ℕ, zero, suc, ◌≡◌, refl, Bool, true, false, List, [], ◌∷◌, ◌==◌, arith,
}
use linux_acs.Iovirt.Table.{
  DataMap, Block, is_its, root_complex, its_group, rc_data, its_data, no_flags,
}
use linux_acs.Iovirt.Overlap.{collides, check_mapping_overlap}
use linux_acs.Iovirt.Overlap.Apart.{
  Clear, in_front, IsSeparate, Separate, check_mapping_overlap-same,
}
use linux_acs.Iovirt.Overlap.Complete.{HasMap, FlaggedAt}
use linux_acs.Iovirt.Overlap.Shares.{Share, check_mapping_overlap-FlaggedAt}

abbrev id_map : ℕ → ℕ → DataMap
id_map output count = record {
  input_base = 0;
  id_count = count;
  output_base = output;
  output_ref = 136;
}

abbrev rc_block : ℕ → DataMap → Block
rc_block segment m = record {
  type = root_complex;
  num_data_map = 1;
  data' = rc_data segment 1 1 0;
  flags = no_flags;
  maps = m ∷ [];
  ids = [];
}

abbrev its_block : Block
its_block = record {
  type = its_group;
  num_data_map = 1;
  data' = its_data 1;
  flags = no_flags;
  maps = [];
  ids = 0 ∷ [];
}

-- IDs 0x100 to 0x200, and 0x180 to 0x280.
abbrev blocks : List Block
blocks = rc_block 0 (id_map 0x100 0x100) ∷ its_block ∷ rc_block 1 (id_map 0x180 0x100) ∷ []

abbrev at_its : ℕ → Bool
at_its ref = ref == 136

-- The bytes behind the maps are not read here.
abbrev nothing : List Block → ℕ → DataMap
nothing bs i = record (id_map 0 0) { output_ref = 0 }

abbrev devids : List Block → List Bool
devids [] = []
devids (b ∷ bs) = b.flags.devid_overlap ∷ devids bs

check_runs : devids (check_mapping_overlap at_its nothing blocks) ≡ true ∷ false ∷ true ∷ []
unfolding check_mapping_overlap
check_runs = refl

one_map :
    (segment output count : ℕ)
    → HasMap (rc_block segment (id_map output count)) 0 (id_map output count)
one_map segment output count = record { mapped = refl; within = omega arith; here = refl }

shared : Share (id_map 0x100 0x100) (id_map 0x180 0x100) 0x190
shared = record {
  same_ref = refl;
  from_key = omega arith;
  to_key = omega arith;
  from_map = omega arith;
  to_map = omega arith;
}

check_mapping_overlap-FlaggedAt_example :
    FlaggedAt true 0 (check_mapping_overlap at_its nothing blocks)
    × FlaggedAt true 2 (check_mapping_overlap at_its nothing blocks)
check_mapping_overlap-FlaggedAt_example =
    check_mapping_overlap-FlaggedAt at_its nothing blocks 0 2 (rc_block 0 (id_map 0x100 0x100))
      (rc_block 1 (id_map 0x180 0x100)) 0 0 (id_map 0x100 0x100) (id_map 0x180 0x100) 0x190
      (omega arith) refl refl (one_map 0 0x100 0x100) (one_map 1 0x180 0x100) shared
      (record { fits = omega arith }) (record { fits = omega arith })

-- IDs 0x100 to 0x200, and 0x200 to 0x300.
abbrev apart_blocks : List Block
apart_blocks = rc_block 0 (id_map 0x100 0x100) ∷ its_block ∷ rc_block 1 (id_map 0x200 0x100) ∷ []

single : (x m : DataMap) (i : ℕ) → get_elem? (x ∷ []) i ≡ some m → (i ≡ 0) × (x ≡ m)
single x m zero e = (refl, cc)
single x m (suc i) e = cc

abbrev late : Block
late = rc_block 1 (id_map 0x200 0x100)

abbrev early : Block
early = rc_block 0 (id_map 0x100 0x100)

-- A block with one map, and blocks of whose maps this map is clear.
one_map-IsSeparate :
    (segment output : ℕ) (bs : List Block)
    → All
        (λ (b : Block).
          is_its b.type ≡ false
          → (p : ℕ) (m : DataMap) → get_elem? b.maps p ≡ some m
          → Clear (id_map output 0x100) m)
        bs
    → IsSeparate nothing (rc_block segment (id_map output 0x100)) bs
one_map-IsSeparate segment output bs h = record {
  whole = refl;
  own =
      λ i p key m lt e f. let q = single (id_map output 0x100) m p f in absurd (omega (arith, q.0));
  others = λ i key e. let q = single (id_map output 0x100) key i e in rw (← q.1) h;
  no_maps = λ i key e rest p.
      let q = single (id_map output 0x100) key i e in rw (← q.1) (λ r. absurd (omega (arith, r)));
}

in_order : Clear (id_map 0x100 0x100) (id_map 0x200 0x100)
in_order =
    in_front (record { some_id = omega arith; fits = omega arith })
      (record { some_id = omega arith; fits = omega arith }) (omega arith)

-- The two maps have the ID 0x200 in common, the last one of the first map.
apart : Separate nothing apart_blocks
apart = (
  (λ e. one_map-IsSeparate 0 0x100 (its_block ∷ late ∷ []) (
    (λ f. absurd cc),
    ((λ f p m g. let q = single (id_map 0x200 0x100) m p g in rw (← q.1) in_order), tt),
  )),
  ((λ e. absurd cc), ((λ e. one_map-IsSeparate 1 0x200 [] tt), tt)),
)

check_mapping_overlap-same_example :
    check_mapping_overlap at_its nothing apart_blocks ≡ apart_blocks
check_mapping_overlap-same_example = check_mapping_overlap-same nothing at_its apart_blocks apart

-- Two maps of the one ID 0x100, with the count 0, collide with nothing.
single_id_runs : collides (id_map 0x100 0) (id_map 0x100 0) ≡ false
unfolding collides
single_id_runs = refl
