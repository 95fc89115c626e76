-- ===== src/Iovirt/Overlap/Apart.antt =====
-- Blocks in which the check of the ID ranges finds nothing.
use linux_acs.Prelude.{
  ◌^◌, ◌≢◌, some, All, get_elem?, Option-cases, ℕ, zero, suc, ◌+◌, ◌-◌, ◌≤◌, ◌<◌, ◌≡◌, refl, Bool,
  false, inl, inr, Bool-cases, List, [], ◌∷◌, length, arith,
}
use linux_acs.Iovirt.Table.{DataMap, Block, is_its}
use linux_acs.Iovirt.Overlap.{
  collides, map_at, scan_own, scan_other, scan_rest, scan_key, check_blocks, check_mapping_overlap,
}

module _ (past : List Block → ℕ → DataMap) where
  -- No map that is read for the block from index `i` on, `n` of them, collides with the key.
  abbrev pub Avoids : DataMap → Block → List Block → ℕ → ℕ → Type 0
  Avoids key b rest i n = (p : ℕ) → i ≤ p → p < i + n → collides key (map_at past b rest p) ≡ false

  -- None of the maps of the blocks collides with the key.
  abbrev pub AllAvoid : DataMap → List Block → Type 0
  AllAvoid key [] = Unit
  AllAvoid key (b ∷ bs) =
      (is_its b.type ≡ false → Avoids key b bs 0 b.num_data_map) × AllAvoid key bs

  -- No map of a block collides with those that the check reads behind it, in the block itself and
  -- in the blocks behind; the check reads as many as the block has, less one, behind each map.
  abbrev pub Apart : List Block → Type 0
  Apart [] = Unit
  Apart (k ∷ bs) =
      (is_its k.type ≡ false
        → (i : ℕ) → i < k.num_data_map
        → Avoids (map_at past k bs i) k bs (i + 1) (k.num_data_map - 1)
          × AllAvoid (map_at past k bs i) bs)
      × Apart bs

module _ (to_its : ℕ → Bool) (past : List Block → ℕ → DataMap) where
  scan_own-same :
      (key : DataMap) (rest : List Block) (n i : ℕ) (b : Block)
      → Avoids past key b rest i n
      → scan_own to_its past key rest n i b ≡ b
  unfolding scan_own
  scan_own-same key rest zero i b h = refl
  scan_own-same key rest (suc n) i b h =
      rw (h i (omega arith) (omega arith))
        (scan_own-same key rest n (i + 1) b λ p lo hi. h p (omega arith) (omega arith))

  scan_other-same :
      (key : DataMap) (rest : List Block) (n i : ℕ) (k b : Block)
      → Avoids past key b rest i n
      → scan_other to_its past key rest n i (k, b) ≡ (k, b)
  unfolding scan_other
  scan_other-same key rest zero i k b h = refl
  scan_other-same key rest (suc n) i k b h =
      rw (h i (omega arith) (omega arith))
        (scan_other-same key rest n (i + 1) k b λ p lo hi. h p (omega arith) (omega arith))

  scan_rest-same :
      (key : DataMap) (k : Block) (bs : List Block)
      → AllAvoid past key bs
      → scan_rest to_its past key k bs ≡ (k, bs)
  unfolding scan_rest
  scan_rest-same key k [] h = refl
  scan_rest-same key k (b ∷ bs) (h, hs) = elim (Bool-cases (is_its b.type)) [
    | inl e ↦ rw (e, scan_rest-same key k bs hs) refl
    | inr e ↦
        rw (e, scan_other-same key bs b.num_data_map 0 k b (h e), scan_rest-same key k bs hs) refl
  ]

  scan_key-same :
      (n i : ℕ) (k : Block) (bs : List Block)
      → ((a : ℕ)
          → i ≤ a
          → a < i + n
          → Avoids past (map_at past k bs a) k bs (a + 1) (k.num_data_map - 1)
            × AllAvoid past (map_at past k bs a) bs)
      → scan_key to_its past n i k bs ≡ (k, bs)
  unfolding scan_key
  scan_key-same zero i k bs h = refl
  scan_key-same (suc n) i k bs h =
      let (own, others) = h i (omega arith) (omega arith) in
      rw
        (
          scan_own-same (map_at past k bs i) bs (k.num_data_map - 1) (i + 1) k own,
          scan_rest-same (map_at past k bs i) k bs others,
        )
        (scan_key-same n (i + 1) k bs λ a lo hi. h a (omega arith) (omega arith))

  check_blocks-same : (n : ℕ) (bs : List Block) → Apart past bs → check_blocks to_its past n bs ≡ bs
  unfolding check_blocks
  check_blocks-same zero bs h = refl
  check_blocks-same (suc n) [] h = refl
  check_blocks-same (suc n) (k ∷ bs) (h, hs) = elim (Bool-cases (is_its k.type)) [
    | inl e ↦ rw (e, check_blocks, check_blocks-same n bs hs) refl
    | inr e ↦
        let still = scan_key-same k.num_data_map 0 k bs λ a lo hi. h e a (omega arith) in
        rw (e, check_blocks, still, check_blocks-same n bs hs) refl
  ]

-- The IDs that the check takes for those of a map are some, and do not wrap around.
pub record IsProper (m : DataMap) : Type 0 where
  pub some_id : 0 < m.id_count
  pub fits : m.output_base + m.id_count ≤ 2 ^ 32

-- Maps to different nodes, or maps of which one ends before the other or with its first ID, where the
-- last ID of a map is the sum of its base and its count.
pub data Clear (key m : DataMap) : Type 0 where
  other_node : m.output_ref ≢ key.output_ref → Clear key m
  in_front :
      IsProper key → IsProper m → key.output_base + key.id_count ≤ m.output_base → Clear key m
  behind : IsProper key → IsProper m → m.output_base + m.id_count ≤ key.output_base → Clear key m

Clear-collides : (key m : DataMap) → Clear key m → collides key m ≡ false
unfolding collides
Clear-collides key m (other_node h) = ground arith
Clear-collides key m (in_front k p h) = ground arith
Clear-collides key m (behind k p h) = ground arith

-- What is asked of a block that is no ITS group and of the blocks behind it: it has all its maps, they
-- are clear of each other and of the maps of the blocks behind, and what stands behind the maps of a
-- block does not read as a map to one of their nodes.
pub record IsSeparate (past : List Block → ℕ → DataMap) (k : Block) (bs : List Block) : Type 0 where
  pub whole : length k.maps ≡ k.num_data_map
  pub own :
      (i p : ℕ) (key m : DataMap)
      → i < p
      → get_elem? k.maps i ≡ some key
      → get_elem? k.maps p ≡ some m
      → Clear key m
  pub others :
      (i : ℕ) (key : DataMap)
      → get_elem? k.maps i ≡ some key
      → All
          (λ (b : Block).
            is_its b.type ≡ false
            → (p : ℕ) (m : DataMap) → get_elem? b.maps p ≡ some m
            → Clear key m)
          bs
  pub no_maps :
      (i : ℕ) (key : DataMap)
      → get_elem? k.maps i ≡ some key
      → (rest : List Block) (p : ℕ) → (past rest p).output_ref ≢ key.output_ref

abbrev pub Separate : (List Block → ℕ → DataMap) → List Block → Type 0
Separate past [] = Unit
Separate past (k ∷ bs) = (is_its k.type ≡ false → IsSeparate past k bs) × Separate past bs

get_elem?-below :
    (xs : List DataMap) (i : ℕ) → i < length xs → (m : DataMap) × (get_elem? xs i ≡ some m)
get_elem?-below [] i h = absurd (omega arith)
get_elem?-below (x ∷ xs) zero h = (x, refl)
get_elem?-below (x ∷ xs) (suc i) h = get_elem?-below xs i (omega arith)

module _ (past : List Block → ℕ → DataMap) where
  -- A map that is read is clear of the key where the maps of the block are.
  read-collides :
      (key : DataMap) (b : Block) (rest : List Block) (p : ℕ)
      → ((m : DataMap) → get_elem? b.maps p ≡ some m → Clear key m)
      → ((q : ℕ) → (past rest q).output_ref ≢ key.output_ref)
      → collides key (map_at past b rest p) ≡ false
  read-collides key b rest p clear none_behind = elim (Option-cases (get_elem? b.maps p)) [
    | inl e ↦
        let q = p - length b.maps in
        rw (e, map_at) (Clear-collides key (past rest q) (other_node (none_behind q)))
    | inr (m, e) ↦ rw (e, map_at) (Clear-collides key m (clear m e))
  ]

  others-AllAvoid :
      (key : DataMap) (bs : List Block)
      → All
          (λ (b : Block).
            is_its b.type ≡ false
            → (p : ℕ) (m : DataMap) → get_elem? b.maps p ≡ some m
            → Clear key m)
          bs
      → ((rest : List Block) (p : ℕ) → (past rest p).output_ref ≢ key.output_ref)
      → AllAvoid past key bs
  others-AllAvoid key [] h n = tt
  others-AllAvoid key (b ∷ bs) (h, hs) n =
      ((λ e p lo hi. read-collides key b bs p (h e p) (n bs)), others-AllAvoid key bs hs n)

  Separate-Apart : (bs : List Block) → Separate past bs → Apart past bs
  Separate-Apart [] h = tt
  Separate-Apart (k ∷ bs) (h, hs) = ((λ e i lt. avoids (h e) i lt), Separate-Apart bs hs)
    where
      avoids :
          (s : IsSeparate past k bs) (i : ℕ)
          → i < k.num_data_map
          → Avoids past (map_at past k bs i) k bs (i + 1) (k.num_data_map - 1)
            × AllAvoid past (map_at past k bs i) bs
      avoids s i lt =
          let (key, g) = get_elem?-below k.maps i (omega (arith, s.whole)) in
          rw (g, map_at)
            (
              (λ p lo hi.
                  read-collides key k bs p (λ m e. s.own i p key m (omega arith) g e)
                    (s.no_maps i key g bs)),
              others-AllAvoid key bs (s.others i key g) (s.no_maps i key g),
            )

  -- check_mapping_overlap leaves all blocks as they are where each block that is no ITS group has all
  -- its maps and of any two maps to the same node, in one block or in two, one ends before the other
  -- begins or with its first ID, each with some ID and without a wrap, and where nothing behind the
  -- maps of a block reads as a map to one of their nodes. The last ID of a map is the sum of its base
  -- and its count, so that two maps that have just this ID in common are not flagged.
  pub check_mapping_overlap-same :
      (to_its : ℕ → Bool) (bs : List Block)
      → Separate past bs
      → check_mapping_overlap to_its past bs ≡ bs
  unfolding check_mapping_overlap
  check_mapping_overlap-same to_its bs h =
      check_blocks-same to_its past (length bs) bs (Separate-Apart bs h)
