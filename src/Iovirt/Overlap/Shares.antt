-- ===== src/Iovirt/Overlap/Shares.antt =====
-- The check of the ID ranges, in terms of the IDs that two maps have in common.
use linux_acs.Prelude.{
  ℕ, zero, suc, ◌+◌, ◌^◌, ◌≤◌, ◌<◌, ◌≡◌, Bool, true, ◌&&◌, ◌||◌, ltb, leb, ◌==◌, some, List, [],
  ◌∷◌, length, get_elem?, arith,
}
use linux_acs.Iovirt.Table.{DataMap, Block}
use linux_acs.Iovirt.Overlap.{last_id, collides, check_mapping_overlap}
use linux_acs.Iovirt.Overlap.Growth.{Each, check_blocks-Each}
use linux_acs.Iovirt.Overlap.Complete.{HasMap, FlaggedAt, check_blocks-finds}

-- An ID that two maps to the same node have in common and that is the last one of neither: by the
-- test of pal_iovirt_get_rc_smmu_base (`covers`) the IDs of a map go up to `output_base + id_count`.
pub record Share (key m : DataMap) (id : ℕ) : Type 0 where
  pub same_ref : m.output_ref ≡ key.output_ref
  pub from_key : key.output_base ≤ id
  pub to_key : id < key.output_base + key.id_count
  pub from_map : m.output_base ≤ id
  pub to_map : id < m.output_base + m.id_count

-- The output IDs of a map do not wrap around.
pub record Fits (m : DataMap) : Type 0 where
  pub fits : m.output_base + m.id_count ≤ 2 ^ 32

last_id-suc :
    (m : DataMap) (id : ℕ)
    → id < m.output_base + m.id_count
    → m.output_base + m.id_count ≤ 2 ^ 32
    → last_id m + 1 ≡ m.output_base + m.id_count
last_id-suc m id h le = omega arith

overlap :
    (s e a b x : ℕ)
    → s ≤ x
    → x ≤ e
    → a ≤ x
    → x ≤ b
    → (leb a s && leb s b || (leb a e && leb e b || ltb s a && ltb b e)) ≡ true
overlap s e a b x p q r t = ground arith

Share-collides :
    (key m : DataMap) (id : ℕ) → Share key m id → Fits key → Fits m → collides key m ≡ true
unfolding collides
Share-collides key m id s f g =
    let r = same_of s.same_ref in
    let p = last_id-suc key id s.to_key f.fits in
    let q = last_id-suc m id s.to_map g.fits in
    rw (r) (
      overlap key.output_base (last_id key) m.output_base (last_id m) id s.from_key (omega arith)
        s.from_map (omega arith))
  where
    same_of : {a b : ℕ} → a ≡ b → (a == b) ≡ true
    same_of e = ground arith

get_elem?-lt : (xs : List Block) (i : ℕ) {x : Block} → get_elem? xs i ≡ some x → i < length xs
get_elem?-lt [] i e = absurd (cc)
get_elem?-lt (x ∷ xs) zero e = omega arith
get_elem?-lt (x ∷ xs) (suc i) e = omega (arith, get_elem?-lt xs i e)

-- Two blocks with maps to the same node that have an output ID in common, one that is the last of
-- neither map, are both flagged by check_mapping_overlap, for device IDs if the node reads as an ITS
-- group and for stream IDs if not, where the blocks are no ITS groups and the output IDs of the maps
-- do not wrap around. The last ID of a map is the sum of its base and its count, up to which
-- pal_iovirt_get_rc_smmu_base reads the map.
pub check_mapping_overlap-FlaggedAt :
    (to_its : ℕ → Bool) (past : List Block → ℕ → DataMap) (bs : List Block) (i j : ℕ) (b c : Block)
    (a p : ℕ) (key m : DataMap) (id : ℕ)
    → i < j
    → get_elem? bs i ≡ some b
    → get_elem? bs j ≡ some c
    → HasMap b a key
    → HasMap c p m
    → Share key m id
    → Fits key
    → Fits m
    → FlaggedAt (to_its m.output_ref) i (check_mapping_overlap to_its past bs)
      × FlaggedAt (to_its m.output_ref) j (check_mapping_overlap to_its past bs)
unfolding check_mapping_overlap
check_mapping_overlap-FlaggedAt to_its past bs i j b c a p key m id lt g h hb hc s f f' =
    check_blocks-finds to_its past (length bs) bs i j lt (get_elem?-lt bs i g) g h hb hc
      (Share-collides key m id s f f')

-- check_mapping_overlap changes nothing of a block but the two overlap flags, which it sets and does not take back,
-- and keeps the blocks in their order.
pub check_mapping_overlap-Each :
    (to_its : ℕ → Bool) (past : List Block → ℕ → DataMap) (bs : List Block)
    → Each bs (check_mapping_overlap to_its past bs)
unfolding check_mapping_overlap
check_mapping_overlap-Each to_its past bs = check_blocks-Each to_its past (length bs) bs
