-- ===== src/Iovirt/Overlap/Growth.antt =====
-- What the check of the ID ranges leaves alone: all of a block but the two overlap flags, and
-- those are set and not taken back.
use linux_acs.Prelude.{
  ℕ, zero, suc, ◌+◌, ◌-◌, ◌≡◌, refl, ap, ◌∙◌, Bool, true, false, inl, inr, Bool-cases, List, [],
  ◌∷◌,
}
use linux_acs.Iovirt.Table.{DataMap, Flags, Block, is_its}
use linux_acs.Iovirt.Overlap.{
  collides, mark, map_at, scan_own, scan_other, scan_rest, scan_key, check_blocks,
}

-- The flag that `mark` sets.
unfoldable pub flag : Bool → Flags → Bool
flag true f = f.devid_overlap
flag false f = f.strid_overlap

abbrev pub IsFlagged : Bool → Block → Type 0
IsFlagged its b = flag its b.flags ≡ true

-- The second flags have what the first have.
pub record Keeps (f g : Flags) : Type 0 where
  pub ctx : g.ctx_int ≡ f.ctx_int
  pub kept : (its : Bool) → flag its f ≡ true → flag its g ≡ true

pub record Grows (b b' : Block) : Type 0 where
  pub new : Flags
  pub same : b' ≡ record b { flags = new }
  pub keeps : Keeps b.flags new

-- Block by block.
pub data Each : List Block → List Block → Type 0 where
  none_left : Each [] []
  one_more : {b c : Block} {bs cs : List Block} → Grows b c → Each bs cs → Each (b ∷ bs) (c ∷ cs)

pub Grows-refl : (b : Block) → Grows b b
Grows-refl b = record {
  new = b.flags;
  same = refl;
  keeps = record { ctx = refl; kept = λ its h. h };
}

pub Grows-trans : {a b c : Block} → Grows a b → Grows b c → Grows a c
Grows-trans {a} {b} {c} g h = record {
  new = h.new;
  same = h.same ∙ ap (λ (x : Block). record x { flags = h.new }) g.same;
  keeps = record {
    ctx = h.keeps.ctx ∙ ap (λ (x : Block). x.flags.ctx_int) g.same ∙ g.keeps.ctx;
    kept = λ its p.
        h.keeps.kept its (ap (λ (x : Block). flag its x.flags) g.same ∙ g.keeps.kept its p);
  };
}

pub Each-refl : (bs : List Block) → Each bs bs
Each-refl [] = none_left
Each-refl (b ∷ bs) = one_more (Grows-refl b) (Each-refl bs)

pub Each-trans : {xs ys zs : List Block} → Each xs ys → Each ys zs → Each xs zs
Each-trans none_left none_left = none_left
Each-trans (one_more g gs) (one_more h hs) = one_more (Grows-trans g h) (Each-trans gs hs)

-- A flag that was set is set.
pub IsFlagged-Grows : (its : Bool) {b b' : Block} → Grows b b' → IsFlagged its b → IsFlagged its b'
IsFlagged-Grows its g p = ap (λ (x : Block). flag its x.flags) g.same ∙ g.keeps.kept its p

pub mark-Grows : (its : Bool) (b : Block) → Grows b (mark its b)
unfolding mark flag
mark-Grows true b = record {
  new = record b.flags { devid_overlap = true };
  same = refl;
  keeps = record { ctx = refl; kept = elim [ true ↦ λ h. refl | false ↦ λ h. h ] };
}
mark-Grows false b = record {
  new = record b.flags { strid_overlap = true };
  same = refl;
  keeps = record { ctx = refl; kept = elim [ true ↦ λ h. h | false ↦ λ h. refl ] };
}

pub mark-IsFlagged : (its : Bool) (b : Block) → IsFlagged its (mark its b)
unfolding mark flag
mark-IsFlagged true b = refl
mark-IsFlagged false b = refl

module _ (to_its : ℕ → Bool) (past : List Block → ℕ → DataMap) where
  pub scan_own-Grows :
      (key : DataMap) (rest : List Block) (n i : ℕ) (b : Block)
      → Grows b (scan_own to_its past key rest n i b)
  unfolding scan_own
  scan_own-Grows key rest zero i b = Grows-refl b
  scan_own-Grows key rest (suc n) i b =
      let m = map_at past b rest i in
      elim (Bool-cases (collides key m)) [
        | inl p ↦ rw p (
            Grows-trans (mark-Grows (to_its m.output_ref) b)
              (scan_own-Grows key rest n (i + 1) (mark (to_its m.output_ref) b)))
        | inr p ↦ rw p (scan_own-Grows key rest n (i + 1) b)
      ]

  pub scan_other-Grows :
      (key : DataMap) (rest : List Block) (n i : ℕ) (k b : Block)
      → Grows k (scan_other to_its past key rest n i (k, b)).0
        × Grows b (scan_other to_its past key rest n i (k, b)).1
  unfolding scan_other
  scan_other-Grows key rest zero i k b = (Grows-refl k, Grows-refl b)
  scan_other-Grows key rest (suc n) i k b =
      let m = map_at past b rest i in
      let its = to_its m.output_ref in
      elim (Bool-cases (collides key m)) [
        | inl p ↦
            (let r = scan_other-Grows key rest n (i + 1) (mark its k) (mark its b) in
              rw (p, scan_other)
                (Grows-trans (mark-Grows its k) r.0, Grows-trans (mark-Grows its b) r.1))
        | inr p ↦ rw (p, scan_other) (scan_other-Grows key rest n (i + 1) k b)
      ]

  pub scan_rest-Grows :
      (key : DataMap) (k : Block) (bs : List Block)
      → Grows k (scan_rest to_its past key k bs).0 × Each bs (scan_rest to_its past key k bs).1
  unfolding scan_rest
  scan_rest-Grows key k [] = (Grows-refl k, none_left)
  scan_rest-Grows key k (b ∷ bs) = elim (Bool-cases (is_its b.type)) [
    | inl p ↦
        (let r = scan_rest-Grows key k bs in rw (p, scan_rest) (r.0, one_more (Grows-refl b) r.1))
    | inr p ↦
        (let o = scan_other-Grows key bs b.num_data_map 0 k b in
          let r =
            scan_rest-Grows key (scan_other to_its past key bs b.num_data_map 0 (k, b)).0 bs in
          rw (p, scan_rest) (Grows-trans o.0 r.0, one_more o.1 r.1))
  ]

  pub scan_key-Grows :
      (n i : ℕ) (k : Block) (bs : List Block)
      → Grows k (scan_key to_its past n i k bs).0 × Each bs (scan_key to_its past n i k bs).1
  unfolding scan_key
  scan_key-Grows zero i k bs = (Grows-refl k, Each-refl bs)
  scan_key-Grows (suc n) i k bs =
      let key = map_at past k bs i in
      let own = scan_own to_its past key bs (k.num_data_map - 1) (i + 1) k in
      let r = scan_rest to_its past key own bs in
      let g = scan_rest-Grows key own bs in
      let h = scan_key-Grows n (i + 1) r.0 r.1 in
      (
        Grows-trans (scan_own-Grows key bs (k.num_data_map - 1) (i + 1) k) (Grows-trans g.0 h.0),
        Each-trans g.1 h.1,
      )

  pub check_blocks-Each : (n : ℕ) (bs : List Block) → Each bs (check_blocks to_its past n bs)
  unfolding check_blocks
  check_blocks-Each zero bs = Each-refl bs
  check_blocks-Each (suc n) [] = none_left
  check_blocks-Each (suc n) (k ∷ bs) = elim (Bool-cases (is_its k.type)) [
    | inl p ↦ rw (p, check_blocks) (one_more (Grows-refl k) (check_blocks-Each n bs))
    | inr p ↦
        (let r = scan_key to_its past k.num_data_map 0 k bs in
          let g = scan_key-Grows k.num_data_map 0 k bs in
          rw (p, check_blocks) (one_more g.0 (Each-trans g.1 (check_blocks-Each n r.1))))
  ]
