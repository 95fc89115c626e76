-- ===== src/Iovirt/Overlap/Complete.antt =====
-- What the check of the ID ranges finds.
use linux_acs.Prelude.{
  ℕ, zero, suc, ◌+◌, ◌-◌, ◌≤◌, ◌<◌, ◌≡◌, refl, sym, subst, ap, ◌∙◌, Bool, true, false, ◌⊎◌, inl,
  inr, Bool-cases, some, List, [], ◌∷◌, ◌==◌, get_elem?, arith,
}
use linux_acs.Iovirt.Table.{DataMap, Block, is_its}
use linux_acs.Iovirt.Overlap.{
  collides, mark, map_at, scan_own, scan_other, scan_rest, scan_key, check_blocks,
}
use linux_acs.Iovirt.Overlap.Growth.{
  IsFlagged, Grows, Each, one_more, none_left, Grows-trans, IsFlagged-Grows, mark-Grows,
  mark-IsFlagged, scan_own-Grows, scan_other-Grows, scan_rest-Grows, scan_key-Grows,
  check_blocks-Each,
}

first_or_later : (i p : ℕ) → i ≤ p → (i ≡ p) ⊎ (i + 1 ≤ p)
first_or_later i p h = elim (Bool-cases (i == p)) [
  | inl e ↦ inl (ground arith)
  | inr e ↦ inr (ground arith)
]

Grows-map :
    {b b' : Block} (p : ℕ) {m : DataMap}
    → Grows b b'
    → get_elem? b.maps p ≡ some m
    → get_elem? b'.maps p ≡ some m
Grows-map p g h = ap (λ (x : Block). get_elem? x.maps p) g.same ∙ h

map_at-here :
    (past : List Block → ℕ → DataMap) (b : Block) (rest : List Block) (i p : ℕ) (m : DataMap)
    → i ≡ p
    → get_elem? b.maps p ≡ some m
    → map_at past b rest i ≡ m
map_at-here past b rest i p m e h = rw (e, map_at, h) refl

-- A map of a block that the check looks at.
pub record HasMap (b : Block) (i : ℕ) (m : DataMap) : Type 0 where
  pub mapped : is_its b.type ≡ false
  pub within : i < b.num_data_map
  pub here : get_elem? b.maps i ≡ some m

-- The block at an index has the flag.
abbrev pub FlaggedAt : Bool → ℕ → List Block → Type 0
FlaggedAt its i bs = (b : Block) × (get_elem? bs i ≡ some b) × IsFlagged its b

some-inj : {b c : Block} → some b ≡ some c → b ≡ c
some-inj e = cc

Grows-HasMap : {b b' : Block} {p : ℕ} {m : DataMap} → Grows b b' → HasMap b p m → HasMap b' p m
Grows-HasMap {p = p} {m = m} g h =
    subst (λ (x : Block). HasMap x p m) (sym g.same)
      (record { mapped = h.mapped; within = h.within; here = h.here })

Each-get :
    (q : ℕ) {xs ys : List Block} {c : Block}
    → Each xs ys
    → get_elem? xs q ≡ some c
    → (c' : Block) × (get_elem? ys q ≡ some c') × Grows c c'
Each-get q none_left g = absurd (cc)
Each-get zero (one_more {c = c'} w ws) g = (c', refl, subst (λ x. Grows x c') (some-inj g) w)
Each-get (suc q) (one_more w ws) g = Each-get q ws g

FlaggedAt-Each :
    (its : Bool) (q : ℕ) {xs ys : List Block} → Each xs ys → FlaggedAt its q xs → FlaggedAt its q ys
FlaggedAt-Each its q w (b, g, f) =
    let (b', g', v) = Each-get q w g in (b', g', IsFlagged-Grows its v f)

module _ (to_its : ℕ → Bool) (past : List Block → ℕ → DataMap) where
  scan_other-finds :
      (key : DataMap) (rest : List Block) (n i : ℕ) (k b : Block) (p : ℕ) (m : DataMap)
      → i ≤ p
      → p < i + n
      → get_elem? b.maps p ≡ some m
      → collides key m ≡ true
      → IsFlagged (to_its m.output_ref) (scan_other to_its past key rest n i (k, b)).0
        × IsFlagged (to_its m.output_ref) (scan_other to_its past key rest n i (k, b)).1
  unfolding scan_other
  scan_other-finds key rest zero i k b p m le lt g c = absurd (omega arith)
  scan_other-finds key rest (suc n) i k b p m le lt g c = elim (first_or_later i p le) [
    | inl e ↦
        (let its = to_its m.output_ref in
          let r = scan_other-Grows to_its past key rest n (i + 1) (mark its k) (mark its b) in
          rw (map_at-here past b rest i p m e g, scan_other, c)
            (
              IsFlagged-Grows its r.0 (mark-IsFlagged its k),
              IsFlagged-Grows its r.1 (mark-IsFlagged its b),
            ))
    | inr e ↦
        (let x = map_at past b rest i in
          let its = to_its x.output_ref in
          elim (Bool-cases (collides key x)) [
            | inl q ↦
                rw (q, scan_other)
                  (scan_other-finds key rest n (i + 1) (mark its k) (mark its b) p m e (omega arith)
                    (Grows-map p (mark-Grows its b) g) c)
            | inr q ↦
                rw (q, scan_other) (scan_other-finds key rest n (i + 1) k b p m e (omega arith) g c)
          ])
  ]

  scan_rest-finds :
      (key : DataMap) (k : Block) (bs : List Block) (q : ℕ) {c : Block} {p : ℕ} {m : DataMap}
      → get_elem? bs q ≡ some c
      → HasMap c p m
      → collides key m ≡ true
      → IsFlagged (to_its m.output_ref) (scan_rest to_its past key k bs).0
        × FlaggedAt (to_its m.output_ref) q (scan_rest to_its past key k bs).1
  unfolding scan_rest
  scan_rest-finds key k [] q g h e = absurd (cc)
  scan_rest-finds key k (b ∷ bs) zero {c} {p} {m} g h e =
      let its = to_its m.output_ref in
      let h' = subst (λ (x : Block). HasMap x p m) (sym (some-inj g)) h in
      let f =
        scan_other-finds key bs b.num_data_map 0 k b p m (omega arith) (omega (arith, h'.within))
          h'.here e in
      let o = scan_other to_its past key bs b.num_data_map 0 (k, b) in
      rw (h'.mapped, scan_rest)
        (IsFlagged-Grows its (scan_rest-Grows to_its past key o.0 bs).0 f.0, (o.1, refl, f.1))
  scan_rest-finds key k (b ∷ bs) (suc q) g h e = elim (Bool-cases (is_its b.type)) [
    | inl t ↦ rw (t, scan_rest) (scan_rest-finds key k bs q g h e)
    | inr t ↦
        rw (t, scan_rest)
          (scan_rest-finds key (scan_other to_its past key bs b.num_data_map 0 (k, b)).0 bs q g h e)
  ]

  scan_key-finds :
      (n i : ℕ) (k : Block) (bs : List Block) (a q : ℕ) {c : Block} {p : ℕ} {key m : DataMap}
      → i ≤ a
      → a < i + n
      → get_elem? k.maps a ≡ some key
      → get_elem? bs q ≡ some c
      → HasMap c p m
      → collides key m ≡ true
      → IsFlagged (to_its m.output_ref) (scan_key to_its past n i k bs).0
        × FlaggedAt (to_its m.output_ref) q (scan_key to_its past n i k bs).1
  unfolding scan_key
  scan_key-finds zero i k bs a q le lt at g h e = absurd (omega arith)
  scan_key-finds (suc n) i k bs a q {m = m} le lt at g h e =
      let its = to_its m.output_ref in
      let x = map_at past k bs i in
      let own = scan_own to_its past x bs (k.num_data_map - 1) (i + 1) k in
      let r = scan_rest to_its past x own bs in
      let s = scan_rest-Grows to_its past x own bs in
      let later = scan_key-Grows to_its past n (i + 1) r.0 r.1 in
      elim (first_or_later i a le) [
        | inl z ↦
            (let f =
                scan_rest-finds x own bs q g h
                  (subst (λ y. collides y m ≡ true) (sym (map_at-here past k bs i a _ z at)) e) in
              (IsFlagged-Grows its later.0 f.0, FlaggedAt-Each its q later.1 f.1))
        | inr z ↦
            (let (c', g', w) = Each-get q s.1 g in
              scan_key-finds n (i + 1) r.0 r.1 a q z (omega arith)
                (Grows-map a
                  (Grows-trans (scan_own-Grows to_its past x bs (k.num_data_map - 1) (i + 1) k) s.0)
                  at)
                g' (Grows-HasMap w h) e)
      ]

  pub check_blocks-finds :
      (n : ℕ) (bs : List Block) (i j : ℕ) {b c : Block} {a p : ℕ} {key m : DataMap}
      → i < j
      → i < n
      → get_elem? bs i ≡ some b
      → get_elem? bs j ≡ some c
      → HasMap b a key
      → HasMap c p m
      → collides key m ≡ true
      → FlaggedAt (to_its m.output_ref) i (check_blocks to_its past n bs)
        × FlaggedAt (to_its m.output_ref) j (check_blocks to_its past n bs)
  unfolding check_blocks
  check_blocks-finds zero bs i j lt lt' g h hb hc e = absurd (omega arith)
  check_blocks-finds (suc n) [] i j lt lt' g h hb hc e = absurd (cc)
  check_blocks-finds (suc n) (k ∷ bs) i zero lt lt' g h hb hc e = absurd (omega arith)
  check_blocks-finds (suc n) (k ∷ bs) zero (suc j) {a = a} {key = key} {m = m} lt lt' g h hb hc e =
      let its = to_its m.output_ref in
      let own = subst (λ (x : Block). HasMap x a key) (sym (some-inj g)) hb in
      let r = scan_key to_its past k.num_data_map 0 k bs in
      let f =
        scan_key-finds k.num_data_map 0 k bs a j (omega arith) (omega (arith, own.within)) own.here
          h hc e in
      rw (own.mapped, check_blocks)
        ((r.0, refl, f.0), FlaggedAt-Each its j (check_blocks-Each to_its past n r.1) f.1)
  check_blocks-finds (suc n) (k ∷ bs) (suc i) (suc j) lt lt' g h hb hc e =
      elim (Bool-cases (is_its k.type)) [
        | inl t ↦
            rw (t, check_blocks)
              (check_blocks-finds n bs i j (omega arith) (omega arith) g h hb hc e)
        | inr t ↦
            (let r = scan_key to_its past k.num_data_map 0 k bs in
              let w = scan_key-Grows to_its past k.num_data_map 0 k bs in
              let (b', g', v) = Each-get i w.1 g in
              let (c', h', u) = Each-get j w.1 h in
              rw (t, check_blocks)
                (check_blocks-finds n r.1 i j (omega arith) (omega arith) g' h' (Grows-HasMap v hb)
                  (Grows-HasMap u hc) e))
      ]
