-- ===== src/Madt/Gic.antt =====
-- The GIC information table, over pal_gic.c of the SDEI suite.
use linux_acs.Prelude.{
  ℕ, ◌+◌, ◌≡◌, ◌∙◌, sym, ap, ap₂, append-nil, append_assoc, true, false, some, List, [], ◌∷◌, ◌++◌,
  arith, length, ◌==◌, if◌then◌else◌, Bool-cases, inl, inr,
}
use linux_acs.Madt.{
  MadtBody, interrupt, distributor, redistributor, translator, Madt, GicType, cpuif, gicd, gicrd,
  gicits, GicEntry, GicTable, no_gic, visit_cpuif, visit_gicd, visit_gicrd, visit_its,
  gic_create_info_table,
}
use linux_acs.Madt.Walk.{IsFilled, bodies, fold_bodies, over-fold}

-- The address that a structure contributes to each part of the table; 0 if it has none.
abbrev pub address : GicType → MadtBody → ℕ
address cpuif (interrupt base mpidr gsiv) = base
address gicd (distributor base version) = base
address gicrd (redistributor base) = base
address gicits (translator base) = base
address _ _ = 0

-- The entries of one kind, in order.
abbrev pub entries_of : GicType → List MadtBody → List GicEntry
entries_of ty [] = []
entries_of ty (b ∷ bs) =
    if address ty b == 0
    then entries_of ty bs
    else record { type = ty; base = address ty b } ∷ entries_of ty bs

-- The version of the last distributor that has an address; `v` if there is none.
abbrev pub last_version : ℕ → List MadtBody → ℕ
last_version v [] = v
last_version v (distributor base w ∷ bs) = last_version (if base == 0 then v else w) bs
last_version v (_ ∷ bs) = last_version v bs

-- `t` with entries, counters and version as given.
abbrev gic : ℕ → ℕ → ℕ → ℕ → List GicEntry → GicTable
gic version rds ds its xs = record {
  gic_version = version;
  num_gicrd = rds;
  num_gicd = ds;
  num_its = its;
  gic_info = xs;
  ended = false;
}

append_one :
    (xs : List GicEntry) (x : GicEntry) (ys : List GicEntry) → (xs ++ x ∷ []) ++ ys ≡ xs ++ (x ∷ ys)
append_one xs x ys = append_assoc xs (x ∷ []) ys

fold-cpuif :
    (v r d i : ℕ) (xs : List GicEntry) (bs : List MadtBody)
    → fold_bodies visit_cpuif (gic v r d i xs) bs ≡ gic v r d i (xs ++ entries_of cpuif bs)
unfolding visit_cpuif
fold-cpuif v r d i xs [] = ap (gic v r d i) (sym (append-nil xs))
fold-cpuif v r d i xs (interrupt base mpidr gsiv ∷ bs) = elim (Bool-cases (base == 0)) [
  | inl p ↦ rw p (fold-cpuif v r d i xs bs)
  | inr p ↦ rw p (fold-cpuif v r d i (xs ++ _ ∷ []) bs ∙ ap (gic v r d i) (append_one xs _ _))
]
fold-cpuif v r d i xs (_ ∷ bs) = fold-cpuif v r d i xs bs

fold-gicd :
    (v r d i : ℕ) (xs : List GicEntry) (bs : List MadtBody)
    → fold_bodies visit_gicd (gic v r d i xs) bs
      ≡ gic (last_version v bs) r (d + length (entries_of gicd bs)) i (xs ++ entries_of gicd bs)
unfolding visit_gicd
fold-gicd v r d i xs [] = ap₂ (λ n ys. gic v r n i ys) (omega arith) (sym (append-nil xs))
fold-gicd v r d i xs (distributor base w ∷ bs) = elim (Bool-cases (base == 0)) [
  | inl p ↦ rw p (fold-gicd v r d i xs bs)
  | inr p ↦ rw p (
      fold-gicd w r (d + 1) i (xs ++ _ ∷ []) bs
      ∙ ap₂ (λ n ys. gic (last_version w bs) r n i ys) (omega arith) (append_one xs _ _))
]
fold-gicd v r d i xs (_ ∷ bs) = fold-gicd v r d i xs bs

fold-gicrd :
    (v r d i : ℕ) (xs : List GicEntry) (bs : List MadtBody)
    → fold_bodies visit_gicrd (gic v r d i xs) bs
      ≡ gic v (r + length (entries_of gicrd bs)) d i (xs ++ entries_of gicrd bs)
unfolding visit_gicrd
fold-gicrd v r d i xs [] = ap₂ (λ n ys. gic v n d i ys) (omega arith) (sym (append-nil xs))
fold-gicrd v r d i xs (redistributor base ∷ bs) = elim (Bool-cases (base == 0)) [
  | inl p ↦ rw p (fold-gicrd v r d i xs bs)
  | inr p ↦ rw p (
      fold-gicrd v (r + 1) d i (xs ++ _ ∷ []) bs
      ∙ ap₂ (λ n ys. gic v n d i ys) (omega arith) (append_one xs _ _))
]
fold-gicrd v r d i xs (_ ∷ bs) = fold-gicrd v r d i xs bs

fold-its :
    (v r d i : ℕ) (xs : List GicEntry) (bs : List MadtBody)
    → fold_bodies visit_its (gic v r d i xs) bs
      ≡ gic v r d (i + length (entries_of gicits bs)) (xs ++ entries_of gicits bs)
unfolding visit_its
fold-its v r d i xs [] = ap₂ (λ n ys. gic v r d n ys) (omega arith) (sym (append-nil xs))
fold-its v r d i xs (translator base ∷ bs) = elim (Bool-cases (base == 0)) [
  | inl p ↦ rw p (fold-its v r d i xs bs)
  | inr p ↦ rw p (
      fold-its v r d (i + 1) (xs ++ _ ∷ []) bs
      ∙ ap₂ (λ n ys. gic v r d n ys) (omega arith) (append_one xs _ _))
]
fold-its v r d i xs (_ ∷ bs) = fold-its v r d i xs bs

-- The table that a list of structures should give: the CPU interfaces, the distributors, the
-- redistributors and the translators that have an address, one kind after the other.
abbrev pub gic_of : List MadtBody → GicTable
gic_of bs = record {
  gic_version = last_version 0 bs;
  num_gicrd = length (entries_of gicrd bs);
  num_gicd = length (entries_of gicd bs);
  num_its = length (entries_of gicits bs);
  gic_info =
      ((entries_of cpuif bs ++ entries_of gicd bs) ++ entries_of gicrd bs) ++ entries_of gicits bs;
  ended = true;
}

-- On a MADT that its structures fill, pal_gic_create_info_table ends with the CPU interfaces,
-- distributors, redistributors and translators that have an address, in this order and in the
-- order of the MADT within each kind, with the number of each of the last three kinds, with the
-- version of the last distributor, and with the end mark stored.
pub gic_create_info_table-gic_of :
    (m : Madt)
    → IsFilled m
    → gic_create_info_table (some m) ≡ some (some (gic_of (bodies m.entries)))
unfolding gic_create_info_table
gic_create_info_table-gic_of m f =
    let bs = bodies m.entries in
    let xs = entries_of cpuif bs in
    let ys = xs ++ entries_of gicd bs in
    let zs = ys ++ entries_of gicrd bs in
    let v = last_version 0 bs in
    let d = length (entries_of gicd bs) in
    let r = length (entries_of gicrd bs) in
    rw (over-fold m visit_cpuif no_gic f ∙ ap some (fold-cpuif 0 0 0 0 [] bs)) (
      rw (over-fold m visit_gicd (gic 0 0 0 0 xs) f ∙ ap some (fold-gicd 0 0 0 0 xs bs)) (
        rw
          (over-fold m visit_gicrd (gic v 0 (0 + d) 0 ys) f
            ∙ ap some (fold-gicrd v 0 (0 + d) 0 ys bs))
          (rw
            (over-fold m visit_its (gic v (0 + r) (0 + d) 0 zs) f
              ∙ ap some (fold-its v (0 + r) (0 + d) 0 zs bs))
            (ground arith))))
