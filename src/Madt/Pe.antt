-- ===== src/Madt/Pe.antt =====
-- The PE information table, over pal_pe.c.
use linux_acs.Prelude.{
  ℕ, ◌+◌, ◌≡◌, refl, ◌∙◌, sym, ap, ap₂, append-nil, append_assoc, some, List, [], ◌∷◌, ◌++◌, arith,
  length,
}
use linux_acs.Madt.{MadtBody, interrupt, Madt, PeEntry, PeTable, visit_pe, pe_create_info_table}
use linux_acs.Madt.Walk.{IsFilled, bodies, fold_bodies, over-fold}

-- What the table should be: an entry for each CPU interface, in order, numbered from `n` on.
abbrev pub numbered : ℕ → List MadtBody → List PeEntry
numbered n [] = []
numbered n (interrupt base mpidr gsiv ∷ bs) =
    record { mpidr = mpidr; pe_num = n; pmu_gsiv = gsiv } ∷ numbered (n + 1) bs
numbered n (_ ∷ bs) = numbered n bs

abbrev pe_table : ℕ → List PeEntry → PeTable
pe_table n xs = record { num_of_pe = n; pe_info = xs }

fold-numbered :
    (n : ℕ) (xs : List PeEntry) (bs : List MadtBody)
    → fold_bodies visit_pe (pe_table n xs) bs
      ≡ pe_table (n + length (numbered n bs)) (xs ++ numbered n bs)
unfolding visit_pe
fold-numbered n xs [] = ap₂ pe_table (omega arith) (sym (append-nil xs))
fold-numbered n xs (interrupt base mpidr gsiv ∷ bs) =
    let new : PeEntry = record { mpidr = mpidr; pe_num = n; pmu_gsiv = gsiv } in
    fold-numbered (n + 1) (xs ++ new ∷ []) bs
    ∙ ap₂ pe_table (omega arith) (append_assoc xs (new ∷ []) (numbered (n + 1) bs))
fold-numbered n xs (_ ∷ bs) = fold-numbered n xs bs

-- On a MADT that its structures fill, pal_pe_create_info_table ends with one entry for each CPU
-- interface, in the order of the MADT, with the MPIDR and PMU interrupt of that interface and with
-- its position as the PE number; the count is the number of entries.
pub pe_create_info_table-numbered :
    (m : Madt)
    → IsFilled m
    → pe_create_info_table m
      ≡ some (record {
        num_of_pe = length (numbered 0 (bodies m.entries));
        pe_info = numbered 0 (bodies m.entries);
      })
unfolding pe_create_info_table
pe_create_info_table-numbered m f =
    over-fold m visit_pe (pe_table 0 []) f
    ∙ ap some (fold-numbered 0 [] (bodies m.entries) ∙ ap₂ pe_table (omega arith) refl)
