-- ===== src/Madt/Tests.antt =====
-- The MADT theorems at a small table, and the faults of the walk.
use linux_acs.Prelude.{ℕ, ◌≡◌, refl, none, some, [], ◌∷◌, arith}
use linux_acs.Madt.{
  MadtBody, interrupt, distributor, translator, other, MadtEntry, Madt, pe_create_info_table,
  gic_create_info_table,
}
use linux_acs.Madt.Walk.{IsFilled, bodies}
use linux_acs.Madt.Gic.{gic_of, gic_create_info_table-gic_of}

abbrev at_length : ℕ → MadtBody → MadtEntry
at_length n b = record { length = n; body = b }

abbrev board : Madt
board = record {
  size = 44;
  length = 248;
  entries =
      at_length 80 (interrupt 0x2c000000 0 23)
      ∷ at_length 80 (interrupt 0 0x100 24)
      ∷ at_length 24 (distributor 0x2f000000 3)
      ∷ at_length 20 (translator 0x2f020000)
      ∷ [];
}

board-IsFilled : IsFilled board
board-IsFilled = omega arith

-- Two PEs, the second one without a CPU interface address.
pe_runs :
    pe_create_info_table board
    ≡ some (record {
      num_of_pe = 2;
      pe_info =
          record { mpidr = 0; pe_num = 0; pmu_gsiv = 23 }
          ∷ record { mpidr = 0x100; pe_num = 1; pmu_gsiv = 24 }
          ∷ [];
    })
unfolding pe_create_info_table
pe_runs = refl

-- A MADT without structures is read past its end.
empty_madt : pe_create_info_table (record { size = 44; length = 44; entries = [] }) ≡ none
unfolding pe_create_info_table
empty_madt = refl

-- A structure of length 0 is never left.
zero_length :
    pe_create_info_table (record {
      size = 44;
      length = 80;
      entries = at_length 0 (other 9) ∷ at_length 36 (other 9) ∷ [];
    })
    ≡ none
unfolding pe_create_info_table
zero_length = refl

gic_create_info_table-gic_of_example :
    gic_create_info_table (some board) ≡ some (some (gic_of (bodies board.entries)))
gic_create_info_table-gic_of_example = gic_create_info_table-gic_of board board-IsFilled
