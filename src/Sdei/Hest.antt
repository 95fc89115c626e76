-- ===== src/Sdei/Hest.antt =====
-- The event table from the ACPI HEST: pal_sdei_create_event_info_table of
-- sdei-acs-drv/sdei-acs-pal/files/src/pal_sdei_interface.c.
use linux_acs.Prelude.{ℕ, zero, suc, ◌+◌, ◌≡◌, List, [], ◌∷◌, ◌++◌, length, ◌==◌, if◌then◌else◌}

-- ACPI_HEST_NOTIFY_SDEI and ACPI_HEST_TYPE_GENERIC_ERROR_V2, and the sizes of the structures of
-- a generic error source of version 1 and 2.
abbrev notify_sdei : ℕ
notify_sdei = 0xB

abbrev pub generic_error_v2 : ℕ
generic_error_v2 = 10

abbrev pub generic_size : ℕ
generic_size = 64

abbrev pub generic_v2_size : ℕ
generic_v2_size = 92

-- What the code reads of struct acpi_hest_generic: header.type, notify.type and notify.vector.
pub record Ghes : Type 0 where
  pub kind : ℕ
  pub notify : ℕ
  pub vector : ℕ

-- The HEST: error_source_count, and the structure that stands at an offset behind its header,
-- whatever was meant to stand there.
pub record Table : Type 0 where
  pub error_source_count : ℕ
  pub read : ℕ → Ghes

-- What the kernel has: no ACPI, an error for the HEST, no HEST, or one.
pub data Hest : Type 0 where
  acpi_disabled get_failed no_hest : Hest
  hest_table : (table : Table) → Hest

-- event_info_table_t, with the numbers that were written to info.
pub record EventTable : Type 0 where
  pub num_events : ℕ
  pub hest_found : ℕ
  pub num_ghes_notify : ℕ
  pub numbers : List ℕ

-- One structure.
unfoldable pub add_source : Ghes → EventTable → EventTable
add_source g t =
    if g.notify == notify_sdei
    then record t {
      num_ghes_notify = t.num_ghes_notify + 1;
      num_events = if g.vector == 0 then t.num_events else t.num_events + 1;
      numbers = t.numbers ++ g.vector ∷ [];
    }
    else t

-- How far the loop goes on behind a structure.
unfoldable pub stride : Ghes → ℕ
stride g = if g.kind == generic_error_v2 then generic_v2_size else generic_size

-- The loop from an offset, for as many structures as are left.
unfoldable pub source_loop : (ℕ → Ghes) → ℕ → ℕ → EventTable → EventTable
unfolding add_source stride
source_loop read zero pos t = t
source_loop read (suc n) pos t =
    source_loop read n (pos + stride (read pos)) (add_source (read pos) t)

-- pal_sdei_create_event_info_table: the value returned, and the table.
unfoldable pub create_event_info_table : Hest → ℕ × EventTable
unfolding source_loop
create_event_info_table h = by_hest h
  where
    start : ℕ → EventTable
    start found = record { num_events = 0; hest_found = found; num_ghes_notify = 0; numbers = [] }

    by_hest : Hest → ℕ × EventTable
    by_hest (hest_table h) = (0, source_loop h.read h.error_source_count 0 (start 1))
    by_hest _ = (1, start 0)

-- A structure of the HEST, with the bytes that it takes.
pub record Source : Type 0 where
  pub ghes : Ghes
  pub size : ℕ

-- The structures stand one behind the other from an offset on.
pub data Placed (read : ℕ → Ghes) : ℕ → List Source → Type 0 where
  placed_none : {pos : ℕ} → Placed read pos []
  placed_next :
      {pos : ℕ} {s : Source} {ss : List Source}
      → read pos ≡ s.ghes
      → s.size ≡ stride s.ghes
      → Placed read (pos + s.size) ss
      → Placed read pos (s ∷ ss)

-- The vectors of the sources that notify by SDEI, and how many of them are not 0.
abbrev pub vectors : List Source → List ℕ
vectors [] = []
vectors (s ∷ ss) = if s.ghes.notify == notify_sdei then s.ghes.vector ∷ vectors ss else vectors ss

abbrev pub positive : List ℕ → ℕ
positive [] = 0
positive (n ∷ ns) = if n == 0 then positive ns else positive ns + 1

abbrev table : ℕ → ℕ → List ℕ → EventTable
table e g ns = record { num_events = e; hest_found = 1; num_ghes_notify = g; numbers = ns }

-- The table, with what the sources add.
abbrev added : EventTable → List Source → EventTable
added t ss = record t {
  num_events = t.num_events + positive (vectors ss);
  num_ghes_notify = t.num_ghes_notify + length (vectors ss);
  numbers = t.numbers ++ vectors ss;
}
