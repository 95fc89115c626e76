-- ===== src/Mmio/Bsa.antt =====
-- The access functions of bsa-acs-drv/files/platform/pal_linux/files/src/pal_misc.c. A read of an
-- address that is not aligned prints a message too, which is left out.
use linux_acs.Prelude.{ℕ, Option, bit_and, ◌==◌, if◌then◌else◌}
use linux_acs.Mem.{not64}
use linux_acs.Mmio.{Io, read_through, write_through}

module _ (io : Io) where
  open io use {State}

  unfoldable pub bsa_mmio_read8 : ℕ → State → Option (ℕ × State)
  bsa_mmio_read8 addr s = read_through io 1 addr s

  unfoldable pub bsa_mmio_read16 : ℕ → State → Option (ℕ × State)
  bsa_mmio_read16 addr s = read_through io 2 addr s

  unfoldable pub bsa_mmio_read64 : ℕ → State → Option (ℕ × State)
  bsa_mmio_read64 addr s = read_through io 8 addr s

  -- `addr & ~(0x3)` first, if a low bit is set.
  unfoldable pub bsa_mmio_read : ℕ → State → Option (ℕ × State)
  bsa_mmio_read addr s =
      read_through io 4 (if bit_and addr 0x3 == 0 then addr else bit_and addr (not64 0x3)) s

  unfoldable pub bsa_mmio_write8 : ℕ → ℕ → State → Option State
  bsa_mmio_write8 addr value s = write_through io 1 addr value s

  unfoldable pub bsa_mmio_write16 : ℕ → ℕ → State → Option State
  bsa_mmio_write16 addr value s = write_through io 2 addr value s

  unfoldable pub bsa_mmio_write64 : ℕ → ℕ → State → Option State
  bsa_mmio_write64 addr value s = write_through io 8 addr value s

  unfoldable pub bsa_mmio_write : ℕ → ℕ → State → Option State
  bsa_mmio_write addr value s = write_through io 4 addr value s
