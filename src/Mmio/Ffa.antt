-- ===== src/Mmio/Ffa.antt =====
-- The access functions of ffa-acs-drv/pal_linux/src/pal_mmio.c.
use linux_acs.Prelude.{ℕ, Option, bit_and, ◌==◌, if◌then◌else◌}
use linux_acs.Mem.{not64}
use linux_acs.Mmio.{Io, read_through, write_through}

module _ (io : Io) where
  open io use {State}

  unfoldable pub mmio_read8 : ℕ → State → Option (ℕ × State)
  mmio_read8 addr s = read_through io 1 addr s

  unfoldable pub mmio_read16 : ℕ → State → Option (ℕ × State)
  mmio_read16 addr s = read_through io 2 addr s

  unfoldable pub mmio_read64 : ℕ → State → Option (ℕ × State)
  mmio_read64 addr s = read_through io 8 addr s

  -- `addr & ~(0x3)` first, if a low bit is set.
  unfoldable pub mmio_read32 : ℕ → State → Option (ℕ × State)
  mmio_read32 addr s =
      read_through io 4 (if bit_and addr 0x3 == 0 then addr else bit_and addr (not64 0x3)) s

  unfoldable pub mmio_write8 : ℕ → ℕ → State → Option State
  mmio_write8 addr value s = write_through io 1 addr value s

  unfoldable pub mmio_write16 : ℕ → ℕ → State → Option State
  mmio_write16 addr value s = write_through io 2 addr value s

  unfoldable pub mmio_write64 : ℕ → ℕ → State → Option State
  mmio_write64 addr value s = write_through io 8 addr value s

  unfoldable pub mmio_write32 : ℕ → ℕ → State → Option State
  mmio_write32 addr value s = write_through io 4 addr value s
