-- ===== src/Mmio/Sdei.antt =====
-- Register access of sdei-acs-drv/sdei-acs-pal/files/src/pal_misc.c: single accesses, and a mapping
-- that is held for several writes.
use linux_acs.Prelude.{ℕ, ◌+◌, Option, bit_and, ◌==◌, if◌then◌else◌}
use linux_acs.Mem.{not64}
use linux_acs.Mmio.{Io, read_through, write_through}

module _ (io : Io) where
  open io use {State, ioremap, iowrite, iounmap}

  -- pal_mmio_read of this layer.
  unfoldable pub sdei_mmio_read : ℕ → State → Option (ℕ × State)
  sdei_mmio_read addr s =
      read_through io 4 (if bit_and addr 0x3 == 0 then addr else bit_and addr (not64 0x3)) s

  -- pal_mmio_write of this layer.
  unfoldable pub sdei_mmio_write : ℕ → ℕ → State → Option State
  sdei_mmio_write addr value s = write_through io 4 addr value s

  -- `none`: the caller gets null.
  unfoldable pub pa_to_va : ℕ → State → Option (ℕ × State)
  pa_to_va addr s = ioremap addr 0x40 s

  -- A store of 32 bits through the pointer.
  unfoldable pub va_write : ℕ → ℕ → ℕ → State → Option State
  va_write addr offset value s = iowrite 4 value (addr + offset) s

  unfoldable pub va_free : ℕ → State → Option State
  va_free addr s = iounmap addr s
