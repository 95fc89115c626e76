-- ===== src/Mmio.antt =====
-- Memory-mapped registers: the access functions of ffa-acs-drv/pal_linux/src/pal_mmio.c, of
-- bsa-acs-drv/files/platform/pal_linux/files/src/pal_misc.c and of
-- sdei-acs-drv/sdei-acs-pal/files/src/pal_misc.c. Each maps 16 bytes, makes one access and unmaps;
-- the mapping, the accesses and the unmapping are the kernel's, a parameter.
pub mod Words
pub mod Device
pub mod Ffa
pub mod Bsa
pub mod Sdei
pub mod Access
pub mod Halves
pub mod Session
pub mod Pasids
pub mod Watchdog
mod Tests
use linux_acs.Prelude.{ℕ, ◌*◌, ◌%◌, ◌^◌, Option, some, ◌>>=◌}

-- The kernel: `ioremap addr size` answers a pointer, or `none` for null; `ioread bytes p` and
-- `iowrite bytes value p` access that many bytes at a pointer. `none` of the others is a fault.
pub record Io : Type 1 where
  pub State : Type 0
  pub ioremap : ℕ → ℕ → State → Option (ℕ × State)
  pub ioread : ℕ → ℕ → State → Option (ℕ × State)
  pub iowrite : ℕ → ℕ → ℕ → State → Option State
  pub iounmap : ℕ → State → Option State

module _ (io : Io) where
  open io use {State, ioremap, ioread, iowrite, iounmap}

  -- The body of a read of `bytes` bytes. The pointer is not tested for null, so that an access
  -- through null is a fault; the value is stored in a variable of that many bytes.
  unfoldable pub read_through : ℕ → ℕ → State → Option (ℕ × State)
  read_through bytes addr s = ioremap addr 16 s >>= λ m.
      ioread bytes m.0 m.1 >>= λ d. iounmap m.0 d.1 >>= λ t. some (d.0 % 256 ^ bytes, t)

  -- The body of a write.
  unfoldable pub write_through : ℕ → ℕ → ℕ → State → Option State
  write_through bytes addr value s =
      ioremap addr 16 s >>= λ m. iowrite bytes value m.0 m.1 >>= λ t. iounmap m.0 t
