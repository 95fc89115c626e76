-- ===== src/Ffa/Module.antt =====
-- The /proc file of the FF-A module: ffa-acs-drv/ffa_acs.c.
use linux_acs.Prelude.{ℕ}

-- ffa_proc_write: all tests are run by val_main, whatever is written, and the size is returned;
-- `val_main` is its effect on the machine.
unfoldable ffa_proc_write : {S : Type 0} → (val_main : S → S) → ℕ → S → ℕ × S
ffa_proc_write val_main size s = (size, val_main s)

-- ffa_proc_read
unfoldable ffa_proc_read : ℕ → ℕ
ffa_proc_read size = 0
