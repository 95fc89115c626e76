-- ===== src/Gtdt/Registers.antt =====
-- Writes to watchdog registers: pal_wd_set_ws0 of
-- sdei-acs-drv/sdei-acs-pal/files/src/pal_wd_timer.c.
use linux_acs.Prelude.{ℕ, ◌+◌, ◌≡◌, ◌≢◌, ◌==◌, if◌then◌else◌, arith}

-- The registers by address.
abbrev pub Registers : Type 0
Registers = ℕ → ℕ

-- A 32-bit write.
unfoldable pub store : ℕ → ℕ → Registers → Registers
store addr value m a = if a == addr then value else m a

-- WD_REG_BASE, WD_REG_CTRL, WD_ENABLE and WD_DISABLE of a header that is not in the repository.
pub record WdRegs : Type 0 where
  pub reg_base : ℕ
  pub reg_ctrl : ℕ
  pub enable : ℕ
  pub disable : ℕ

-- `vaddr` is the address that the frame is mapped to, 0 where it is not.
unfoldable pub set_ws0 : WdRegs → ℕ → ℕ → Registers → Registers
unfolding store
set_ws0 w vaddr timeout m =
    if vaddr == 0
    then m
    else (if timeout == 0
        then store (vaddr + w.reg_base) w.disable m
        else store (vaddr + w.reg_base) w.enable (store (vaddr + w.reg_ctrl) timeout m))

-- A frame that is mapped, after pal_wd_set_ws0: for a time-out that is not 0 the control register
-- has it and the base register the enabling value, for 0 the base register has the disabling value and
-- the control register is as it was; all other registers are as they were.
pub set_ws0-registers :
    (w : WdRegs) (vaddr timeout : ℕ) (m : Registers)
    → vaddr ≢ 0
    → w.reg_base ≢ w.reg_ctrl
    → (set_ws0 w vaddr timeout m (vaddr + w.reg_base)
        ≡ (if timeout == 0 then w.disable else w.enable))
      × (set_ws0 w vaddr timeout m (vaddr + w.reg_ctrl)
          ≡ (if timeout == 0 then m (vaddr + w.reg_ctrl) else timeout))
      × ((a : ℕ)
          → a ≢ vaddr + w.reg_base
          → a ≢ vaddr + w.reg_ctrl
          → set_ws0 w vaddr timeout m a ≡ m a)
unfolding set_ws0 store
set_ws0-registers w vaddr timeout m v d = (ground arith, ground arith, λ a p q. ground arith)
