-- ===== src/Mmio/Watchdog.antt =====
-- The watchdog of the FF-A layer: pal_ns_wdog_enable and pal_ns_wdog_disable of
-- ffa-acs-drv/pal_linux/src/pal_driver.c, on a device that only stores.
use linux_acs.Prelude.{
  ℕ, ◌+◌, ◌^◌, ◌<◌, ◌≡◌, ◌∙◌, true, Option, ◌>>=◌, inr, Yields, bind-Yields, weaken-Yields, arith,
}
use native.Mathlib.Nat.{mod-eq_of_lt}
use linux_acs.Mmio.Words.{word, word-put_low, word-put_apart}
use linux_acs.Mmio.{Io}
use linux_acs.Mmio.Device.{Device, Stores}
use linux_acs.Mmio.Access.{w32, bytes, write, write-Stores}
use linux_acs.Mmio.Ffa.{mmio_write32}

-- PLATFORM_NS_WD_BASE of ffa-acs-drv/pal_linux/inc/pal_config_def.h.
abbrev pub ns_wd_base : ℕ
ns_wd_base = 0x2A440000

module _ (io : Io) where
  open io use {State}

  unfoldable pub ns_wdog_enable : ℕ → State → Option State
  ns_wdog_enable ms s = mmio_write32 io (ns_wd_base + 0x8) ms s >>= mmio_write32 io ns_wd_base 1

  unfoldable pub ns_wdog_disable : State → Option State
  ns_wdog_disable s = mmio_write32 io ns_wd_base 0 s

module _ (io : Io) (dev : Device io) where
  open io use {State}
  open dev use {remappable, memory, held}

  -- The control register, the offset register, and the mappings that are held.
  pub record Shows (control offset : ℕ) (s t : State) : Type 0 where
    pub control_word : word 4 (memory t) ns_wd_base ≡ control
    pub offset_word : word 4 (memory t) (ns_wd_base + 0x8) ≡ offset
    pub held_same : held t ≡ held s

  stores :
      (addr v : ℕ) (s : State)
      → remappable addr ≡ true
      → Yields (Stores io dev 4 v addr s) (mmio_write32 io addr v s)
  unfolding write bytes
  stores addr v s ok = write-Stores io dev w32 addr v s ok

  -- A write of the control register leaves the offset register alone.
  control-Shows :
      (v ms : ℕ) (s t u : State)
      → v < 2 ^ 32
      → held t ≡ held s
      → word 4 (memory t) (ns_wd_base + 0x8) ≡ ms
      → Stores io dev 4 v ns_wd_base t u
      → Shows v ms s u
  control-Shows v ms s t u fits same offset g = record {
    control_word =
        rw g.memory_put
          (word-put_low 4 4 v ns_wd_base (memory t) (omega arith) ∙ mod-eq_of_lt fits);
    offset_word = rw g.memory_put (
        word-put_apart 4 4 v ns_wd_base (ns_wd_base + 0x8) (memory t) (inr (omega arith)) ∙ offset);
    held_same = g.held_same ∙ same;
  }

  -- Enabling the watchdog for a time that fits 32 bits ends well, where mappings are granted for its
  -- two registers: the offset register has the time, the control register 1, and no mapping is left;
  -- disabling it then ends well too, with 0 in the control register and the time as it was.
  pub ns_wdog_disable-ns_wdog_enable :
      (ms : ℕ) (s : State)
      → ms < 2 ^ 32
      → remappable ns_wd_base ≡ true
      → remappable (ns_wd_base + 0x8) ≡ true
      → Yields
          (λ u. Shows 1 ms s u × Yields (Shows 0 ms s) (ns_wdog_disable io u))
          (ns_wdog_enable io ms s)
  unfolding ns_wdog_enable ns_wdog_disable
  ns_wdog_disable-ns_wdog_enable ms s fits ok ok' =
      bind-Yields (stores (ns_wd_base + 0x8) ms s ok') λ t g.
        weaken-Yields (stores ns_wd_base 1 t ok) λ u h.
          let offset : word 4 (memory t) (ns_wd_base + 0x8) ≡ ms =
            rw g.memory_put (
              word-put_low 4 4 ms (ns_wd_base + 0x8) (memory s) (omega arith)
              ∙ mod-eq_of_lt fits) in
          let on = control-Shows 1 ms s t u (omega arith) g.held_same offset h in
          let off =
            weaken-Yields (stores ns_wd_base 0 u ok)
              λ x k. control-Shows 0 ms s u x (omega arith) on.held_same on.offset_word k in
          (on, off)
