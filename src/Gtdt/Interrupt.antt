-- ===== src/Gtdt/Interrupt.antt =====
-- The second interrupt of the tests: pal_generate_second_interrupt and pal_disable_second_interrupt of
-- sdei-acs-drv/sdei-acs-pal/files/src/pal_wd_timer.c, over the register accesses of that layer.
use linux_acs.Prelude.{
  ℕ, ◌+◌, ◌^◌, ◌≤◌, ◌<◌, ◌≡◌, ◌∙◌, true, Option, some, ◌>>=◌, ◌⊎◌, inl, Yields, bind-Yields,
  weaken-Yields, u64, arith,
}
use native.Mathlib.Nat.{mod-eq_of_lt}
use linux_acs.Gtdt.{TimerTable, sys_cnt_base_n, timer_get_info}
use linux_acs.Mmio.{Io}
use linux_acs.Mmio.Words.{word, put-outside, word-put_low, word-put_apart}
use linux_acs.Mmio.Device.{Device, Stores, write_through-Stores}
use linux_acs.Mmio.Sdei.{sdei_mmio_write}

module _ (io : Io) where
  open io use {State}

  unfoldable pub generate_second_interrupt : Option TimerTable → ℕ → ℕ → State → Option State
  generate_second_interrupt t index timeout s =
      timer_get_info t sys_cnt_base_n index >>= λ cnt_base_n.
      sdei_mmio_write io (u64 (cnt_base_n + 0x28)) timeout s
      >>= sdei_mmio_write io (u64 (cnt_base_n + 0x2C)) 1

  unfoldable pub disable_second_interrupt : Option TimerTable → ℕ → State → Option State
  disable_second_interrupt t index s = timer_get_info t sys_cnt_base_n index >>= λ cnt_base_n.
      sdei_mmio_write io (u64 (cnt_base_n + 0x2C)) 0 s

module _ (io : Io) (dev : Device io) where
  open io use {State}
  open dev use {remappable, memory, held}

  -- The two registers of a timer, and all other bytes and the mappings as they were.
  pub record Leaves (base timeout control : ℕ) (s t : State) : Type 0 where
    pub timeout_word : word 4 (memory t) (base + 0x28) ≡ timeout
    pub control_word : word 4 (memory t) (base + 0x2C) ≡ control
    pub others : (x : ℕ) → (x < base + 0x28) ⊎ (base + 0x30 ≤ x) → memory t x ≡ memory s x
    pub held_same : held t ≡ held s

  stores :
      (addr v : ℕ) (s : State)
      → remappable addr ≡ true
      → Yields (Stores io dev 4 v addr s) (sdei_mmio_write io addr v s)
  unfolding sdei_mmio_write
  stores addr v s ok = write_through-Stores io dev 4 v addr s (omega arith) ok

  -- One more write of the control register.
  control-Leaves :
      (base timeout v : ℕ) (s t u : State)
      → v < 2 ^ 32
      → word 4 (memory t) (base + 0x28) ≡ timeout
      → ((x : ℕ) → (x < base + 0x28) ⊎ (base + 0x30 ≤ x) → memory t x ≡ memory s x)
      → held t ≡ held s
      → Stores io dev 4 v (base + 0x2C) t u
      → Leaves base timeout v s u
  control-Leaves base timeout v s t u fits time others same g = record {
    timeout_word =
        rw g.memory_put
          (word-put_apart 4 4 v (base + 0x2C) (base + 0x28) (memory t) (inl (omega arith)) ∙ time);
    control_word =
        rw g.memory_put
          (word-put_low 4 4 v (base + 0x2C) (memory t) (omega arith) ∙ mod-eq_of_lt fits);
    others = λ x out.
        rw g.memory_put (put-outside 4 v (base + 0x2C) (memory t) x (ground arith) ∙ others x out);
    held_same = g.held_same ∙ same;
  }

  -- Generating and then disabling the second interrupt ends well where the timer of the index is found,
  -- its registers do not wrap around, the time-out fits 32 bits and mappings are granted: the timer
  -- has the time-out and is switched off, all other bytes are as they were, and no mapping is left.
  pub disable_second_interrupt-generate_second_interrupt :
      (t : Option TimerTable) (index timeout base : ℕ) (s : State)
      → timer_get_info t sys_cnt_base_n index ≡ some base
      → base + 0x30 ≤ 2 ^ 64
      → timeout < 2 ^ 32
      → remappable (base + 0x28) ≡ true
      → remappable (base + 0x2C) ≡ true
      → Yields
          (Leaves base timeout 0 s)
          (generate_second_interrupt io t index timeout s >>= disable_second_interrupt io t index)
  unfolding generate_second_interrupt disable_second_interrupt
  disable_second_interrupt-generate_second_interrupt t index timeout base s e room fits ok ok' =
      let low : u64 (base + 0x28) ≡ base + 0x28 = omega arith in
      let high : u64 (base + 0x2C) ≡ base + 0x2C = omega arith in
      rw (e, generate_second_interrupt, disable_second_interrupt, low, high)
        (bind-Yields
          (bind-Yields (stores (base + 0x28) timeout s ok) λ x g.
            weaken-Yields (stores (base + 0x2C) 1 x ok') λ y h.
              control-Leaves base timeout 1 s x y (omega arith)
                (rw g.memory_put (
                  word-put_low 4 4 timeout (base + 0x28) (memory s) (omega arith)
                  ∙ mod-eq_of_lt fits))
                (λ z out.
                  rw g.memory_put (put-outside 4 timeout (base + 0x28) (memory s) z (ground arith)))
                g.held_same h)
          λ y d. weaken-Yields (stores (base + 0x2C) 0 y ok') λ z k.
            control-Leaves base timeout 0 s y z (omega arith) d.timeout_word d.others d.held_same k)
