-- ===== src/Mmio/Session.antt =====
-- Several writes through one mapping of sdei-acs-drv/sdei-acs-pal/files/src/pal_misc.c, next to single
-- writes.
use linux_acs.Prelude.{
  ℕ, ◌+◌, ◌≤◌, ◌≡◌, refl, ap, sym, ◌∙◌, true, Option, some, List, [], ◌∷◌, ◌>>=◌, All, Yields,
  yields, bind-Yields, weaken-Yields, arith,
}
use linux_acs.Mmio.Words.{Bytes, put}
use linux_acs.Mmio.{Io}
use linux_acs.Mmio.Device.{Device, Window, write_through-Stores}
use linux_acs.Mmio.Sdei.{sdei_mmio_write, pa_to_va, va_write, va_free}

-- The memory after writes of 32 bits at offsets from `addr`.
unfoldable put_all : ℕ → List (ℕ × ℕ) → Bytes → Bytes
put_all addr [] b = b
put_all addr ((offset, v) ∷ rest) b = put_all addr rest (put 4 v (addr + offset) b)

module _ (io : Io) where
  open io use {State}

  unfoldable pub va_writes : ℕ → List (ℕ × ℕ) → State → Option State
  va_writes va [] s = some s
  va_writes va ((offset, v) ∷ rest) s = va_write io va offset v s >>= va_writes va rest

  -- The mapping, the writes and the end of the mapping.
  unfoldable pub held_writes : ℕ → List (ℕ × ℕ) → State → Option State
  held_writes addr ws s = pa_to_va io addr s >>= λ m. va_writes m.0 ws m.1 >>= va_free io m.0

  unfoldable pub single_writes : ℕ → List (ℕ × ℕ) → State → Option State
  single_writes addr [] s = some s
  single_writes addr ((offset, v) ∷ rest) s =
      sdei_mmio_write io (addr + offset) v s >>= single_writes addr rest

module _ (io : Io) (dev : Device io) where
  open io use {State}
  open dev use {remappable, memory, held}

  record Written (b : Bytes) (hs : List Window) (t : State) : Type 0 where
    memory_same : memory t ≡ b
    held_same : held t ≡ hs

  va_writes-Written :
      (w : Window) (hs : List Window) (ws : List (ℕ × ℕ)) (s : State)
      → held s ≡ w ∷ hs
      → All (λ x. x.0 + 4 ≤ w.size) ws
      → Yields (Written (put_all w.address ws (memory s)) (w ∷ hs)) (va_writes io w.pointer ws s)
  unfolding va_writes va_write put_all
  va_writes-Written w hs [] s top inside = yields (record { memory_same = refl; held_same = top })
  va_writes-Written w hs ((offset, v) ∷ rest) s top inside =
      bind-Yields (dev.writes 4 v offset w hs s top inside.0) λ t g.
        weaken-Yields (va_writes-Written w hs rest t (g.1 ∙ top) inside.1) λ u e. record {
          memory_same = e.memory_same ∙ ap (put_all w.address rest) g.0;
          held_same = e.held_same;
        }

  single_writes-Written :
      (addr : ℕ) (ws : List (ℕ × ℕ)) (s : State)
      → All (λ x. remappable (addr + x.0) ≡ true) ws
      → Yields (Written (put_all addr ws (memory s)) (held s)) (single_writes io addr ws s)
  unfolding single_writes sdei_mmio_write put_all
  single_writes-Written addr [] s ok = yields (record { memory_same = refl; held_same = refl })
  single_writes-Written addr ((offset, v) ∷ rest) s ok =
      bind-Yields (write_through-Stores io dev 4 v (addr + offset) s (omega arith) ok.0) λ t g.
        weaken-Yields (single_writes-Written addr rest t ok.1) λ u e. record {
          memory_same = e.memory_same ∙ ap (put_all addr rest) g.memory_put;
          held_same = e.held_same ∙ g.held_same;
        }

  -- Writes of 32 bits at offsets within the 0x40 bytes of one mapping, with the mapping given back at
  -- the end, and the same writes one by one, each with a mapping of its own, both end well, with the
  -- same memory and the same mappings held, where all these mappings are granted.
  pub held_writes-single_writes :
      (addr : ℕ) (ws : List (ℕ × ℕ)) (s : State)
      → All (λ x. x.0 + 4 ≤ 0x40) ws
      → remappable addr ≡ true
      → All (λ x. remappable (addr + x.0) ≡ true) ws
      → Yields
          (λ t.
            Yields (λ u. (memory t ≡ memory u) × (held t ≡ held u)) (single_writes io addr ws s))
          (held_writes io addr ws s)
  unfolding held_writes pa_to_va va_free
  held_writes-single_writes addr ws s inside here ok =
      bind-Yields (dev.remaps addr 0x40 s here) λ m h.
        let w : Window = record { pointer = m.0; address = addr; size = 0x40 } in
        bind-Yields (va_writes-Written w (held s) ws m.1 h.1 inside) λ t g.
          weaken-Yields (dev.unmaps w (held s) t g.held_same) λ u e.
            weaken-Yields (single_writes-Written addr ws s ok) λ z d. (
              e.0 ∙ g.memory_same ∙ ap (put_all addr ws) h.0 ∙ sym d.memory_same,
              e.1 ∙ sym d.held_same,
            )
