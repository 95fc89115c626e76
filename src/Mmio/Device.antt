-- ===== src/Mmio/Device.antt =====
-- What the documentation of the kernel says of the accesses to a device that only stores: a mapping
-- covers its range until it is given back, and an access through it is one to the bytes of the range.
-- Then each access function is a read or a write of a word.
use linux_acs.Prelude.{
  ℕ, ◌+◌, ◌≤◌, ◌≡◌, refl, ap, sym, ◌∙◌, Bool, true, false, none, some, List, ◌∷◌, Yields, yields,
  bind-Yields, weaken-Yields, arith,
}
use native.Mathlib.Nat.{mod-eq_of_lt}
use linux_acs.Mmio.Words.{Bytes, word, put, word-lt}
use linux_acs.Mmio.{Io, read_through, write_through}

-- A mapping: its pointer, its physical address and its size.
pub record Window : Type 0 where
  pub pointer : ℕ
  pub address : ℕ
  pub size : ℕ

-- `remappable` says where a mapping is granted, `held` are the mappings, the latest first.
pub record Device (io : Io) : Type 0 where
  pub remappable : ℕ → Bool
  pub memory : io.State → Bytes
  pub held : io.State → List Window
  pub refuses :
      (addr size : ℕ) (s : io.State) → remappable addr ≡ false → io.ioremap addr size s ≡ none
  pub remaps :
      (addr size : ℕ) (s : io.State)
      → remappable addr ≡ true
      → Yields
          (λ m.
            (memory m.1 ≡ memory s)
            × (held m.1 ≡ record { pointer = m.0; address = addr; size = size } ∷ held s))
          (io.ioremap addr size s)
  pub reads :
      (k offset : ℕ) (w : Window) (ws : List Window) (s : io.State)
      → held s ≡ w ∷ ws
      → offset + k ≤ w.size
      → io.ioread k (w.pointer + offset) s ≡ some (word k (memory s) (w.address + offset), s)
  pub writes :
      (k v offset : ℕ) (w : Window) (ws : List Window) (s : io.State)
      → held s ≡ w ∷ ws
      → offset + k ≤ w.size
      → Yields
          (λ t. (memory t ≡ put k v (w.address + offset) (memory s)) × (held t ≡ held s))
          (io.iowrite k v (w.pointer + offset) s)
  pub unmaps :
      (w : Window) (ws : List Window) (s : io.State)
      → held s ≡ w ∷ ws
      → Yields (λ t. (memory t ≡ memory s) × (held t ≡ ws)) (io.iounmap w.pointer s)

module _ (io : Io) (dev : Device io) where
  open io use {State}
  open dev use {remappable, memory, held}

  -- A read that answers a value and leaves no trace.
  pub record Gives (value : ℕ) (s : State) (r : ℕ × State) : Type 0 where
    pub value_same : r.0 ≡ value
    pub memory_same : memory r.1 ≡ memory s
    pub held_same : held r.1 ≡ held s

  -- A write of a word that leaves no mapping.
  pub record Stores (k v addr : ℕ) (s t : State) : Type 0 where
    pub memory_put : memory t ≡ put k v addr (memory s)
    pub held_same : held t ≡ held s

  -- The first byte of a mapping.
  at_start : (x : ℕ) → x + 0 ≡ x
  at_start x = omega arith

  pub read_through-Gives :
      (k addr : ℕ) (s : State)
      → k ≤ 16
      → remappable addr ≡ true
      → Yields (Gives (word k (memory s) addr) s) (read_through io k addr s)
  unfolding read_through
  read_through-Gives k addr s small ok = bind-Yields (dev.remaps addr 16 s ok) λ m h.
      let w : Window = record { pointer = m.0; address = addr; size = 16 } in
      let read : io.ioread k m.0 m.1 ≡ some (word k (memory s) addr, m.1) =
        ap (λ (p : ℕ). io.ioread k p m.1) (sym (at_start m.0))
        ∙ dev.reads k 0 w (held s) m.1 h.1 (omega arith)
        ∙ rw (at_start addr, h.0) refl in
      rw read (
        bind-Yields (dev.unmaps w (held s) m.1 h.1) λ t g. yields record {
          value_same = mod-eq_of_lt (word-lt k addr (memory s));
          memory_same = g.0 ∙ h.0;
          held_same = g.1;
        })

  pub write_through-Stores :
      (k v addr : ℕ) (s : State)
      → k ≤ 16
      → remappable addr ≡ true
      → Yields (Stores k v addr s) (write_through io k addr v s)
  unfolding write_through
  write_through-Stores k v addr s small ok = bind-Yields (dev.remaps addr 16 s ok) λ m h.
      let w : Window = record { pointer = m.0; address = addr; size = 16 } in
      let start = dev.writes k v 0 w (held s) m.1 h.1 (omega arith) in
      let write : Yields (λ t. (memory t ≡ put k v addr (memory m.1)) × (held t ≡ held m.1))
          (io.iowrite k v m.0 m.1) =
        rw (at_start m.0, at_start addr) at start in
      bind-Yields write λ t g.
        weaken-Yields (dev.unmaps w (held s) t (g.1 ∙ h.1))
          λ u e. record { memory_put = e.0 ∙ g.0 ∙ ap (put k v addr) h.0; held_same = e.1 }

  pub read_through-refused :
      (k addr : ℕ) (s : State) → remappable addr ≡ false → read_through io k addr s ≡ none
  unfolding read_through
  read_through-refused k addr s refused = rw (dev.refuses addr 16 s refused) refl

  pub write_through-refused :
      (k addr v : ℕ) (s : State) → remappable addr ≡ false → write_through io k addr v s ≡ none
  unfolding write_through
  write_through-refused k addr v s refused = rw (dev.refuses addr 16 s refused) refl
