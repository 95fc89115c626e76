-- ===== src/Mmio/Access.antt =====
-- What the access functions of ffa-acs-drv/pal_linux/src/pal_mmio.c do to a device that only stores.
use linux_acs.Prelude.{
  ℕ, ◌+◌, ◌-◌, ◌*◌, ◌/◌, ◌%◌, ◌^◌, ◌≤◌, ◌<◌, ◌≡◌, ap, sym, ◌∙◌, true, false, Option, none, ◌>>=◌,
  ◌⊎◌, Yields, bind-Yields, weaken-Yields, arith, bit_and, bit_and-mod, bit_and-high, Bool-cases,
  inl, inr, ◌==◌, if◌then◌else◌,
}
use native.Mathlib.Nat.{mod-eq_of_lt}
use linux_acs.Mem.{not64}
use linux_acs.Mmio.Words.{word, word-put_low, word-put_apart, word-put_behind}
use linux_acs.Mmio.{Io}
use linux_acs.Mmio.Device.{
  Device, Gives, Stores, read_through-Gives, write_through-Stores, read_through-refused,
  write_through-refused,
}
use linux_acs.Mmio.Ffa.{
  mmio_read8, mmio_read16, mmio_read32, mmio_read64, mmio_write8, mmio_write16, mmio_write32,
  mmio_write64,
}

-- The mask of a read of 32 bits rounds the address down.
masked :
    (addr : ℕ)
    → addr < 2 ^ 64
    → (if bit_and addr 0x3 == 0 then addr else bit_and addr (not64 0x3)) ≡ addr / 4 * 4
masked addr h =
    let low = bit_and-mod 2 addr in
    let whole : addr / 4 * 2 ^ 2 + addr % 4 ≡ addr = omega arith in
    let high : bit_and addr (2 ^ 64 - 2 ^ 2) ≡ addr / 4 * 4 =
      ap (λ (x : ℕ). bit_and x (2 ^ 64 - 2 ^ 2)) (sym whole)
      ∙ bit_and-high 2 64 (addr / 4) (addr % 4) (omega arith) (omega arith) (omega arith) in
    elim (Bool-cases (bit_and addr 3 == 0)) [ inl e ↦ rw e (ground arith) | inr e ↦ rw e high ]

-- The four widths of an access.
pub data Width : Type 0 where
  w8 w16 w32 w64 : Width

unfoldable pub bytes : Width → ℕ
bytes w8 = 1
bytes w16 = 2
bytes w32 = 4
bytes w64 = 8

-- Where the access of a width goes when it reads.
unfoldable pub read_address : Width → ℕ → ℕ
read_address w32 addr = addr / 4 * 4
read_address w addr = addr

module _ (io : Io) where
  open io use {State}

  unfoldable pub read : Width → ℕ → State → Option (ℕ × State)
  read w8 = mmio_read8 io
  read w16 = mmio_read16 io
  read w32 = mmio_read32 io
  read w64 = mmio_read64 io

  unfoldable pub write : Width → ℕ → ℕ → State → Option State
  write w8 = mmio_write8 io
  write w16 = mmio_write16 io
  write w32 = mmio_write32 io
  write w64 = mmio_write64 io

module _ (io : Io) (dev : Device io) where
  open io use {State}
  open dev use {remappable, memory, held}

  pub read-Gives :
      (w : Width) (addr : ℕ) (s : State)
      → addr < 2 ^ 64
      → remappable (read_address w addr) ≡ true
      → Yields (Gives io dev (word (bytes w) (memory s) (read_address w addr)) s) (read io w addr s)
  unfolding read bytes read_address mmio_read8 mmio_read16 mmio_read32 mmio_read64
  read-Gives w8 addr s h ok = read_through-Gives io dev 1 addr s (omega arith) ok
  read-Gives w16 addr s h ok = read_through-Gives io dev 2 addr s (omega arith) ok
  read-Gives w32 addr s h ok =
      rw (masked addr h) (read_through-Gives io dev 4 (addr / 4 * 4) s (omega arith) ok)
  read-Gives w64 addr s h ok = read_through-Gives io dev 8 addr s (omega arith) ok

  pub write-Stores :
      (w : Width) (addr v : ℕ) (s : State)
      → remappable addr ≡ true
      → Yields (Stores io dev (bytes w) v addr s) (write io w addr v s)
  unfolding write bytes mmio_write8 mmio_write16 mmio_write32 mmio_write64
  write-Stores w8 addr v s ok = write_through-Stores io dev 1 v addr s (omega arith) ok
  write-Stores w16 addr v s ok = write_through-Stores io dev 2 v addr s (omega arith) ok
  write-Stores w32 addr v s ok = write_through-Stores io dev 4 v addr s (omega arith) ok
  write-Stores w64 addr v s ok = write_through-Stores io dev 8 v addr s (omega arith) ok

  pub read-refused :
      (w : Width) (addr : ℕ) (s : State)
      → addr < 2 ^ 64
      → remappable (read_address w addr) ≡ false
      → read io w addr s ≡ none
  unfolding read read_address mmio_read8 mmio_read16 mmio_read32 mmio_read64
  read-refused w8 addr s h refused = read_through-refused io dev 1 addr s refused
  read-refused w16 addr s h refused = read_through-refused io dev 2 addr s refused
  read-refused w32 addr s h refused =
      rw (masked addr h) (read_through-refused io dev 4 (addr / 4 * 4) s refused)
  read-refused w64 addr s h refused = read_through-refused io dev 8 addr s refused

  pub write-refused :
      (w : Width) (addr v : ℕ) (s : State) → remappable addr ≡ false → write io w addr v s ≡ none
  unfolding write mmio_write8 mmio_write16 mmio_write32 mmio_write64
  write-refused w8 addr v s refused = write_through-refused io dev 1 addr v s refused
  write-refused w16 addr v s refused = write_through-refused io dev 2 addr v s refused
  write-refused w32 addr v s refused = write_through-refused io dev 4 addr v s refused
  write-refused w64 addr v s refused = write_through-refused io dev 8 addr v s refused

  -- A write of a value of the width at an address that a mapping is granted for, a multiple of four
  -- for 32 bits, and then a read of the same width there, ends well with the value, and with the
  -- mappings held as before.
  pub read-write :
      (w : Width) (addr v : ℕ) (s : State)
      → addr < 2 ^ 64
      → v < 256 ^ bytes w
      → read_address w addr ≡ addr
      → remappable addr ≡ true
      → Yields (λ r. (r.0 ≡ v) × (held r.1 ≡ held s)) (write io w addr v s >>= read io w addr)
  read-write w addr v s h fits aligned ok = bind-Yields (write-Stores w addr v s ok) λ t g.
      let there = ap remappable aligned ∙ ok in
      weaken-Yields (read-Gives w addr t h there) λ r e.
        let k = bytes w in
        let back = word-put_low k k v addr (memory s) (omega arith) ∙ mod-eq_of_lt fits in
        (e.value_same ∙ rw (aligned, g.memory_put) back, e.held_same ∙ g.held_same)

  -- After a write at one place a read of any width at another place, one whose bytes are not those of
  -- the write, ends well and gives what it gave before the write.
  pub read-write_apart :
      (w u : Width) (addr place v : ℕ) (s : State)
      → place < 2 ^ 64
      → remappable addr ≡ true
      → remappable (read_address u place) ≡ true
      → (read_address u place + bytes u ≤ addr) ⊎ (addr + bytes w ≤ read_address u place)
      → Yields
          (λ old. Yields (λ r. r.0 ≡ old.0) (write io w addr v s >>= read io u place))
          (read io u place s)
  read-write_apart w u addr place v s h ok there apart =
      weaken-Yields (read-Gives u place s h there) λ old e.
        bind-Yields (write-Stores w addr v s ok) λ t g.
          weaken-Yields (read-Gives u place t h there) λ r d.
            let same =
              word-put_apart (bytes u) (bytes w) v addr (read_address u place) (memory s) apart in
            d.value_same ∙ rw g.memory_put same ∙ sym e.value_same

  -- A write of 32 bits goes to the address as it is but a read goes to the multiple of four below
  -- it: a read after a write at the same address gives the bytes below the address as they were read
  -- before, and above them those low bytes of the value that have room.
  pub mmio_read32-mmio_write32 :
      (addr v : ℕ) (s : State)
      → addr < 2 ^ 64
      → remappable addr ≡ true
      → remappable (addr / 4 * 4) ≡ true
      → Yields
          (λ old.
            Yields
              (λ r. r.0 ≡ old.0 % 256 ^ (addr % 4) + v % 256 ^ (4 - addr % 4) * 256 ^ (addr % 4))
              (mmio_write32 io addr v s >>= mmio_read32 io addr))
          (mmio_read32 io addr s)
  unfolding read write bytes read_address
  mmio_read32-mmio_write32 addr v s h ok there =
      weaken-Yields (read-Gives w32 addr s h there) λ old e.
        bind-Yields (write-Stores w32 addr v s ok) λ t g.
          weaken-Yields (read-Gives w32 addr t h there) λ r d.
            let low = addr % 4 in
            let start = addr / 4 * 4 in
            let over =
              word-put_behind 4 low (4 - low) v start addr (memory s) (omega arith) (omega arith) in
            d.value_same ∙ rw (g.memory_put, e.value_same) over
