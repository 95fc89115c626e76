-- ===== src/Mmio/Halves.antt =====
-- The access functions of bsa-acs-drv/files/platform/pal_linux/files/src/pal_misc.c: they are those of
-- the FF-A layer, wide registers in halves, and what a refused mapping leads to.
use linux_acs.Prelude.{
  ℕ, ◌+◌, ◌*◌, ◌^◌, ◌<◌, ◌≡◌, ◌≢◌, ◌↔◌, refl, ap, sym, ◌∙◌, Bool, true, false, Option, none, some,
  ◌>>=◌, Yields, of_Yields, bind-Yields, weaken-Yields, arith,
}
use native.Mathlib.Nat.{mod-eq_of_lt}
use linux_acs.Mmio.Words.{word, put, word-append, word-put_low}
use linux_acs.Mmio.{Io}
use linux_acs.Mmio.Device.{Device}
use linux_acs.Mmio.Access.{
  Width, w8, w16, w32, w64, bytes, read_address, read, write, read-Gives, write-Stores,
  read-refused, write-refused,
}
use linux_acs.Mmio.Ffa.{
  mmio_read8, mmio_read16, mmio_read32, mmio_read64, mmio_write8, mmio_write16, mmio_write32,
  mmio_write64,
}
use linux_acs.Mmio.Bsa.{
  bsa_mmio_read8, bsa_mmio_read16, bsa_mmio_read, bsa_mmio_read64, bsa_mmio_write8,
  bsa_mmio_write16, bsa_mmio_write, bsa_mmio_write64,
}

-- The width of a half.
unfoldable pub half : Width → Width
half w8 = w8
half w16 = w8
half w32 = w16
half w64 = w32

two_halves : (w : Width) → w ≢ w8 → bytes (half w) + bytes (half w) ≡ bytes w
unfolding half bytes
two_halves w8 h = absurd (h refl)
two_halves w16 h = refl
two_halves w32 h = refl
two_halves w64 h = refl

lt_half : (w : Width) (addr : ℕ) → addr + 8 < 2 ^ 64 → addr + bytes (half w) < 2 ^ 64
unfolding half bytes
lt_half w8 addr h = omega arith
lt_half w16 addr h = omega arith
lt_half w32 addr h = omega arith
lt_half w64 addr h = omega arith

ends {ℓ} : {A : Type ℓ} {m : Option A} {a : A} → m ≡ some a → m ≢ none
ends e = cc

-- What ends well where a test holds does not hold of a fault.
no_mapping {ℓ κ} :
    {A : Type ℓ} {P : A → Type κ} {m : Option A} (ok : Bool)
    → (ok ≡ true → Yields P m)
    → m ≡ none
    → ok ≡ false
no_mapping true f e = let y = of_Yields (f refl) in absurd (ends y.1 e)
no_mapping false f e = refl

module _ (io : Io) where
  open io use {State}

  unfoldable pub bsa_read : Width → ℕ → State → Option (ℕ × State)
  bsa_read w8 = bsa_mmio_read8 io
  bsa_read w16 = bsa_mmio_read16 io
  bsa_read w32 = bsa_mmio_read io
  bsa_read w64 = bsa_mmio_read64 io

  unfoldable pub bsa_write : Width → ℕ → ℕ → State → Option State
  bsa_write w8 = bsa_mmio_write8 io
  bsa_write w16 = bsa_mmio_write16 io
  bsa_write w32 = bsa_mmio_write io
  bsa_write w64 = bsa_mmio_write64 io

  pub bsa_read-read : (w : Width) → bsa_read w ≡ read io w
  unfolding bsa_read read mmio_read8 mmio_read16 mmio_read32 mmio_read64 bsa_mmio_read8
      bsa_mmio_read16 bsa_mmio_read bsa_mmio_read64
  bsa_read-read w8 = refl
  bsa_read-read w16 = refl
  bsa_read-read w32 = refl
  bsa_read-read w64 = refl

  bsa_write-write : (w : Width) → bsa_write w ≡ write io w
  unfolding bsa_write write mmio_write8 mmio_write16 mmio_write32 mmio_write64 bsa_mmio_write8
      bsa_mmio_write16 bsa_mmio_write bsa_mmio_write64
  bsa_write-write w8 = refl
  bsa_write-write w16 = refl
  bsa_write-write w32 = refl
  bsa_write-write w64 = refl

module _ (io : Io) (dev : Device io) where
  open io use {State}
  open dev use {remappable, memory, held}

  -- A value that is written to a register of 16, 32 or 64 bits is read back in two halves, the low one
  -- first, if the addresses are multiples of four where a half has 32 bits and mappings are granted.
  pub bsa_read_halves-bsa_write :
      (w : Width) (addr v : ℕ) (s : State)
      → w ≢ w8
      → addr + 8 < 2 ^ 64
      → v < 256 ^ bytes w
      → read_address (half w) addr ≡ addr
      → read_address (half w) (addr + bytes (half w)) ≡ addr + bytes (half w)
      → remappable addr ≡ true
      → remappable (addr + bytes (half w)) ≡ true
      → Yields
          (λ low.
            Yields
              (λ high. low.0 + high.0 * 256 ^ bytes (half w) ≡ v)
              (bsa_read io (half w) (addr + bytes (half w)) low.1))
          (bsa_write io w addr v s >>= bsa_read io (half w) addr)
  bsa_read_halves-bsa_write w addr v s wide h fits here there ok ok' =
      let u = half w in
      let k = bytes u in
      rw (bsa_write-write io w, bsa_read-read io u)
        (bind-Yields (write-Stores io dev w addr v s ok) λ t g.
          let in_low = ap remappable here ∙ ok in
          let in_high = ap remappable there ∙ ok' in
          weaken-Yields (read-Gives io dev u addr t (omega arith) in_low) λ low e.
            weaken-Yields (read-Gives io dev u (addr + k) low.1 (lt_half w addr h) in_high)
              λ high d.
                let c = put (bytes w) v addr (memory s) in
                let whole : word k c addr + word k c (addr + k) * 256 ^ k ≡ v =
                  sym (word-append k k addr c)
                  ∙ ap (λ (n : ℕ). word n c addr) (two_halves w wide)
                  ∙ word-put_low (bytes w) (bytes w) v addr (memory s) (omega arith)
                  ∙ mod-eq_of_lt fits in
                rw (e.value_same, d.value_same, e.memory_same, here, there, g.memory_put) whole)

  read-none_iff :
      (w : Width) (addr : ℕ) (s : State)
      → addr < 2 ^ 64
      → (read io w addr s ≡ none) ↔ (remappable (read_address w addr) ≡ false)
  read-none_iff w addr s h = (
    no_mapping (remappable (read_address w addr)) (read-Gives io dev w addr s h),
    read-refused io dev w addr s h,
  )

  write-none_iff :
      (w : Width) (addr v : ℕ) (s : State)
      → (write io w addr v s ≡ none) ↔ (remappable addr ≡ false)
  write-none_iff w addr v s = (
    no_mapping (remappable addr) (write-Stores io dev w addr v s),
    write-refused io dev w addr v s,
  )

  -- A read ends in a fault just where no mapping is granted for the place it reads, and a write just
  -- where none is granted for its address.
  pub bsa_faults_iff :
      (w : Width) (addr v : ℕ) (s : State)
      → addr < 2 ^ 64
      → ((bsa_read io w addr s ≡ none) ↔ (remappable (read_address w addr) ≡ false))
        × ((bsa_write io w addr v s ≡ none) ↔ (remappable addr ≡ false))
  bsa_faults_iff w addr v s h =
      rw (bsa_read-read io w, bsa_write-write io w)
        (read-none_iff w addr s h, write-none_iff w addr v s)
