-- ===== src/Mmio/Tests.antt =====
-- A kernel that maps below 2^48 over a plain memory, and runs of the access functions on it.
use linux_acs.Prelude.{
  ℕ, ◌+◌, ◌-◌, ◌*◌, ◌%◌, ◌^◌, ◌≤◌, ◌≡◌, refl, false, ◌&&◌, Option, none, some, List, [], ◌∷◌, ◌>>=◌,
  ◌↔◌, Yields, yields, arith, ltb, leb, ◌==◌, if◌then◌else◌,
}
use linux_acs.Mmio.Words.{Bytes, word, put}
use linux_acs.Mmio.{Io, read_through, write_through}
use linux_acs.Mmio.Device.{Window, Device}
use linux_acs.Mmio.Ffa.{mmio_read32, mmio_write32}
use linux_acs.Mmio.Bsa.{bsa_mmio_read}
use linux_acs.Mmio.Access.{
  w8, w16, w64, bytes, read_address, read, write, read-write, mmio_read32-mmio_write32,
}
use linux_acs.Mmio.Halves.{half, bsa_read, bsa_write, bsa_read_halves-bsa_write, bsa_faults_iff}
use linux_acs.Mmio.Pasids.{max_pasids}
use linux_acs.Mmio.Session.{held_writes, single_writes, held_writes-single_writes}
use linux_acs.Mmio.Watchdog.{ns_wdog_enable}

record Plain : Type 0 where
  bytes : Bytes
  windows : List Window

-- The physical address behind a pointer into the latest mapping.
unfoldable behind : List Window → ℕ → ℕ → Option ℕ
behind [] k q = none
behind (w ∷ ws) k q =
    if leb w.pointer q && leb (q - w.pointer + k) w.size
    then some (w.address + (q - w.pointer))
    else none

behind-inside :
    (w : Window) (ws : List Window) (k offset : ℕ)
    → offset + k ≤ w.size
    → behind (w ∷ ws) k (w.pointer + offset) ≡ some (w.address + offset)
unfolding behind
behind-inside w ws k offset h =
    let e : w.pointer + offset - w.pointer ≡ offset = omega arith in rw e (ground arith)

unfoldable drop : ℕ → List Window → Option (List Window)
drop p [] = none
drop p (w ∷ ws) = if w.pointer == p then some ws else none

drop-first : (w : Window) (ws : List Window) → drop w.pointer (w ∷ ws) ≡ some ws
unfolding drop
drop-first w ws = ground arith

abbrev plain : Io
plain = record {
  State = Plain;
  ioremap = λ addr size s.
      if ltb addr (2 ^ 48)
      then some (
        addr + 2 ^ 48,
        record s {
          windows = record { pointer = addr + 2 ^ 48; address = addr; size = size } ∷ s.windows;
        },
      )
      else none;
  ioread = λ k q s. behind s.windows k q >>= λ a. some (word k s.bytes a, s);
  iowrite = λ k v q s. behind s.windows k q >>= λ a. some (record s { bytes = put k v a s.bytes });
  iounmap = λ p s. drop p s.windows >>= λ ws. some (record s { windows = ws });
}

abbrev plain_device : Device plain
plain_device = record {
  remappable = λ addr. ltb addr (2 ^ 48);
  memory = λ s. s.bytes;
  held = λ s. s.windows;
  refuses = λ addr size s h. rw h refl;
  remaps = λ addr size s h. rw h (yields (refl, refl));
  reads = λ k offset w ws s top inside. rw (top, behind-inside w ws k offset inside) refl;
  writes = λ k v offset w ws s top inside.
      rw (top, behind-inside w ws k offset inside) (yields (refl, refl));
  unmaps = λ w ws s top. rw (top, drop-first w ws) (yields (refl, refl));
}

abbrev start : Plain
start = record { bytes = λ a. 0x11; windows = [] }

abbrev value_of : Option (ℕ × Plain) → Option ℕ
value_of r = r >>= λ x. some x.0

-- The write goes to 0x1003, the read to 0x1000.
unaligned_run :
    value_of (mmio_write32 plain 0x1003 0xaabbccdd start >>= mmio_read32 plain 0x1003)
    ≡ some 0xdd111111
unfolding mmio_write32 mmio_read32 read_through write_through behind drop word put
unaligned_run = refl

refused_run : mmio_read32 plain (2 ^ 50) start ≡ none
unfolding mmio_read32 read_through
refused_run = refl

read-write_example :
    Yields
      (λ r. (r.0 ≡ 0x1234) × (r.1.windows ≡ []))
      (write plain w16 0x1001 0x1234 start >>= read plain w16 0x1001)
unfolding bytes read_address
read-write_example =
    read-write plain plain_device w16 0x1001 0x1234 start (omega arith) (omega arith) refl refl

mmio_read32-mmio_write32_example :
    Yields
      (λ old.
        Yields
          (λ r. r.0 ≡ old.0 % 256 ^ (0x1003 % 4) + 7 % 256 ^ (4 - 0x1003 % 4) * 256 ^ (0x1003 % 4))
          (mmio_write32 plain 0x1003 7 start >>= mmio_read32 plain 0x1003))
      (mmio_read32 plain 0x1003 start)
mmio_read32-mmio_write32_example =
    mmio_read32-mmio_write32 plain plain_device 0x1003 7 start (omega arith) refl refl

bsa_read_halves-bsa_write_example :
    Yields
      (λ low.
        Yields
          (λ high. low.0 + high.0 * 256 ^ bytes (half w64) ≡ 0x123456789a)
          (bsa_read plain (half w64) (0x1000 + bytes (half w64)) low.1))
      (bsa_write plain w64 0x1000 0x123456789a start >>= bsa_read plain (half w64) 0x1000)
unfolding bytes half read_address
bsa_read_halves-bsa_write_example =
    bsa_read_halves-bsa_write plain plain_device w64 0x1000 0x123456789a start (λ e. cc e)
      (omega arith) (omega arith) refl refl refl refl

bsa_faults_iff_example :
    ((bsa_read plain w8 (2 ^ 50) start ≡ none) ↔ (ltb (read_address w8 (2 ^ 50)) (2 ^ 48) ≡ false))
    × ((bsa_write plain w8 (2 ^ 50) 1 start ≡ none) ↔ (ltb (2 ^ 50) (2 ^ 48) ≡ false))
bsa_faults_iff_example = bsa_faults_iff plain plain_device w8 (2 ^ 50) 1 start (omega arith)

-- The control and the offset register of a watchdog frame.
abbrev registers : List (ℕ × ℕ)
registers = (8, 100) ∷ (0, 1) ∷ []

-- Every byte is 0x11, so the field of the register has the value 4.
pasids_run : value_of (max_pasids plain 0x2b400000 start) ≡ some 16
unfolding max_pasids bsa_mmio_read read_through behind drop word
pasids_run = refl

-- The watchdog runs with 100 in its offset register, and is disabled again.
watchdog_run :
    value_of (ns_wdog_enable plain 100 start >>= mmio_read32 plain (0x2A440000 + 8)) ≡ some 100
unfolding ns_wdog_enable mmio_write32 mmio_read32 read_through write_through behind drop word put
watchdog_run = refl

-- Two writes through one mapping that overlap by two bytes.
abbrev two_writes : List (ℕ × ℕ)
two_writes = (0, 0x11223344) ∷ (2, 0xaabbccdd) ∷ []

held_writes-single_writes_example :
    Yields
      (λ (t : Plain).
        Yields
          (λ (u : Plain). (t.bytes ≡ u.bytes) × (t.windows ≡ u.windows))
          (single_writes plain 0x1000 two_writes start))
      (held_writes plain 0x1000 two_writes start)
held_writes-single_writes_example =
    held_writes-single_writes plain plain_device 0x1000 two_writes start
      (omega arith, (omega arith, tt)) refl (refl, (refl, tt))
