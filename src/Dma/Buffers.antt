-- ===== src/Dma/Buffers.antt =====
-- DMA buffers: pal_dma_mem_alloc and pal_dma_mem_free of
-- bsa-acs-drv/files/platform/pal_linux/files/src/pal_dma.c.
use linux_acs.Prelude.{
  ℕ, ◌+◌, ◌-◌, ◌^◌, ◌≡◌, ◌⊎◌, ◌<◌, inl, inr, refl, Bool, true, false, ◌&&◌, ◌==◌, if◌then◌else◌,
  Option, none, some, List, [], ◌∷◌, ◌>>=◌, Option-cases, Bool-cases, arith,
}
use linux_acs.Driver.{Heap, kmalloc, kfree, remove}
use linux_acs.Driver.Slots.{kfree-slots}

-- What the kernel has given out: coherent buffers with their bus addresses, what kmalloc gave, and
-- the bus addresses of mapped buffers.
pub record Dma : Type 0 where
  pub coherent : List (ℕ × ℕ)
  pub heap : Heap
  pub mapped : List ℕ

-- The kernel's answers to one call: dmam_alloc_coherent, a buffer with its bus address, whether
-- kmalloc grants, and dma_map_single for an address, `none` where dma_mapping_error holds.
pub record DmaAnswers : Type 0 where
  pub coherent : Option (ℕ × ℕ)
  pub granted : Bool
  pub map : ℕ → Option ℕ

-- The result: a bus address, or one of the two error numbers as an unsigned 64-bit value; what is
-- stored in `*buffer`, 0 for null; and the kernel's state.
pub record Allocated : Type 0 where
  pub ret : ℕ
  pub buffer : ℕ
  pub dma : Dma

-- DMA_COHERENT is in a header of the validation layer: the Boolean is the test of the flags.
-- -ENOMEM and -1 as 64-bit words.
abbrev pub enomem : ℕ
enomem = 2 ^ 64 - 12

abbrev pub map_error : ℕ
map_error = 2 ^ 64 - 1

abbrev with_coherent : Dma → ℕ × ℕ → Dma
with_coherent s x = record s { coherent = x ∷ s.coherent }

abbrev with_mapped : Dma → Heap → ℕ → Dma
with_mapped s h addr = record s { heap = h; mapped = addr ∷ s.mapped }

-- After kmalloc. Where the mapping fails the buffer is freed, and `*buffer` keeps its address. `none`
-- is a free of what is not allocated, or a memset through null, which was mapped.
unfoldable pub map_buffer : (ℕ → Option ℕ) → ℕ → Heap → Dma → Option Allocated
unfolding kfree
map_buffer map b h s = elim (map b) [
  | none ↦ kfree b h >>= λ h'.
      some (record { ret = map_error; buffer = b; dma = record s { heap = h' } })
  | some addr ↦
      if b == 0 then none else some (record { ret = addr; buffer = b; dma = with_mapped s h addr })
]

unfoldable pub mem_alloc : Bool → DmaAnswers → Dma → Option Allocated
unfolding kmalloc map_buffer
mem_alloc true w s = elim w.coherent [
  | none ↦ some (record { ret = enomem; buffer = 0; dma = s })
  | some x ↦ some (record { ret = x.1; buffer = x.0; dma = with_coherent s x })
]
mem_alloc false w s = let (b, h) = kmalloc w.granted s.heap in map_buffer w.map b h s

unfoldable pub remove_pair : ℕ × ℕ → List (ℕ × ℕ) → Option (List (ℕ × ℕ))
remove_pair a [] = none
remove_pair a (x ∷ xs) =
    let rest = remove_pair a xs >>= λ ys. some (x ∷ ys) in
    if a.0 == x.0 && a.1 == x.1 then some xs else rest

-- For a buffer and a bus address. `none`: no such buffer was given out with this bus address, no
-- buffer is mapped there, or what is freed is not allocated.
unfoldable pub mem_free : Bool → ℕ → ℕ → Dma → Option Dma
unfolding remove_pair remove kfree
mem_free true buffer mem_dma s =
    remove_pair (buffer, mem_dma) s.coherent >>= λ xs. some (record s { coherent = xs })
mem_free false buffer mem_dma s = do
  ms ← remove mem_dma s.mapped
  h ← kfree buffer s.heap
  some (record s { heap = h; mapped = ms })

-- The case that the code does not test: null is mapped.
abbrev pub NullMapped : Bool → DmaAnswers → Type 0
NullMapped c w = (c ≡ false) × (w.granted ≡ false) × ((addr : ℕ) × (w.map 0 ≡ some addr))

-- The same is given out in both states; addresses may have been used up in between.
pub record SameOut (s t : Dma) : Type 0 where
  pub coherent : t.coherent ≡ s.coherent
  pub live : t.heap.live ≡ s.heap.live
  pub mapped : t.mapped ≡ s.mapped

-- A call that ended: with an error number and nothing more given out than before, or with a buffer
-- and a bus address, and then pal_dma_mem_free of these gives back all of it.
abbrev pub IsSettled : Bool → DmaAnswers → Dma → Allocated → Type 0
IsSettled c w s r =
    SameOut s r.dma × ((r.ret ≡ enomem) ⊎ (r.ret ≡ map_error))
    ⊎ ((t : Dma) × (mem_free c r.buffer r.ret r.dma ≡ some t) × SameOut s t)

unchanged : (s : Dma) → SameOut s s
unchanged s = record { coherent = refl; live = refl; mapped = refl }

-- The latest buffer is freed.
kfree-latest :
    (s : Dma)
    → 0 < s.heap.next
    → kfree s.heap.next (record { next = s.heap.next + 1; live = s.heap.next ∷ s.heap.live })
      ≡ some (record { next = s.heap.next + 1; live = s.heap.live })
kfree-latest s h = kfree-slots true s.heap.next (s.heap.next + 1) [] s.heap.live h tt

remove-latest : (a : ℕ) (xs : List ℕ) → remove a (a ∷ xs) ≡ some xs
unfolding remove
remove-latest a xs = ground arith

remove_pair-latest : (x : ℕ × ℕ) (xs : List (ℕ × ℕ)) → remove_pair (x.0, x.1) (x ∷ xs) ≡ some xs
unfolding remove_pair
remove_pair-latest x xs = ground arith

map_buffer-unmapped :
    (map : ℕ → Option ℕ) (b : ℕ) (h h' : Heap) (s : Dma)
    → map b ≡ none
    → kfree b h ≡ some h'
    → map_buffer map b h s
      ≡ some (record { ret = map_error; buffer = b; dma = record s { heap = h' } })
unfolding map_buffer
map_buffer-unmapped map b h h' s e f = rw (e, f, map_buffer) refl

map_buffer-mapped :
    (map : ℕ → Option ℕ) (b addr : ℕ) (h : Heap) (s : Dma)
    → map b ≡ some addr
    → 0 < b
    → map_buffer map b h s ≡ some (record { ret = addr; buffer = b; dma = with_mapped s h addr })
unfolding map_buffer
map_buffer-mapped map b addr h s e p =
    let n : (b == 0) ≡ false = ground arith in rw (e, n, map_buffer) refl

-- Unless kmalloc fails for a buffer that is not coherent and the kernel maps null all the same,
-- pal_dma_mem_alloc ends, either with an error number and nothing given out that was not before, or
-- with a buffer and a bus address, after which pal_dma_mem_free of these two gives back all that was
-- given out. The kernel gives out no address 0.
pub mem_alloc-IsSettled :
    (c : Bool) (w : DmaAnswers) (s : Dma)
    → 0 < s.heap.next
    → ¬ NullMapped c w
    → (r : Allocated) × (mem_alloc c w s ≡ some r) × IsSettled c w s r
unfolding mem_alloc mem_free kmalloc kfree
mem_alloc-IsSettled true w s p h = elim (Option-cases w.coherent) [
  | inl e ↦ (record { ret = enomem; buffer = 0; dma = s }, rw e refl, inl (unchanged s, inl refl))
  | inr (x, e) ↦ (
    record { ret = x.1; buffer = x.0; dma = with_coherent s x },
    rw e refl,
    inr (s, rw (remove_pair-latest x s.coherent) refl, unchanged s),
  )
]
mem_alloc-IsSettled false w s p h = elim (Bool-cases w.granted) [
  | inl g ↦
      let b = s.heap.next in
      let taken : Heap = record { next = b + 1; live = b ∷ s.heap.live } in
      let given : Heap = record { next = b + 1; live = s.heap.live } in
      let back = kfree-latest s p in
      let after : Dma = record s { heap = given } in
      let same : SameOut s after = record { coherent = refl; live = refl; mapped = refl } in
      elim (Option-cases (w.map b)) [
        | inl e ↦ (
          record { ret = map_error; buffer = b; dma = after },
          rw g (map_buffer-unmapped w.map b taken given s e back),
          inl (same, inr refl),
        )
        | inr (addr, e) ↦ (
          record { ret = addr; buffer = b; dma = with_mapped s taken addr },
          rw g (map_buffer-mapped w.map b addr taken s e p),
          inr (after, rw (remove-latest addr s.mapped, back) refl, same),
        )
      ]
  | inr g ↦ elim (Option-cases (w.map 0)) [
    | inl e ↦ (
      record { ret = map_error; buffer = 0; dma = s },
      rw g (map_buffer-unmapped w.map 0 s.heap s.heap s e refl),
      inl (unchanged s, inr refl),
    )
    | inr m ↦ absurd (h (refl, g, m))
  ]
]
