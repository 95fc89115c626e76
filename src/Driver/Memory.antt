-- ===== src/Driver/Memory.antt =====
-- The memory that BSA_CREATE_INFO_TABLES takes and BSA_FREE_INFO_TABLES gives back.
use linux_acs.Prelude.{
  if◌then◌else◌, ℕ, ◌≡◌, ◌<◌, refl, Bool, false, ◌||◌, none, some, List, [], ◌∷◌, arith,
}
use linux_acs.Driver.{Heap, Drv, Grants, create_tables, free_tables, Pointers, status_available}
use linux_acs.Driver.Slots.{
  IsHeap, addr, past, slot, slots, past-≤, kmalloc-slot, kfree-slots, kfree-fresh,
}

-- Where the seven allocations of a creation that starts at `n` are.
abbrev pe_at : Grants → ℕ → ℕ
pe_at g n = past g.msg_buf n

abbrev pcie_at : Grants → ℕ → ℕ
pcie_at g n = past g.pe_info (pe_at g n)

abbrev per_at : Grants → ℕ → ℕ
per_at g n = past g.pcie_info (pcie_at g n)

abbrev dma_at : Grants → ℕ → ℕ
dma_at g n = past g.per_info (per_at g n)

abbrev iovirt_at : Grants → ℕ → ℕ
iovirt_at g n = past g.dma_info (dma_at g n)

abbrev pub shared_at : Grants → ℕ → ℕ
shared_at g n = past g.iovirt_info (iovirt_at g n)

abbrev end_at : Grants → ℕ → ℕ
end_at g n = past g.shared (shared_at g n)

-- The pointers and the heap after a creation that starts at `n`.
abbrev pub made : Grants → ℕ → Pointers
made g n = record {
  msg_buf = addr g.msg_buf n;
  pe_info = addr g.pe_info (pe_at g n);
  pcie_info = addr g.pcie_info (pcie_at g n);
  per_info = addr g.per_info (per_at g n);
  dma_info = addr g.dma_info (dma_at g n);
  iovirt_info = addr g.iovirt_info (iovirt_at g n);
  shared = addr g.shared (shared_at g n);
}

abbrev shm : Grants → ℕ → Bool × ℕ
shm g n = (g.shared, shared_at g n)

abbrev iov : Grants → ℕ → Bool × ℕ
iov g n = (g.iovirt_info, iovirt_at g n)

abbrev dma : Grants → ℕ → Bool × ℕ
dma g n = (g.dma_info, dma_at g n)

abbrev per : Grants → ℕ → Bool × ℕ
per g n = (g.per_info, per_at g n)

abbrev pci : Grants → ℕ → Bool × ℕ
pci g n = (g.pcie_info, pcie_at g n)

abbrev pe : Grants → ℕ → Bool × ℕ
pe g n = (g.pe_info, pe_at g n)

abbrev tables : Grants → ℕ → List (Bool × ℕ)
tables g n = shm g n ∷ iov g n ∷ dma g n ∷ per g n ∷ pci g n ∷ pe g n ∷ []

abbrev pub filled : Grants → ℕ → List ℕ → Heap
filled g n xs = record { next = end_at g n; live = slots (tables g n) (slot g.msg_buf n xs) }

abbrev pub after_create : Grants → Drv → Drv
after_create g s = record s {
  params = record s.params { arg0 = status_available; arg1 = 0 };
  tests = record { total = 0; pass = 0; fail = 0 };
  tail_msg = 0;
  ptrs = made g s.heap.next;
  heap = filled g s.heap.next s.heap.live;
}

pub create_tables-after_create :
    (g : Grants) (s : Drv) → create_tables g s ≡ some (after_create g s)
unfolding create_tables
create_tables-after_create g s =
    let n = s.heap.next in
    let live = s.heap.live in
    let m = kmalloc-slot g.msg_buf n live in
    let live = slot g.msg_buf n live in
    let pe = kmalloc-slot g.pe_info (pe_at g n) live in
    let live = slot g.pe_info (pe_at g n) live in
    let pci = kmalloc-slot g.pcie_info (pcie_at g n) live in
    let live = slot g.pcie_info (pcie_at g n) live in
    let per = kmalloc-slot g.per_info (per_at g n) live in
    let live = slot g.per_info (per_at g n) live in
    let dma = kmalloc-slot g.dma_info (dma_at g n) live in
    let live = slot g.dma_info (dma_at g n) live in
    let iov = kmalloc-slot g.iovirt_info (iovirt_at g n) live in
    let live = slot g.iovirt_info (iovirt_at g n) live in
    let shm = kmalloc-slot g.shared (shared_at g n) live in rw (m, pe, pci, per, dma, iov, shm) refl

pub end_at-positive : (g : Grants) (n : ℕ) → 0 < n → 0 < end_at g n
end_at-positive g n h =
    let e1 = past-≤ g.msg_buf n in
    let e2 = past-≤ g.pe_info (pe_at g n) in
    let e3 = past-≤ g.pcie_info (pcie_at g n) in
    let e4 = past-≤ g.per_info (per_at g n) in
    let e5 = past-≤ g.dma_info (dma_at g n) in
    let e6 = past-≤ g.iovirt_info (iovirt_at g n) in
    let e7 = past-≤ g.shared (shared_at g n) in omega arith

-- What is left of a creation: the shared memory, if it was granted.
abbrev pub leftover : Grants → ℕ → List ℕ → List ℕ
leftover g n live = slot g.shared (shared_at g n) live

-- The heap after the tables of a creation are freed.
abbrev pub freed : Grants → ℕ → List ℕ → Drv → Drv
freed g n live s = record s { heap = record { next = end_at g n; live = leftover g n live } }

pub free_tables-made :
    (g : Grants) (n : ℕ) (live : List ℕ) (s : Drv)
    → 0 < n
    → s.ptrs ≡ made g n
    → s.heap ≡ filled g n live
    → free_tables s ≡ some (freed g n live s)
unfolding free_tables
free_tables-made g n live s h p q =
    let e1 = past-≤ g.msg_buf n in
    let e2 = past-≤ g.pe_info (pe_at g n) in
    let e3 = past-≤ g.pcie_info (pcie_at g n) in
    let e4 = past-≤ g.per_info (per_at g n) in
    let e6 = past-≤ g.iovirt_info (iovirt_at g n) in
    let e5 = past-≤ g.dma_info (dma_at g n) in
    let end = end_at g n in
    let rest = slot g.msg_buf n live in
    let f1 =
      kfree-slots g.pe_info (pe_at g n) end (shm g n ∷ iov g n ∷ dma g n ∷ per g n ∷ pci g n ∷ [])
        rest (omega arith)
        (omega arith, (omega arith, (omega arith, (omega arith, (omega arith, tt))))) in
    let f2 =
      kfree-slots g.pcie_info (pcie_at g n) end (shm g n ∷ iov g n ∷ dma g n ∷ per g n ∷ []) rest
        (omega arith) (omega arith, (omega arith, (omega arith, (omega arith, tt)))) in
    let f3 =
      kfree-slots g.per_info (per_at g n) end (shm g n ∷ iov g n ∷ dma g n ∷ []) rest (omega arith)
        (omega arith, (omega arith, (omega arith, tt))) in
    let f4 =
      kfree-slots g.dma_info (dma_at g n) end (shm g n ∷ iov g n ∷ []) rest (omega arith)
        (omega arith, (omega arith, tt)) in
    let f5 =
      kfree-slots g.iovirt_info (iovirt_at g n) end (shm g n ∷ []) rest (omega arith)
        (omega arith, tt) in
    let f6 = kfree-slots g.msg_buf n end (shm g n ∷ []) live h (omega arith, tt) in
    rw (p, q, f1, f2, f3, f4, f5, f6) refl

abbrev pub any_granted : Grants → Bool
any_granted g =
    g.pe_info
    || (g.pcie_info || (g.per_info || (g.dma_info || (g.iovirt_info || (g.msg_buf || false)))))

free_tables-freed :
    (g : Grants) (s : Drv)
    → IsHeap s.heap
    → (let u = freed g s.heap.next s.heap.live (after_create g s) in
        free_tables u ≡ (if any_granted g then none else some u))
unfolding free_tables
free_tables-freed g s h =
    let n = s.heap.next in
    let u = freed g n s.heap.live (after_create g s) in
    let e1 = past-≤ g.msg_buf n in
    let e2 = past-≤ g.pe_info (pe_at g n) in
    let e3 = past-≤ g.pcie_info (pcie_at g n) in
    let e4 = past-≤ g.per_info (per_at g n) in
    let e5 = past-≤ g.dma_info (dma_at g n) in
    let e6 = past-≤ g.iovirt_info (iovirt_at g n) in
    let fresh =
      kfree-fresh {B = Drv} n (end_at g n) g.shared (shared_at g n) s.heap.live h.positive
        h.below in
    fresh g.pe_info (pe_at g n) _ _ u (omega arith) (omega arith) (
      fresh g.pcie_info (pcie_at g n) _ _ u (omega arith) (omega arith) (
        fresh g.per_info (per_at g n) _ _ u (omega arith) (omega arith) (
          fresh g.dma_info (dma_at g n) _ _ u (omega arith) (omega arith) (
            fresh g.iovirt_info (iovirt_at g n) _ _ u (omega arith) (omega arith)
              (fresh g.msg_buf n false _ u (omega arith) (omega arith) refl)))))

-- Whichever allocations fail, BSA_CREATE_INFO_TABLES followed by BSA_FREE_INFO_TABLES leaves
-- allocated exactly what was allocated before and, where it was granted, the shared memory, which no
-- command frees. A second BSA_FREE_INFO_TABLES frees memory that is not
-- allocated, since the pointers are kept, as soon as one allocation but the shared memory was granted;
-- where none was, it changes nothing.
pub free_tables-create_tables :
    (g : Grants) (s : Drv)
    → IsHeap s.heap
    → (t : Drv) × (u : Drv) × (create_tables g s ≡ some t)
      × (free_tables t ≡ some u)
      × (u.heap.live ≡ leftover g s.heap.next s.heap.live)
      × (free_tables u ≡ (if any_granted g then none else some u))
free_tables-create_tables g s h = (
  after_create g s,
  freed g s.heap.next s.heap.live (after_create g s),
  create_tables-after_create g s,
  free_tables-made g s.heap.next s.heap.live (after_create g s) h.positive refl refl,
  refl,
  free_tables-freed g s h,
)
