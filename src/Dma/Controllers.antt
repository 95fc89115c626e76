-- ===== src/Dma/Controllers.antt =====
-- What the DMA table holds.
use linux_acs.Prelude.{
  ℕ, ◌+◌, ◌≡◌, refl, sym, ◌∙◌, Bool, none, some, Option-cases, inl, inr, List, [], ◌∷◌, ◌++◌,
  append-nil, append_assoc, length, length-append, arith,
}
use linux_acs.Dma.{
  Host, DmaEntry, DmaTable, entry_flags, device_loop, host_loop, dma_create_info_table,
}

abbrev pub entries_of : Host → Bool → List ℕ → List DmaEntry
entries_of h attached [] = []
entries_of h attached (type ∷ types) =
    record { host = h.number; flags = entry_flags h attached; type = type }
    ∷ entries_of h attached types

-- The entries of the hosts that have an ATA port, and the number of those that have none.
abbrev pub all_entries : List Host → List DmaEntry
all_entries [] = []
all_entries (h ∷ hs) = elim h.port [
  | none ↦ all_entries hs
  | some attached ↦ entries_of h attached h.devices ++ all_entries hs
]

abbrev pub without_port : List Host → ℕ
without_port [] = 0
without_port (h ∷ hs) = elim h.port [ none ↦ without_port hs + 1 | some attached ↦ without_port hs ]

abbrev pub table : ℕ → List DmaEntry → ℕ → DmaTable
table n xs held = record { num_dma_ctrls = n; info = xs; held = held }

table-≡ :
    {n m : ℕ} {xs ys : List DmaEntry} {a b : ℕ}
    → n ≡ m
    → xs ≡ ys
    → a ≡ b
    → table n xs a ≡ table m ys b
table-≡ p q r = rw (p, q, r) refl

device_loop-entries_of :
    (h : Host) (attached : Bool) (types : List ℕ) (n : ℕ) (xs : List DmaEntry) (held : ℕ)
    → device_loop h attached types (table n xs held)
      ≡ table (n + length (entries_of h attached types)) (xs ++ entries_of h attached types) held
unfolding device_loop
device_loop-entries_of h attached [] n xs held = table-≡ (omega arith) (sym (append-nil xs)) refl
device_loop-entries_of h attached (type ∷ types) n xs held =
    let e : DmaEntry = record { host = h.number; flags = entry_flags h attached; type = type } in
    device_loop-entries_of h attached types (n + 1) (xs ++ e ∷ []) held
    ∙ table-≡ (omega arith) (append_assoc xs (e ∷ []) (entries_of h attached types)) refl

host_loop-all_entries :
    (hs : List Host) (n : ℕ) (xs : List DmaEntry) (held : ℕ)
    → host_loop hs (table n xs held)
      ≡ table (n + length (all_entries hs)) (xs ++ all_entries hs) (held + without_port hs)
unfolding host_loop
host_loop-all_entries [] n xs held = table-≡ (omega arith) (sym (append-nil xs)) (omega arith)
host_loop-all_entries (h ∷ hs) n xs held = elim (Option-cases h.port) [
  | inl e ↦
      rw (e, host_loop, all_entries, without_port)
        (host_loop-all_entries hs n xs (held + 1) ∙ table-≡ refl refl (omega arith))
  | inr (attached, e) ↦
      let new = entries_of h attached h.devices in
      let size = length-append new (all_entries hs) in
      rw
        (
          e,
          host_loop,
          all_entries,
          without_port,
          device_loop-entries_of h attached h.devices n xs held,
        )
        (host_loop-all_entries hs (n + length new) (xs ++ new) held
          ∙ table-≡ (omega arith) (append_assoc xs new (all_entries hs)) refl)
]

-- The DMA table has one entry for each device of each SCSI host with an ATA port, in order, with
-- the attributes of the host and the mark of the SMMU, and counts them. A reference stays held
-- for each host without an ATA port.
pub dma_create_info_table-all_entries :
    (hs : List Host)
    → dma_create_info_table hs ≡ table (length (all_entries hs)) (all_entries hs) (without_port hs)
unfolding dma_create_info_table
dma_create_info_table-all_entries hs =
    host_loop-all_entries hs 0 [] 0 ∙ table-≡ (omega arith) refl (omega arith)
