-- ===== src/Peripheral/Table.antt =====
-- The peripheral table, device by device.
use linux_acs.Prelude.{
  ℕ, ◌+◌, ◌≡◌, refl, sym, ap, ◌∙◌, Bool, true, false, none, some, List, [], ◌∷◌, ◌++◌, ◌==◌, map,
  length, inl, inr, Bool-cases, if◌then◌else◌, append-nil, append_assoc, arith,
}
use linux_acs.Bdf.{PciCore}
use linux_acs.Peripheral.{
  Device, Type', usb, sata, other, Block, InfoTable, usb_classcode, sata_classcode, common, visit,
  visit_all, peripheral_create_info_table,
}

abbrev pub type_of : Device → Type'
type_of d =
    if d.pdev.class == usb_classcode
    then usb
    else (if d.pdev.class == sata_classcode then sata else other)

abbrev pub block_of : PciCore → Device → Block
block_of k d = common k d (type_of d) (elim (type_of d) [ sata ↦ some (d.bar 5) | _ ↦ none ])

abbrev same_type : Type' → Type' → Bool
same_type usb usb = true
same_type sata sata = true
same_type other other = true
same_type _ _ = false

-- The number of devices of a type.
abbrev pub count : Type' → List Device → ℕ
count t [] = 0
count t (d ∷ ds) = if same_type t (type_of d) then count t ds + 1 else count t ds

-- The table with the blocks of more devices.
abbrev grown : PciCore → List Device → InfoTable → InfoTable
grown k ds t = record t {
  num_usb = t.num_usb + count usb ds;
  num_sata = t.num_sata + count sata ds;
  num_all = t.num_all + length ds;
  info = t.info ++ map (block_of k) ds;
}

table-≡ :
    {a b : InfoTable}
    → a.num_usb ≡ b.num_usb
    → a.num_sata ≡ b.num_sata
    → a.num_uart ≡ b.num_uart
    → a.num_all ≡ b.num_all
    → a.info ≡ b.info
    → a.ended ≡ b.ended
    → a ≡ b
table-≡ e f g h i j = cc

visit-grown : (k : PciCore) (d : Device) (t : InfoTable) → visit k d t ≡ grown k (d ∷ []) t
unfolding visit
visit-grown k d t = elim (Bool-cases (d.pdev.class == usb_classcode)) [
  | inl u ↦ rw u (table-≡ refl (omega arith) refl refl refl refl)
  | inr u ↦ elim (Bool-cases (d.pdev.class == sata_classcode)) [
    | inl s ↦ rw (u, s) (table-≡ (omega arith) refl refl refl refl refl)
    | inr s ↦ rw (u, s) (table-≡ (omega arith) (omega arith) refl refl refl refl)
  ]
]

grown-grown :
    (k : PciCore) (d : Device) (ds : List Device) (t : InfoTable)
    → grown k ds (grown k (d ∷ []) t) ≡ grown k (d ∷ ds) t
grown-grown k d ds t =
    table-≡ (count_cons t.num_usb usb) (count_cons t.num_sata sata) refl (omega arith)
      (append_assoc t.info (block_of k d ∷ []) (map (block_of k) ds)) refl
  where
    count_cons : (n : ℕ) (x : Type') → n + count x (d ∷ []) + count x ds ≡ n + count x (d ∷ ds)
    count_cons n x = elim (Bool-cases (same_type x (type_of d))) [
      | inl e ↦ rw e (omega arith)
      | inr e ↦ rw e (omega arith)
    ]

visit_all-grown : (k : PciCore) (ds : List Device) (t : InfoTable) → visit_all k ds t ≡ grown k ds t
unfolding visit_all
visit_all-grown k [] t =
    table-≡ (omega arith) (omega arith) refl (omega arith) (sym (append-nil t.info)) refl
visit_all-grown k (d ∷ ds) t =
    visit_all-grown k ds (visit k d t) ∙ ap (grown k ds) (visit-grown k d t) ∙ grown-grown k d ds t

-- The peripheral table has one block for each PCI device, in the order of the kernel, with the
-- type of its class and the second base for SATA controllers only; the USB, SATA and all devices are
-- counted, no UART is, and the end of the table is marked.
pub peripheral_create_info_table-blocks :
    (k : PciCore) (ds : List Device)
    → peripheral_create_info_table k ds ≡ record {
      num_usb = count usb ds;
      num_sata = count sata ds;
      num_uart = 0;
      num_all = length ds;
      info = map (block_of k) ds;
      ended = true;
    }
unfolding peripheral_create_info_table
peripheral_create_info_table-blocks k ds =
    ap (λ (t : InfoTable). record t { ended = true }) (visit_all-grown k ds _)
    ∙ table-≡ (omega arith) (omega arith) refl (omega arith) refl refl
