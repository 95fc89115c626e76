-- ===== src/Peripheral.antt =====
-- The peripherals of the machine: bsa-acs-drv/files/platform/pal_linux/files/src/pal_peripherals.c.
pub mod Table
mod Tests
use linux_acs.Prelude.{
  ℕ, ◌+◌, Bool, true, false, ◌||◌, Option, none, some, List, [], ◌∷◌, ◌++◌, ◌==◌, if◌then◌else◌,
}
use linux_acs.Bdf.{PciDev, PciCore, get_bdf}

-- A device as pci_get_device returns it: its address and class, its BARs (pal_pcie_get_base), the
-- MSI bits, pci_irq_vector(pdev, 0), and pci_max_pasids, `none` where that is negative.
pub record Device : Type 0 where
  pub pdev : PciDev
  pub bar : ℕ → ℕ
  pub msi_enabled : Bool
  pub msix_enabled : Bool
  pub irq_vector : ℕ
  pub max_pasids : Option ℕ

-- PERIPHERAL_TYPE_*, the numbers of which are in a header of the validation layer.
pub data Type' : Type 0 where
  usb sata other : Type'

-- PERIPHERAL_INFO_BLOCK; `base1` is `none` where the code does not write it.
pub record Block : Type 0 where
  pub type : Type'
  pub base0 : ℕ
  pub base1 : Option ℕ
  pub bdf : ℕ
  pub msi : Bool
  pub msix : Bool
  pub flags : ℕ
  pub irq : ℕ
  pub max_pasids : ℕ

-- PERIPHERAL_INFO_TABLE: the header, the blocks that were written, and whether the type 0xFF
-- stands behind them.
pub record InfoTable : Type 0 where
  pub num_usb : ℕ
  pub num_sata : ℕ
  pub num_uart : ℕ
  pub num_all : ℕ
  pub info : List Block
  pub ended : Bool

abbrev pub usb_classcode : ℕ
usb_classcode = 0x0C0330

abbrev pub sata_classcode : ℕ
sata_classcode = 0x010601

-- PER_FLAG_MSI_ENABLED of pal_linux.h.
abbrev pub msi_flag : ℕ
msi_flag = 0x2

module _ (k : PciCore) where
  -- What every device gets, before the switch.
  abbrev pub common : Device → Type' → Option ℕ → Block
  common d type base1 = record {
    type = type;
    base0 = d.bar 0;
    base1 = base1;
    bdf = get_bdf k d.pdev;
    msi = d.msi_enabled;
    msix = d.msix_enabled;
    flags = if d.msi_enabled || d.msix_enabled then msi_flag else 0;
    irq = d.irq_vector;
    max_pasids = elim d.max_pasids [ none ↦ 0 | some n ↦ n ];
  }

  -- One turn of the loop.
  unfoldable pub visit : Device → InfoTable → InfoTable
  visit d t =
      let t = record t { num_all = t.num_all + 1 } in
      if d.pdev.class == usb_classcode
      then record t { num_usb = t.num_usb + 1; info = t.info ++ common d usb none ∷ [] }
      else (if d.pdev.class == sata_classcode
          then record t {
            num_sata = t.num_sata + 1;
            info = t.info ++ common d sata (some (d.bar 5)) ∷ [];
          }
          else record t { info = t.info ++ common d other none ∷ [] })

  unfoldable pub visit_all : List Device → InfoTable → InfoTable
  unfolding visit
  visit_all [] t = t
  visit_all (d ∷ ds) t = visit_all ds (visit d t)

  -- pal_peripheral_create_info_table
  unfoldable pub peripheral_create_info_table : List Device → InfoTable
  unfolding visit_all
  peripheral_create_info_table ds =
      let t = visit_all ds (record {
        num_usb = 0;
        num_sata = 0;
        num_uart = 0;
        num_all = 0;
        info = [];
        ended = false;
      }) in
      record t { ended = true }

  -- pal_peripheral_is_pcie, with pci_is_pcie of the kernel.
  unfoldable pub is_pcie : (PciDev → Bool) → ℕ → ℕ → ℕ → ℕ → ℕ
  is_pcie pci_is_pcie seg bus dev fn =
      elim (k.get_domain_bus_and_slot seg bus (k.devfn_of dev fn)) [
        | none ↦ 0
        | some p ↦ if pci_is_pcie p then 1 else 0
      ]

-- The functions of the kernel that pal_memory_ioremap chooses from.
pub data Remap : Type 0 where
  remap_cfgspace ioremap ioremap_wc ioremap_wt : Remap

-- pal_memory_ioremap, by attr: DEVICE_nGnRnE to NORMAL_WT of pal_exerciser.h.
unfoldable pub memory_ioremap : ℕ → Remap
memory_ioremap attr =
    if attr == 0x0
    then remap_cfgspace
    else (if attr == 0x1
        then ioremap
        else (if attr == 0x2
            then ioremap
            else (if attr == 0x3
                then ioremap
                else (if attr == 0x4
                    then ioremap_wc
                    else (if attr == 0x5 then ioremap_wt else ioremap_wc)))))
