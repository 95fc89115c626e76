-- ===== src/Peripheral/Tests.antt =====
-- The peripheral table of a machine with a USB and a SATA controller and a network card.
use linux_acs.Prelude.{ℕ, ◌*◌, ◌+◌, ◌/◌, ◌%◌, ◌≡◌, refl, true, false, none, List, [], ◌∷◌}
use linux_acs.Bdf.{PciCore}
use linux_acs.Peripheral.{Device, ioremap_wt, memory_ioremap, peripheral_create_info_table}

abbrev core : PciCore
core = record {
  get_domain_bus_and_slot = λ seg bus devfn. none;
  get_class = λ class from. none;
  devfn_of = λ slot func. slot % 32 * 8 + func % 8;
  slot_of = λ devfn. devfn / 8 % 32;
  func_of = λ devfn. devfn % 8;
  config_byte = λ p offset. 0;
}

abbrev device : ℕ → ℕ → Device
device bus class = record {
  pdev = record { domain_nr = 0; bus_number = bus; devfn = 0; class = class };
  bar = λ i. 0x1000 * i;
  msi_enabled = false;
  msix_enabled = true;
  irq_vector = 40;
  max_pasids = none;
}

abbrev devices : List Device
devices = device 1 0x0C0330 ∷ device 2 0x010601 ∷ device 3 0x020000 ∷ []

remap_runs : memory_ioremap 5 ≡ ioremap_wt
unfolding memory_ioremap
remap_runs = refl

table_run :
    ((peripheral_create_info_table core devices).num_usb ≡ 1)
    × ((peripheral_create_info_table core devices).num_sata ≡ 1)
unfolding peripheral_create_info_table
table_run = (refl, refl)
