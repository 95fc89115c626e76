-- ===== src/Pcie/Tests.antt =====
-- The PCIe queries at concrete devices.
use linux_acs.Prelude.{
  ℕ, ◌+◌, ◌/◌, ◌%◌, ◌≡◌, ◌≤◌, refl, true, false, none, some, List, [], ◌∷◌, ◌++◌, length, arith,
  ◌==◌, if◌then◌else◌,
}
use linux_acs.Dt.{EcamBlock}
use linux_acs.Pcie.{Device, Pci, get_device_type, get_snoop_bit}
use linux_acs.Pcie.Msi.{MsiDesc, MsiCore}
use linux_acs.Pcie.Mcfg.{McfgTable, IsFilled, pcie_create_info_table}
use linux_acs.Pcie.Routing.{
  Route, IrqMap, routes, get_legacy_irq_map, get_legacy_irq_map-irqs_of, irqs_of,
}

-- A bridge with a 32-bit and a 64-bit device behind it.
abbrev bridge : Device
bridge = record {
  iommu_group = true;
  dma_mask = 0xffffffff;
  driver_name = true;
  subordinate = some (0 ∷ 4 ∷ []);
  bridge_self = false;
  root_port = none;
  class = 0x060400;
  is_bridge = true;
  pcie_type = 4;
  devctl = 0x800;
  dma_supported = 1;
  dma_coherent = true;
  multifunction = false;
  ext_capability = λ id. 0;
  config_word = λ offset. 0;
}

abbrev core : Pci
core = record {
  get_dev = λ seg bus dev fn. if bus == 0 then some bridge else none;
  slot_of = λ devfn. devfn / 8 % 32;
  func_of = λ devfn. devfn % 8;
  class_host = 0x0600;
  mask_64 = 0xffffffffffffffff;
  snoop_bit = 11;
}

runs : (get_device_type core 0 0 1 0 ≡ 3) × (get_snoop_bit core 0 0 1 0 ≡ 1)
unfolding get_device_type get_snoop_bit
runs = (refl, refl)

abbrev routed : List Route
routed =
    record { source = 0; pin = 1; source_index = 40 }
    ∷ record { source = 0; pin = 0; source_index = 41 }
    ∷ record { source = 0; pin = 1; source_index = 42 }
    ∷ []

abbrev no_irqs : IrqMap
no_irqs p = []

routing_runs :
    ((get_legacy_irq_map 2 (routes routed) no_irqs).0 ≡ 0)
    × ((get_legacy_irq_map 2 (routes routed) no_irqs).1 1 ≡ 40 ∷ 42 ∷ [])
    × ((get_legacy_irq_map 1 (routes routed) no_irqs).0 ≡ 6)
unfolding get_legacy_irq_map
routing_runs = (refl, refl, refl)

get_legacy_irq_map-irqs_of_example :
    ((p : ℕ) → length ((get_legacy_irq_map 2 (routes routed) no_irqs).1 p) ≤ 2)
    × ((get_legacy_irq_map 2 (routes routed) no_irqs).0 ≡ 0
        → (rs : List Route) × (routes routed ≡ routes rs)
          × ((p : ℕ)
              → (get_legacy_irq_map 2 (routes routed) no_irqs).1 p ≡ no_irqs p ++ irqs_of 2 p rs))
get_legacy_irq_map-irqs_of_example =
    get_legacy_irq_map-irqs_of 2 (routes routed) no_irqs (λ p. omega arith)

abbrev msi_core : MsiCore
msi_core = record {
  readl = λ a. a;
  config_dword = λ a. a;
  config_word = λ a. a;
  msi_cap = 0x50;
  entry_size = 16;
  entry_lower = 0;
  entry_upper = 4;
  entry_data = 8;
  entry_control = 12;
  address_lo = 4;
  address_hi = 8;
  data_32 = 8;
  data_64 = 12;
}

abbrev desc : ℕ → MsiDesc
desc i = record {
  irq = 100 + i;
  hwirq = some (8192 + i);
  nvec_used = 1;
  is_msix = true;
  is_64 = true;
  mask_base = 0x1000;
  msi_index = i;
}

abbrev region : ℕ → EcamBlock
region seg = record {
  ecam_base = 0x40000000 + seg;
  start_bus_num = 0;
  end_bus_num = 255;
  segment_num = seg;
}

abbrev mcfg : McfgTable
mcfg = record { size = 44; entry_size = 16; length = 76; allocations = region 0 ∷ region 1 ∷ [] }

abbrev mcfg_filled : IsFilled mcfg
mcfg_filled = record {
  first = region 0;
  others = region 1 ∷ [];
  is = refl;
  sized = omega arith;
  total = refl;
}

-- An MCFG without allocations is read behind its end.
mcfg_empty_runs :
    pcie_create_info_table (record { size = 44; entry_size = 16; length = 44; allocations = [] })
    ≡ none
unfolding pcie_create_info_table
mcfg_empty_runs = refl
