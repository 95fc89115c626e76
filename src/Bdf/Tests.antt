-- ===== src/Bdf/Tests.antt =====
-- The address theorems at concrete devices.
use linux_acs.Prelude.{◌+◌, ◌*◌, ◌/◌, ◌%◌, ◌≡◌, refl, some, none, arith, ◌&&◌, ◌==◌, if◌then◌else◌}
use linux_acs.Bdf.{
  PciDev, PciCore, DevfnLaws, create_bdf, get_bdf, bdf_to_dev, check_device_valid, read_config_byte,
  write_config_byte,
}
use linux_acs.Bdf.Lookup.{bdf_to_dev-get_bdf}

abbrev nic : PciDev
nic = record { domain_nr = 1; bus_number = 3; devfn = 42; class = 0x020000 }

-- A kernel with one device, and with the macros of Linux.
abbrev core : PciCore
core = record {
  get_domain_bus_and_slot =
      λ seg bus devfn. if seg == 1 && (bus == 3 && devfn == 42) then some nic else none;
  get_class = λ class from. none;
  devfn_of = λ slot func. slot % 32 * 8 + func % 8;
  slot_of = λ devfn. devfn / 8 % 32;
  func_of = λ devfn. devfn % 8;
  config_byte = λ p offset. 0;
}

core-DevfnLaws : DevfnLaws core
core-DevfnLaws = record {
  slot_small = λ d h. omega arith;
  func_small = λ d h. omega arith;
  join = λ d h. omega arith;
}

create_bdf_runs : create_bdf 1 3 5 2 ≡ 0x01030502
unfolding create_bdf
create_bdf_runs = refl

-- A segment of nine bits does not survive the packing: segments 0 and 256 get one address.
create_bdf_wraps : create_bdf 256 3 5 2 ≡ create_bdf 0 3 5 2
unfolding create_bdf
create_bdf_wraps = refl

bdf_to_dev-get_bdf_example :
    (bdf_to_dev core (get_bdf core nic) ≡ some nic)
    × (check_device_valid core (get_bdf core nic) ≡ 0)
    × (read_config_byte core (get_bdf core nic) 4 ≡ some 0)
    × (write_config_byte core (get_bdf core nic) 4 6 ≡ some (nic, 4, 6))
bdf_to_dev-get_bdf_example =
    bdf_to_dev-get_bdf core core-DevfnLaws nic 4 6 (omega arith) (omega arith) (omega arith) refl
