-- ===== src/Bdf/Lookup.antt =====
-- Looking a device up by its packed address, over pal_pcie_enumeration.c.
use linux_acs.Prelude.{ℕ, ◌<◌, ◌≡◌, ◌∙◌, some, arith}
use linux_acs.Bdf.{
  PciDev, PciCore, DevfnLaws, get_bdf, find_dev, bdf_to_dev, check_device_valid, read_config_byte,
  write_config_byte,
}
use linux_acs.Bdf.Roundtrip.{extract-create_bdf}

module _ (k : PciCore) (laws : DevfnLaws k) (p : PciDev) where
  find_dev-get_bdf :
      p.domain_nr < 256
      → p.bus_number < 256
      → p.devfn < 256
      → find_dev k (get_bdf k p) ≡ k.get_domain_bus_and_slot p.domain_nr p.bus_number p.devfn
  unfolding find_dev get_bdf
  find_dev-get_bdf hs hb hd = ground (
    arith,
    laws.slot_small p.devfn hd,
    laws.func_small p.devfn hd,
    laws.join p.devfn hd,
    extract-create_bdf p.domain_nr p.bus_number (k.slot_of p.devfn) (k.func_of p.devfn),
  )

  -- A device that the kernel knows under its own domain, bus and devfn is found again by the
  -- packed address that pal_pcie_get_bdf gives for it, the validity check accepts that address, and
  -- reads and writes of a configuration byte by that address go to that device, provided that domain,
  -- bus and devfn fit a byte each.
  pub bdf_to_dev-get_bdf :
      (offset val : ℕ)
      → p.domain_nr < 256
      → p.bus_number < 256
      → p.devfn < 256
      → k.get_domain_bus_and_slot p.domain_nr p.bus_number p.devfn ≡ some p
      → (bdf_to_dev k (get_bdf k p) ≡ some p)
        × (check_device_valid k (get_bdf k p) ≡ 0)
        × (read_config_byte k (get_bdf k p) offset ≡ some (k.config_byte p offset))
        × (write_config_byte k (get_bdf k p) offset val ≡ some (p, offset, val))
  unfolding bdf_to_dev check_device_valid read_config_byte write_config_byte
  bdf_to_dev-get_bdf offset val hs hb hd known =
      let found = find_dev-get_bdf hs hb hd ∙ known in
      (ground arith, ground arith, ground arith, ground arith)
