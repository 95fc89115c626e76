-- ===== src/Bdf/Roundtrip.antt =====
-- Packing and unpacking of PCIe addresses, over bsa_pcie_enum.h.
use linux_acs.Prelude.{ℕ, ◌+◌, ◌*◌, ◌^◌, ◌<◌, ◌≡◌, arith, bit_or-shl}
use linux_acs.Bdf.{extract_seg, extract_bus, extract_dev, extract_func, create_bdf}

-- For byte-sized fields the packed value is the weighted sum.
pub create_bdf-sum :
    (seg bus dev func : ℕ)
    → seg < 256
    → bus < 256
    → dev < 256
    → func < 256
    → create_bdf seg bus dev func ≡ seg * 2 ^ 24 + bus * 2 ^ 16 + dev * 2 ^ 8 + func
unfolding create_bdf
create_bdf-sum seg bus dev func hs hb hd hf = ground (
  arith,
  bit_or-shl 24 seg (bus * 2 ^ 16) (omega arith),
  bit_or-shl 16 (seg * 2 ^ 8 + bus) (dev * 2 ^ 8) (omega arith),
  bit_or-shl 8 (seg * 2 ^ 16 + bus * 2 ^ 8 + dev) func (omega arith),
)

-- Every field that fits a byte is read back from the packed address.
pub extract-create_bdf :
    (seg bus dev func : ℕ)
    → seg < 256
    → bus < 256
    → dev < 256
    → func < 256
    → (extract_seg (create_bdf seg bus dev func) ≡ seg)
      × (extract_bus (create_bdf seg bus dev func) ≡ bus)
      × (extract_dev (create_bdf seg bus dev func) ≡ dev)
      × (extract_func (create_bdf seg bus dev func) ≡ func)
unfolding extract_seg extract_bus extract_dev extract_func
extract-create_bdf seg bus dev func hs hb hd hf =
    omega (arith, create_bdf-sum seg bus dev func hs hb hd hf)

-- A 32-bit address is packed again from its four fields.
pub create_bdf-extract :
    (bdf : ℕ)
    → bdf < 2 ^ 32
    → create_bdf (extract_seg bdf) (extract_bus bdf) (extract_dev bdf) (extract_func bdf) ≡ bdf
unfolding extract_seg extract_bus extract_dev extract_func
create_bdf-extract bdf h = omega (
  arith,
  create_bdf-sum (extract_seg bdf) (extract_bus bdf) (extract_dev bdf) (extract_func bdf)
      (omega arith) (omega arith) (omega arith) (omega arith),
)
