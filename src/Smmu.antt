-- ===== src/Smmu.antt =====
-- IOVA checks of the BSA layer: bsa-acs-drv/files/platform/pal_linux/files/src/pal_smmu.c.
pub mod Iova
mod Tests
use linux_acs.Prelude.{
  ℕ, ◌+◌, Bool, true, false, ◌&&◌, not, Option, none, some, List, [], ◌∷◌, ltb, leb, u64, ◌==◌,
  if◌then◌else◌,
}

pub record Range : Type 0 where
  pub base : ℕ
  pub size : ℕ

-- PAL_LINUX_SUCCESS, PAL_LINUX_ERR and PAL_LINUX_SKIP of pal_linux.h.
pub data Answer : Type 0 where
  success err skip : Answer

-- A device that is not null: whether iommu_get_domain_for_dev finds a domain, and the answers of
-- bsa_iommu_dma_get_iova up to the null node.
pub record Device : Type 0 where
  pub has_domain : Bool
  pub active : List Range

-- `none` is the null pointer.
unfoldable pub check_dev_attach : Option Device → Bool
check_dev_attach none = false
check_dev_attach (some d) = d.has_domain

-- The test of both loops; the sum is 64 bits wide.
unfoldable pub hits : ℕ → Range → Bool
hits addr r = leb r.base addr && ltb addr (u64 (r.base + r.size))

-- The first loop, over the answers of bsa_iommu_iova_get_addr by index, of size 0 from the end of
-- the list on.
unfoldable pub used_loop : ℕ → List Range → Bool
unfolding hits
used_loop addr [] = false
used_loop addr (r ∷ rs) =
    let rest = used_loop addr rs in
    if r.size == 0 then false else (if hits addr r then true else rest)

-- The second loop, over the nodes of the device.
unfoldable pub active_loop : ℕ → List Range → Bool
unfolding hits
active_loop addr [] = false
active_loop addr (r ∷ rs) = let rest = active_loop addr rs in if hits addr r then true else rest

unfoldable pub check_device_iova : List Range → Option Device → ℕ → Answer
unfolding check_dev_attach used_loop active_loop
check_device_iova used none addr = skip
check_device_iova used (some d) addr =
    if not (check_dev_attach (some d))
    then skip
    else (if used_loop addr used
        then success
        else (if active_loop addr d.active then success else err))

-- pal_smmu_device_start_monitor_iova and pal_smmu_device_stop_monitor_iova: whether the patched kernel
-- is called for the device.
unfoldable pub start_monitor_iova : Option Device → Bool
unfolding check_dev_attach
start_monitor_iova d = if not (check_dev_attach d) then false else true

unfoldable pub stop_monitor_iova : Option Device → Bool
unfolding check_dev_attach
stop_monitor_iova d = if not (check_dev_attach d) then false else true
