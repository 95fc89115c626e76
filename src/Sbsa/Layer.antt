-- ===== src/Sbsa/Layer.antt =====
-- The platform layer of the SBSA suite, where it is that of the BSA suite.
pub mod Devices
pub mod Pcie
pub mod Iovirt
pub mod Memory
