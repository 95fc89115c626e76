-- ===== src/Sdei.antt =====
-- The SDEI module: its start and its /proc commands (sdei-acs-drv/sdei-acs-drv/files/sdei_acs_drv.c),
-- and the firmware interface of its platform layer
-- (sdei-acs-drv/sdei-acs-pal/files/src/pal_sdei_interface.c).
pub mod Init
pub mod Firmware
pub mod Conduit
pub mod Hest
pub mod Platform
pub mod Session
mod Tests
