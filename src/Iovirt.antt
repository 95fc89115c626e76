-- ===== src/Iovirt.antt =====
-- The IO virtualisation table: bsa-acs-drv/files/platform/pal_linux/files/src/pal_iovirt.c.
-- `Table` has the memory and the blocks, `Iort` the nodes of the ACPI table, `Add` the construction,
-- `Create` the loop over the nodes, `Overlap` the check of the ID ranges, `Checked` both one after the
-- other, `Query` the functions that the tests call; `Chain` is about
-- blocks that stand one behind the other.
pub mod Table
pub mod Iort
pub mod Add
pub mod Chain
pub mod Checked
pub mod Create
pub mod Overlap
pub mod Query
pub mod Dump
mod Tests
