-- ===== src/Lib.antt =====
-- The Linux kernel modules of the Arm system architecture compliance suites.
--
-- The repository has three suites, each a kernel module over a platform layer that reads the ACPI or
-- device-tree tables of the machine into info tables and answers the queries of a validation layer
-- (which is in other repositories): BSA (bsa-acs-drv; sbsa-acs-drv is a near copy), SDEI
-- (sdei-acs-drv) and FF-A (ffa-acs-drv). A user program drives a module through /proc: a write
-- names a command, the module creates the info tables, runs the tests, and hands messages back.
--
-- Files. `Prelude` has the shared names: Boolean tests, lists, words of w bits (`u32`, `shl`, `shr`,
-- `low_bits`), laws of `&` and `|`, and steps that may fault (`Partial`). In the paths, PAL is
-- bsa-acs-drv/files/platform/pal_linux/files, and SPAL is sdei-acs-drv/sdei-acs-pal/files.
--   Bdf      PAL/include/bsa_pcie_enum.h, PAL/src/pal_pcie_enumeration.c: packed device addresses.
--   Iovirt   PAL/src/pal_iovirt.c. Table: blocks at offsets of a memory; Iort: the nodes of the
--            ACPI table; Add: find_block and iovirt_add_block; Create: the loop of
--            pal_iovirt_create_info_table; Overlap: check_mapping_overlap; Checked: the loop and
--            then the check; Query: pal_iovirt_get_rc_smmu_base and two flags; Dump:
--            what is printed of the table.
--   Madt     PAL/src/pal_pe.c (pal_pe_create_info_table), SPAL/src/pal_gic.c
--            (pal_gic_create_info_table): both walk the MADT.
--   Gic      pal_gic_install_isr of PAL/src/pal_gic.c and of SPAL/src/pal_gic.c.
--   Gtdt     SPAL/src/pal_wd_timer.c: timers, their numbers, the second interrupt, watchdogs, and
--            the writes to their registers.
--   Dt       PAL/src/pal_dt.c: the PE, PCIe and SMMU tables from a device tree.
--   Pcie     PAL/src/pal_pcie.c: device queries, Msi, Mcfg and Routing for its three tables.
--   Dma      PAL/src/pal_dma.c: the table of DMA controllers; Buffers: allocation and release;
--            Attrs: the attributes in the page tables; Transfer: the SCSI commands.
--   Smmu     PAL/src/pal_smmu.c: the IOVA check.
--   Mem      pal_aligned_alloc, shared and cacheable memory of PAL/src/pal_misc.c; Print: its
--            pal_print.
--   Mmio     register access: Ffa (ffa-acs-drv/pal_linux/src/pal_mmio.c), Bsa (PAL/src/pal_misc.c),
--            Sdei (SPAL/src/pal_misc.c), Pasids (pal_smmu_max_pasids); Device: what the kernel
--            promises of mappings and accesses; Words: words in a memory of bytes.
--   Peripheral  PAL/src/pal_peripherals.c: the peripheral table and the choice of a mapping.
--   Driver   bsa-acs-drv/files/bsa_acs_drv.c: val_glue_execute_command and the /proc functions.
--   Proc     the init and exit functions of the four modules.
--   Sbsa     sbsa-acs-drv/files/sbsa_acs_drv.c: the same of the SBSA module, next to Driver;
--            Tables: the PE, PCIe and IO virtualisation tables of both suites, from ACPI or, in the
--            BSA suite, from a device tree.
--            Layer: the functions of the SBSA layer that have the text of the BSA layer, by the
--            same definitions; Session: whole sessions.
--   MsgLog   pal_print of SPAL/src/pal_misc.c and sdei_msg_proc_read of
--            sdei-acs-drv/sdei-acs-drv/files/sdei_acs_drv.c, over one buffer.
--   Sdei     sdei_acs_drv.c (Init; Session: its message buffer and flag over whole runs),
--            SPAL/src/pal_sdei_interface.c (Firmware, Conduit, Hest), and shared memory of
--            SPAL/src/pal_misc.c (Platform).
--   Ffa      ffa-acs-drv/pal_linux/src/pal_smmuv3_testengine.c and pal_irq.c; Memory: pages, of
--            pal_misc.c. The watchdog of pal_driver.c is Mmio.Watchdog.
--
-- State. An info table is a record with the counters of the C structure and the list of the entries
-- that were written, or, for IO virtualisation, with a memory from offsets to blocks, since its
-- blocks differ in size and are found by adding sizes. An ACPI table is the list of its
-- structures. A result of `none` is a step that C leaves undefined: a read behind what is there, a
-- write outside of a buffer, such as a copy from the user that is too long, a null pointer, a double
-- free. The kernel, the firmware, the validation layer and the structures
-- of its headers are parameters: records of functions (PciCore, Pci, MsiCore, Of, Val, Io), or the
-- answers of one run (Grants, World, IrqWorld, IsrWorld, DmaAnswers).
--
-- Fuel. iovirt_add_block calls itself for the nodes that a node refers to. `add` takes one unit of
-- fuel for each level of references, so fuel f is enough for an IORT of known node types, without
-- a PMCG, whose references are nested less than f deep. A PMCG in front of the node that it refers
-- to breaks the chain of blocks (Add/Pmcg). The polling loop of the test engine is
-- recursion on its time-out, and the walk of check_mapping_overlap over its key blocks starts with
-- one unit for each block. All other loops are structural.
--
-- Not modelled: the IOVA monitor, which is in the patched kernel; the bytes behind the maps of a
-- block, which check_mapping_overlap reads and which are a parameter; wrappers of one kernel call
-- (but the register accesses and those of the SDEI layer), functions with a constant answer, such as
-- those for exercisers, the thread of pal_pe_execute_payload, and the patches under kernel/, which
-- change the kernel and not these modules.
pub mod Prelude
pub mod Bdf
pub mod Iovirt
pub mod Madt
pub mod Gic
pub mod Gtdt
pub mod Mem
pub mod MsgLog
pub mod Driver
pub mod Dt
pub mod Pcie
pub mod Peripheral
pub mod Proc
pub mod Sbsa
pub mod Sdei
pub mod Smmu
pub mod Ffa
pub mod Dma
pub mod Mmio
