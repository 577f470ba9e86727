-- ===== src/Memory.antt =====
-- Source/hyper_box/hypervisor.c: the record of the kernel's read-only areas.
pub mod RoArea
pub mod PageTable
