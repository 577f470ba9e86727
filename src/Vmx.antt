-- ===== src/Vmx.antt =====
-- Source/hyper_box/hypervisor.c: what the hypervisor does when the guest exits to it. A processor's
-- state is its general registers and the fields of its current VMCS, by their encoding.
pub mod Registers
pub mod Control
pub mod Breakpoint
pub mod Nested
pub mod Descriptor
pub mod Shadow
pub mod Exit
pub mod Violation
pub mod Controls
pub mod Gdt
pub mod Setup
