-- ===== src/Vmx/Setup.antt =====
-- What the VMCS holds when the guest is launched: `hb_setup_vm_host_register`,
-- `hb_setup_vm_guest_register` and `hb_setup_vmcs` of Source/hyper_box/hypervisor.c, built with
-- hardware breakpoints and VPID as hyper_box.h sets it. The arrays that keep debug registers for
-- tests are left out.
pub mod Fields
pub mod Laws
pub mod Controls
use alcatraz.Prelude.{
  ℕ, ◌+◌, ◌-◌, ◌*◌, ◌/◌, ◌%◌, ◌^◌, ◌==◌, Bool, if◌then◌else◌, List, [], ◌∷◌, ◌++◌, bit_and, bit_or,
}
use alcatraz.Ept.Processor.{DescPtr}
use alcatraz.Vmx.Registers.{not64}
use alcatraz.Vmx.Gdt.{
  Bytes, desc_at, base64, get_desc_base, get_desc_access, ldtr_fields, tr_fields,
}
use alcatraz.Vmx.Controls.{ControlRegister}

-- What the code reads on a processor: its registers, its MSRs and the memory of its descriptors; and
-- the addresses of the kernel's functions for the breakpoints, of the stack for exits, of the host's
-- page tables and IDT and of the code that an exit enters.
pub record Processor : Type 0 where
  pub cr0 : ℕ
  pub cr3 : ℕ
  pub cr4 : ℕ
  pub dr6 : ℕ
  pub rflags : ℕ
  pub cs : ℕ
  pub ss : ℕ
  pub ds : ℕ
  pub es : ℕ
  pub fs : ℕ
  pub gs : ℕ
  pub ldtr : ℕ
  pub tr : ℕ
  pub gdtr : DescPtr
  pub idtr : DescPtr
  pub rdmsr : ℕ → ℕ
  pub mem : Bytes
  pub breakpoint : ℕ → ℕ
  pub vm_exit_stack : ℕ
  pub stack_size : ℕ
  pub host_phy_pml4 : ℕ
  pub host_idtr : DescPtr
  pub vm_exit_callback_stub : ℕ

-- `struct hb_vm_host_register`.
pub record HostRegister : Type 0 where
  pub cr0 : ℕ
  pub cr3 : ℕ
  pub cr4 : ℕ
  pub rsp : ℕ
  pub rip : ℕ
  pub cs_selector : ℕ
  pub ss_selector : ℕ
  pub ds_selector : ℕ
  pub es_selector : ℕ
  pub fs_selector : ℕ
  pub gs_selector : ℕ
  pub tr_selector : ℕ
  pub fs_base_addr : ℕ
  pub gs_base_addr : ℕ
  pub tr_base_addr : ℕ
  pub gdtr_base_addr : ℕ
  pub idtr_base_addr : ℕ
  pub ia32_sys_enter_cs : ℕ
  pub ia32_sys_enter_esp : ℕ
  pub ia32_sys_enter_eip : ℕ
  pub ia32_perf_global_ctrl : ℕ
  pub ia32_pat : ℕ
  pub ia32_efer : ℕ

-- `struct hb_vm_guest_register`.
pub record VmGuestRegister : Type 0 where
  pub cr0 : ℕ
  pub cr3 : ℕ
  pub cr4 : ℕ
  pub dr7 : ℕ
  pub rsp : ℕ
  pub rip : ℕ
  pub rflags : ℕ
  pub cs_selector : ℕ
  pub ss_selector : ℕ
  pub ds_selector : ℕ
  pub es_selector : ℕ
  pub fs_selector : ℕ
  pub gs_selector : ℕ
  pub ldtr_selector : ℕ
  pub tr_selector : ℕ
  pub cs_base_addr : ℕ
  pub ss_base_addr : ℕ
  pub ds_base_addr : ℕ
  pub es_base_addr : ℕ
  pub fs_base_addr : ℕ
  pub gs_base_addr : ℕ
  pub ldtr_base_addr : ℕ
  pub tr_base_addr : ℕ
  pub cs_limit : ℕ
  pub ss_limit : ℕ
  pub ds_limit : ℕ
  pub es_limit : ℕ
  pub fs_limit : ℕ
  pub gs_limit : ℕ
  pub ldtr_limit : ℕ
  pub tr_limit : ℕ
  pub cs_access : ℕ
  pub ss_access : ℕ
  pub ds_access : ℕ
  pub es_access : ℕ
  pub fs_access : ℕ
  pub gs_access : ℕ
  pub ldtr_access : ℕ
  pub tr_access : ℕ
  pub gdtr_base_addr : ℕ
  pub idtr_base_addr : ℕ
  pub gdtr_limit : ℕ
  pub idtr_limit : ℕ
  pub ia32_debug_ctrl : ℕ
  pub ia32_sys_enter_cs : ℕ
  pub ia32_sys_enter_esp : ℕ
  pub ia32_sys_enter_eip : ℕ
  pub vmcs_link_ptr : ℕ
  pub ia32_perf_global_ctrl : ℕ
  pub ia32_pat : ℕ
  pub ia32_efer : ℕ

-- `__KERNEL_CS` and `__KERNEL_DS`.
abbrev pub kernel_cs : ℕ
kernel_cs = 0x10

abbrev pub kernel_ds : ℕ
kernel_ds = 0x18

-- The record is cleared before, and the line for the performance counters is a comment.
unfoldable pub setup_vm_host_register : Processor → HostRegister
setup_vm_host_register p = record {
  cr0 = p.cr0;
  cr3 = p.host_phy_pml4;
  cr4 = p.cr4;
  rsp = (p.vm_exit_stack + p.stack_size - 4096) % 2 ^ 64;
  rip = p.vm_exit_callback_stub;
  cs_selector = kernel_cs;
  ss_selector = kernel_ds;
  ds_selector = kernel_ds;
  es_selector = kernel_ds;
  fs_selector = kernel_ds;
  gs_selector = kernel_ds;
  tr_selector = p.tr;
  fs_base_addr = p.rdmsr 0xC0000100;
  gs_base_addr = p.rdmsr 0xC0000101;
  tr_base_addr = base64 p.mem (desc_at p.gdtr p.tr);
  gdtr_base_addr = p.gdtr.address;
  idtr_base_addr = p.host_idtr.address;
  ia32_sys_enter_cs = p.rdmsr 0x174;
  ia32_sys_enter_esp = p.rdmsr 0x175;
  ia32_sys_enter_eip = p.rdmsr 0x176;
  ia32_perf_global_ctrl = 0;
  ia32_pat = p.rdmsr 0x277;
  ia32_efer = p.rdmsr 0xC0000080;
}

-- `hb_encode_dr7`.
unfoldable pub encode_dr7 : ℕ → ℕ → ℕ → ℕ
encode_dr7 index len type =
    bit_or (bit_and (bit_or len type) 0xF * 2 ^ (16 + index * 4) % 2 ^ 64)
      (2 * 2 ^ (index * 2) % 2 ^ 64)

-- Breakpoints on execution, with the lengths that go with it.
abbrev pub execute_at : ℕ → ℕ
execute_at index = encode_dr7 index 0x40 0x80

-- DR0 to DR3, and DR6, as the code leaves them.
pub record DebugRegisters : Type 0 where
  pub address : ℕ → ℕ
  pub dr6 : ℕ

unfoldable pub setup_debug_registers : Processor → DebugRegisters
setup_debug_registers p = record {
  address = p.breakpoint;
  dr6 = bit_and p.dr6 0xFFFF_FFFF_FFFF_FFF0;
}

unfoldable pub setup_vm_guest_register : Processor → HostRegister → VmGuestRegister
setup_vm_guest_register p h = record {
  cr0 = h.cr0;
  cr3 = p.cr3;
  cr4 = h.cr4;
  dr7 =
      bit_or (bit_or (bit_or (bit_or (execute_at 0) (execute_at 1)) (execute_at 2)) (execute_at 3))
        (2 ^ 10);
  rsp = 0xFFFF_FFFF_FFFF_FFFF;
  rip = 0xFFFF_FFFF_FFFF_FFFF;
  rflags = p.rflags;
  cs_selector = p.cs;
  ss_selector = p.ss;
  ds_selector = p.ds;
  es_selector = p.es;
  fs_selector = p.fs;
  gs_selector = p.gs;
  ldtr_selector = p.ldtr;
  tr_selector = p.tr;
  cs_base_addr = get_desc_base p.mem p.gdtr p.cs;
  ss_base_addr = get_desc_base p.mem p.gdtr p.ss;
  ds_base_addr = get_desc_base p.mem p.gdtr p.ds;
  es_base_addr = get_desc_base p.mem p.gdtr p.es;
  fs_base_addr = p.rdmsr 0xC0000100;
  gs_base_addr = p.rdmsr 0xC0000101;
  ldtr_base_addr = (ldtr_fields p.mem p.gdtr p.ldtr).base_addr;
  tr_base_addr = (tr_fields p.mem p.gdtr p.tr).base_addr;
  cs_limit = 0xFFFFFFFF;
  ss_limit = 0xFFFFFFFF;
  ds_limit = 0xFFFFFFFF;
  es_limit = 0xFFFFFFFF;
  fs_limit = 0xFFFFFFFF;
  gs_limit = 0xFFFFFFFF;
  ldtr_limit = (ldtr_fields p.mem p.gdtr p.ldtr).limit;
  tr_limit = (tr_fields p.mem p.gdtr p.tr).limit;
  cs_access = get_desc_access p.mem p.gdtr p.cs;
  ss_access = get_desc_access p.mem p.gdtr p.ss;
  ds_access = get_desc_access p.mem p.gdtr p.ds;
  es_access = get_desc_access p.mem p.gdtr p.es;
  fs_access = get_desc_access p.mem p.gdtr p.fs;
  gs_access = get_desc_access p.mem p.gdtr p.gs;
  ldtr_access = (ldtr_fields p.mem p.gdtr p.ldtr).access;
  tr_access = (tr_fields p.mem p.gdtr p.tr).access;
  gdtr_base_addr = h.gdtr_base_addr;
  idtr_base_addr = p.idtr.address;
  gdtr_limit = p.gdtr.size;
  idtr_limit = p.idtr.size;
  ia32_debug_ctrl = 0;
  ia32_sys_enter_cs = h.ia32_sys_enter_cs;
  ia32_sys_enter_esp = h.ia32_sys_enter_esp;
  ia32_sys_enter_eip = h.ia32_sys_enter_eip;
  vmcs_link_ptr = 0xFFFF_FFFF_FFFF_FFFF;
  ia32_perf_global_ctrl = h.ia32_perf_global_ctrl;
  ia32_pat = h.ia32_pat;
  ia32_efer = h.ia32_efer;
}
