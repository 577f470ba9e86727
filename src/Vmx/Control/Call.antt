-- ===== src/Vmx/Control/Call.antt =====
-- Who may call the hypervisor, and what a call changes.
use alcatraz.Prelude.{ℕ, ◌≡◌, arith, ◌==◌, if◌then◌else◌, bit_and}
use alcatraz.Vmx.Registers.{
  Vm, vm_guest_cs_selector, vm_ctrl_vm_entry_int_info_field, vm_entry_int_info_ud,
  advance_vm_guest_rip, clear_vmx_inst_flags, insert_ud_exception_to_vm,
}
use alcatraz.Vmx.Control.{vm_exit_callback_vmcall, mask_gdt_access, vm_service_get_loginfo}

-- The address of the hypervisor's log goes to a caller in ring 0 that asks for it and to nobody
-- else: RAX is 0 afterwards for any other caller and any other service. A caller outside ring 0
-- gets an invalid-opcode exception, a caller in ring 0 none.
pub vmcall_answer :
    (s : Vm) (log_info : ℕ)
    → let s' = vm_exit_callback_vmcall s log_info in
      let ring0 = bit_and (s.vmcs vm_guest_cs_selector) mask_gdt_access == 0 in
      (s'.regs.rax
        ≡ (if ring0 then if s.regs.rax == vm_service_get_loginfo then log_info else 0 else 0))
      × (s'.vmcs vm_ctrl_vm_entry_int_info_field
          ≡ (if ring0 then s.vmcs vm_ctrl_vm_entry_int_info_field else vm_entry_int_info_ud))
unfolding vm_exit_callback_vmcall advance_vm_guest_rip clear_vmx_inst_flags
    insert_ud_exception_to_vm
vmcall_answer s log_info = (ground arith, ground arith)
