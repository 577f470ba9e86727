-- ===== src/Vmx/Control.antt =====
-- Control registers and calls of the hypervisor: `hb_vm_exit_callback_access_cr` and
-- `hb_vm_exit_callback_vmcall` of Source/hyper_box/hypervisor.c, built without
-- HYPERBOX_USE_SHUTDOWN as hyper_box.h sets it.
pub mod Laws
pub mod Call
use alcatraz.Prelude.{ℕ, ◌/◌, ◌==◌, if◌then◌else◌, not, bit_and, bit_or}
use alcatraz.Vmx.Registers.{
  Vm, write_vmcs, put_regs, not64, vm_guest_cr0, vm_guest_cr3, vm_guest_cr4, vm_guest_cs_selector,
  get_reg_value_from_index, set_reg_value_from_index, advance_vm_guest_rip, clear_vmx_inst_flags,
  insert_ud_exception_to_vm,
}

abbrev pub cr0_bit_wp : ℕ
cr0_bit_wp = 0x10000

abbrev pub cr4_bit_mce : ℕ
cr4_bit_mce = 0x40

abbrev pub cr4_bit_vmxe : ℕ
cr4_bit_vmxe = 0x2000

abbrev pub cr4_bit_smep : ℕ
cr4_bit_smep = 0x100000

-- The fields of the exit qualification of an access to a control register.
abbrev pub ctrl_reg_number : ℕ → ℕ
ctrl_reg_number x = bit_and x 0xF

abbrev pub acc_type : ℕ → ℕ
acc_type x = bit_and (x / 16) 3

abbrev pub gp_reg_number : ℕ → ℕ
gp_reg_number x = bit_and (x / 256) 0xF

-- What a MOV from a control register reads; `cr2` and `cr8` are the processor's own registers.
unfoldable pub read_cr : Vm → ℕ → ℕ → ℕ → ℕ
read_cr s number cr2 cr8 =
    if number == 0
    then s.vmcs vm_guest_cr0
    else if number == 2
    then cr2
    else if number == 3
    then s.vmcs vm_guest_cr3
    else if number == 4
    then s.vmcs vm_guest_cr4
    else if number == 8
    then cr8
    else 0

-- What the guest's value becomes on its way to CR0 and to CR4.
abbrev pub forced_cr0 : ℕ → ℕ
forced_cr0 reg_value = bit_or reg_value cr0_bit_wp

abbrev pub forced_cr4 : ℕ → ℕ
forced_cr4 reg_value =
    bit_and (bit_or reg_value (bit_or cr4_bit_vmxe cr4_bit_smep)) (not64 cr4_bit_mce)

unfoldable pub write_cr : Vm → ℕ → ℕ → Vm
write_cr s number reg_value =
    if number == 0
    then write_vmcs s vm_guest_cr0 (forced_cr0 reg_value)
    else if number == 2
    then s
    else if number == 3
    then write_vmcs s vm_guest_cr3 reg_value
    else if number == 4
    then write_vmcs s vm_guest_cr4 (forced_cr4 reg_value)
    else s

unfoldable pub vm_exit_callback_access_cr : Vm → ℕ → ℕ → ℕ → Vm
vm_exit_callback_access_cr s exit_qual cr2 cr8 = advance_vm_guest_rip (
    if acc_type exit_qual == 1
    then set_reg_value_from_index s (gp_reg_number exit_qual)
        (read_cr s (ctrl_reg_number exit_qual) cr2 cr8)
    else if acc_type exit_qual == 0
    then write_cr s (ctrl_reg_number exit_qual)
        (get_reg_value_from_index s (gp_reg_number exit_qual))
    else s)

abbrev pub vm_service_get_loginfo : ℕ
vm_service_get_loginfo = 0

abbrev pub mask_gdt_access : ℕ
mask_gdt_access = 3

abbrev pub set_rax : Vm → ℕ → Vm
set_rax s v = put_regs s (record s.regs { rax = v })

-- `log_info` is the address in `g_log_info`.
unfoldable pub vm_exit_callback_vmcall : Vm → ℕ → Vm
vm_exit_callback_vmcall s log_info =
    let svr_num = s.regs.rax in
    let s1 = clear_vmx_inst_flags (set_rax s 0) in
    if not (bit_and (s1.vmcs vm_guest_cs_selector) mask_gdt_access == 0)
    then advance_vm_guest_rip (insert_ud_exception_to_vm s1)
    else let s2 = advance_vm_guest_rip s1 in
      if svr_num == vm_service_get_loginfo then set_rax s2 log_info else s2
