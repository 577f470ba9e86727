-- ===== src/Vmx/Registers.antt =====
-- The guest's general registers, the VMCS, and the helpers of Source/hyper_box/hypervisor.c on them.
pub mod Laws
use alcatraz.Prelude.{ℕ, ◌+◌, ◌%◌, ◌^◌, ◌==◌, if◌then◌else◌, bit_and, bit_or, bit_xor}

-- `struct hb_vm_exit_guest_register`; RSP is in the VMCS.
pub record GuestRegister : Type 0 where
  pub vm_launch : ℕ
  pub r15 : ℕ
  pub r14 : ℕ
  pub r13 : ℕ
  pub r12 : ℕ
  pub r11 : ℕ
  pub r10 : ℕ
  pub r9 : ℕ
  pub r8 : ℕ
  pub rdi : ℕ
  pub rsi : ℕ
  pub rbp : ℕ
  pub rbx : ℕ
  pub rdx : ℕ
  pub rcx : ℕ
  pub rax : ℕ

pub record Vm : Type 0 where
  pub regs : GuestRegister
  pub vmcs : ℕ → ℕ

abbrev pub vm_guest_cs_selector : ℕ
vm_guest_cs_selector = 0x802

abbrev pub vm_guest_cr0 : ℕ
vm_guest_cr0 = 0x6800

abbrev pub vm_guest_cr3 : ℕ
vm_guest_cr3 = 0x6802

abbrev pub vm_guest_cr4 : ℕ
vm_guest_cr4 = 0x6804

abbrev pub vm_guest_rsp : ℕ
vm_guest_rsp = 0x681C

abbrev pub vm_guest_rip : ℕ
vm_guest_rip = 0x681E

abbrev pub vm_guest_rflags : ℕ
vm_guest_rflags = 0x6820

abbrev pub vm_data_vm_exit_int_info : ℕ
vm_data_vm_exit_int_info = 0x4404

abbrev pub vm_data_vm_exit_inst_length : ℕ
vm_data_vm_exit_inst_length = 0x440C

abbrev pub vm_ctrl_vm_entry_int_info_field : ℕ
vm_ctrl_vm_entry_int_info_field = 0x4016

abbrev pub vm_ctrl_vm_entry_except_err_code : ℕ
vm_ctrl_vm_entry_except_err_code = 0x4018

abbrev pub write_vmcs : Vm → ℕ → ℕ → Vm
write_vmcs s field v = record s { vmcs = λ f. if field == f then v else s.vmcs f }

abbrev pub put_regs : Vm → GuestRegister → Vm
put_regs s r = record s { regs = r }

-- `~x` on 64 bits.
abbrev pub not64 : ℕ → ℕ
not64 x = bit_xor x 0xFFFF_FFFF_FFFF_FFFF

unfoldable pub get_reg_value_from_index : Vm → ℕ → ℕ
get_reg_value_from_index s index =
    if index == 0
    then s.regs.rax
    else if index == 1
    then s.regs.rcx
    else if index == 2
    then s.regs.rdx
    else if index == 3
    then s.regs.rbx
    else if index == 4
    then s.vmcs vm_guest_rsp
    else if index == 5
    then s.regs.rbp
    else if index == 6
    then s.regs.rsi
    else if index == 7
    then s.regs.rdi
    else if index == 8
    then s.regs.r8
    else if index == 9
    then s.regs.r9
    else if index == 10
    then s.regs.r10
    else if index == 11
    then s.regs.r11
    else if index == 12
    then s.regs.r12
    else if index == 13
    then s.regs.r13
    else if index == 14
    then s.regs.r14
    else if index == 15
    then s.regs.r15
    else 0

unfoldable pub set_reg_value_from_index : Vm → ℕ → ℕ → Vm
set_reg_value_from_index s index reg_value =
    if index == 0
    then put_regs s (record s.regs { rax = reg_value })
    else if index == 1
    then put_regs s (record s.regs { rcx = reg_value })
    else if index == 2
    then put_regs s (record s.regs { rdx = reg_value })
    else if index == 3
    then put_regs s (record s.regs { rbx = reg_value })
    else if index == 4
    then write_vmcs s vm_guest_rsp reg_value
    else if index == 5
    then put_regs s (record s.regs { rbp = reg_value })
    else if index == 6
    then put_regs s (record s.regs { rsi = reg_value })
    else if index == 7
    then put_regs s (record s.regs { rdi = reg_value })
    else if index == 8
    then put_regs s (record s.regs { r8 = reg_value })
    else if index == 9
    then put_regs s (record s.regs { r9 = reg_value })
    else if index == 10
    then put_regs s (record s.regs { r10 = reg_value })
    else if index == 11
    then put_regs s (record s.regs { r11 = reg_value })
    else if index == 12
    then put_regs s (record s.regs { r12 = reg_value })
    else if index == 13
    then put_regs s (record s.regs { r13 = reg_value })
    else if index == 14
    then put_regs s (record s.regs { r14 = reg_value })
    else if index == 15
    then put_regs s (record s.regs { r15 = reg_value })
    else s

unfoldable pub advance_vm_guest_rip : Vm → Vm
advance_vm_guest_rip s =
    write_vmcs s vm_guest_rip ((s.vmcs vm_guest_rip + s.vmcs vm_data_vm_exit_inst_length) % 2 ^ 64)

-- CF and ZF.
unfoldable pub clear_vmx_inst_flags : Vm → Vm
clear_vmx_inst_flags s =
    write_vmcs s vm_guest_rflags (bit_and (s.vmcs vm_guest_rflags) (not64 (bit_or 1 64)))

-- The field has 32 bits.
abbrev pub vm_entry_int_info_ud : ℕ
vm_entry_int_info_ud = 0x80000306

unfoldable pub insert_ud_exception_to_vm : Vm → Vm
insert_ud_exception_to_vm s =
    write_vmcs (write_vmcs s vm_ctrl_vm_entry_int_info_field vm_entry_int_info_ud)
      vm_ctrl_vm_entry_except_err_code 0

unfoldable pub remove_int_exception_from_vm : Vm → ℕ → Vm
remove_int_exception_from_vm s vector =
    write_vmcs s vm_ctrl_vm_entry_int_info_field
      (bit_and (s.vmcs vm_ctrl_vm_entry_int_info_field) (not64 (2 ^ vector % 2 ^ 64)))
