-- ===== src/Vmx/Descriptor.antt =====
-- The descriptor tables: `hb_vm_exit_callback_gdtr_idtr`, `hb_vm_exit_callback_ldtr_tr` and their
-- helpers in Source/hyper_box/hypervisor.c, built with HYPERBOX_USE_SLEEP as hyper_box.h sets it.
-- The guest's memory is read and written at linear addresses, which the source makes reachable by
-- `hb_sync_page_table` before (Memory/PageTable).
pub mod Memory
pub mod Laws
use alcatraz.Prelude.{
  ℕ, zero, suc, ◌+◌, ◌*◌, ◌/◌, ◌%◌, ◌^◌, ◌==◌, Bool, if◌then◌else◌, bit_and, bit_or,
}
use alcatraz.Vmx.Registers.{
  Vm, write_vmcs, not64, get_reg_value_from_index, set_reg_value_from_index, advance_vm_guest_rip,
  insert_ud_exception_to_vm,
}
use alcatraz.Vmx.Nested.{
  store, calc_dest_mem_addr, set_value_to_memory, vm_data_vm_exit_inst_info,
  vm_data_exit_qualification,
}

pub record Access : Type 0 where
  pub vm : Vm
  pub memory : ℕ → ℕ

abbrev pub vm_ctrl_sec_proc_based_exe_ctrl : ℕ
vm_ctrl_sec_proc_based_exe_ctrl = 0x401E

abbrev pub desc_table_bit : ℕ
desc_table_bit = 4

abbrev pub vm_guest_ldtr_selector : ℕ
vm_guest_ldtr_selector = 0x80C

abbrev pub vm_guest_tr_selector : ℕ
vm_guest_tr_selector = 0x80E

abbrev pub vm_guest_gdtr_limit : ℕ
vm_guest_gdtr_limit = 0x4810

abbrev pub vm_guest_idtr_limit : ℕ
vm_guest_idtr_limit = 0x4812

abbrev pub vm_guest_gdtr_base : ℕ
vm_guest_gdtr_base = 0x6816

abbrev pub vm_guest_idtr_base : ℕ
vm_guest_idtr_base = 0x6818

-- A load of `n` bytes, the lowest first.
unfoldable pub load : ℕ → ℕ → (ℕ → ℕ) → ℕ
load zero addr mem = 0
load (suc n) addr mem = mem addr % 256 + 256 * load n (addr + 1) mem

unfoldable pub get_value_from_memory : ℕ → ℕ → (ℕ → ℕ) → ℕ
get_value_from_memory inst_info addr mem =
    let size = bit_and (inst_info / 128) 7 in
    if size == 0
    then load 2 addr mem
    else if size == 1
    then load 4 addr mem
    else if size == 2
    then load 8 addr mem
    else 0

-- Accesses to the tables exit no more.
unfoldable pub disable_desc_monitor : Vm → Vm
disable_desc_monitor s =
    write_vmcs s vm_ctrl_sec_proc_based_exe_ctrl
      (bit_and (bit_and (s.vmcs vm_ctrl_sec_proc_based_exe_ctrl) (not64 desc_table_bit)) 0xFFFFFFFF)

-- VM_INST_INFO_MEM_REG, VM_INST_INFO_REG1 and VM_INST_INFO_INST_IDENTITY.
abbrev pub in_memory : ℕ → Bool
in_memory inst_info = bit_and (inst_info / 1024) 1 == 0

abbrev pub reg1 : ℕ → ℕ
reg1 inst_info = bit_and (inst_info / 8) 0xF

abbrev pub identity_of : ℕ → ℕ
identity_of inst_info = bit_and (inst_info / 2 ^ 28) 3

-- The operand, as an address or as the value of a register, with the displacement.
unfoldable pub operand_of : Vm → ℕ
operand_of s =
    let inst_info = s.vmcs vm_data_vm_exit_inst_info in
    let dest =
      if in_memory inst_info
      then calc_dest_mem_addr s inst_info
      else get_reg_value_from_index s (reg1 inst_info) in
    (dest + s.vmcs vm_data_exit_qualification) % 2 ^ 64

-- `struct desc_ptr` is packed: the size in two bytes, then the address in eight.
unfoldable pub store_desc : Access → ℕ → ℕ → ℕ → Access
store_desc s addr base limit = record s {
  memory = store 2 addr (s.vm.vmcs limit) (store 8 (addr + 2) (s.vm.vmcs base) s.memory);
}

unfoldable pub load_desc : Access → ℕ → ℕ → ℕ → Access
load_desc s addr base limit = record s {
  vm = write_vmcs (write_vmcs s.vm base (load 8 (addr + 2) s.memory)) limit (load 2 addr s.memory);
}

-- SGDT, SIDT, LGDT and LIDT; `shutdowning` is the answer of `hb_is_system_shutdowning`.
unfoldable pub vm_exit_callback_gdtr_idtr : Bool → Access → Access
vm_exit_callback_gdtr_idtr shutdowning s =
    let s1 = record s { vm = advance_vm_guest_rip s.vm } in
    let dest_addr = operand_of s1.vm in
    let identity = identity_of (s1.vm.vmcs vm_data_vm_exit_inst_info) in
    if shutdowning
    then record s { vm = disable_desc_monitor s.vm }
    else if identity == 0
    then store_desc s1 dest_addr vm_guest_gdtr_base vm_guest_gdtr_limit
    else if identity == 1
    then store_desc s1 dest_addr vm_guest_idtr_base vm_guest_idtr_limit
    else if identity == 2
    then load_desc s1 dest_addr vm_guest_gdtr_base vm_guest_gdtr_limit
    else load_desc s1 dest_addr vm_guest_idtr_base vm_guest_idtr_limit

-- SLDT and STR.
unfoldable pub store_selector : Access → ℕ → ℕ → ℕ → Access
store_selector s inst_info dest_addr selector =
    if in_memory inst_info
    then record s { memory = set_value_to_memory inst_info dest_addr (s.vm.vmcs selector) s.memory }
    else record s { vm = set_reg_value_from_index s.vm (reg1 inst_info) (s.vm.vmcs selector) }

-- What LLDT and LTR load.
unfoldable pub selector_operand : Access → ℕ → ℕ → ℕ
selector_operand s inst_info dest_addr =
    if in_memory inst_info then get_value_from_memory inst_info dest_addr s.memory else dest_addr

-- SLDT, STR, LLDT and LTR.
unfoldable pub vm_exit_callback_ldtr_tr : Access → Access
vm_exit_callback_ldtr_tr s =
    let inst_info = s.vm.vmcs vm_data_vm_exit_inst_info in
    let dest_addr = operand_of s.vm in
    let identity = identity_of inst_info in
    let value = selector_operand s inst_info dest_addr in
    let s1 =
      if identity == 0
      then store_selector s inst_info dest_addr vm_guest_ldtr_selector
      else if identity == 1
      then store_selector s inst_info dest_addr vm_guest_tr_selector
      else if identity == 2
      then (if value == 0
          then record s { vm = write_vmcs s.vm vm_guest_ldtr_selector value }
          else record s { vm = insert_ud_exception_to_vm s.vm })
      else record s { vm = write_vmcs s.vm vm_guest_tr_selector value } in
    record s1 { vm = advance_vm_guest_rip s1.vm }
