-- ===== src/Vmx/Nested.antt =====
-- VMX instructions of a nested hypervisor with two operands:
-- `hb_vm_exit_callback_vmx_inst_type2` of Source/hyper_box/hypervisor.c and its helpers. The fields
-- of every VMCS are kept by its address; `current` is the VMCS that the processor works on.
pub mod Laws
pub mod HostState
use alcatraz.Prelude.{
  ℕ, zero, suc, ◌+◌, ◌*◌, ◌/◌, ◌%◌, ◌^◌, ◌==◌, ◌||◌, not, Bool, true, false, if◌then◌else◌, bit_and,
  List, [], ◌∷◌, Option, none, some, set, get_or,
}
use alcatraz.Vmx.Registers.{
  GuestRegister, Vm, get_reg_value_from_index, set_reg_value_from_index, advance_vm_guest_rip,
  clear_vmx_inst_flags,
}

-- `struct hb_nested_vmcs_struct`.
pub record NestedVmcs : Type 0 where
  pub vmcs_ptr : ℕ
  pub rip : ℕ
  pub rsp : ℕ
  pub cr3 : ℕ

pub record Nested : Type 0 where
  pub regs : GuestRegister
  pub region : ℕ → ℕ → ℕ
  pub current : ℕ
  pub nested_vmcs_ptr : ℕ
  pub nested_array : List NestedVmcs
  pub memory : ℕ → ℕ

abbrev pub no_nested : NestedVmcs
no_nested = record { vmcs_ptr = 0; rip = 0; rsp = 0; cr3 = 0 }

-- The processor that the helpers on registers and on the current VMCS see.
abbrev pub processor : Nested → Vm
processor s = record { regs = s.regs; vmcs = s.region s.current }

abbrev pub on_processor : (Vm → Vm) → Nested → Nested
on_processor f s =
    let v = f (processor s) in
    record s { regs = v.regs; region = λ p. if p == s.current then v.vmcs else s.region p }

abbrev pub vm_host_cr3 : ℕ
vm_host_cr3 = 0x6C02

abbrev pub vm_host_rsp : ℕ
vm_host_rsp = 0x6C14

abbrev pub vm_host_rip : ℕ
vm_host_rip = 0x6C16

abbrev pub vm_data_vm_exit_inst_info : ℕ
vm_data_vm_exit_inst_info = 0x440E

abbrev pub vm_data_exit_qualification : ℕ
vm_data_exit_qualification = 0x6400

abbrev pub vm_exit_reason_vmread : ℕ
vm_exit_reason_vmread = 23

abbrev pub vm_exit_reason_vmwrite : ℕ
vm_exit_reason_vmwrite = 25

-- The slot of a VMCS, or else the first free one.
unfoldable pub find_nested_vmcs_struct : List NestedVmcs → ℕ → Option ℕ
find_nested_vmcs_struct [] p = none
find_nested_vmcs_struct (x ∷ xs) p =
    let rest = find_nested_vmcs_struct xs p in
    if x.vmcs_ptr == p || x.vmcs_ptr == 0
    then some 0
    else elim rest [ none ↦ none | some i ↦ some (suc i) ]

unfoldable pub calc_dest_mem_addr : Vm → ℕ → ℕ
calc_dest_mem_addr s inst_info =
    let index = get_reg_value_from_index s (bit_and (inst_info / 2 ^ 18) 0xF) in
    let base = get_reg_value_from_index s (bit_and (inst_info / 2 ^ 23) 0xF) in
    let scaled =
      if bit_and inst_info 0x400000 == 0 then index * 2 ^ bit_and inst_info 3 % 2 ^ 64 else 0 in
    if bit_and inst_info 0x8000000 == 0 then (scaled + base) % 2 ^ 64 else scaled

-- A store of `n` bytes, the lowest first.
unfoldable pub store : ℕ → ℕ → ℕ → (ℕ → ℕ) → ℕ → ℕ
store zero addr value mem = mem
store (suc n) addr value mem =
    store n (addr + 1) (value / 256) (λ a. if addr == a then value % 256 else mem a)

unfoldable pub set_value_to_memory : ℕ → ℕ → ℕ → (ℕ → ℕ) → ℕ → ℕ
set_value_to_memory inst_info addr value mem =
    let size = bit_and (inst_info / 128) 7 in
    if size == 0
    then store 2 addr value mem
    else if size == 1
    then store 4 addr value mem
    else if size == 2
    then store 8 addr value mem
    else mem

-- The hypervisor's own values: the entry point of its exit handler, its stack and its page table.
pub record Host : Type 0 where
  pub stub : ℕ
  pub stack : ℕ
  pub pml4 : ℕ

-- The first part of a VMWRITE: what is remembered of it, and the value that reaches the VMCS.
unfoldable pub divert : Host → NestedVmcs → ℕ → ℕ → NestedVmcs × ℕ
divert h n reg_field value =
    if reg_field == vm_host_rip
    then (record n { rip = value }, h.stub)
    else if reg_field == vm_host_rsp
    then (record n { rsp = value }, h.stack)
    else if reg_field == vm_host_cr3
    then (record n { cr3 = value }, h.pml4)
    else (n, value)

-- What a VMREAD gives, with the nested VMCS loaded.
unfoldable pub lookup : NestedVmcs → (ℕ → ℕ) → ℕ → ℕ
lookup n vmcs reg_field =
    if reg_field == vm_host_rip
    then n.rip
    else if reg_field == vm_host_rsp
    then n.rsp
    else if reg_field == vm_host_cr3
    then n.cr3
    else vmcs reg_field

abbrev pub write_region : Nested → ℕ → ℕ → ℕ → Nested
write_region s p field v = record s {
  region = λ q. if q == p then (λ f. if field == f then v else s.region p f) else s.region q;
}

-- `loadable` says for which addresses `hb_load_vmcs` succeeds; reloading the previous VMCS does.
module _ (h : Host) (loadable : ℕ → Bool) where
  unfoldable pub nested_vmwrite : Nested → ℕ → ℕ → ℕ → Nested
  nested_vmwrite s slot reg_field dest_addr =
      let (n, value) = divert h (get_or s.nested_array slot no_nested) reg_field dest_addr in
      let s' = record s { nested_array = set s.nested_array slot n } in
      if loadable s.nested_vmcs_ptr then write_region s' s.nested_vmcs_ptr reg_field value else s'

  -- A register operand is written while the nested VMCS is still loaded.
  unfoldable pub nested_vmread : Nested → ℕ → ℕ → Bool → ℕ → ℕ → Nested
  nested_vmread s slot reg_field memory inst_info dest_addr =
      let prev = s.current in
      let value =
        lookup (get_or s.nested_array slot no_nested) (s.region s.nested_vmcs_ptr) reg_field in
      let loaded = record s { current = s.nested_vmcs_ptr } in
      let done =
        if memory
        then record loaded { memory = set_value_to_memory inst_info dest_addr value s.memory }
        else on_processor (λ v. set_reg_value_from_index v (bit_and (inst_info / 8) 0xF) value)
            loaded in
      if not (loadable s.nested_vmcs_ptr) then s else record done { current = prev }

  -- INVEPT, INVVPID and INVPCID only tell the processor to forget translations.
  unfoldable pub vm_exit_callback_vmx_inst_type2 : Nested → ℕ → Nested
  vm_exit_callback_vmx_inst_type2 s exit_reason =
      let v = processor s in
      let inst_info = v.vmcs vm_data_vm_exit_inst_info in
      let memory = bit_and (inst_info / 1024) 1 == 0 in
      let operand =
        if memory
        then calc_dest_mem_addr v inst_info
        else get_reg_value_from_index v (bit_and (inst_info / 8) 0xF) in
      let dest_addr = (operand + v.vmcs vm_data_exit_qualification) % 2 ^ 64 in
      let reg_field = get_reg_value_from_index v (bit_and (inst_info / 2 ^ 28) 0xF) in
      let s1 = on_processor (λ u. clear_vmx_inst_flags (advance_vm_guest_rip u)) s in
      elim (find_nested_vmcs_struct s1.nested_array s1.nested_vmcs_ptr) [
        | none ↦ s1
        | some slot ↦
            let n = get_or s1.nested_array slot no_nested in
            let s2 = record s1 {
              nested_array = set s1.nested_array slot (record n { vmcs_ptr = s1.nested_vmcs_ptr });
            } in
            if exit_reason == vm_exit_reason_vmwrite
            then nested_vmwrite s2 slot reg_field dest_addr
            else if exit_reason == vm_exit_reason_vmread
            then nested_vmread s2 slot reg_field memory inst_info dest_addr
            else s2
      ]
