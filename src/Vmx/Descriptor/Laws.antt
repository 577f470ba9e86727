-- ===== src/Vmx/Descriptor/Laws.antt =====
-- What the handlers of descriptor tables let the guest do.
use alcatraz.Prelude.{
  ℕ, zero, suc, ◌+◌, ◌%◌, ◌^◌, ◌<◌, ◌≡◌, ◌≢◌, inl, inr, refl, ap, sym, ◌∙◌, arith, ◌==◌, ==_self,
  false, if◌then◌else◌, Bool-cases,
}
use alcatraz.Vmx.Registers.{
  Vm, vm_guest_rip, vm_guest_rsp, vm_data_vm_exit_inst_length, vm_ctrl_vm_entry_int_info_field,
  vm_entry_int_info_ud, advance_vm_guest_rip, insert_ud_exception_to_vm, set_reg_value_from_index,
}
use alcatraz.Vmx.Nested.{store, vm_data_vm_exit_inst_info}
use alcatraz.Vmx.Descriptor.{
  Access, load, operand_of, identity_of, in_memory, reg1, store_desc, load_desc, store_selector,
  selector_operand, vm_exit_callback_gdtr_idtr, vm_exit_callback_ldtr_tr, vm_guest_gdtr_base,
  vm_guest_gdtr_limit, vm_guest_idtr_base, vm_guest_idtr_limit, vm_guest_ldtr_selector,
  vm_guest_tr_selector,
}
use alcatraz.Vmx.Descriptor.Memory.{load-store, load-same, store-outside}

-- What is stored at an address is loaded from it again.
desc_back :
    (s t : Access) (addr base limit base' limit' : ℕ)
    → t.memory ≡ (store_desc s addr base limit).memory
    → s.vm.vmcs base < 2 ^ 64
    → s.vm.vmcs limit < 2 ^ 16
    → base' ≢ limit'
    → ((load_desc t addr base' limit').vm.vmcs base' ≡ s.vm.vmcs base)
      × ((load_desc t addr base' limit').vm.vmcs limit' ≡ s.vm.vmcs limit)
unfolding store_desc load_desc
desc_back s t addr base limit base' limit' same small small' ne =
    let b = s.vm.vmcs base in
    let l = s.vm.vmcs limit in
    let high = store 8 (addr + 2) b s.memory in
    let address : load 8 (addr + 2) t.memory ≡ b =
      ap (load 8 (addr + 2)) same
      ∙ load-same 8 (addr + 2) (store 2 addr l high) high
          (λ a lo hi. store-outside 2 addr l high a (inr (omega (arith, lo))))
      ∙ load-store 8 (addr + 2) b s.memory (omega (arith, small)) in
    let size : load 2 addr t.memory ≡ l =
      ap (load 2 addr) same ∙ load-store 2 addr l high (omega (arith, small')) in
    (ground (arith, address, ne, ==_self base'), ground (arith, size, ==_self limit'))

abbrev pub base_of : ℕ → ℕ
base_of i = if i == 0 then vm_guest_gdtr_base else vm_guest_idtr_base

abbrev pub limit_of : ℕ → ℕ
limit_of i = if i == 0 then vm_guest_gdtr_limit else vm_guest_idtr_limit

-- The address of the operand, as the handler computes it.
abbrev pub dest_of : Access → ℕ
dest_of s = operand_of (advance_vm_guest_rip s.vm)

abbrev pub instruction_of : Access → ℕ
instruction_of s = identity_of (s.vm.vmcs vm_data_vm_exit_inst_info)

abbrev stepped : Access → Access
stepped s = record s { vm = advance_vm_guest_rip s.vm }

-- The processor's other fields are not the guest's RIP.
stepped_instruction : (s : Access) → instruction_of (stepped s) ≡ instruction_of s
unfolding advance_vm_guest_rip
stepped_instruction s = refl

stepped_fields :
    (i : ℕ) (s : Access)
    → ((stepped s).vm.vmcs (base_of i) ≡ s.vm.vmcs (base_of i))
      × ((stepped s).vm.vmcs (limit_of i) ≡ s.vm.vmcs (limit_of i))
unfolding advance_vm_guest_rip
stepped_fields i s = elim (Bool-cases (i == 0)) [
  | inl e ↦ rw e (refl, refl)
  | inr e ↦ rw e (refl, refl)
]

gdtr_idtr_stores :
    (i : ℕ) (s : Access)
    → i < 2
    → instruction_of s ≡ i
    → vm_exit_callback_gdtr_idtr false s
      ≡ store_desc (stepped s) (dest_of s) (base_of i) (limit_of i)
unfolding vm_exit_callback_gdtr_idtr
gdtr_idtr_stores zero s lt e = rw (stepped_instruction s) (rw e refl)
gdtr_idtr_stores (suc zero) s lt e = rw (stepped_instruction s) (rw e refl)
gdtr_idtr_stores (suc (suc i)) s lt e = absurd (omega arith)

gdtr_idtr_loads :
    (i : ℕ) (t : Access)
    → i < 2
    → instruction_of t ≡ i + 2
    → vm_exit_callback_gdtr_idtr false t
      ≡ load_desc (stepped t) (dest_of t) (base_of i) (limit_of i)
unfolding vm_exit_callback_gdtr_idtr
gdtr_idtr_loads zero t lt e = rw (stepped_instruction t) (rw e refl)
gdtr_idtr_loads (suc zero) t lt e = rw (stepped_instruction t) (rw e refl)
gdtr_idtr_loads (suc (suc i)) t lt e = absurd (omega arith)

base-ne-limit : (i : ℕ) → base_of i ≢ limit_of i
base-ne-limit i e = elim (Bool-cases (i == 0)) [
  | inl q ↦ ground (arith, e, q)
  | inr q ↦ ground (arith, e, q)
]

-- While the system is not shutting down, a guest that stores its GDTR or IDTR and loads it again from
-- the same address, with the memory as the store has left it, gets the base and the limit back that
-- it had, as long as they are 64 and 16 bits wide: `i` is 0 for SGDT and LGDT, 1 for SIDT and LIDT.
pub load-store_desc :
    (i : ℕ) (s t : Access)
    → i < 2
    → instruction_of s ≡ i
    → instruction_of t ≡ i + 2
    → dest_of t ≡ dest_of s
    → t.memory ≡ (vm_exit_callback_gdtr_idtr false s).memory
    → s.vm.vmcs (base_of i) < 2 ^ 64
    → s.vm.vmcs (limit_of i) < 2 ^ 16
    → ((vm_exit_callback_gdtr_idtr false t).vm.vmcs (base_of i) ≡ s.vm.vmcs (base_of i))
      × ((vm_exit_callback_gdtr_idtr false t).vm.vmcs (limit_of i) ≡ s.vm.vmcs (limit_of i))
load-store_desc i s t lt a b d m hb hl =
    let f = stepped_fields i s in
    let kept : t.memory ≡ (store_desc (stepped s) (dest_of t) (base_of i) (limit_of i)).memory =
      m
      ∙ ap (λ (x : Access). x.memory) (gdtr_idtr_stores i s lt a)
      ∙ ap (λ (x : ℕ). (store_desc (stepped s) x (base_of i) (limit_of i)).memory) (sym d) in
    let back =
      desc_back (stepped s) (stepped t) (dest_of t) (base_of i) (limit_of i) (base_of i)
        (limit_of i) kept (omega (arith, f.0, hb)) (omega (arith, f.1, hl)) (base-ne-limit i) in
    rw (gdtr_idtr_loads i t lt b) (back.0 ∙ f.0, back.1 ∙ f.1)

pub set_reg-field :
    (s : Vm) (i v f : ℕ) → f ≢ vm_guest_rsp → (set_reg_value_from_index s i v).vmcs f ≡ s.vmcs f
unfolding set_reg_value_from_index
set_reg-field s i v f ne = ground (arith, ne)

store_selector-field :
    (s : Access) (inst_info dest selector f : ℕ)
    → f ≢ vm_guest_rsp
    → (store_selector s inst_info dest selector).vm.vmcs f ≡ s.vm.vmcs f
unfolding store_selector
store_selector-field s inst_info dest selector f ne = elim (Bool-cases (in_memory inst_info)) [
  | inl e ↦ rw e refl
  | inr e ↦ rw e (set_reg-field s.vm (reg1 inst_info) (s.vm.vmcs selector) f ne)
]

-- In a guest whose LDTR is 0, the LDTR stays 0 whatever SLDT, STR, LLDT or LTR does: an LLDT of
-- another selector gives the guest an invalid-opcode exception. Each of them moves the guest's RIP
-- past the instruction once.
pub ldtr_tr_answer :
    (s : Access)
    → s.vm.vmcs vm_guest_ldtr_selector ≡ 0
    → let s' = vm_exit_callback_ldtr_tr s in
      (s'.vm.vmcs vm_guest_ldtr_selector ≡ 0)
      × (s'.vm.vmcs vm_guest_rip
          ≡ (s.vm.vmcs vm_guest_rip + s.vm.vmcs vm_data_vm_exit_inst_length) % 2 ^ 64)
      × (instruction_of s ≡ 2
          → selector_operand s (s.vm.vmcs vm_data_vm_exit_inst_info) (operand_of s.vm) ≢ 0
          → s'.vm.vmcs vm_ctrl_vm_entry_int_info_field ≡ vm_entry_int_info_ud)
unfolding vm_exit_callback_ldtr_tr advance_vm_guest_rip insert_ud_exception_to_vm
ldtr_tr_answer s h =
    let i = s.vm.vmcs vm_data_vm_exit_inst_info in
    let d = operand_of s.vm in
    ground (
      arith,
      h,
      store_selector-field s i d vm_guest_ldtr_selector vm_guest_ldtr_selector (omega arith),
      store_selector-field s i d vm_guest_tr_selector vm_guest_ldtr_selector (omega arith),
      store_selector-field s i d vm_guest_ldtr_selector vm_guest_rip (omega arith),
      store_selector-field s i d vm_guest_tr_selector vm_guest_rip (omega arith),
      store_selector-field s i d vm_guest_ldtr_selector vm_data_vm_exit_inst_length (omega arith),
      store_selector-field s i d vm_guest_tr_selector vm_data_vm_exit_inst_length (omega arith),
    )

-- Whatever the LDTR holds, one of these instructions moves the guest past itself once.
pub ldtr_tr_step :
    (s : Access)
    → (vm_exit_callback_ldtr_tr s).vm.vmcs vm_guest_rip
      ≡ (s.vm.vmcs vm_guest_rip + s.vm.vmcs vm_data_vm_exit_inst_length) % 2 ^ 64
unfolding vm_exit_callback_ldtr_tr advance_vm_guest_rip insert_ud_exception_to_vm
ldtr_tr_step s =
    let i = s.vm.vmcs vm_data_vm_exit_inst_info in
    let d = operand_of s.vm in
    ground (
      arith,
      store_selector-field s i d vm_guest_ldtr_selector vm_guest_rip (omega arith),
      store_selector-field s i d vm_guest_tr_selector vm_guest_rip (omega arith),
      store_selector-field s i d vm_guest_ldtr_selector vm_data_vm_exit_inst_length (omega arith),
      store_selector-field s i d vm_guest_tr_selector vm_data_vm_exit_inst_length (omega arith),
    )
