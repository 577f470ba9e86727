-- ===== src/Vmx/Exit/Steps.antt =====
-- How the handlers of Source/hyper_box/hypervisor.c move the guest's RIP.
use alcatraz.Prelude.{
  ℕ, ap, ◌+◌, ◌/◌, ◌%◌, ◌^◌, ◌≡◌, ◌≢◌, refl, ◌∙◌, arith, ◌==◌, ==_self, Bool, false, Bool-cases,
  Option-cases, inl, inr, bit_and, List, get_or,
}
use alcatraz.Memory.RoArea.{RoAddr}
use alcatraz.Vmx.Registers.{
  remove_int_exception_from_vm, Vm, vm_guest_rip, vm_data_vm_exit_inst_length, advance_vm_guest_rip,
  clear_vmx_inst_flags, insert_ud_exception_to_vm, set_reg_value_from_index,
}
use alcatraz.Monitor.Tree.{RbLib}
use alcatraz.Monitor.Manager.{Task}
use alcatraz.Vmx.Breakpoint.{
  Machine, check_syscall, commit_creds, handle_systemcall_breakpoints, vm_exit_callback_int,
}
use alcatraz.Vmx.Control.{
  read_cr, write_cr, gp_reg_number, ctrl_reg_number, vm_exit_callback_access_cr,
  vm_exit_callback_vmcall,
}
use alcatraz.Vmx.Control.Laws.{set_reg-vmcs}
use alcatraz.Vmx.Violation.{
  Violation, trigger_shutdown_timer, recover_wp, vm_exit_callback_ept_violation,
}
use alcatraz.Vmx.Nested.{
  Nested, Host, no_nested, on_processor, find_nested_vmcs_struct, nested_vmwrite, nested_vmread,
  vm_exit_callback_vmx_inst_type2, vm_exit_reason_vmwrite, vm_exit_reason_vmread, lookup,
}
use alcatraz.Vmx.Nested.HostState.{on_processor-region}
use alcatraz.Vmx.Descriptor.{Access, vm_exit_callback_gdtr_idtr, store_desc, load_desc}
use alcatraz.Vmx.Exit.{Machinery}
use alcatraz.Vmx.Exit.Instructions.{vm_exit_callback_cpuid}

-- One step over the instruction that has exited.
abbrev pub stepped_rip : (ℕ → ℕ) → ℕ
stepped_rip vmcs = (vmcs vm_guest_rip + vmcs vm_data_vm_exit_inst_length) % 2 ^ 64

abbrev pub Steps : Vm → Vm → Type 0
Steps s s' = s'.vmcs vm_guest_rip ≡ stepped_rip s.vmcs

pub advance-Steps : (s : Vm) → Steps s (advance_vm_guest_rip s)
unfolding advance_vm_guest_rip
advance-Steps s = refl

pub cpuid-Steps : (e : Machinery) (s : Vm) → Steps s (vm_exit_callback_cpuid e s)
unfolding vm_exit_callback_cpuid advance_vm_guest_rip
cpuid-Steps e s = refl

pub vmcall-Steps : (s : Vm) (log_info : ℕ) → Steps s (vm_exit_callback_vmcall s log_info)
unfolding vm_exit_callback_vmcall advance_vm_guest_rip clear_vmx_inst_flags
    insert_ud_exception_to_vm
vmcall-Steps s log_info = ground arith

pub access_cr-Steps : (s : Vm) (q cr2 cr8 : ℕ) → Steps s (vm_exit_callback_access_cr s q cr2 cr8)
unfolding vm_exit_callback_access_cr advance_vm_guest_rip write_cr
access_cr-Steps s q cr2 cr8 =
    let value = read_cr s (ctrl_reg_number q) cr2 cr8 in
    ground (
      arith,
      set_reg-vmcs s (gp_reg_number q) value vm_guest_rip refl,
      set_reg-vmcs s (gp_reg_number q) value vm_data_vm_exit_inst_length refl,
    )

pub gdtr_idtr-Steps : (a : Access) → Steps a.vm (vm_exit_callback_gdtr_idtr false a).vm
unfolding vm_exit_callback_gdtr_idtr store_desc load_desc advance_vm_guest_rip
gdtr_idtr-Steps a = ground arith

-- A violation leaves RIP alone: the guest tries again, or gets an exception at the instruction.
pub violation_stays :
    (ro : List RoAddr) (sleep_notify linear physical jiffies : ℕ) (v : Violation)
    (shutdowning : Bool)
    → (vm_exit_callback_ept_violation ro sleep_notify shutdowning jiffies v linear physical).vm.vmcs
        vm_guest_rip
      ≡ v.vm.vmcs vm_guest_rip
unfolding vm_exit_callback_ept_violation trigger_shutdown_timer recover_wp insert_ud_exception_to_vm
violation_stays ro sleep_notify linear physical jiffies v shutdowning = ground arith

-- The two steps that every VMX instruction takes.
pub stepped_once :
    (s : Nested) (p : ℕ)
    → s.current ≡ p
    → (on_processor (λ u. clear_vmx_inst_flags (advance_vm_guest_rip u)) s).region p vm_guest_rip
      ≡ stepped_rip (s.region p)
unfolding clear_vmx_inst_flags advance_vm_guest_rip
stepped_once s p here = rw (← here) (rw (==_self s.current) refl)

-- A breakpoint is handled before its instruction has run.
module _ (rb : RbLib) (current : Task) (task_at : ℕ → Task) where
  handled-vmcs :
      (m : Machine) (dr6 : ℕ)
      → (handle_systemcall_breakpoints rb current task_at m dr6).vm.vmcs ≡ m.vm.vmcs
  unfolding handle_systemcall_breakpoints check_syscall commit_creds
  handled-vmcs m dr6 = ground arith

  pub int_stays :
      (shutdowning : Bool) (m : Machine) (dr6 : ℕ)
      → (vm_exit_callback_int rb current task_at shutdowning m dr6).vm.vmcs vm_guest_rip
        ≡ m.vm.vmcs vm_guest_rip
  unfolding vm_exit_callback_int remove_int_exception_from_vm
  int_stays shutdowning m dr6 =
      ground (arith, ap (λ (v : ℕ → ℕ). v vm_guest_rip) (handled-vmcs m dr6))

module _ (h : Host) (loadable : ℕ → Bool) (p : ℕ) where
  vmwrite-region :
      (s : Nested) (slot field v f : ℕ)
      → s.nested_vmcs_ptr ≢ p
      → (nested_vmwrite h loadable s slot field v).region p f ≡ s.region p f
  unfolding nested_vmwrite
  vmwrite-region s slot field v f other = ground (arith, other)

  vmread-region :
      (s : Nested) (slot field inst_info dest : ℕ) (memory : Bool)
      → (nested_vmread h loadable s slot field memory inst_info dest).region p vm_guest_rip
        ≡ s.region p vm_guest_rip
  unfolding nested_vmread
  vmread-region s slot field inst_info dest memory =
      let value =
        lookup (get_or s.nested_array slot no_nested) (s.region s.nested_vmcs_ptr) field in
      let r = bit_and (inst_info / 8) 0xF in
      elim (Bool-cases (loadable s.nested_vmcs_ptr)) [
        | inr e ↦ rw e refl
        | inl e ↦ rw e (elim (Bool-cases memory) [
          | inl m ↦ rw m refl
          | inr m ↦ rw m (
              on_processor-region (λ v. set_reg_value_from_index v r value)
                (record s { current = s.nested_vmcs_ptr }) p vm_guest_rip
                (λ u. set_reg-vmcs u r value vm_guest_rip refl))
        ])
      ]

  -- The instructions with two operands, in the guest's own VMCS.
  pub type2-Steps :
      (s : Nested) (exit_reason : ℕ)
      → s.current ≡ p
      → s.nested_vmcs_ptr ≢ p
      → (vm_exit_callback_vmx_inst_type2 h loadable s exit_reason).region p vm_guest_rip
        ≡ stepped_rip (s.region p)
  unfolding vm_exit_callback_vmx_inst_type2
  type2-Steps s exit_reason here other =
      let step = λ (u : Vm). clear_vmx_inst_flags (advance_vm_guest_rip u) in
      let s1 = on_processor step s in
      let moved : s1.region p vm_guest_rip ≡ stepped_rip (s.region p) = stepped_once s p here in
      elim (Option-cases (find_nested_vmcs_struct s.nested_array s.nested_vmcs_ptr)) [
        | inl n ↦ rw (n, vm_exit_callback_vmx_inst_type2) moved
        | inr (slot, e) ↦
            rw (e, vm_exit_callback_vmx_inst_type2)
              (elim (Bool-cases (exit_reason == vm_exit_reason_vmwrite)) [
                | inl a ↦ rw a (vmwrite-region _ slot _ _ vm_guest_rip other ∙ moved)
                | inr a ↦ rw a (elim (Bool-cases (exit_reason == vm_exit_reason_vmread)) [
                  | inl b ↦ rw b (vmread-region _ slot _ _ _ _ ∙ moved)
                  | inr b ↦ rw b moved
                ])
              ])
      ]
