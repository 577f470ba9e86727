-- ===== src/Vmx/Exit/Dispatch.antt =====
-- The dispatch of `hb_vm_exit_callback` of Source/hyper_box/hypervisor.c: by whether the guest or a
-- guest of a nested hypervisor has exited, and by the reason.
use alcatraz.Prelude.{ℕ, ◌==◌, ◌&&◌, ◌||◌, not, leb, if◌then◌else◌, bit_and, none, some, get_or}
use alcatraz.Vmx.Registers.{
  Vm, write_vmcs, advance_vm_guest_rip, vm_guest_cr3, vm_guest_rip, vm_guest_rsp, vm_guest_rflags,
}
use alcatraz.Vmx.Control.{vm_exit_callback_access_cr, vm_exit_callback_vmcall}
use alcatraz.Vmx.Breakpoint.{vm_exit_callback_int}
use alcatraz.Vmx.Violation.{vm_exit_callback_ept_violation}
use alcatraz.Vmx.Descriptor.{vm_exit_callback_gdtr_idtr, vm_exit_callback_ldtr_tr}
use alcatraz.Vmx.Nested.{
  NestedVmcs, Nested, no_nested, find_nested_vmcs_struct, vm_exit_callback_vmx_inst_type2,
  vm_data_exit_qualification,
}
use alcatraz.Vmx.Shadow.{set_vmcs_shadowing_to_current, vm_exit_callback_vmx_inst_type1}
use alcatraz.Vmx.Exit.{
  Machinery, Cpu, vm_of, on_vm, on_shadow, machine_of, put_machine, access_of, put_access,
  violation_of, put_violation, check_shutdown_timer, hide_hyper_box,
}
use alcatraz.Vmx.Exit.Instructions.{
  vm_exit_callback_cpuid, exit_rdmsr, exit_wrmsr, exit_xsetbv, exit_vmlaunch, exit_vmresume,
  exit_vmxoff, vm_exit_callback_pre_timer_expired,
}

abbrev pub vm_data_exit_reason : ℕ
vm_data_exit_reason = 0x4402

abbrev pub vm_data_guest_phy_addr : ℕ
vm_data_guest_phy_addr = 0x2400

abbrev pub vm_data_guest_linear_addr : ℕ
vm_data_guest_linear_addr = 0x640A

abbrev pub vm_ctrl_vm_entry_inst_length : ℕ
vm_ctrl_vm_entry_inst_length = 0x401A

abbrev pub vm_guest_fs_base : ℕ
vm_guest_fs_base = 0x680E

abbrev pub vm_guest_gs_base : ℕ
vm_guest_gs_base = 0x6810

abbrev pub vm_host_fs_base : ℕ
vm_host_fs_base = 0x6C06

abbrev pub vm_host_gs_base : ℕ
vm_host_gs_base = 0x6C08

abbrev pub on_nested : (Nested → Nested) → Cpu → Cpu
on_nested f c = record c { shadow = record c.shadow { nested = f c.shadow.nested } }

-- Interrupts, signals and the instructions with reasons up to 17.
unfoldable pub dispatch_event : Machinery → Cpu → ℕ → ℕ → Cpu
dispatch_event e c reason exit_qual =
    if reason == 0
    then put_machine c
        (vm_exit_callback_int e.rb e.current e.task_at e.shutdowning (machine_of c) exit_qual)
    else if reason == 1 || reason == 3 || reason == 4
    then c
    else if reason == 10
    then on_vm (vm_exit_callback_cpuid e) c
    else on_vm advance_vm_guest_rip c

-- The VMX instructions, with reasons from 19 to 27.
unfoldable pub dispatch_vmx : Machinery → Cpu → ℕ → Cpu
dispatch_vmx e c reason =
    if reason == 20
    then on_shadow (exit_vmlaunch e) c
    else if reason == 24
    then on_shadow (exit_vmresume e) c
    else if reason == 23 || reason == 25
    then on_nested (λ n. vm_exit_callback_vmx_inst_type2 e.host e.loadable n reason) c
    else if reason == 26
    then on_shadow exit_vmxoff c
    else on_shadow (λ s. vm_exit_callback_vmx_inst_type1 s reason) c

-- All others. An access to a descriptor table and a violation of the EPT decide themselves whether
-- the guest moves on.
unfoldable pub dispatch_other : Machinery → Cpu → ℕ → ℕ → Cpu
dispatch_other e c reason exit_qual =
    let v = vm_of c in
    if reason == 18
    then on_vm (λ s. vm_exit_callback_vmcall s e.log_info) c
    else if reason == 28
    then on_vm (λ s. vm_exit_callback_access_cr s exit_qual e.cr2 e.cr8) c
    else if reason == 31
    then exit_rdmsr c
    else if reason == 32
    then exit_wrmsr c
    else if reason == 46
    then put_access c (vm_exit_callback_gdtr_idtr e.shutdowning (access_of c))
    else if reason == 47
    then put_access c (vm_exit_callback_ldtr_tr (access_of c))
    else if reason == 48
    then put_violation c (
        vm_exit_callback_ept_violation e.ro e.sleep_notify e.shutdowning e.time (violation_of c)
          (v.vmcs vm_data_guest_linear_addr) (v.vmcs vm_data_guest_phy_addr))
    else if reason == 50 || reason == 53 || reason == 58
    then on_nested (λ n. vm_exit_callback_vmx_inst_type2 e.host e.loadable n reason) c
    else if reason == 52
    then vm_exit_callback_pre_timer_expired e c
    else if reason == 55
    then exit_xsetbv c
    else on_vm advance_vm_guest_rip c

unfoldable pub dispatch : Machinery → Cpu → ℕ → ℕ → Cpu
dispatch e c reason exit_qual =
    if leb reason 17
    then dispatch_event e c reason exit_qual
    else if leb 19 reason && leb reason 27
    then dispatch_vmx e c reason
    else dispatch_other e c reason exit_qual

-- The host state of a nested VMCS, in the guest's VMCS, with interrupts off.
unfoldable pub restore_host : ℕ → ℕ → NestedVmcs → Vm → Vm
restore_host fs gs n v =
    let segments =
      write_vmcs (write_vmcs (write_vmcs v vm_guest_cr3 n.cr3) vm_guest_fs_base fs) vm_guest_gs_base
        gs in
    write_vmcs (write_vmcs (write_vmcs segments vm_guest_rip n.rip) vm_guest_rsp n.rsp)
      vm_guest_rflags 2

-- The switch to the guest's VMCS.
abbrev pub entered : Machinery → Cpu → ℕ → NestedVmcs → Cpu
entered e c prev n =
    let fs = c.shadow.nested.region prev vm_host_fs_base in
    let gs = c.shadow.nested.region prev vm_host_gs_base in
    on_vm (restore_host fs gs n) (on_nested (λ s. record s { current = e.guest_vmcs }) c)

-- A guest of a nested hypervisor has exited, with the VMCS at `prev`: the nested hypervisor goes on
-- where its host state says.
unfoldable pub leave_nested : Machinery → Cpu → ℕ → NestedVmcs → Cpu
leave_nested e c prev n =
    record (on_shadow (λ s. set_vmcs_shadowing_to_current s prev) (entered e c prev n)) {
      dr = λ i.
          if i == 6
          then bit_and (c.dr 6) 0xFFFF_FFFF_FFFF_FFF0
          else if leb i 3
          then e.test_dr i
          else c.dr i;
    }

-- An exit of the guest itself.
unfoldable pub exit_from_guest : Machinery → Cpu → Cpu
exit_from_guest e c =
    let reason = bit_and ((vm_of c).vmcs vm_data_exit_reason) 0xFFFF in
    let exit_qual = (vm_of c).vmcs vm_data_exit_qualification in
    let timed = check_shutdown_timer e c in
    let ready = on_vm (λ v. write_vmcs v vm_ctrl_vm_entry_inst_length 0) timed in
    let done = dispatch e (hide_hyper_box e ready) reason exit_qual in
    let is_back_to_vm = reason == 20 || reason == 24 in
    if done.shadow.support && not is_back_to_vm && not (done.shadow.nested.nested_vmcs_ptr == 0)
    then on_shadow (λ s. set_vmcs_shadowing_to_current s s.nested.nested_vmcs_ptr) done
    else done

-- The hypervisor marks that it runs, and at the end that it does not.
unfoldable pub vm_exit_callback : Machinery → Cpu → Cpu
vm_exit_callback e c =
    let prev = c.shadow.nested.current in
    let running = record c { root_mode = 1 } in
    let done =
      if not (prev == e.guest_vmcs)
      then elim (find_nested_vmcs_struct running.shadow.nested.nested_array prev) [
        | none ↦ running
        | some slot ↦
            leave_nested e running prev (get_or running.shadow.nested.nested_array slot no_nested)
      ]
      else exit_from_guest e running in
    record done { root_mode = 0 }
