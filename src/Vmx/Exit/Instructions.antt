-- ===== src/Vmx/Exit/Instructions.antt =====
-- Instructions of the guest that `hb_vm_exit_callback` of Source/hyper_box/hypervisor.c executes
-- itself, with `hb_vm_exit_callback_cpuid` and `hb_vm_exit_callback_pre_timer_expired`. RDMSR, WRMSR
-- and XSETBV work on the low half of their operand ECX, as asm_helper.asm loads it.
use alcatraz.Prelude.{ℕ, ◌+◌, ◌*◌, ◌/◌, ◌%◌, ◌^◌, ◌==◌, if◌then◌else◌, bit_and, bit_or}
use alcatraz.Vmx.Registers.{
  GuestRegister, Vm, write_vmcs, put_regs, advance_vm_guest_rip, clear_vmx_inst_flags,
}
use alcatraz.Vmx.Nested.{on_processor, vm_host_rsp}
use alcatraz.Vmx.Shadow.{Shadow, clear_vmcs_shadowing_to_current}
use alcatraz.Vmx.Exit.{Machinery, Cpu, vm_of, on_vm}

-- A write of the low half through a pointer to 32 bits.
abbrev pub put_low32 : ℕ → ℕ → ℕ
put_low32 old new = old / 2 ^ 32 * 2 ^ 32 + new % 2 ^ 32

abbrev pub cpuid_regs : Machinery → GuestRegister → GuestRegister
cpuid_regs e r =
    let (a, b, c, d) = e.cpuid (r.rax % 2 ^ 32) (r.rcx % 2 ^ 32) in
    record r {
      rax = put_low32 r.rax a;
      rbx = put_low32 r.rbx b;
      rcx = put_low32 r.rcx c;
      rdx = put_low32 r.rdx d;
    }

unfoldable pub vm_exit_callback_cpuid : Machinery → Vm → Vm
vm_exit_callback_cpuid e s = advance_vm_guest_rip (put_regs s (cpuid_regs e s.regs))

-- A 64-bit value in EDX:EAX.
abbrev pub put_edx_eax : ℕ → Vm → Vm
put_edx_eax v s = put_regs s (record s.regs { rdx = v / 2 ^ 32; rax = bit_and v 0xFFFFFFFF })

unfoldable pub exit_rdmsr : Cpu → Cpu
exit_rdmsr c =
    let v = c.msr ((vm_of c).regs.rcx % 2 ^ 32) in
    on_vm (λ s. advance_vm_guest_rip (put_edx_eax v s)) c

unfoldable pub exit_wrmsr : Cpu → Cpu
exit_wrmsr c =
    let r = (vm_of c).regs in
    let v = bit_or (r.rdx * 2 ^ 32 % 2 ^ 64) (bit_and r.rax 0xFFFFFFFF) in
    on_vm advance_vm_guest_rip (record c { msr = λ i. if i == r.rcx % 2 ^ 32 then v else c.msr i })

unfoldable pub exit_xsetbv : Cpu → Cpu
exit_xsetbv c =
    let r = (vm_of c).regs in
    let v = bit_or (r.rdx * 2 ^ 32 % 2 ^ 64) r.rax in
    record (on_vm advance_vm_guest_rip c) { xcr = λ i. if i == r.rcx % 2 ^ 32 then v else c.xcr i }

-- The nested VMCS becomes the current one, if the processor takes it.
unfoldable pub load_nested : Machinery → Shadow → Shadow
load_nested e s =
    if e.loadable s.nested.nested_vmcs_ptr
    then record s { nested = record s.nested { current = s.nested.nested_vmcs_ptr } }
    else s

abbrev pub set_host_rsp : Machinery → Shadow → Shadow
set_host_rsp e s = record s {
  nested = on_processor (λ u. write_vmcs u vm_host_rsp e.host.stack) s.nested;
}

abbrev pub set_vm_launch : Shadow → Shadow
set_vm_launch s = record s {
  nested = record s.nested { regs = record s.nested.regs { vm_launch = 1 } };
}

-- RIP and flags of the guest, the shadow VMCS, and the switch to the nested VMCS.
unfoldable pub enter_nested : Machinery → Shadow → Shadow
enter_nested e s =
    let s1 = record s { nested = on_processor advance_vm_guest_rip s.nested } in
    let s2 = clear_vmcs_shadowing_to_current s1 in
    load_nested e (record s2 { nested = on_processor clear_vmx_inst_flags s2.nested })

unfoldable pub exit_vmlaunch : Machinery → Shadow → Shadow
exit_vmlaunch e s =
    let entered = enter_nested e s in
    set_host_rsp e (if e.loadable s.nested.nested_vmcs_ptr then set_vm_launch entered else entered)

unfoldable pub exit_vmresume : Machinery → Shadow → Shadow
exit_vmresume e s =
    let entered = set_host_rsp e (enter_nested e s) in
    if s.support then set_vm_launch entered else entered

unfoldable pub exit_vmxoff : Shadow → Shadow
exit_vmxoff s = record s {
  nested = on_processor advance_vm_guest_rip (record s.nested { nested_vmcs_ptr = 0 });
}

abbrev pub vm_guest_vmx_pre_timer_value : ℕ
vm_guest_vmx_pre_timer_value = 0x482E

unfoldable pub vm_exit_callback_pre_timer_expired : Machinery → Cpu → Cpu
vm_exit_callback_pre_timer_expired e c =
    let checked = if e.shutdowning then c else record c { monitor = e.periodic c.monitor } in
    on_vm (λ u. write_vmcs u vm_guest_vmx_pre_timer_value e.timer_value) checked
