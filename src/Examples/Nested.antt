-- ===== src/Examples/Nested.antt =====
-- A nested hypervisor that sets up its own exits.
use alcatraz.Prelude.{refl, [], ◌∷◌, true, if◌then◌else◌, ◌==◌}
use alcatraz.Vmx.Nested.{
  Nested, no_nested, Host, vm_exit_callback_vmx_inst_type2, vm_host_rip, vm_host_rsp, vm_host_cr3,
}
use alcatraz.Vmx.Nested.HostState.{Owned, type2-Owned}
use alcatraz.Examples.Guest.{regs, guest}

abbrev pub host : Host
host = record { stub = 0xFFFF1000; stack = 0xFFFF2000; pml4 = 0xFFFF3000 }

-- The guest's VMCS is at 0x1000, the nested one at 0x2000.
abbrev pub kvm : Nested
kvm = record {
  regs = regs;
  region = λ p. if p == 0x1000 then guest.vmcs else λ f.
      if f == vm_host_rip
      then 0xFFFF1000
      else if f == vm_host_rsp
      then 0xFFFF2000
      else if f == vm_host_cr3
      then 0xFFFF3000
      else 0;
  current = 0x1000;
  nested_vmcs_ptr = 0x2000;
  nested_array = no_nested ∷ no_nested ∷ [];
  memory = λ a. 0;
}

type2-Owned_example : Owned host (vm_exit_callback_vmx_inst_type2 host (λ p. true) kvm 25) 0x2000
type2-Owned_example = type2-Owned host (λ p. true) kvm 25 0x2000 (refl, refl, refl)
