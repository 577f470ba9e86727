-- ===== src/Examples/Faults.antt =====
-- A forbidden write of a guest that has switched its write protection off.
use alcatraz.Prelude.{ℕ, zero, ◌≡◌, ◌≢◌, ◌≤◌, [], arith, false, if◌then◌else◌, ◌==◌, bit_and}
use alcatraz.Prelude.Bits.{bit}
use alcatraz.Vmx.Registers.{vm_guest_cr0, vm_ctrl_vm_entry_int_info_field, vm_entry_int_info_ud}
use alcatraz.Vmx.Violation.{Violation, vm_exit_callback_ept_violation}
use alcatraz.Vmx.Violation.Laws.{write_bit, ept_violation_answer}
use alcatraz.Examples.Guest.{regs}
use alcatraz.Examples.Pages.{identity, identity-Words}

abbrev faulting : Violation
faulting = record {
  vm = record { regs = regs; vmcs = λ f. if f == vm_guest_cr0 then 0x80000001 else 0 };
  ept = identity;
  timer = false;
  shutdown_jiffies = 0;
  errors = [];
}

abbrev linear : ℕ
linear = 0x5008

ept_violation_answer_example :
    let s' = vm_exit_callback_ept_violation [] 0x9000 false 7 faulting linear 0x5008 in
    (write_bit s'.ept 5 ≤ write_bit identity 5)
    × (linear ≢ 0x9000
        → false ≡ false
        → (s'.vm.vmcs vm_ctrl_vm_entry_int_info_field ≡ vm_entry_int_info_ud)
          × (bit_and 0x80000001 0x80000000 ≢ zero → bit 16 (s'.vm.vmcs vm_guest_cr0) ≡ 1))
    × (s'.timer ≡ false)
    × (s'.shutdown_jiffies ≡ (if s'.timer then 7 else 0))
ept_violation_answer_example =
    ept_violation_answer [] 0x9000 linear 0x5008 7 5 false faulting identity-Words (omega arith)
