-- ===== src/Vmx/Violation/Laws.antt =====
-- What the guest gets out of a forbidden access.
use alcatraz.Prelude.{
  ℕ, ◌/◌, ◌%◌, ◌^◌, ◌<◌, ◌≤◌, ◌≡◌, ◌≢◌, ap, ◌∙◌, arith, ◌==◌, Bool, ◌||◌, ◌&&◌, not, if◌then◌else◌,
  false, bit_and, bit_or, List, Bool-cases, inl, inr, ==_iff, subst,
}
use alcatraz.Prelude.Bits.{
  bit, bit-lt, single, bit-single, bit-bit_and, bit-bit_or, bit_zero, bits_ext,
}
use alcatraz.Memory.RoArea.{RoAddr}
use alcatraz.Vmx.Registers.{
  Vm, vm_guest_cr0, vm_ctrl_vm_entry_int_info_field, vm_entry_int_info_ud,
  insert_ud_exception_to_vm,
}
use alcatraz.Ept.{Ept}
use alcatraz.Ept.Pages.{entry, Words, set_page-entry}
use alcatraz.Vmx.Violation.{
  Violation, recover_wp, trigger_shutdown_timer, vm_exit_callback_ept_violation,
}

-- Whether the guest may write to page `n`.
abbrev pub write_bit : Ept → ℕ → ℕ
write_bit e n = entry e n / 2 % 2

masked_off : (j x : ℕ) → bit j x ≡ 0 → bit_and x (single j) ≡ 0
masked_off j x clear = bits_ext _ 0 λ k. bit-bit_and k x (single j) ∙ elim (Bool-cases (j == k)) [
  | inl e ↦
      rw (bit-single j k, e)
        (ground (arith, subst (λ i. bit i x ≡ 0) ((==_iff j k).0 e) clear, bit_zero k))
  | inr e ↦ rw (bit-single j k, e) (ground (arith, bit_zero k))
]

wp_set : (v : ℕ) → bit 16 (bit_or v 0x10000) ≡ 1
wp_set v = bit-bit_or 16 v (single 16) ∙ omega (arith, bit-lt 16 v)

wp_kept : (v : ℕ) → (bit_and v 0x10000 == 0) ≡ false → bit 16 v ≡ 1
wp_kept v h =
    let zero_or_one = bit-lt 16 v in
    elim (Bool-cases (bit 16 v == 0)) [
      | inl e ↦ absurd (ground (arith, h, masked_off 16 v ((==_iff (bit 16 v) 0).0 e)))
      | inr e ↦ ground (arith, e, zero_or_one)
    ]

wp_recovered :
    (s : Vm)
    → bit_and (s.vmcs vm_guest_cr0) 0x80000000 ≢ 0
    → bit 16 ((recover_wp (insert_ud_exception_to_vm s)).vmcs vm_guest_cr0) ≡ 1
unfolding recover_wp insert_ud_exception_to_vm
wp_recovered s pg = elim (Bool-cases (bit_and (s.vmcs vm_guest_cr0) 0x10000 == 0)) [
  | inl e ↦ ap (bit 16) (ground (arith, e, pg)) ∙ wp_set (s.vmcs vm_guest_cr0)
  | inr e ↦ ap (bit 16) (ground (arith, e, pg)) ∙ wp_kept (s.vmcs vm_guest_cr0) e
]

ud_inserted :
    (s : Vm)
    → (recover_wp (insert_ud_exception_to_vm s)).vmcs vm_ctrl_vm_entry_int_info_field
      ≡ vm_entry_int_info_ud
unfolding recover_wp insert_ud_exception_to_vm
ud_inserted s = ground arith

-- A forbidden access never gives the guest the right to write to a page, whichever page it was and
-- whatever the system's state is. Outside a shutdown, and unless the kernel goes to sleep, it is
-- answered by an invalid-opcode exception, and with paging on the guest runs on with write
-- protection on. The shutdown timer runs afterwards if it did before, or if the kernel goes to sleep
-- in a shutdown, and a timer that runs is not started again.
pub ept_violation_answer :
    (ro : List RoAddr) (sleep_notify guest_linear guest_physical jiffies n : ℕ) (shutdowning : Bool)
    (s : Violation)
    → Words s.ept
    → guest_physical < 2 ^ 64
    → let s' =
        vm_exit_callback_ept_violation ro sleep_notify shutdowning jiffies s guest_linear
          guest_physical in
      (write_bit s'.ept n ≤ write_bit s.ept n)
      × (guest_linear ≢ sleep_notify
          → shutdowning ≡ false
          → (s'.vm.vmcs vm_ctrl_vm_entry_int_info_field ≡ vm_entry_int_info_ud)
            × (bit_and (s.vm.vmcs vm_guest_cr0) 0x80000000 ≢ 0
                → bit 16 (s'.vm.vmcs vm_guest_cr0) ≡ 1))
      × (s'.timer ≡ (s.timer || guest_linear == sleep_notify && shutdowning))
      × (s'.shutdown_jiffies ≡ (if not s.timer && s'.timer then jiffies else s.shutdown_jiffies))
unfolding vm_exit_callback_ept_violation trigger_shutdown_timer
ept_violation_answer ro sleep_notify linear physical jiffies n shutdowning s w small = (
  ground (arith, set_page-entry s.ept physical n w small),
  λ awake running. (
    ground (arith, awake, running, ud_inserted s.vm),
    λ pg. ground (arith, awake, running, wp_recovered s.vm pg),
  ),
  ground arith,
  ground arith,
)
