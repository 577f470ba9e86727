-- ===== src/Vmx/Violation.antt =====
-- What the hypervisor does when the guest touches a page in a way that the EPT forbids:
-- `hb_vm_exit_callback_ept_violation` of Source/hyper_box/hypervisor.c, built with
-- HYPERBOX_USE_SLEEP and without HYPERBOX_USE_WORKAROUND as hyper_box.h sets them, so that no
-- address is a workaround's.
pub mod Laws
use alcatraz.Prelude.{
  ℕ, ◌+◌, ◌*◌, ◌/◌, ◌%◌, ◌^◌, ◌<◌, ◌≤◌, ◌≡◌, ◌≢◌, refl, ap, ◌∙◌, arith, ◌==◌, ◌&&◌, not, Bool, true,
  false, if◌then◌else◌, bit_and, bit_or, List, ◌∷◌, Bool-cases, inl, inr,
}
use alcatraz.Prelude.Bits.{bit, bit-lt, single, bit-single, bit-bit_and, bit-bit_or, bit_zero}
use alcatraz.Memory.RoArea.{RoAddr, is_addr_in_kernel_ro_area}
use alcatraz.Vmx.Registers.{
  Vm, write_vmcs, vm_guest_cr0, vm_ctrl_vm_entry_int_info_field, vm_entry_int_info_ud,
  insert_ud_exception_to_vm,
}
use alcatraz.Ept.{Ept, set_ept_lock_page, set_ept_read_only_page}
use alcatraz.Ept.Pages.{entry, Words, set_page-entry}

-- `timer` is `g_is_shutdown_trigger_set`, `shutdown_jiffies` when the shutdown timer was started;
-- `errors` are the codes that were logged, newest first.
pub record Violation : Type 0 where
  pub vm : Vm
  pub ept : Ept
  pub timer : Bool
  pub shutdown_jiffies : ℕ
  pub errors : List ℕ

abbrev error_kernel_modification : ℕ
error_kernel_modification = 4

-- If the write protection is off while paging is on, it is switched on again.
unfoldable pub recover_wp : Vm → Vm
recover_wp s =
    let cr0 = s.vmcs vm_guest_cr0 in
    if not (bit_and cr0 0x80000000 == 0) && bit_and cr0 0x10000 == 0
    then write_vmcs s vm_guest_cr0 (bit_or cr0 0x10000)
    else s

-- `hb_trigger_shutdown_timer`: the timer is started once, and only in a shutdown.
unfoldable pub trigger_shutdown_timer : Bool → ℕ → Violation → Violation
trigger_shutdown_timer shutdowning jiffies s =
    if not shutdowning
    then s
    else if s.timer
    then s
    else record s { timer = true; shutdown_jiffies = jiffies }

-- `sleep_notify` is the address of `hb_system_sleep_notify`, `shutdowning` the answer of
-- `hb_is_system_shutdowning`, `jiffies` the time.
unfoldable pub vm_exit_callback_ept_violation :
    List RoAddr → ℕ → Bool → ℕ → Violation → ℕ → ℕ → Violation
vm_exit_callback_ept_violation ro sleep_notify shutdowning jiffies s guest_linear guest_physical =
    if guest_linear == sleep_notify
    then trigger_shutdown_timer shutdowning jiffies
        (record s { ept = set_ept_lock_page s.ept guest_physical })
    else if not shutdowning
    then record s {
      vm = recover_wp (insert_ud_exception_to_vm s.vm);
      errors = error_kernel_modification ∷ s.errors;
    }
    else if not (is_addr_in_kernel_ro_area ro guest_linear)
    then record s { ept = set_ept_read_only_page s.ept guest_physical }
    else s
