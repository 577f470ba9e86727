-- ===== src/Vmx/Breakpoint/Laws.antt =====
-- How the monitor's verdict reaches the guest.
use alcatraz.Prelude.{
  ℕ, ◌≡◌, arith, ◌<◌, ◌==ℤ◌, if◌then◌else◌, bit_and, bit_or, ◌∙◌, ap, Bool, true, false, to_int,
  pos, ltb,
}
use alcatraz.Prelude.Bits.{bit, bit-lt, single, ones, bit-ones, bit-bit_and, bit-bit_or}
use alcatraz.Monitor.Tree.{RbLib}
use alcatraz.Monitor.Manager.{Task}
use alcatraz.Monitor.Callback.{Monitor, callback_check_cred_update_syscall}
use alcatraz.Vmx.Control.Laws.{bit-not64}
use alcatraz.Vmx.Registers.{
  not64, vm_guest_rflags, vm_data_vm_exit_int_info, remove_int_exception_from_vm,
}
use alcatraz.Vmx.Breakpoint.{
  Machine, hits, dr_bit_syscall_64, exit_regs, check_syscall, handle_systemcall_breakpoints,
  vm_exit_callback_int,
}

-- The exit is a debug exception.
abbrev pub IsDebug : Machine → Type 0
IsDebug s = bit_and (s.vm.vmcs vm_data_vm_exit_int_info) 0xFF ≡ 1

bit-dr6 :
    (d k : ℕ) → k < 64 → bit k (bit_and d 0xFFFF_FFFF_FFFF_FFF0) ≡ (if ltb k 4 then 0 else bit k d)
bit-dr6 d k h =
    bit-bit_and k d (not64 (ones 4))
    ∙ ground (arith, bit-not64 (ones 4) k h, bit-ones 4 k, bit-lt k d)

rf_set : (v : ℕ) → bit 16 (bit_or v 0x10000) ≡ 1
rf_set v = bit-bit_or 16 v (single 16) ∙ omega (arith, bit-lt 16 v)

module _ (rb : RbLib) (current : Task) (task_at : ℕ → Task) where
  -- At the breakpoint of a system call, while the system is not shutting down, the monitor judges
  -- the running task by the number in RAX: a refused call becomes `exit`, with -1 in RDX, an
  -- allowed one keeps all registers.
  pub int_syscall :
      (s : Machine) (dr6 : ℕ)
      → IsDebug s
      → hits dr6 dr_bit_syscall_64 ≡ true
      → let r = callback_check_cred_update_syscall s.monitor current (to_int s.vm.regs.rax) in
        let s' = vm_exit_callback_int rb current task_at false s dr6 in
        (s'.vm.regs ≡ (if r.1 ==ℤ pos 0 then s.vm.regs else exit_regs s.vm.regs))
        × (s'.monitor ≡ r.0)
  unfolding vm_exit_callback_int handle_systemcall_breakpoints check_syscall
      remove_int_exception_from_vm
  int_syscall s dr6 debug hit = (ground (arith, debug, hit), ground (arith, debug, hit))

  flags_after :
      (s : Machine) (shutdowning : Bool) (dr6 : ℕ)
      → IsDebug s
      → (vm_exit_callback_int rb current task_at shutdowning s dr6).vm.vmcs vm_guest_rflags
        ≡ bit_or
            ((if shutdowning
                then s
                else handle_systemcall_breakpoints rb current task_at s dr6).vm.vmcs
              vm_guest_rflags)
            0x10000
  unfolding vm_exit_callback_int remove_int_exception_from_vm
  flags_after s true dr6 debug = ground (arith, debug)
  flags_after s false dr6 debug = ground (arith, debug)

  -- Every debug exception lets the guest go on: the four breakpoint bits of DR6 are cleared, the
  -- others kept, and RF is set, so that the same breakpoint is not hit again at once.
  pub int_resumes :
      (s : Machine) (shutdowning : Bool) (dr6 k : ℕ)
      → IsDebug s
      → k < 64
      → let s' = vm_exit_callback_int rb current task_at shutdowning s dr6 in
        (bit k s'.dr6 ≡ (if ltb k 4 then 0 else bit k dr6))
        × (bit 16 (s'.vm.vmcs vm_guest_rflags) ≡ 1)
  unfolding vm_exit_callback_int remove_int_exception_from_vm
  int_resumes s shutdowning dr6 k debug h = (
    ground (arith, debug, bit-dr6 dr6 k h),
    ap (bit 16) (flags_after s shutdowning dr6 debug) ∙ rf_set _,
  )
