-- ===== src/Vmx/Breakpoint.antt =====
-- The hardware breakpoints in the kernel, by which the monitor learns what the guest does:
-- `hb_handle_systemcall_breakpoints` and `hb_vm_exit_callback_int` of
-- Source/hyper_box/hypervisor.c.
pub mod Laws
use alcatraz.Prelude.{
  ℕ, ◌/◌, ◌^◌, ◌-◌, ◌==◌, ◌==ℤ◌, pos, Bool, if◌then◌else◌, not, to_int, bit_and, bit_or, ◌&&◌,
}
use alcatraz.Monitor.Cred.{Cred, nr_exit}
use alcatraz.Monitor.Tree.{RbLib}
use alcatraz.Monitor.Manager.{Task}
use alcatraz.Monitor.Callback.{
  Monitor, callback_add_task, callback_del_task, callback_update_cred,
  callback_check_cred_update_syscall,
}
use alcatraz.Vmx.Registers.{
  GuestRegister, Vm, write_vmcs, put_regs, vm_guest_rflags, vm_data_vm_exit_int_info,
  remove_int_exception_from_vm,
}

-- The processor, the monitor, the kernel's credentials by their address, and DR6.
pub record Machine : Type 0 where
  pub vm : Vm
  pub monitor : Monitor
  pub cred_at : ℕ → Cred
  pub dr6 : ℕ

abbrev pub dr_bit_add_task : ℕ
dr_bit_add_task = 1

abbrev pub dr_bit_del_task : ℕ
dr_bit_del_task = 2

abbrev pub dr_bit_syscall_64 : ℕ
dr_bit_syscall_64 = 4

abbrev pub dr_bit_commit_creds : ℕ
dr_bit_commit_creds = 8

abbrev pub hits : ℕ → ℕ → Bool
hits dr6 mask = not (bit_and dr6 mask == 0)

-- The registers of a system call that is refused: `exit` is called in its place.
abbrev pub exit_regs : GuestRegister → GuestRegister
exit_regs r = record r { rax = nr_exit; rdx = 2 ^ 64 - 1 }

-- `current` is the guest's running task, and `task_at` what the kernel has at an address.
module _ (rb : RbLib) (current : Task) (task_at : ℕ → Task) where
  unfoldable pub check_syscall : Machine → Machine
  check_syscall s =
      let (m, result) =
        callback_check_cred_update_syscall s.monitor current (to_int s.vm.regs.rax) in
      if not (result ==ℤ pos 0)
      then record s { monitor = m; vm = put_regs s.vm (exit_regs s.vm.regs) }
      else record s { monitor = m }

  unfoldable pub commit_creds : Machine → Machine
  commit_creds s =
      let addr = s.vm.regs.rdi in
      let (m, new) = callback_update_cred s.monitor current current (s.cred_at addr) in
      record s { monitor = m; cred_at = λ a. if addr == a then new else s.cred_at a }

  unfoldable pub handle_systemcall_breakpoints : Machine → ℕ → Machine
  handle_systemcall_breakpoints s dr6 =
      if hits dr6 dr_bit_syscall_64
      then check_syscall s
      else if hits dr6 dr_bit_add_task
      then record s { monitor = callback_add_task rb s.monitor current (task_at s.vm.regs.rdi) }
      else if hits dr6 dr_bit_del_task
      then record s { monitor = callback_del_task rb s.monitor s.vm.regs.rdi }
      else if hits dr6 dr_bit_commit_creds
      then commit_creds s
      else s

  -- What happens to the guest after the breakpoint: DR6 is reset, and RF lets the guest step over.
  abbrev resume : Machine → ℕ → ℕ → Machine
  resume s dr6 vector = record s {
    dr6 = bit_and dr6 0xFFFF_FFFF_FFFF_FFF0;
    vm =
        remove_int_exception_from_vm
          (write_vmcs s.vm vm_guest_rflags (bit_or (s.vm.vmcs vm_guest_rflags) 0x10000)) vector;
  }

  -- `shutdowning` is the answer of `hb_is_system_shutdowning`.
  unfoldable pub vm_exit_callback_int : Bool → Machine → ℕ → Machine
  vm_exit_callback_int shutdowning s dr6 =
      let info_field = s.vm.vmcs vm_data_vm_exit_int_info in
      let vector = bit_and info_field 0xFF in
      let type = bit_and (info_field / 256) 7 in
      let handled = handle_systemcall_breakpoints s dr6 in
      if not (type == 2) && not (vector == 1)
      then s
      else if shutdowning
      then resume s dr6 vector
      else resume handled dr6 vector
