-- ===== src/Examples/Guest.antt =====
-- Exits of a guest: registers, control registers, calls and breakpoints.
use alcatraz.Prelude.{ℕ, refl, if◌then◌else◌, ◌==◌, pos}
use alcatraz.Monitor.Cred.{uniform}
use alcatraz.Monitor.Manager.{Task}
use alcatraz.Monitor.Callback.{
  Monitor, callback_check_cred_update_syscall, callback_add_task, callback_del_task,
}
use alcatraz.Vmx.Registers.{
  GuestRegister, Vm, vm_guest_cs_selector, vm_guest_cr0, vm_guest_cr4, vm_data_vm_exit_inst_length,
  vm_data_vm_exit_int_info,
}
use alcatraz.Vmx.Control.{vm_exit_callback_access_cr}
use alcatraz.Vmx.Control.Laws.{Protected, access_cr-Protected}
use alcatraz.Vmx.Breakpoint.{Machine}
use alcatraz.Examples.Tasks.{plain, worker, stranger, calm, intruder}

abbrev pub regs : GuestRegister
regs = record {
  vm_launch = 0;
  r15 = 15;
  r14 = 14;
  r13 = 13;
  r12 = 12;
  r11 = 11;
  r10 = 10;
  r9 = 9;
  r8 = 8;
  rbp = 5;
  rdi = 7;
  rsi = 6;
  rbx = 3;
  rdx = 2;
  rcx = 1;
  rax = 0;
}

-- A guest in ring 3, at a debug exception.
abbrev pub guest : Vm
guest = record {
  regs = regs;
  vmcs = λ f.
      if f == vm_guest_cr0
      then 0x10001
      else if f == vm_guest_cr4
      then 0x102000
      else if f == vm_guest_cs_selector
      then 0x33
      else if f == vm_data_vm_exit_inst_length
      then 3
      else if f == vm_data_vm_exit_int_info
      then 0x301
      else 0;
}

-- MOV from RBX, which holds 3, to CR0.
access_cr-Protected_example : Protected (vm_exit_callback_access_cr guest 0x300 0 0)
access_cr-Protected_example = access_cr-Protected guest 0x300 0 0 (refl, refl, refl, refl)

abbrev one : ℕ
one = 1

abbrev machine : Machine
machine = record { vm = guest; monitor = calm; cred_at = λ a. uniform 0 0; dr6 = 0 }

abbrev at_address : ℕ → Task
at_address a = stranger

-- The leader has turned root. A stranger comes and makes a system call, and the leader ends; the
-- worker pays at its next system call.
abbrev broken : Monitor
broken = (callback_check_cred_update_syscall calm intruder (pos 1)).0

abbrev joined : Monitor
joined = callback_add_task plain broken worker stranger

abbrev caught : Machine
caught = record machine {
  monitor =
      callback_del_task plain (callback_check_cred_update_syscall joined stranger (pos 2)).0 0x1000;
}
