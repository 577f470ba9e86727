-- ===== src/Examples/Exits.antt =====
-- A processor on which a nested hypervisor runs, at different exits.
use alcatraz.Prelude.{
  inl, ◌+◌, ◌*◌, ◌%◌, ◌^◌, ◌≡◌, ◌≢◌, refl, [], ◌∷◌, arith, true, false, ◌==◌, if◌then◌else◌, some,
  inl, bit_and,
}
use alcatraz.Prelude.Bits.{bit}
use alcatraz.Monitor.Cred.{uniform}
use alcatraz.Vmx.Registers.{vm_guest_rflags, vm_guest_rip, vm_data_vm_exit_inst_length}
use alcatraz.Vmx.Nested.{
  Nested, no_nested, NestedVmcs, nested_vmwrite, find_nested_vmcs_struct, vm_host_rip, vm_host_rsp,
  vm_host_cr3, vm_data_vm_exit_inst_info, calc_dest_mem_addr, set_value_to_memory,
  vm_data_exit_qualification,
}
use alcatraz.Vmx.Shadow.{
  Shadow, no_link, link_of, vmcs_operand, vm_exit_callback_vmx_inst_type1, vm_vmcs_link_ptr,
  vm_exit_reason_vmptrld, vm_exit_reason_vmclear,
}
use alcatraz.Vmx.Shadow.Laws.{Linked, type1-Linked}
use alcatraz.Vmx.Exit.{Machinery, Cpu, vm_of}
use alcatraz.Vmx.Exit.Instructions.{exit_vmlaunch}
use alcatraz.Vmx.Exit.Dispatch.{vm_exit_callback, vm_data_exit_reason}
use alcatraz.Vmx.Exit.Moves.{stays}
use alcatraz.Vmx.Exit.Laws.{exit_steps}
use alcatraz.Vmx.Exit.Resume.{nested_exit-vmwrite}
use alcatraz.Vmx.Exit.Launch.{launch_enters}
use alcatraz.Examples.Tasks.{plain, leader, stranger, calm}
use alcatraz.Examples.Nested.{host, kvm}
use alcatraz.Examples.Pages.{identity, direct}

abbrev pub machinery : Machinery
machinery = record {
  rb = plain;
  current = leader;
  task_at = λ a. stranger;
  periodic = λ m. m;
  ro = [];
  sleep_notify = 0x9000;
  shutdowning = false;
  host = host;
  loadable = λ p. true;
  guest_vmcs = 0x1000;
  log_info = 0xFFFF0000;
  cr2 = 0;
  cr8 = 0;
  cpuid = λ a c. (a + 1, 2, 3, 4);
  time = 100;
  msecs = λ j. j * 4;
  timer_value = 1000;
  kernel = direct;
  own_module = record {
    module_addr = 0x7000000;
    base = 0x6000000;
    core_size = 0x8000;
    ro_size = 0x3000;
    is_helper = false;
  };
  module_size = 0x380;
  task_pool = 0x8000000;
  node_size = 128;
  task_node_max = 3;
  test_dr = λ i. 0x1000 * i;
  secure_since = 0;
}

-- An unknown exit of the guest: an instruction of three bytes, for the reason 40.
abbrev unknown_exit : Nested
unknown_exit = record kvm {
  region = λ p f.
      if p == 0x1000
      then (if f == vm_data_exit_reason
          then 40
          else if f == vm_data_vm_exit_inst_length
          then 3
          else if f == vm_guest_rip
          then 0x400000
          else if f == vm_vmcs_link_ptr
          then no_link
          else 0)
      else 0;
}

abbrev shadow : Shadow
shadow = record { nested = unknown_exit; revision = λ p. 0x12; support = true }

abbrev pub cpu : Cpu
cpu = record {
  shadow = shadow;
  monitor = calm;
  cred_at = λ a. uniform 0 0;
  dr = λ i. 0;
  ept = identity;
  timer = false;
  shutdown_jiffies = 0;
  errors = [];
  msr = λ i. 0;
  xcr = λ i. 1;
  allow_hide = 0;
  need_init = 1;
  root_mode = 0;
}

exit_steps_example :
    let r = bit_and ((vm_of cpu).vmcs vm_data_exit_reason) 0xFFFF in
    let fields = shadow.nested.region 0x1000 in
    (vm_exit_callback machinery cpu).shadow.nested.region 0x1000 vm_guest_rip ≡ (
      if stays r
      then fields vm_guest_rip
      else (fields vm_guest_rip + fields vm_data_vm_exit_inst_length) % 2 ^ 64)
exit_steps_example = exit_steps machinery cpu refl refl (λ e. absurd (omega (arith, e)))

-- The nested hypervisor writes HOST_RIP of the VMCS at 0x2000, which has the first slot.
abbrev listed : Nested
listed = record unknown_exit {
  nested_array = record no_nested { vmcs_ptr = 0x2000 } ∷ no_nested ∷ [];
}

abbrev written : Nested
written = nested_vmwrite host (λ p. true) listed 0 vm_host_rip 0x8000

abbrev nested_out : Cpu
nested_out = record cpu { shadow = record shadow { nested = record written { current = 0x2000 } } }

slot_found : find_nested_vmcs_struct written.nested_array 0x2000 ≡ some 0
unfolding nested_vmwrite find_nested_vmcs_struct alcatraz.Vmx.Nested.divert
slot_found = refl

nested_exit-vmwrite_example :
    let s' = (vm_exit_callback machinery nested_out).shadow.nested in
    (s'.current ≡ 0x1000)
    × (s'.region 0x1000 vm_guest_rip ≡ 0x8000)
    × (s'.region 0x1000 vm_guest_rflags ≡ 2)
nested_exit-vmwrite_example =
    nested_exit-vmwrite machinery nested_out listed 0 vm_host_rip 0x8000 (inl refl) (omega arith)
      (λ e. absurd (omega (arith, e))) slot_found refl

launch_enters_example :
    let s' = exit_vmlaunch machinery shadow in
    (s'.nested.current ≡ 0x2000)
    × (s'.nested.regs.vm_launch ≡ 1)
    × (s'.nested.region 0x2000 vm_host_rsp ≡ 0xFFFF2000)
    × (shadow.support ≡ true
        → (s'.nested.region 0x1000 vm_vmcs_link_ptr ≡ no_link)
          × (link_of shadow ≡ 0x2000
              → unknown_exit.nested_vmcs_ptr ≢ no_link
              → bit 31 (s'.revision 0x2000) ≡ 0))
launch_enters_example = launch_enters machinery shadow refl

type1-Linked_example :
    let s' = vm_exit_callback_vmx_inst_type1 shadow 21 in
    let a = vmcs_operand unknown_exit in
    Linked s'
    × (21 ≡ vm_exit_reason_vmptrld
        → (s'.nested.nested_vmcs_ptr ≡ a)
          × (shadow.support ≡ true → (link_of s' ≡ a) × (bit 31 (s'.revision a) ≡ 1)))
    × (21 ≡ vm_exit_reason_vmclear → a ≢ 0 → s'.nested.nested_vmcs_ptr ≢ a)
type1-Linked_example = type1-Linked shadow 21 (inl refl)
