-- ===== src/Examples/Instructions.antt =====
-- Instructions of a guest that the hypervisor executes for it.
use alcatraz.Prelude.{ℕ, ◌+◌, ◌*◌, ◌^◌, ◌≡◌, refl, arith, false, ◌==◌, if◌then◌else◌}
use alcatraz.Vmx.Registers.{
  Vm, vm_guest_rip, vm_data_vm_exit_inst_length, vm_ctrl_vm_entry_int_info_field,
  vm_entry_int_info_ud,
}
use alcatraz.Vmx.Nested.{vm_data_vm_exit_inst_info, vm_data_exit_qualification}
use alcatraz.Vmx.Descriptor.{
  Access, vm_exit_callback_gdtr_idtr, operand_of, vm_guest_gdtr_base, vm_guest_gdtr_limit,
  vm_guest_ldtr_selector,
}
use alcatraz.Vmx.Descriptor.Laws.{load-store_desc}
use alcatraz.Vmx.Exit.{Cpu}
use alcatraz.Vmx.Exit.Instructions.{exit_wrmsr}
use alcatraz.Examples.Guest.{regs, guest}
use alcatraz.Examples.Exits.{cpu}

-- SGDT and LGDT of the word at 0x5000.
abbrev gdt : ℕ → ℕ → ℕ
gdt identity f =
    if f == vm_data_vm_exit_inst_info
    then identity * 2 ^ 28 + 0x8400000
    else if f == vm_guest_gdtr_base
    then 0xFFFF_8000_0000_1000
    else if f == vm_guest_gdtr_limit
    then 0x7F
    else if f == vm_data_exit_qualification
    then 0x5000
    else 0

abbrev stores : Access
stores = record { vm = record { regs = regs; vmcs = gdt 0 }; memory = λ a. 0 }

abbrev reloads : Access
reloads = record {
  vm = record { regs = regs; vmcs = gdt 2 };
  memory = (vm_exit_callback_gdtr_idtr false stores).memory;
}

load-store_desc_example :
    ((vm_exit_callback_gdtr_idtr false reloads).vm.vmcs vm_guest_gdtr_base ≡ 0xFFFF_8000_0000_1000)
    × ((vm_exit_callback_gdtr_idtr false reloads).vm.vmcs vm_guest_gdtr_limit ≡ 0x7F)
unfolding operand_of alcatraz.Vmx.Registers.advance_vm_guest_rip
    alcatraz.Vmx.Nested.calc_dest_mem_addr
load-store_desc_example =
    load-store_desc 0 stores reloads (omega arith) refl refl refl refl (omega arith) (omega arith)

-- LLDT of the selector at 0x5000, which is not 0.
abbrev lldt : Access
lldt = record {
  vm = record { regs = regs; vmcs = λ f. if f == vm_guest_ldtr_selector then 0 else gdt 2 f };
  memory = λ a. 0x28;
}

abbrev after_wrmsr : Cpu
after_wrmsr = record cpu { msr = (exit_wrmsr cpu).msr }

abbrev dirty : Vm
dirty = record guest { regs = record regs { rdx = 0xABCD_0000_0001; rax = 0x5_0000_0007 } }
