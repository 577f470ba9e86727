-- ===== src/Examples/Processor.antt =====
-- One processor, and a host IDT in a page of its own.
use alcatraz.Prelude.{◌+◌, ◌*◌, ◌≤◌, ◌<◌, ℕ, ◌≡◌, [], ◌∷◌, refl, arith}
use mathlib.Core.List.{mem-cons_self}
use alcatraz.Ept.{alloc_kmalloc}
use alcatraz.Ept.Protect.{IsHidden, page_of}
use alcatraz.Ept.Processor.{DescPtr, ProcessorPages, protect_gdt, protect_host_idt, protect_vmcs}
use alcatraz.Ept.Processor.Gates.{Gate, Stubs, setup_host_idt_and_protect}
use alcatraz.Ept.Processor.Gates.Laws.{
  AreStubs, gate_offset, stub_of, setup_host_idt_and_protect-goes,
}
use alcatraz.Ept.Processor.Idt.{protect_idt_nothing}
use alcatraz.Ept.Processor.Laws.{guest_vmcs, protect_vmcs-IsHidden}
use alcatraz.Examples.Pages.{identity, identity-Words, direct}

abbrev idt : DescPtr
idt = record { address = 0x2345000; size = 0xFFF }

protect_idt_nothing_example :
    (protect_gdt direct idt identity ≡ identity) × (protect_host_idt direct idt identity ≡ identity)
protect_idt_nothing_example = protect_idt_nothing direct idt identity refl (omega arith)

abbrev stubs : Stubs
stubs = record {
  int_callback_stub = 0xFFFF_FFFF_C000_1000;
  int_nmi_callback_stub = 0xFFFF_FFFF_C000_1100;
  int_with_error_callback_stub = 0xFFFF_FFFF_C000_1200;
  kernel_cs = 0x10;
  debug_stack = 3;
  gate_interrupt = 0xE;
}

stubs-AreStubs : AreStubs stubs
stubs-AreStubs = record { plain = omega arith; nmi = omega arith; error = omega arith }

abbrev no_gates : ℕ → Gate
no_gates i = record {
  offset_low = 0;
  segment = 0;
  ist = 0;
  type_bits = 0;
  dpl = 0;
  p = 0;
  offset_middle = 0;
  offset_high = 0;
}

setup_host_idt_and_protect-goes_example :
    let h = setup_host_idt_and_protect stubs direct 0x2345000 idt no_gates identity in
    ((i : ℕ)
      → i * 16 + 15 ≤ h.host_idtr.size
      → (gate_offset (h.idt i) ≡ stub_of stubs i)
        × ((h.idt i).p ≡ 1)
        × ((h.idt i).type_bits ≡ 0xE)
        × ((h.idt i).dpl ≡ 0)
        × ((h.idt i).segment ≡ 0x10))
    × (h.host_idtr.size < 4096)
setup_host_idt_and_protect-goes_example =
    setup_host_idt_and_protect-goes stubs direct 0x2345000 idt no_gates identity stubs-AreStubs

abbrev first_processor : ProcessorPages
first_processor = record {
  vmx_on_vmcs = 0x2000000;
  guest_vmcs = 0x2002000;
  vm_exit_stack = 0x6000000;
  io_bitmap_a = 0x2004000;
  io_bitmap_b = 0x2005000;
  msr_bitmap = 0x2006000;
  vmread_bitmap = 0x2007000;
  vmwrite_bitmap = 0x2008000;
  virt_apic_page = 0x2009000;
}

-- The second page of the guest's VMCS.
protect_vmcs-IsHidden_example :
    IsHidden
      (protect_vmcs direct 0x8000 (first_processor ∷ []) identity)
      (page_of direct alloc_kmalloc 0x2003123)
protect_vmcs-IsHidden_example =
    protect_vmcs-IsHidden direct 0x8000 (first_processor ∷ []) first_processor guest_vmcs 0x2003123
      identity identity-Words mem-cons_self (omega arith) (omega arith) (omega arith)
