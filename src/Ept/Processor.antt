-- ===== src/Ept/Processor.antt =====
-- What belongs to a processor: `hb_protect_vmcs`, `hb_protect_gdt` and the protection of the host's
-- IDT in `hb_setup_host_idt_and_protect`, of Source/hyper_box/hypervisor.c.
pub mod Gates
pub mod Idt
pub mod Laws
use alcatraz.Prelude.{ℕ, ◌+◌, ◌%◌, ◌^◌, if◌then◌else◌, ltb, bit_and, List, [], ◌∷◌}
use alcatraz.Ept.{
  Ept, Kernel, AllocType, alloc_kmalloc, alloc_vmalloc, mask_pageaddr, lock_range, hide_range,
}

-- `struct desc_ptr`.
pub record DescPtr : Type 0 where
  pub address : ℕ
  pub size : ℕ

-- The size of an IDT is cut, and the end of the range is rounded down.
abbrev pub fixed_size : ℕ → ℕ
fixed_size size = if ltb 0xFFF size then 0xFFF else size

abbrev pub idt_end : DescPtr → ℕ
idt_end idtr = bit_and ((idtr.address + fixed_size idtr.size) % 2 ^ 64) mask_pageaddr

unfoldable pub protect_gdt : Kernel → DescPtr → Ept → Ept
protect_gdt k idtr e = lock_range k e idtr.address (idt_end idtr) alloc_vmalloc

-- `idtr` is the host's IDT, with the address of the new page and the size of the guest's.
unfoldable pub protect_host_idt : Kernel → DescPtr → Ept → Ept
protect_host_idt k idtr e = hide_range k e idtr.address (idt_end idtr) alloc_kmalloc

-- An area: its address, its size and the kernel's allocator that it comes from.
pub record Area : Type 0 where
  pub start : ℕ
  pub size : ℕ
  pub alloc_type : AllocType

-- The entries of one processor in the arrays of addresses.
pub record ProcessorPages : Type 0 where
  pub vmx_on_vmcs : ℕ
  pub guest_vmcs : ℕ
  pub vm_exit_stack : ℕ
  pub io_bitmap_a : ℕ
  pub io_bitmap_b : ℕ
  pub msr_bitmap : ℕ
  pub vmread_bitmap : ℕ
  pub vmwrite_bitmap : ℕ
  pub virt_apic_page : ℕ

abbrev pub one_page : ℕ → Area
one_page a = record { start = a; size = 4096; alloc_type = alloc_kmalloc }

abbrev pub vmcs_area : ℕ → Area
vmcs_area a = record { start = a; size = 0x2000; alloc_type = alloc_kmalloc }

-- The calls of the loop's body, in their order.
abbrev pub areas_of : ℕ → ProcessorPages → List Area
areas_of stack_size p =
    vmcs_area p.vmx_on_vmcs
    ∷ vmcs_area p.guest_vmcs
    ∷ (record { start = p.vm_exit_stack; size = stack_size; alloc_type = alloc_vmalloc })
    ∷ one_page p.io_bitmap_a
    ∷ one_page p.io_bitmap_b
    ∷ one_page p.msr_bitmap
    ∷ one_page p.vmread_bitmap
    ∷ one_page p.vmwrite_bitmap
    ∷ one_page p.virt_apic_page
    ∷ []

unfoldable pub hide_areas : Kernel → List Area → Ept → Ept
hide_areas k [] e = e
hide_areas k (a ∷ areas) e =
    hide_areas k areas (hide_range k e a.start ((a.start + a.size) % 2 ^ 64) a.alloc_type)

unfoldable pub protect_vmcs : Kernel → ℕ → List ProcessorPages → Ept → Ept
protect_vmcs k stack_size [] e = e
protect_vmcs k stack_size (p ∷ ps) e =
    protect_vmcs k stack_size ps (hide_areas k (areas_of stack_size p) e)
