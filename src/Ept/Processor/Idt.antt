-- ===== src/Ept/Processor/Idt.antt =====
-- The ranges that are to protect an IDT.
use alcatraz.Prelude.{ℕ, zero, suc, ◌+◌, ◌/◌, ◌%◌, ◌^◌, ◌≤◌, ◌<◌, ◌≡◌, refl, arith, bit_and}
use alcatraz.Prelude.Bits.{page_mask}
use alcatraz.Ept.{
  Ept, Kernel, AllocType, alloc_kmalloc, alloc_vmalloc, phys_of, mask_pageaddr, for_pages,
  align_end, on_range, lock_range, hide_range,
}
use alcatraz.Ept.Processor.{DescPtr, fixed_size, idt_end, protect_gdt, protect_host_idt}

idt_end_is :
    (d : DescPtr) → d.address % 4096 ≡ 0 → d.address + 4096 ≤ 2 ^ 64 → idt_end d ≡ d.address
idt_end_is d aligned fits =
    let cut : fixed_size d.size < 4096 = ground arith in
    omega (arith, page_mask ((d.address + fixed_size d.size) % 2 ^ 64) (omega arith), cut)

stops :
    (op : Ept → ℕ → Ept) (phys : ℕ → ℕ) (fuel i : ℕ) (e : Ept) → for_pages op phys fuel i i e ≡ e
unfolding for_pages
stops op phys zero i e = refl
stops op phys (suc fuel) i e = ground arith

-- A range that ends where it starts, at the border of a page, has no page.
empty_range :
    (op : Ept → ℕ → Ept) (k : Kernel) (e : Ept) (a : ℕ) (t : AllocType)
    → a % 4096 ≡ 0
    → a + 4096 ≤ 2 ^ 64
    → on_range op k e a a t ≡ e
unfolding on_range
empty_range op k e a t aligned fits =
    let first : bit_and a mask_pageaddr ≡ a = omega (arith, page_mask a (omega arith)) in
    let last : align_end a ≡ a = omega (arith, page_mask ((a + 4095) % 2 ^ 64) (omega arith)) in
    rw (first, last) (stops op (phys_of k t) (a / 4096) a e)

-- The protection of an IDT protects nothing where the IDT starts at the border of a page, as the page
-- allocated for the host's does: neither the lock on the guest's IDT nor the hiding of the host's
-- changes an entry of the extended page table, whatever the size is.
pub protect_idt_nothing :
    (k : Kernel) (d : DescPtr) (e : Ept)
    → d.address % 4096 ≡ 0
    → d.address + 4096 ≤ 2 ^ 64
    → (protect_gdt k d e ≡ e) × (protect_host_idt k d e ≡ e)
unfolding protect_gdt protect_host_idt lock_range hide_range
protect_idt_nothing k d e aligned fits = rw (idt_end_is d aligned fits) (
  empty_range _ k e d.address alloc_vmalloc aligned fits,
  empty_range _ k e d.address alloc_kmalloc aligned fits,
)
