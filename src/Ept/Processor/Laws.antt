-- ===== src/Ept/Processor/Laws.antt =====
-- What is hidden of a processor's data.
use mathlib.Core.List.{mem-cons_self, mem-cons_of_mem, Mem, mem-cons, not-mem-nil}
use mathlib.Core.Logic.Or
use alcatraz.Prelude.{ℕ, ◌+◌, ◌%◌, ◌^◌, ◌≤◌, ◌<◌, ◌≡◌, List, [], ◌∷◌, arith}
use alcatraz.Ept.{
  Ept, Kernel, AllocType, alloc_kmalloc, alloc_vmalloc, phys_of, on_range, hide_range,
  set_ept_hide_page,
}
use alcatraz.Ept.Pages.{Words}
use alcatraz.Ept.Ranges.{for_pages-Words, for_pages-keeps}
use alcatraz.Ept.Protect.{IsHidden, page_of, hide_marks, hide_range-IsHidden}
use alcatraz.Ept.Processor.{Area, ProcessorPages, areas_of, hide_areas, protect_vmcs}

module _ (k : Kernel) where
  -- The pages of one area stay hidden when others are hidden.
  hide_range-Words :
      (a : Area) (e : Ept)
      → Words e
      → Words (hide_range k e a.start ((a.start + a.size) % 2 ^ 64) a.alloc_type)
  unfolding hide_range on_range
  hide_range-Words a e w =
      for_pages-Words set_ept_hide_page (phys_of k a.alloc_type) IsHidden
        (hide_marks (phys_of k a.alloc_type)) _ _ _ e w

  hide_range-keeps :
      (a : Area) (e : Ept) (n : ℕ)
      → Words e
      → IsHidden e n
      → IsHidden (hide_range k e a.start ((a.start + a.size) % 2 ^ 64) a.alloc_type) n
  unfolding hide_range on_range
  hide_range-keeps a e n w h =
      for_pages-keeps set_ept_hide_page (phys_of k a.alloc_type) IsHidden
        (hide_marks (phys_of k a.alloc_type)) _ _ _ n e w h

  areas-Words : (areas : List Area) (e : Ept) → Words e → Words (hide_areas k areas e)
  unfolding hide_areas
  areas-Words [] e w = w
  areas-Words (a ∷ areas) e w = areas-Words areas _ (hide_range-Words a e w)

  areas-keep :
      (areas : List Area) (e : Ept) (n : ℕ)
      → Words e
      → IsHidden e n
      → IsHidden (hide_areas k areas e) n
  unfolding hide_areas
  areas-keep [] e n w h = h
  areas-keep (a ∷ areas) e n w h =
      areas-keep areas _ n (hide_range-Words a e w) (hide_range-keeps a e n w h)

  areas-hide :
      (areas : List Area) (a : Area) (b : ℕ) (e : Ept)
      → Words e
      → Mem a areas
      → a.start + a.size + 4095 < 2 ^ 64
      → a.start ≤ b
      → b < a.start + a.size
      → IsHidden (hide_areas k areas e) (page_of k a.alloc_type b)
  unfolding hide_areas
  areas-hide [] a b e w h fits lo hi = absurd (not-mem-nil h)
  areas-hide (x ∷ areas) a b e w h fits lo hi =
      Or.elim (hlevel) (mem-cons.0 h)
        (λ q.
          let end : (a.start + a.size) % 2 ^ 64 ≡ a.start + a.size = omega arith in
          rw (← q) (
            areas-keep areas _ (page_of k a.alloc_type b) (hide_range-Words a e w) (
              rw end (
                (hide_range-IsHidden k a.alloc_type a.start (a.start + a.size) e w (omega arith)
                    (omega arith)).0
                  b lo hi))))
        (λ m. areas-hide areas a b _ (hide_range-Words x e w) m fits lo hi)

  module _ (stack_size : ℕ) where
    vmcs-keep :
        (ps : List ProcessorPages) (e : Ept) (n : ℕ)
        → Words e
        → IsHidden e n
        → IsHidden (protect_vmcs k stack_size ps e) n
    unfolding protect_vmcs
    vmcs-keep [] e n w h = h
    vmcs-keep (p ∷ ps) e n w h =
        vmcs-keep ps _ n (areas-Words (areas_of stack_size p) e w)
          (areas-keep (areas_of stack_size p) e n w h)

    vmcs-hides :
        (ps : List ProcessorPages) (p : ProcessorPages) (a : Area) (b : ℕ) (e : Ept)
        → Words e
        → Mem p ps
        → Mem a (areas_of stack_size p)
        → a.start + a.size + 4095 < 2 ^ 64
        → a.start ≤ b
        → b < a.start + a.size
        → IsHidden (protect_vmcs k stack_size ps e) (page_of k a.alloc_type b)
    unfolding protect_vmcs
    vmcs-hides [] p a b e w h m fits lo hi = absurd (not-mem-nil h)
    vmcs-hides (x ∷ ps) p a b e w h m fits lo hi =
        Or.elim (hlevel) (mem-cons.0 h)
          (λ q. rw (← q) (
            vmcs-keep ps _ (page_of k a.alloc_type b) (areas-Words (areas_of stack_size p) e w)
              (areas-hide (areas_of stack_size p) a b e w m fits lo hi)))
          (λ r. vmcs-hides ps p a b _ (areas-Words (areas_of stack_size x) e w) r m fits lo hi)

-- What a processor needs for itself, and the guest must not touch.
pub data Part : Type 0 where
  vmx_on_vmcs guest_vmcs vm_exit_stack io_bitmap_a io_bitmap_b msr_bitmap vmread_bitmap
        vmwrite_bitmap virt_apic_page :
      Part

abbrev pub start_of : ProcessorPages → Part → ℕ
start_of p vmx_on_vmcs = p.vmx_on_vmcs
start_of p guest_vmcs = p.guest_vmcs
start_of p vm_exit_stack = p.vm_exit_stack
start_of p io_bitmap_a = p.io_bitmap_a
start_of p io_bitmap_b = p.io_bitmap_b
start_of p msr_bitmap = p.msr_bitmap
start_of p vmread_bitmap = p.vmread_bitmap
start_of p vmwrite_bitmap = p.vmwrite_bitmap
start_of p virt_apic_page = p.virt_apic_page

abbrev pub size_of : ℕ → Part → ℕ
size_of stack_size vmx_on_vmcs = 8192
size_of stack_size guest_vmcs = 8192
size_of stack_size vm_exit_stack = stack_size
size_of stack_size io_bitmap_a = 4096
size_of stack_size io_bitmap_b = 4096
size_of stack_size msr_bitmap = 4096
size_of stack_size vmread_bitmap = 4096
size_of stack_size vmwrite_bitmap = 4096
size_of stack_size virt_apic_page = 4096

-- Only the stack comes from vmalloc.
abbrev pub allocated_by : Part → AllocType
allocated_by vmx_on_vmcs = alloc_kmalloc
allocated_by guest_vmcs = alloc_kmalloc
allocated_by vm_exit_stack = alloc_vmalloc
allocated_by io_bitmap_a = alloc_kmalloc
allocated_by io_bitmap_b = alloc_kmalloc
allocated_by msr_bitmap = alloc_kmalloc
allocated_by vmread_bitmap = alloc_kmalloc
allocated_by vmwrite_bitmap = alloc_kmalloc
allocated_by virt_apic_page = alloc_kmalloc

abbrev area : ℕ → ProcessorPages → Part → Area
area stack_size p x = record {
  start = start_of p x;
  size = size_of stack_size x;
  alloc_type = allocated_by x;
}

next : (a x : Area) (xs : List Area) → Mem a xs → Mem a (x ∷ xs)
next a x xs h = mem-cons_of_mem x h

part-mem :
    (stack_size : ℕ) (p : ProcessorPages) (x : Part)
    → Mem (area stack_size p x) (areas_of stack_size p)
part-mem n p vmx_on_vmcs = mem-cons_self
part-mem n p guest_vmcs = next _ _ _ mem-cons_self
part-mem n p vm_exit_stack = next _ _ _ (next _ _ _ mem-cons_self)
part-mem n p io_bitmap_a = next _ _ _ (next _ _ _ (next _ _ _ mem-cons_self))
part-mem n p io_bitmap_b = next _ _ _ (next _ _ _ (next _ _ _ (next _ _ _ mem-cons_self)))
part-mem n p msr_bitmap =
    next _ _ _ (next _ _ _ (next _ _ _ (next _ _ _ (next _ _ _ mem-cons_self))))
part-mem n p vmread_bitmap =
    next _ _ _ (next _ _ _ (next _ _ _ (next _ _ _ (next _ _ _ (next _ _ _ mem-cons_self)))))
part-mem n p vmwrite_bitmap =
    next _ _ _
      (next _ _ _ (next _ _ _ (next _ _ _ (next _ _ _ (next _ _ _ (next _ _ _ mem-cons_self))))))
part-mem n p virt_apic_page = next _ _ _ (
    next _ _ _
      (next _ _ _ (next _ _ _ (next _ _ _ (next _ _ _ (next _ _ _ (next _ _ _ mem-cons_self)))))))

-- After `hb_protect_vmcs` the guest may not touch the page of any byte of a processor's two VMCSs, its
-- stack, its five bitmaps and its APIC page, for each of the processors, where the part does not reach
-- the top of the address space.
pub protect_vmcs-IsHidden :
    (k : Kernel) (stack_size : ℕ) (ps : List ProcessorPages) (p : ProcessorPages) (x : Part) (b : ℕ)
    (e : Ept)
    → Words e
    → Mem p ps
    → start_of p x + size_of stack_size x + 4095 < 2 ^ 64
    → start_of p x ≤ b
    → b < start_of p x + size_of stack_size x
    → IsHidden (protect_vmcs k stack_size ps e) (page_of k (allocated_by x) b)
protect_vmcs-IsHidden k stack_size ps p x b e w h fits lo hi =
    vmcs-hides k stack_size ps p (area stack_size p x) b e w h (part-mem stack_size p x) fits lo hi
