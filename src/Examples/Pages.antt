-- ===== src/Examples/Pages.antt =====
-- An extended page table for 8 GB, and a kernel whose direct mapping starts
-- at 16 MB.
use alcatraz.Prelude.{ℕ, ◌≡◌, ◌<◌, [], ◌∷◌, arith, ◌%◌, ◌+◌, ◌-◌, ◌*◌, ◌^◌, min, ◌/◌}
use mathlib.Core.List.{mem-cons_self}
use alcatraz.Memory.RoArea.{is_addr_in_ro_area}
use alcatraz.Ept.{Ept, Kernel, alloc_kmalloc, alloc_vmalloc, phys_of}
use alcatraz.Ept.Pages.{Words}
use alcatraz.Ept.Protect.{IsHidden, IsPermissive, page_of}
use alcatraz.Ept.Tables.{EptInfo, protect_ept_pages, protect_ept_pages-IsHidden}
use alcatraz.Ept.Modules.{
  Guarded, Symbol, Module, text_start, text_end, ex_table_start, ex_table_end, rodata_start,
  rodata_end, add_and_protect_module_ro, delete_and_unprotect_module_ro,
}
use alcatraz.Ept.Modules.Laws.{unload-load}

-- The pages below 8 GB are mapped to themselves.
abbrev pub identity : Ept
identity = record { pte = λ j i. min (j * 512 + i) 0x200000 * 4096 + 0x37 }

pub identity-Words : Words identity
identity-Words j i = omega arith

abbrev pub direct : Kernel
direct = record {
  virt_to_phys = λ a. (a - 0x1000000) % 2 ^ 52;
  vmalloc_to_pfn = λ a. a / 4096 % 2 ^ 52;
}

pub kmalloc-bound : (a : ℕ) → phys_of direct alloc_kmalloc a < 2 ^ 64
unfolding phys_of
kmalloc-bound a = omega arith

pub vmalloc-bound : (a : ℕ) → phys_of direct alloc_vmalloc a < 2 ^ 64
unfolding phys_of
vmalloc-bound a = omega arith

abbrev small : EptInfo
small = record {
  pml4 = record { addr = 0x9000; pages = 0x2000000 ∷ [] };
  pdpte_pd = record { addr = 0xA000; pages = 0x2001000 ∷ 0x2002000 ∷ [] };
  pdept = record { addr = 0xB000; pages = 0x2003000 ∷ [] };
  pte_level = record { addr = 0xC000; pages = 0x2004000 ∷ [] };
}

protect_ept_pages-IsHidden_example :
    IsHidden (protect_ept_pages direct small identity) (page_of direct alloc_kmalloc 0x2000123)
protect_ept_pages-IsHidden_example =
    protect_ept_pages-IsHidden direct small identity 0x2000000 0x2000123 identity-Words
      mem-cons_self (omega arith) (omega arith) (omega arith)

abbrev fresh_start : Guarded
fresh_start = record { ept = identity; ro = [] }

abbrev helper : Module
helper = record { addr = 0x7000000; core_base = 0x6000000; core_ro_size = 0x2000 }

unload-load_example :
    let s' =
      delete_and_unprotect_module_ro direct 0x6000000 0x2000
        (add_and_protect_module_ro direct 0x380 helper fresh_start) in
    IsPermissive s'.ept (page_of direct alloc_vmalloc 0x6001234)
    × (is_addr_in_ro_area s'.ro 0x6001234 ≡ is_addr_in_ro_area [] 0x6001234)
unload-load_example =
    unload-load direct vmalloc-bound 0x380 0x6001234 0x6001234 helper fresh_start identity-Words
      (λ e. absurd (omega (arith, e))) (λ e. absurd (omega (arith, e))) (omega arith) (omega arith)
      tt (omega arith) (omega arith)

abbrev linux : Symbol → ℕ
linux text_start = 0x3000000
linux text_end = 0x3800000
linux ex_table_start = 0x3800000
linux ex_table_end = 0x3802000
linux rodata_start = 0x3900000
linux rodata_end = 0x3A00000
