-- ===== src/Ept.antt =====
-- The last level of the extended page table: the entries of the guest's 4 KB pages, and the
-- functions of Source/hyper_box/mmu.c and hypervisor.c that change them. `pte j i` is entry `i` of
-- page table `j`, which `hb_get_pagetable_log_addr(EPT_TYPE_PTE, j)` gives; a number of a page
-- table beyond the last one, where the code reads outside its array, is not told apart.
pub mod Pages
pub mod Ranges
pub mod Protect
pub mod Tables
pub mod Modules
pub mod Own
pub mod Pool
pub mod Processor
pub mod Setup
pub mod Alloc
use alcatraz.Prelude.{
  ℕ, zero, suc, ◌+◌, ◌*◌, ◌/◌, ◌%◌, ◌^◌, ◌==◌, Bool, ◌&&◌, if◌then◌else◌, ltb, bit_and, bit_or,
}
use alcatraz.Vmx.Registers.{not64}

pub record Ept : Type 0 where
  pub pte : ℕ → ℕ → ℕ

abbrev pub put_pte : Ept → ℕ → ℕ → ℕ → Ept
put_pte e j i v = record { pte = λ k l. if k == j && l == i then v else e.pte k l }

abbrev pub mask_pageaddr : ℕ
mask_pageaddr = 0xFFFF_FFFF_FFFF_F000

abbrev pub ept_read : ℕ
ept_read = 1

abbrev pub ept_execute : ℕ
ept_execute = 4

abbrev pub ept_all_access : ℕ
ept_all_access = 7

abbrev pub ept_bit_mem_type_wb : ℕ
ept_bit_mem_type_wb = 0x30

unfoldable pub set_ept_page_addr : Ept → ℕ → ℕ → Ept
set_ept_page_addr e phy_addr addr =
    let page_offset = phy_addr / 4096 in
    let page_index = page_offset % 512 in
    let table = page_offset / 512 in
    put_pte e table page_index
      (bit_or (bit_and addr mask_pageaddr) (bit_and (e.pte table page_index) (not64 mask_pageaddr)))

unfoldable pub set_ept_page_flags : Ept → ℕ → ℕ → Ept
set_ept_page_flags e phy_addr flags =
    let page_offset = phy_addr / 4096 in
    let page_index = page_offset % 512 in
    let table = page_offset / 512 in
    put_pte e table page_index (bit_or (bit_and (e.pte table page_index) mask_pageaddr) flags)

unfoldable pub set_ept_hide_page : Ept → ℕ → Ept
set_ept_hide_page e phy_addr = set_ept_page_flags e phy_addr ept_bit_mem_type_wb

unfoldable pub set_ept_read_only_page : Ept → ℕ → Ept
set_ept_read_only_page e phy_addr =
    set_ept_page_addr (set_ept_page_flags e phy_addr (bit_or ept_read ept_bit_mem_type_wb)) phy_addr
      phy_addr

unfoldable pub set_ept_lock_page : Ept → ℕ → Ept
set_ept_lock_page e phy_addr =
    set_ept_page_addr
      (set_ept_page_flags e phy_addr (bit_or (bit_or ept_read ept_execute) ept_bit_mem_type_wb))
      phy_addr phy_addr

unfoldable pub set_ept_all_access_page : Ept → ℕ → Ept
set_ept_all_access_page e phy_addr =
    set_ept_page_addr (set_ept_page_flags e phy_addr (bit_or ept_all_access ept_bit_mem_type_wb))
      phy_addr phy_addr

-- The kernel's translations of the addresses that kmalloc and that vmalloc gives.
pub record Kernel : Type 0 where
  pub virt_to_phys : ℕ → ℕ
  pub vmalloc_to_pfn : ℕ → ℕ

pub data AllocType : Type 0 where
  alloc_kmalloc : AllocType
  alloc_vmalloc : AllocType

unfoldable pub phys_of : Kernel → AllocType → ℕ → ℕ
phys_of k alloc_kmalloc i = k.virt_to_phys i
phys_of k alloc_vmalloc i = k.vmalloc_to_pfn i * 4096

-- The loop `for (i = ...; i < align_end_addr; i += VAL_4KB)`, on fuel.
unfoldable pub for_pages : (Ept → ℕ → Ept) → (ℕ → ℕ) → ℕ → ℕ → ℕ → Ept → Ept
for_pages op phys zero i align_end_addr e = e
for_pages op phys (suc fuel) i align_end_addr e =
    let rest = for_pages op phys fuel ((i + 4096) % 2 ^ 64) align_end_addr (op e (phys i)) in
    if ltb i align_end_addr then rest else e

abbrev pub align_end : ℕ → ℕ
align_end end_addr = bit_and ((end_addr + 4095) % 2 ^ 64) mask_pageaddr

-- The body that the three functions on ranges share; the fuel is the number of pages below the end.
unfoldable pub on_range : (Ept → ℕ → Ept) → Kernel → Ept → ℕ → ℕ → AllocType → Ept
on_range op k e start_addr end_addr alloc_type =
    for_pages op (phys_of k alloc_type) (align_end end_addr / 4096)
      (bit_and start_addr mask_pageaddr) (align_end end_addr) e

unfoldable pub lock_range : Kernel → Ept → ℕ → ℕ → AllocType → Ept
lock_range k e start_addr end_addr alloc_type =
    on_range set_ept_lock_page k e start_addr end_addr alloc_type

unfoldable pub set_all_access_range : Kernel → Ept → ℕ → ℕ → AllocType → Ept
set_all_access_range k e start_addr end_addr alloc_type =
    on_range set_ept_all_access_page k e start_addr end_addr alloc_type

unfoldable pub hide_range : Kernel → Ept → ℕ → ℕ → AllocType → Ept
hide_range k e start_addr end_addr alloc_type =
    on_range set_ept_hide_page k e start_addr end_addr alloc_type
