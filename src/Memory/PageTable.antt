-- ===== src/Memory/PageTable.antt =====
-- Page tables: the walk `hb_get_phy_from_log` of Source/hyper_box/hypervisor.c, the operations on
-- one entry, and `hb_get_memory`, which gives the pages for new tables.
--
-- A table is named by its physical address. Where the source writes the same block for the PML4,
-- the PDPTE_PD, the PDEPT and the PTE, a level counts the tables below: the PML4 has level 3.
pub mod Sync
pub mod Laws
pub mod Masks
pub mod Separate
pub mod Growth
pub mod Levels
pub mod Translation
pub mod Agreement
pub mod Pages
pub mod Dup
use alcatraz.Prelude.{
  ℕ, zero, suc, ◌+◌, ◌-◌, ◌*◌, ◌/◌, ◌%◌, ◌^◌, Bool, ◌||◌, ◌&&◌, not, ◌==◌, leb, if◌then◌else◌,
  bit_and, bit_or, Option, none, some,
}
use alcatraz.Vmx.Registers.{not64}

-- The entries of every table.
abbrev pub Tables : Type 0
Tables = ℕ → ℕ → ℕ

abbrev pub put_entry : Tables → ℕ → ℕ → ℕ → Tables
put_entry mem table index v = λ t i. if t == table && i == index then v else mem t i

abbrev pub mask_pageflag : ℕ
mask_pageflag = 0xFF00000000000FFF

abbrev pub mask_page_size_flag : ℕ
mask_page_size_flag = 0x80

abbrev pub get_addr : ℕ → ℕ
get_addr x = bit_and x 0x00FFFFFFFFFFF000

abbrev pub is_present : ℕ → Bool
is_present x = not (bit_and x 1 == 0)

abbrev pub is_size_flag_set : ℕ → Bool
is_size_flag_set x = not (bit_and x mask_page_size_flag == 0)

-- What one entry at a level maps: 4 KB, 2 MB, 1 GB, 512 GB.
abbrev pub size_of : ℕ → ℕ
size_of zero = 4096
size_of (suc k) = 512 * size_of k

-- The index into a table of a level.
abbrev pub index_of : ℕ → ℕ → ℕ
index_of addr level = addr / size_of level % 512

-- The part of an address that the tables of level `k` and below translate, without the offset into
-- the page of 4 KB.
abbrev pub pages_below : ℕ → ℕ → ℕ
pages_below addr zero = 0
pages_below addr (suc k) = index_of addr k * size_of k + pages_below addr k

-- `struct vm_page_entry_struct`.
abbrev pub PageEntry : Type 0
PageEntry = ℕ → ℕ

abbrev pub set_phy : PageEntry → ℕ → ℕ → PageEntry
set_phy out index v = λ i. if i == index then v else out i

abbrev pub of_large_page : ℕ → ℕ → ℕ → ℕ
of_large_page addr level value =
    bit_or ((get_addr value + pages_below addr level) % 2 ^ 64) (bit_and value 0xFF00000000000F7F)

unfoldable pub walk : Tables → ℕ → ℕ → ℕ → PageEntry → PageEntry
walk mem addr zero table out = set_phy out 3 (mem table (index_of addr 0))
walk mem addr (suc k) table out =
    let value = mem table (index_of addr (suc k)) in
    let out' = set_phy out (2 - k) value in
    let below = walk mem addr k (get_addr value) out' in
    if not (is_present value)
    then out'
    else if is_size_flag_set value
    then set_phy out' 3 (of_large_page addr (suc k) value)
    else below

unfoldable pub get_phy_from_log : Tables → ℕ → ℕ → PageEntry
get_phy_from_log mem pml4_phy_addr addr = walk mem addr 3 pml4_phy_addr (λ i. 0)

-- The first `n` of the 512 entries; additions are on 64 bits.
unfoldable pub expand_entries : ℕ → ℕ → ℕ → ℕ → Tables → Tables
expand_entries zero table start size mem = mem
expand_entries (suc n) table start size mem =
    put_entry (expand_entries n table start size mem) table n (
      if size == 4096
      then (bit_and start (not64 mask_page_size_flag) + n * size) % 2 ^ 64
      else (bit_or (bit_and start (not64 (size - 1))) mask_page_size_flag + n * size) % 2 ^ 64)

unfoldable pub expand_page_table_entry : Tables → ℕ → ℕ → ℕ → Tables
expand_page_table_entry mem phy_table_addr start_entry_and_flags entry_size =
    expand_entries 512 (get_addr phy_table_addr) start_entry_and_flags entry_size mem

-- `g_memory_pool`.
pub record Pool : Type 0 where
  pub page : ℕ → ℕ
  pub pop_index : ℕ
  pub max_count : ℕ

unfoldable pub get_memory : Pool → Option (ℕ × Pool)
get_memory p =
    if leb p.max_count p.pop_index
    then none
    else some (p.page p.pop_index, record p { pop_index = p.pop_index + 1 })

pub record Paging : Type 0 where
  pub mem : Tables
  pub pool : Pool

abbrev pub clear_table : Tables → ℕ → Tables
clear_table mem table = λ t i. if t == table then 0 else mem t i

-- An entry without a table below it.
unfoldable pub is_new_page_table_needed : Tables → ℕ → ℕ → Bool
is_new_page_table_needed mem vm index = mem vm index == 0 || is_size_flag_set (mem vm index)

-- `none`: the pool is empty, and the code clears the memory at address 0, which is a fault.
unfoldable pub check_alloc_page_table : (ℕ → ℕ) → Paging → ℕ → ℕ → Option (ℕ × Paging)
check_alloc_page_table virt_to_phys s table index =
    if s.mem table index == 0 || is_size_flag_set (s.mem table index)
    then elim (get_memory s.pool) [
      | none ↦ none
      | some (log_addr, pool) ↦
          let value = virt_to_phys log_addr in
          some (value, record { mem = clear_table s.mem value; pool = pool })
    ]
    else some (s.mem table index, s)

unfoldable pub sync_page_table_flag : Tables → ℕ → ℕ → ℕ → ℕ → Tables
sync_page_table_flag mem vm init index addr =
    put_entry mem vm index (bit_or (get_addr addr) (bit_and (mem init index) mask_pageflag))
