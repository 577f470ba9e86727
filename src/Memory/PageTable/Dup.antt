-- ===== src/Memory/PageTable/Dup.antt =====
-- `hb_dup_page_table_for_host` of Source/hyper_box/hypervisor.c: the kernel's tables are copied for the
-- hypervisor. Each page is hidden from the guest by `hb_hide_range`, which is in Ept; here the calls
-- are kept, by the numbers of the pages.
pub mod Frame
pub mod Laws
pub mod Loop
pub mod Whole
pub mod Takes
use alcatraz.Prelude.{
  List, ◌∷◌, ℕ, zero, suc, ◌+◌, ◌==◌, Bool, ◌||◌, if◌then◌else◌, bit_and, bit_or,
}
use alcatraz.Memory.PageTable.{
  Tables, put_entry, clear_table, mask_pageflag, get_addr, is_size_flag_set,
}

-- The tables, how many pages have been taken, and which have been hidden, the last one first.
pub record Copy : Type 0 where
  pub mem : Tables
  pub calls : ℕ
  pub hidden : List ℕ

-- An entry that is taken over as it is.
abbrev pub is_kept : ℕ → Bool
is_kept e = e == 0 || is_size_flag_set e

-- `memcpy` of a whole table.
abbrev pub copy_table : ℕ → ℕ → Tables → Tables
copy_table org vm mem = λ t i. if t == vm then mem org i else mem t i

-- The table of the next page, cleared by the allocator, entered with the flags of the kernel's entry.
abbrev pub enter_new : (ℕ → ℕ) → ℕ → ℕ → ℕ → Copy → Copy
enter_new phy vm n e s = record {
  mem =
      put_entry (clear_table s.mem (phy s.calls)) vm n
        (bit_or (phy s.calls) (bit_and e mask_pageflag));
  calls = s.calls + 1;
  hidden = s.calls ∷ s.hidden;
}

-- The first `n` entries of a table, with what copies the tables below. `phy` is the physical address
-- of each page that `__get_free_page` gives.
unfoldable pub dup_entries : (ℕ → ℕ) → (ℕ → ℕ → Copy → Copy) → ℕ → ℕ → ℕ → Copy → Copy
dup_entries phy below zero org vm s = s
dup_entries phy below (suc n) org vm s =
    let s' = dup_entries phy below n org vm s in
    let e = s'.mem org n in
    if is_kept e
    then record s' { mem = put_entry s'.mem vm n e }
    else below (get_addr e) (get_addr (bit_or (phy s'.calls) (bit_and e mask_pageflag)))
        (enter_new phy vm n e s')

unfoldable pub dup_table : (ℕ → ℕ) → ℕ → ℕ → ℕ → Copy → Copy
dup_table phy zero org vm s = record s { mem = copy_table org vm s.mem }
dup_table phy (suc k) org vm s = dup_entries phy (dup_table phy k) 512 org vm s

-- At the first start the PML4 gets the first page; at a restart the copy stays.
unfoldable pub dup_page_table_for_host : (ℕ → ℕ) → ℕ → ℕ → Copy → Copy
dup_page_table_for_host phy reinitialize org_pml4 s =
    if reinitialize == 0
    then dup_table phy 3 org_pml4 (phy s.calls) (record {
      mem = clear_table s.mem (phy s.calls);
      calls = s.calls + 1;
      hidden = s.calls ∷ s.hidden;
    })
    else s
