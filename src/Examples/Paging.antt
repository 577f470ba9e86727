-- ===== src/Examples/Paging.antt =====
-- A page of the guest at 0x5000 that the hypervisor has no table for yet.
use alcatraz.Prelude.{
  ◌∷◌, ℕ, ◌/◌, ◌≤◌, zero, suc, ◌+◌, ◌*◌, ◌<◌, ◌≡◌, refl, [], arith, true, false, ◌&&◌, ◌==◌, leb,
  ltb, if◌then◌else◌, some,
}
use alcatraz.Memory.RoArea.{is_addr_in_kernel_ro_area}
use alcatraz.Memory.PageTable.{
  Tables, Paging, get_addr, is_present, is_size_flag_set, index_of, get_phy_from_log,
}
use alcatraz.Memory.PageTable.Sync.{Host, needs_sync, sync_page_table}
use alcatraz.Memory.PageTable.Separate.{Separate, GuestPath}
use alcatraz.Memory.PageTable.Pages.{sync_page, sync_each, sync_page-covers}
use alcatraz.Memory.PageTable.Agreement.{sync_page_table_agrees}

-- The guest's tables are at 0x10000 to 0x13000, the hypervisor's PML4 is at 0x20000.
abbrev mem : Tables
mem t i =
    if t == 0x10000 && i == 0
    then 0x11003
    else if t == 0x11000 && i == 0
    then 0x12003
    else if t == 0x12000 && i == 0
    then 0x13003
    else if t == 0x13000 && i == 5
    then 0x77003
    else 0

abbrev rank : ℕ → ℕ
rank t = if t == 0x20000 then 4 else if leb 0x10000 t && ltb t 0x14000 then 5 else 0

abbrev own : Host
own = record { pml4 = 0x20000; page_offset_base = 0x8000_0000_0000; virt_to_phys = λ a. a }

abbrev paging : Paging
paging = record {
  mem = mem;
  pool = record { page = λ j. 0x30000 + j * 4096; pop_index = 0; max_count = 3 };
}

pages_unused :
    (j : ℕ)
    → j < 3
    → (rank (0x30000 + j * 4096) ≡ 0) × (get_addr (0x30000 + j * 4096) ≡ 0x30000 + j * 4096)
pages_unused zero lt = (refl, refl)
pages_unused (suc zero) lt = (refl, refl)
pages_unused (suc (suc zero)) lt = (refl, refl)
pages_unused (suc (suc (suc j))) lt = absurd (omega arith)

no_tables : (t k i : ℕ) → k < 3 → rank t ≡ suc (suc k) → mem t i ≡ 0
no_tables t k i lt r = ground arith

separate : Separate 0x5000 own rank paging
separate = record {
  linked = λ t k lt r filled size. absurd (filled (no_tables t k (index_of 0x5000 (suc k)) lt r));
  unused = λ j lo lt. pages_unused j lt;
  distinct = λ i j lt small. λ e. absurd (omega (arith, e));
}

guest_path : GuestPath 0x5000 rank mem 3 0x10000
guest_path = (omega arith, λ a b. (omega arith, λ a b. (omega arith, λ a b. omega arith)))

guest_mapped : is_present (get_phy_from_log mem 0x10000 0x5000 3) ≡ true
unfolding get_phy_from_log alcatraz.Memory.PageTable.walk
guest_mapped = refl

not_in_kernel : is_addr_in_kernel_ro_area [] 0x5000 ≡ false
unfolding is_addr_in_kernel_ro_area alcatraz.Memory.RoArea.in_kernel_areas
not_in_kernel = refl

sync_page_table_agrees_example :
    (s' : Paging) × (expand : ℕ) × (sync_page_table own [] paging 0x5000 0x10000 1
      ≡ some (s', expand))
    × (get_addr (get_phy_from_log s'.mem 0x20000 0x5000 3)
        ≡ get_addr (get_phy_from_log mem 0x10000 0x5000 3))
    × ((t i : ℕ) → 4 < rank t → s'.mem t i ≡ mem t i)
    × (sync_page_table own [] s' 0x5000 0x10000 1 ≡ some (s', 0))
sync_page_table_agrees_example =
    sync_page_table_agrees own [] rank paging 0x5000 0x10000 1 separate refl guest_path guest_mapped
      not_in_kernel (λ e. absurd (omega (arith, e))) (omega arith)

abbrev drained : Paging
drained = record paging { pool = record paging.pool { pop_index = 3 } }

drained_needs : needs_sync own [] mem 0x5000 0x10000 0 ≡ true
unfolding needs_sync get_phy_from_log alcatraz.Memory.PageTable.walk is_addr_in_kernel_ro_area
    alcatraz.Memory.RoArea.in_kernel_areas
drained_needs = refl

-- Three bytes across the border of two pages.
sync_page-covers_example :
    (sync_page own [] 0x10000 0x5FFE 3 paging
      ≡ sync_each own [] 0x10000 (0x5FFE ∷ 0x6FFE ∷ []) paging)
    × ((b : ℕ)
        → 0x5FFE ≤ b
        → b < 0x6001
        → (i : ℕ) × (i < 2) × ((0x5FFE + 4096 * i) / 4096 ≡ b / 4096))
    × ((i : ℕ)
        → i < 2
        → (b : ℕ) × (0x5FFE ≤ b) × (b < 0x6001) × ((0x5FFE + 4096 * i) / 4096 ≡ b / 4096))
sync_page-covers_example =
    sync_page-covers own [] 0x10000 0x5FFE 3 paging (omega arith) (omega arith)
