-- ===== src/Memory/PageTable/Agreement.antt =====
-- What `hb_sync_page_table` promises its callers, which go on to read the guest's data.
use alcatraz.Prelude.{
  ℕ, suc, ◌+◌, ◌≤◌, ◌<◌, ◌≡◌, ◌≢◌, refl, ap, sym, ◌∙◌, arith, true, false, Bool-cases, inl, inr,
  some, none, List,
}
use alcatraz.Memory.RoArea.{RoAddr, is_addr_in_kernel_ro_area}
use alcatraz.Memory.PageTable.{
  Tables, get_addr, is_present, is_size_flag_set, size_of, index_of, get_phy_from_log, Paging,
  get_memory, is_new_page_table_needed, check_alloc_page_table,
}
use alcatraz.Memory.PageTable.Sync.{Host, make_table, needs_sync, sync_tables, sync_page_table}
use alcatraz.Memory.PageTable.Separate.{GuestPath, guest-frame, Separate}
use alcatraz.Memory.PageTable.Translation.{sync_tables_lem}

module _ (h : Host) (ro : List RoAddr) (addr target direct : ℕ) where
  -- Of a page that the guest has mapped, outside the kernel's read-only areas, only agreement makes
  -- the function return early.
  skipped_agrees :
      (mem : Tables)
      → is_present (get_phy_from_log mem target addr 3) ≡ true
      → is_addr_in_kernel_ro_area ro addr ≡ false
      → direct ≢ 0
      → needs_sync h ro mem addr target direct ≡ false
      → get_addr (get_phy_from_log mem h.pml4 addr 3)
        ≡ get_addr (get_phy_from_log mem target addr 3)
  unfolding needs_sync
  skipped_agrees mem present outside forced skip = ground (arith, present, outside, forced, skip)

  agreed_skips :
      (mem : Tables)
      → get_addr (get_phy_from_log mem h.pml4 addr 3)
        ≡ get_addr (get_phy_from_log mem target addr 3)
      → needs_sync h ro mem addr target direct ≡ false
  unfolding needs_sync
  agreed_skips mem e = ground (arith, e)

module _ (h : Host) (ro : List RoAddr) (rank : ℕ → ℕ) (s : Paging) (addr pml4 direct : ℕ)
    (sep : Separate addr h rank s) (own : rank h.pml4 ≡ 4)
    (guest : GuestPath addr rank s.mem 3 (get_addr pml4))
    (mapped : is_present (get_phy_from_log s.mem (get_addr pml4) addr 3) ≡ true)
    (outside : is_addr_in_kernel_ro_area ro addr ≡ false) (forced : direct ≢ 0)
    (room : s.pool.pop_index + 3 ≤ s.pool.max_count) where
  -- Let the guest map an address that is in no read-only area of the kernel, let the direct mapping
  -- be synchronized too, let the pool have three pages, and let the hypervisor's tables, the guest's
  -- tables on the way to the address and the pages of the pool be different pages. Then
  -- `hb_sync_page_table` returns, the hypervisor's page table leads to the same page as the guest's,
  -- the guest's tables are as they were, and a second call changes nothing.
  pub sync_page_table_agrees :
      (s' : Paging) × (expand : ℕ) × (sync_page_table h ro s addr pml4 direct ≡ some (s', expand))
      × (get_addr (get_phy_from_log s'.mem h.pml4 addr 3)
          ≡ get_addr (get_phy_from_log s.mem (get_addr pml4) addr 3))
      × ((t i : ℕ) → 4 < rank t → s'.mem t i ≡ s.mem t i)
      × (sync_page_table h ro s' addr pml4 direct ≡ some (s', 0))
  unfolding sync_page_table get_phy_from_log
  sync_page_table_agrees = elim (Bool-cases (needs_sync h ro s.mem addr (get_addr pml4) direct)) [
    | inr skip ↦ (
      s,
      0,
      rw skip refl,
      skipped_agrees h ro addr (get_addr pml4) direct s.mem mapped outside forced skip,
      λ t i high. refl,
      rw skip refl,
    )
    | inl go ↦
        let (s', expand, e, found, kept) =
          sync_tables_lem h addr (get_phy_from_log s.mem (get_addr pml4) addr 3) 3 rank s h.pml4
            (get_addr pml4) 0 (omega arith) sep own guest mapped room in
        let left =
          guest-frame addr rank rank s.mem s'.mem (λ t high. refl) kept 3 (get_addr pml4) guest in
        let again : needs_sync h ro s'.mem addr (get_addr pml4) direct ≡ false =
          agreed_skips h ro addr (get_addr pml4) direct s'.mem (ap get_addr (found ∙ sym left.1)) in
        (s', expand, rw go e, ap get_addr found, kept, rw again refl)
  ]

no_page :
    (h : Host) (phy_entry : ℕ) (s : Paging) (vm init i size : ℕ)
    → s.mem vm i ≡ 0
    → s.pool.max_count ≤ s.pool.pop_index
    → make_table h phy_entry s vm init i size ≡ none
unfolding make_table check_alloc_page_table get_memory
no_page h phy_entry s vm init i size missing empty = ground (arith, missing, empty)

no_table :
    (h : Host) (addr phy_entry : ℕ) (s : Paging) (vm init k : ℕ)
    → s.mem init (index_of addr (suc k)) ≢ 0
    → is_size_flag_set (s.mem init (index_of addr (suc k))) ≡ false
    → s.mem vm (index_of addr (suc k)) ≡ 0
    → s.pool.max_count ≤ s.pool.pop_index
    → sync_tables h addr phy_entry (suc k) s vm init 0 ≡ none
unfolding sync_tables is_new_page_table_needed
no_table h addr phy_entry s vm init k filled table missing empty = ground (
  arith,
  filled,
  table,
  missing,
  no_page h phy_entry s vm init (index_of addr (suc k)) (size_of k) missing empty,
)

-- If the pool is empty and the hypervisor has no table where the guest has one, the code clears the
-- memory at address 0: the call does not return.
pub sync_page_table_pool_empty :
    (h : Host) (ro : List RoAddr) (s : Paging) (addr pml4 direct : ℕ)
    → needs_sync h ro s.mem addr (get_addr pml4) direct ≡ true
    → s.mem (get_addr pml4) (index_of addr 3) ≢ 0
    → is_size_flag_set (s.mem (get_addr pml4) (index_of addr 3)) ≡ false
    → s.mem h.pml4 (index_of addr 3) ≡ 0
    → s.pool.max_count ≤ s.pool.pop_index
    → sync_page_table h ro s addr pml4 direct ≡ none
unfolding sync_page_table
sync_page_table_pool_empty h ro s addr pml4 direct go filled table missing empty =
    rw go (no_table h addr _ s h.pml4 (get_addr pml4) 2 filled table missing empty)
