-- ===== src/Memory/PageTable/Sync.antt =====
-- `hb_sync_page_table` of Source/hyper_box/hypervisor.c: the hypervisor's page table takes over from
-- the guest's how an address is mapped. What the processor remembers of old entries is not modelled.
use alcatraz.Prelude.{
  ℕ, zero, suc, ◌+◌, ◌*◌, ◌^◌, Bool, true, false, ◌||◌, ◌&&◌, not, ◌==◌, leb, ltb, if◌then◌else◌,
  Option, none, some, List,
}
use alcatraz.Memory.RoArea.{RoAddr, is_addr_in_kernel_ro_area}
use alcatraz.Memory.PageTable.{
  Tables, Paging, put_entry, get_addr, is_present, is_size_flag_set, size_of, index_of,
  get_phy_from_log, expand_page_table_entry, is_new_page_table_needed, check_alloc_page_table,
  sync_page_table_flag,
}

-- What the code finds in the kernel: the hypervisor's own PML4 and the start of the direct mapping.
pub record Host : Type 0 where
  pub pml4 : ℕ
  pub page_offset_base : ℕ
  pub virt_to_phys : ℕ → ℕ

-- The tests before anything is copied. `target` is the guest's PML4.
unfoldable pub needs_sync : Host → List RoAddr → Tables → ℕ → ℕ → ℕ → Bool
needs_sync h ro mem addr target sync_direct_mapping =
    let guest = get_phy_from_log mem target addr 3 in
    let own = get_phy_from_log mem h.pml4 addr 3 in
    let direct = leb h.page_offset_base addr && ltb addr (h.page_offset_base + 64 * 2 ^ 40) in
    let skipped =
      sync_direct_mapping == 0
      || not (is_present guest)
      || is_present own && get_addr guest == get_addr own in
    not (direct && skipped)
    && not (is_addr_in_kernel_ro_area ro addr)
    && is_present guest
    && not (get_addr guest == get_addr own)

-- A table for the hypervisor's entry, filled from the guest's page, if there is none.
unfoldable pub make_table : Host → ℕ → Paging → ℕ → ℕ → ℕ → ℕ → Option Paging
make_table h phy_entry s vm init index entry_size =
    elim (check_alloc_page_table h.virt_to_phys s vm index) [
      | none ↦ none
      | some (value, s') ↦
          let filled = expand_page_table_entry s'.mem value phy_entry entry_size in
          some (record s' { mem = sync_page_table_flag filled vm init index value })
    ]

-- The tables from one level down. The result also says how much the first new table maps by an
-- entry, if there is one.
unfoldable pub sync_tables : Host → ℕ → ℕ → ℕ → Paging → ℕ → ℕ → ℕ → Option (Paging × ℕ)
sync_tables h addr phy_entry zero s vm init expand_value =
    let i = index_of addr 0 in
    some (record s { mem = put_entry s.mem vm i (s.mem init i) }, expand_value)
sync_tables h addr phy_entry (suc k) s vm init expand_value =
    let i = index_of addr (suc k) in
    let entry = s.mem init i in
    if entry == 0 || is_size_flag_set entry
    then some (record s { mem = put_entry s.mem vm i entry }, expand_value)
    else elim (is_new_page_table_needed s.mem vm i) [
      | true ↦ elim (make_table h phy_entry s vm init i (size_of k)) [
        | none ↦ none
        | some s' ↦
            sync_tables h addr phy_entry k s' (get_addr (s'.mem vm i)) (get_addr entry)
              (if expand_value == 0 then size_of k else expand_value)
      ]
      | false ↦
          sync_tables h addr phy_entry k s (get_addr (s.mem vm i)) (get_addr entry) expand_value
    ]

unfoldable pub sync_page_table : Host → List RoAddr → Paging → ℕ → ℕ → ℕ → Option (Paging × ℕ)
sync_page_table h ro s addr org_target_phy_pml4 sync_direct_mapping =
    let target = get_addr org_target_phy_pml4 in
    if needs_sync h ro s.mem addr target sync_direct_mapping
    then sync_tables h addr (get_phy_from_log s.mem target addr 3) 3 s h.pml4 target 0
    else some (s, 0)
