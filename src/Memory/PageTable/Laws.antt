-- ===== src/Memory/PageTable/Laws.antt =====
-- One new table in the hypervisor's page tables.
use alcatraz.Prelude.{
  ℕ, zero, suc, ◌+◌, ◌*◌, ◌<◌, ◌≡◌, ◌≢◌, refl, ap, ◌∙◌, arith, true, false, ◌==◌, ==_self,
  if◌then◌else◌, some,
}
use alcatraz.Memory.PageTable.{
  put_entry, get_addr, is_size_flag_set, size_of, Paging, clear_table, expand_entries,
  expand_page_table_entry, get_memory, check_alloc_page_table, is_new_page_table_needed,
  sync_page_table_flag,
}
use alcatraz.Memory.PageTable.Sync.{Host, make_table}
use alcatraz.Memory.PageTable.Masks.{merged}
use alcatraz.Memory.PageTable.Separate.{expand-other, expand-size}

module _ (h : Host) (addr phy_entry : ℕ) where
  abbrev pub next_page : Paging → ℕ
  next_page s = h.virt_to_phys (s.pool.page s.pool.pop_index)

  -- The tables after a new one at the entry `i` of `vm`.
  abbrev pub with_table : Paging → ℕ → ℕ → ℕ → ℕ → Paging
  with_table s vm init i size = record {
    mem =
        put_entry
          (expand_page_table_entry (clear_table s.mem (next_page s)) (next_page s) phy_entry size)
          vm i
          (merged (next_page s) (
            expand_page_table_entry (clear_table s.mem (next_page s)) (next_page s) phy_entry size
              init i));
    pool = record s.pool { pop_index = s.pool.pop_index + 1 };
  }

  with_page :
      (s : Paging) (vm i : ℕ)
      → is_new_page_table_needed s.mem vm i ≡ true
      → s.pool.pop_index < s.pool.max_count
      → check_alloc_page_table h.virt_to_phys s vm i
        ≡ some (
          next_page s,
          record {
            mem = clear_table s.mem (next_page s);
            pool = record s.pool { pop_index = s.pool.pop_index + 1 };
          },
        )
  unfolding check_alloc_page_table get_memory is_new_page_table_needed
  with_page s vm i new room = ground (arith, new, room)

  pub make_table-with_table :
      (s : Paging) (vm init i size : ℕ)
      → is_new_page_table_needed s.mem vm i ≡ true
      → s.pool.pop_index < s.pool.max_count
      → make_table h phy_entry s vm init i size ≡ some (with_table s vm init i size)
  unfolding make_table sync_page_table_flag
  make_table-with_table s vm init i size new room = rw (make_table, with_page s vm i new room) refl

  -- A table other than the new one and the one that points to it.
  pub with_table-other :
      (s : Paging) (vm init i size t j : ℕ)
      → get_addr (next_page s) ≡ next_page s
      → t ≢ next_page s
      → t ≢ vm
      → (with_table s vm init i size).mem t j ≡ s.mem t j
  unfolding expand_page_table_entry
  with_table-other s vm init i size t j aligned ne ne' = rw aligned (
      ground (
        arith,
        ne,
        ne',
        expand-other 512 (next_page s) phy_entry size (clear_table s.mem (next_page s)) t j,
      ))

  -- The entry that points to the new table.
  pub with_table-entry :
      (s : Paging) (vm init i size : ℕ)
      → get_addr (next_page s) ≡ next_page s
      → init ≢ next_page s
      → (with_table s vm init i size).mem vm i ≡ merged (next_page s) (s.mem init i)
  unfolding expand_page_table_entry
  with_table-entry s vm init i size aligned ne =
      let before : expand_page_table_entry (clear_table s.mem (next_page s)) (next_page s) phy_entry
            size init i
          ≡ s.mem init i =
        rw aligned (
          expand-other 512 (next_page s) phy_entry size (clear_table s.mem (next_page s)) init i ne
          ∙ ground (arith, ne)) in
      rw (==_self vm, ==_self i) (ap (merged (next_page s)) before)

  -- The new table's rank.
  abbrev pub ranked : (ℕ → ℕ) → Paging → ℕ → ℕ → ℕ
  ranked rank s k = λ t. if t == next_page s then suc k else rank t

  -- An entry of the new table is a large page, if the table is no PTE.
  new_entry :
      (s : Paging) (vm init i q j : ℕ)
      → get_addr (next_page s) ≡ next_page s
      → next_page s ≢ vm
      → q * 4096 ≢ 4096
      → j < 512
      → is_size_flag_set ((with_table s vm init i (q * 4096)).mem (next_page s) j) ≡ true
  unfolding expand_page_table_entry
  new_entry s vm init i q j aligned ne large lt =
      let filled : is_size_flag_set (
            expand_entries 512 (next_page s) phy_entry (q * 4096) (clear_table s.mem (next_page s))
              (next_page s) j)
          ≡ true =
        expand-size 512 (next_page s) phy_entry q (clear_table s.mem (next_page s)) j large lt in
      let off : (next_page s == vm) ≡ false = ground (arith, ne) in rw (aligned, off) filled

  pub new_entry_at :
      (s : Paging) (vm init i k j : ℕ)
      → get_addr (next_page s) ≡ next_page s
      → next_page s ≢ vm
      → k < 2
      → j < 512
      → is_size_flag_set ((with_table s vm init i (size_of (suc k))).mem (next_page s) j) ≡ true
  new_entry_at s vm init i zero j aligned ne small lt =
      new_entry s vm init i 512 j aligned ne (omega arith) lt
  new_entry_at s vm init i (suc zero) j aligned ne small lt =
      new_entry s vm init i 262144 j aligned ne (omega arith) lt
  new_entry_at s vm init i (suc (suc k)) j aligned ne small lt = absurd (omega arith)
