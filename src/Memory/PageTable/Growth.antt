-- ===== src/Memory/PageTable/Growth.antt =====
-- A new table keeps the hypervisor's tables, the guest's and the pool apart.
use alcatraz.Prelude.{
  ℕ, suc, ◌+◌, ◌≤◌, ◌<◌, ◌≡◌, ◌≢◌, ap, sym, ◌∙◌, arith, true, false, ◌==◌, ==_iff, Bool-cases, inl,
  inr,
}
use alcatraz.Memory.PageTable.{get_addr, is_present, is_size_flag_set, size_of, index_of, Paging}
use alcatraz.Memory.PageTable.Sync.{Host}
use alcatraz.Memory.PageTable.Masks.{merged, merged-addr, merged-present}
use alcatraz.Memory.PageTable.Separate.{Separate}
use alcatraz.Memory.PageTable.Laws.{
  next_page, with_table, with_table-other, with_table-entry, ranked, new_entry_at,
}

module _ (h : Host) (addr phy_entry : ℕ) where
  module _ (rank : ℕ → ℕ) (s : Paging) (sep : Separate addr h rank s) where
    -- The hypothesis that the pool is not empty.
    module _ (room : s.pool.pop_index < s.pool.max_count) where
      page_rank : rank (next_page h addr phy_entry s) ≡ 0
      page_rank = (sep.unused s.pool.pop_index (omega arith) room).0

      page_aligned : get_addr (next_page h addr phy_entry s) ≡ next_page h addr phy_entry s
      page_aligned = (sep.unused s.pool.pop_index (omega arith) room).1

      page_ne : (t : ℕ) → 0 < rank t → t ≢ next_page h addr phy_entry s
      page_ne t p e = let r : rank t ≡ 0 = ap rank e ∙ page_rank in absurd (omega (arith, r, p))

      -- A new table below `vm`, for an entry of the guest that points to a table.
      module _ (vm init k : ℕ) (small : k < 3) (vm_rank : rank vm ≡ suc (suc k))
          (guest : 4 < rank init)
          (present : is_present (s.mem init (index_of addr (suc k))) ≡ true) where
        abbrev pub after : Paging
        after = with_table h addr phy_entry s vm init (index_of addr (suc k)) (size_of k)

        abbrev pub rank' : ℕ → ℕ
        rank' = ranked h addr phy_entry rank s k

        pub entry_after :
            after.mem vm (index_of addr (suc k))
            ≡ merged (next_page h addr phy_entry s) (s.mem init (index_of addr (suc k)))
        entry_after =
            with_table-entry h addr phy_entry s vm init (index_of addr (suc k)) (size_of k)
              page_aligned (page_ne init (omega (arith, guest)))

        -- The table that `vm` now points to is the new one.
        pub entry_leads :
            get_addr (after.mem vm (index_of addr (suc k))) ≡ next_page h addr phy_entry s
        entry_leads =
            ap get_addr entry_after
            ∙ merged-addr (next_page h addr phy_entry s) (s.mem init (index_of addr (suc k)))
            ∙ page_aligned

        pub entry_present : is_present (after.mem vm (index_of addr (suc k))) ≡ true
        entry_present =
            ap is_present entry_after
            ∙ merged-present (next_page h addr phy_entry s) (s.mem init (index_of addr (suc k)))
            ∙ present

        pub rank_other : (t : ℕ) → 0 < rank t → rank' t ≡ rank t
        rank_other t p = ground (arith, page_ne t p)

        pub rank_page : (t : ℕ) → t ≡ next_page h addr phy_entry s → rank' t ≡ suc k
        rank_page t e = ground (arith, e)

        pub others : (t j : ℕ) → 0 < rank t → t ≢ vm → after.mem t j ≡ s.mem t j
        others t j p ne =
            with_table-other h addr phy_entry s vm init (index_of addr (suc k)) (size_of k) t j
              page_aligned (page_ne t p) ne

        new_page_ends :
            (t j : ℕ)
            → t ≡ next_page h addr phy_entry s
            → rank' t ≡ suc (suc j)
            → is_size_flag_set (after.mem t (index_of addr (suc j))) ≡ true
        new_page_ends t j e r =
            let below : k ≡ suc j = omega (arith, rank_page t e, r) in
            let lt : index_of addr (suc j) < 512 = omega arith in
            rw (e, below)
              (new_entry_at h addr phy_entry s vm init (index_of addr (suc (suc j))) j
                (index_of addr (suc j)) page_aligned
                (λ q. page_ne vm (omega (arith, vm_rank)) (sym q)) (omega (arith, below, small)) lt)

        pointer :
            (t j : ℕ)
            → t ≡ vm
            → rank t ≡ suc (suc j)
            → (is_present (after.mem t (index_of addr (suc j))) ≡ true)
              × (rank' (get_addr (after.mem t (index_of addr (suc j)))) ≡ suc j)
        pointer t j e r =
            let same : j ≡ k = omega (arith, ap rank e, vm_rank, r) in
            rw (e, same) (entry_present, rank_page _ entry_leads)

        old :
            (t j : ℕ)
            → j < 3
            → rank t ≡ suc (suc j)
            → t ≢ vm
            → after.mem t (index_of addr (suc j)) ≢ 0
            → is_size_flag_set (after.mem t (index_of addr (suc j))) ≡ false
            → (is_present (after.mem t (index_of addr (suc j))) ≡ true)
              × (rank' (get_addr (after.mem t (index_of addr (suc j)))) ≡ suc j)
        old t j lt r ne filled table =
            let same = others t (index_of addr (suc j)) (omega (arith, r)) ne in
            let l =
              sep.linked t j lt r (λ z. filled (same ∙ z))
                (ap is_size_flag_set (sym same) ∙ table) in
            rw same (l.0, rank_other _ (omega (arith, l.1)) ∙ l.1)

        pub with_table-Separate : Separate addr h rank' after
        with_table-Separate = record { linked = links; unused = free; distinct = sep.distinct }
          where
            links :
                (t j : ℕ)
                → j < 3
                → rank' t ≡ suc (suc j)
                → after.mem t (index_of addr (suc j)) ≢ 0
                → is_size_flag_set (after.mem t (index_of addr (suc j))) ≡ false
                → (is_present (after.mem t (index_of addr (suc j))) ≡ true)
                  × (rank' (get_addr (after.mem t (index_of addr (suc j)))) ≡ suc j)
            links t j lt r filled table = elim (Bool-cases (t == next_page h addr phy_entry s)) [
              | inl e ↦
                  let ends = new_page_ends t j ((==_iff _ _).0 e) r in absurd (cc (ends, table))
              | inr e ↦ elim (Bool-cases (t == vm)) [
                | inl f ↦ pointer t j ((==_iff _ _).0 f) (ground (arith, e, r))
                | inr f ↦ old t j lt (ground (arith, e, r)) (ground (arith, f)) filled table
              ]
            ]

            free :
                (j : ℕ)
                → s.pool.pop_index + 1 ≤ j
                → j < s.pool.max_count
                → (rank' (h.virt_to_phys (s.pool.page j)) ≡ 0)
                  × (get_addr (h.virt_to_phys (s.pool.page j)) ≡ h.virt_to_phys (s.pool.page j))
            free j le lt =
                let u = sep.unused j (omega (arith, le)) lt in
                let ne = sep.distinct s.pool.pop_index j (omega (arith, le)) lt in
                (ground (arith, u.0, ne), u.1)
