-- ===== src/Memory/PageTable/Translation.antt =====
-- After a synchronization the hypervisor reaches what the guest reaches.
use alcatraz.Prelude.{
  ℕ, zero, suc, ◌+◌, ◌≤◌, ◌<◌, ◌≡◌, ◌≢◌, refl, ap, sym, subst, ◌∙◌, arith, true, false, ◌==◌,
  if◌then◌else◌, Bool-cases, inl, inr,
}
use alcatraz.Memory.PageTable.{
  get_addr, is_present, is_size_flag_set, size_of, index_of, Paging, is_new_page_table_needed,
}
use alcatraz.Memory.PageTable.Sync.{Host, sync_tables}
use alcatraz.Memory.PageTable.Masks.{merged-size}
use alcatraz.Memory.PageTable.Separate.{frame, GuestPath, guest-frame, Separate}
use alcatraz.Memory.PageTable.Laws.{next_page}
use alcatraz.Memory.PageTable.Growth.{
  after, rank', with_table-Separate, entry_after, entry_leads, entry_present, rank_other, rank_page,
  others,
}
use alcatraz.Memory.PageTable.Levels.{
  Result, frame_below, frame_present, present-ne, sync_goes, sync_makes, copied, climb, pte_copied,
  old_entry,
}

module _ (h : Host) (addr phy_entry : ℕ) where
  -- A new table is made, and the lower levels start in it.
  grown :
      (rank : ℕ → ℕ) (s : Paging) (sep : Separate addr h rank s)
      (room : s.pool.pop_index < s.pool.max_count) (vm init k expand : ℕ) (small : k < 3)
      (vm_rank : rank vm ≡ suc (suc k)) (guest : 4 < rank init)
      (gp : is_present (s.mem init (index_of addr (suc k))) ≡ true)
      → is_size_flag_set (s.mem init (index_of addr (suc k))) ≡ false
      → GuestPath addr rank s.mem k (get_addr (s.mem init (index_of addr (suc k))))
      → is_present (frame s.mem addr k (get_addr (s.mem init (index_of addr (suc k))))) ≡ true
      → is_new_page_table_needed s.mem vm (index_of addr (suc k)) ≡ true
      → let s1 = after h addr phy_entry rank s sep room vm init k small vm_rank guest gp in
        let rank1 = rank' h addr phy_entry rank s sep room vm init k small vm_rank guest gp in
        let e = s.mem init (index_of addr (suc k)) in
        let below = get_addr (s1.mem vm (index_of addr (suc k))) in
        (rank1 below ≡ suc k
          → GuestPath addr rank1 s1.mem k (get_addr e)
          → is_present (frame s1.mem addr k (get_addr e)) ≡ true
          → Result h addr phy_entry rank1 s1 k below (get_addr e) (
              sync_tables h addr phy_entry k s1 below
                (get_addr e)
                (if expand == 0 then size_of k else expand)))
        → Result h addr phy_entry rank s
            (suc k)
            vm
            init
            (sync_tables h addr phy_entry (suc k) s vm init expand)
  grown rank s sep room vm init k expand small vm_rank guest gp table path below new ih =
      let i = index_of addr (suc k) in
      let e = s.mem init i in
      let s1 : Paging = after h addr phy_entry rank s sep room vm init k small vm_rank guest gp in
      let rank1 : ℕ → ℕ = rank' h addr phy_entry rank s sep room vm init k small vm_rank guest gp in
      let other = others h addr phy_entry rank s sep room vm init k small vm_rank guest gp in
      let same_rank =
        rank_other h addr phy_entry rank s sep room vm init k small vm_rank guest gp in
      let ne : (t : ℕ) → suc (suc k) < rank t → t ≢ vm = λ t high q.
        let r : rank t ≡ rank vm = ap rank q in absurd (omega (arith, r, vm_rank, high)) in
      let moved =
        guest-frame addr rank rank1 s.mem s1.mem (λ t high. same_rank t (omega (arith, high)))
          (λ t j high. other t j (omega (arith, high)) (ne t (omega (arith, high, small)))) k
          (get_addr e) path in
      let flat : is_size_flag_set (s1.mem vm i) ≡ false =
        ap is_size_flag_set
          (entry_after h addr phy_entry rank s sep room vm init k small vm_rank guest gp)
        ∙ merged-size (next_page h addr phy_entry s) e
        ∙ table in
      subst (Result h addr phy_entry rank s (suc k) vm init)
        (sym (
          sync_makes h addr phy_entry s k vm init expand (present-ne h addr phy_entry e gp) table
            new room))
        (climb h addr phy_entry rank rank1 s s1 k vm init _
          (same_rank vm (omega (arith, vm_rank)) ∙ vm_rank)
          (entry_present h addr phy_entry rank s sep room vm init k small vm_rank guest gp) flat gp
          table moved.1
          (λ t j high.
            (same_rank t (omega (arith, high)), other t j (omega (arith, high)) (ne t high)))
          (ih
            (rank_page h addr phy_entry rank s sep room vm init k small vm_rank guest gp _
              (entry_leads h addr phy_entry rank s sep room vm init k small vm_rank guest gp))
            moved.0 (ap is_present moved.1 ∙ below)))

  -- Guarded by the ranks, a synchronization succeeds if the pool has a page for each lower level.
  pub sync_tables_lem :
      (k : ℕ) (rank : ℕ → ℕ) (s : Paging) (vm init expand : ℕ)
      → k ≤ 3
      → Separate addr h rank s
      → rank vm ≡ suc k
      → GuestPath addr rank s.mem k init
      → is_present (frame s.mem addr k init) ≡ true
      → s.pool.pop_index + k ≤ s.pool.max_count
      → Result h addr phy_entry rank s k vm init (sync_tables h addr phy_entry k s vm init expand)
  sync_tables_lem zero rank s vm init expand small sep vm_rank guest present room =
      pte_copied h addr phy_entry rank s vm init expand vm_rank
  sync_tables_lem (suc k) rank s vm init expand small sep vm_rank guest present room =
      let i = index_of addr (suc k) in
      let e = s.mem init i in
      let gp : is_present e ≡ true = frame_present h addr phy_entry s.mem k init present in
      let filled : e ≢ 0 = present-ne h addr phy_entry e gp in
      elim (Bool-cases (is_size_flag_set e)) [
        | inl large ↦ copied h addr phy_entry rank s k vm init expand vm_rank large
        | inr table ↦
            let below : is_present (frame s.mem addr k (get_addr e)) ≡ true =
              ap is_present (sym (frame_below h addr phy_entry s.mem k init e refl gp table))
              ∙ present in
            elim (Bool-cases (is_new_page_table_needed s.mem vm i)) [
              | inr old ↦
                  let has = old_entry h addr phy_entry s.mem vm i old in
                  let link = sep.linked vm k (omega (arith, small)) vm_rank has.0 has.1 in
                  subst (Result h addr phy_entry rank s (suc k) vm init)
                    (sym (sync_goes h addr phy_entry s k vm init expand filled table old))
                    (climb h addr phy_entry rank rank s s k vm init _ vm_rank link.0 has.1 gp table
                      refl (λ t j high. (refl, refl))
                      (sync_tables_lem k rank s (get_addr (s.mem vm i)) (get_addr e) expand
                        (omega (arith, small)) sep link.1 (guest.1 gp table) below
                        (omega (arith, room))))
              | inl new ↦
                  let some_page : s.pool.pop_index < s.pool.max_count = omega (arith, room) in
                  let lt : k < 3 = omega (arith, small) in
                  grown rank s sep some_page vm init k expand lt vm_rank guest.0 gp table
                    (guest.1 gp table) below new
                    (λ r path p.
                      sync_tables_lem k
                        (rank' h addr phy_entry rank s sep some_page vm init k lt vm_rank guest.0
                          gp)
                        (after h addr phy_entry rank s sep some_page vm init k lt vm_rank guest.0
                          gp)
                        _ (get_addr e) _ (omega (arith, small))
                        (with_table-Separate h addr phy_entry rank s sep some_page vm init k lt
                          vm_rank guest.0 gp)
                        r path p (omega (arith, room)))
            ]
      ]
