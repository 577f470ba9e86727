-- ===== src/Memory/PageTable/Levels.antt =====
-- One level of a synchronization, in each of the three ways that it goes.
use alcatraz.Prelude.{
  ℕ, suc, ◌<◌, ◌≡◌, ◌≢◌, refl, ap, sym, ◌∙◌, arith, true, false, ◌==◌, ◌||◌, ◌⊎◌, ==_iff, ==_self,
  if◌then◌else◌, Bool-cases, inl, inr, Option, some,
}
use alcatraz.Memory.PageTable.{
  Tables, put_entry, get_addr, is_present, is_size_flag_set, size_of, index_of, walk, Paging,
  is_new_page_table_needed,
}
use alcatraz.Memory.PageTable.Sync.{Host, sync_tables}
use alcatraz.Memory.PageTable.Masks.{zero_absent}
use alcatraz.Memory.PageTable.Separate.{frame, frame-suc, Kept}
use alcatraz.Memory.PageTable.Laws.{with_table, make_table-with_table}

module _ (h : Host) (addr phy_entry : ℕ) where
  -- What a walk from `vm` finds below an entry that points to a table.
  pub frame_below :
      (mem : Tables) (k vm v : ℕ)
      → mem vm (index_of addr (suc k)) ≡ v
      → is_present v ≡ true
      → is_size_flag_set v ≡ false
      → frame mem addr (suc k) vm ≡ frame mem addr k (get_addr v)
  frame_below mem k vm v e present table =
      frame-suc mem addr k vm ∙ (rw e (rw (present, table) refl))

  frame_large :
      (mem mem' : Tables) (k vm init : ℕ)
      → mem' vm (index_of addr (suc k)) ≡ mem init (index_of addr (suc k))
      → (is_present (mem init (index_of addr (suc k))) ≡ false)
        ⊎ (is_size_flag_set (mem init (index_of addr (suc k))) ≡ true)
      → frame mem' addr (suc k) vm ≡ frame mem addr (suc k) init
  frame_large mem mem' k vm init e large =
      frame-suc mem' addr k vm ∙ (rw e (ground (arith, large))) ∙ sym (frame-suc mem addr k init)

  pub frame_present :
      (mem : Tables) (k t : ℕ)
      → is_present (frame mem addr (suc k) t) ≡ true
      → is_present (mem t (index_of addr (suc k))) ≡ true
  frame_present mem k t p = elim (Bool-cases (is_present (mem t (index_of addr (suc k))))) [
    | inl e ↦ e
    | inr e ↦
        let none_below : frame mem addr (suc k) t ≡ 0 = frame-suc mem addr k t ∙ (rw e refl) in
        absurd (cc (ap is_present none_below, zero_absent, p))
  ]

  -- The three ways that a level goes.
  module _ (s : Paging) (k vm init expand : ℕ) where
    sync_copies :
        is_size_flag_set (s.mem init (index_of addr (suc k))) ≡ true
        → sync_tables h addr phy_entry (suc k) s vm init expand
          ≡ some (
            record s {
              mem = put_entry s.mem vm (index_of addr (suc k)) (s.mem init (index_of addr (suc k)));
            },
            expand,
          )
    unfolding sync_tables
    sync_copies large = ground (arith, large)

    module _ (filled : s.mem init (index_of addr (suc k)) ≢ 0)
        (table : is_size_flag_set (s.mem init (index_of addr (suc k))) ≡ false) where
      goes_on :
          (s.mem init (index_of addr (suc k)) == 0
            || is_size_flag_set (s.mem init (index_of addr (suc k))))
          ≡ false
      goes_on = ground (arith, filled, table)

      pub sync_goes :
          is_new_page_table_needed s.mem vm (index_of addr (suc k)) ≡ false
          → sync_tables h addr phy_entry (suc k) s vm init expand
            ≡ sync_tables h addr phy_entry k s
                (get_addr (s.mem vm (index_of addr (suc k))))
                (get_addr (s.mem init (index_of addr (suc k))))
                expand
      unfolding sync_tables
      sync_goes old = rw goes_on (rw old refl)

      abbrev pub made : Paging
      made = with_table h addr phy_entry s vm init (index_of addr (suc k)) (size_of k)

      pub sync_makes :
          is_new_page_table_needed s.mem vm (index_of addr (suc k)) ≡ true
          → s.pool.pop_index < s.pool.max_count
          → sync_tables h addr phy_entry (suc k) s vm init expand
            ≡ sync_tables h addr phy_entry k made
                (get_addr (made.mem vm (index_of addr (suc k))))
                (get_addr (s.mem init (index_of addr (suc k))))
                (if expand == 0 then size_of k else expand)
      unfolding sync_tables
      sync_makes new room = rw goes_on (
          rw new (
            rw
              (make_table-with_table h addr phy_entry s vm init (index_of addr (suc k)) (size_of k)
                new room)
              refl))

  -- What a synchronization from a table of level `k` down achieves.
  abbrev pub Result : (ℕ → ℕ) → Paging → ℕ → ℕ → ℕ → Option (Paging × ℕ) → Type 0
  Result rank s k vm init r =
      (s' : Paging) × (expand : ℕ) × (r ≡ some (s', expand))
      × (frame s'.mem addr k vm ≡ frame s.mem addr k init)
      × Kept addr rank k s.mem s'.mem

  rank_ne : (rank : ℕ → ℕ) (t u : ℕ) → rank u < rank t → (t == u) ≡ false
  rank_ne rank t u lt = elim (Bool-cases (t == u)) [
    | inr e ↦ e
    | inl e ↦
        let same : rank t ≡ rank u = ap rank ((==_iff t u).0 e) in absurd (omega (arith, same, lt))
  ]

  pub copied :
      (rank : ℕ → ℕ) (s : Paging) (k vm init expand : ℕ)
      → rank vm ≡ suc (suc k)
      → is_size_flag_set (s.mem init (index_of addr (suc k))) ≡ true
      → Result rank s (suc k) vm init (sync_tables h addr phy_entry (suc k) s vm init expand)
  copied rank s k vm init expand vm_rank large =
      let i = index_of addr (suc k) in
      let mem' = put_entry s.mem vm i (s.mem init i) in
      let written : mem' vm i ≡ s.mem init i = rw (==_self vm, ==_self i) refl in
      (
        record s { mem = mem' },
        expand,
        sync_copies s k vm init expand large,
        frame_large s.mem mem' k vm init written (inr large),
        λ t j high. rw (rank_ne rank t vm (omega (arith, high, vm_rank))) refl,
      )

  -- From a table to the one above it: `s1` is the state in which the lower levels start.
  pub climb :
      (rank rank1 : ℕ → ℕ) (s s1 : Paging) (k vm init : ℕ) (r : Option (Paging × ℕ))
      → rank1 vm ≡ suc (suc k)
      → is_present (s1.mem vm (index_of addr (suc k))) ≡ true
      → is_size_flag_set (s1.mem vm (index_of addr (suc k))) ≡ false
      → is_present (s.mem init (index_of addr (suc k))) ≡ true
      → is_size_flag_set (s.mem init (index_of addr (suc k))) ≡ false
      → frame s1.mem addr k (get_addr (s.mem init (index_of addr (suc k))))
        ≡ frame s.mem addr k (get_addr (s.mem init (index_of addr (suc k))))
      → ((t i : ℕ) → suc (suc k) < rank t → (rank1 t ≡ rank t) × (s1.mem t i ≡ s.mem t i))
      → Result rank1 s1 k
          (get_addr (s1.mem vm (index_of addr (suc k))))
          (get_addr (s.mem init (index_of addr (suc k))))
          r
      → Result rank s (suc k) vm init r
  climb rank rank1 s s1 k vm init r vm_rank p z gp gz same_frame above
        (s', expand, e, found, kept) =
      let i = index_of addr (suc k) in
      (
        s',
        expand,
        e,
        frame_below s'.mem k vm (s1.mem vm i) (kept vm i (omega (arith, vm_rank))) p z
            ∙ found
            ∙ same_frame
            ∙ sym (frame_below s.mem k init (s.mem init i) refl gp gz),
        λ t j high. let a = above t j high in kept t j (omega (arith, a.0, high)) ∙ a.1,
      )

  pub pte_copied :
      (rank : ℕ → ℕ) (s : Paging) (vm init expand : ℕ)
      → rank vm ≡ 1
      → Result rank s 0 vm init (sync_tables h addr phy_entry 0 s vm init expand)
  unfolding sync_tables walk
  pte_copied rank s vm init expand vm_rank = (
    record s { mem = put_entry s.mem vm (index_of addr 0) (s.mem init (index_of addr 0)) },
    expand,
    refl,
    rw (==_self vm, ==_self (index_of addr 0)) refl,
    λ t i high. rw (rank_ne rank t vm (omega (arith, high, vm_rank))) refl,
  )

  pub old_entry :
      (mem : Tables) (vm i : ℕ)
      → is_new_page_table_needed mem vm i ≡ false
      → (mem vm i ≢ 0) × (is_size_flag_set (mem vm i) ≡ false)
  unfolding is_new_page_table_needed
  old_entry mem vm i old = ground (arith, old)

  pub present-ne : (v : ℕ) → is_present v ≡ true → v ≢ 0
  present-ne v p z = let q : is_present 0 ≡ true = ap is_present (sym z) ∙ p in cc (q, zero_absent)
