-- ===== src/Memory/PageTable/Separate.antt =====
-- The hypervisor's tables, the guest's and the pages of the pool are different pages. Every page has
-- a rank: 0 for the pages that the pool still holds and those that are no tables, 1 to 4 for the
-- hypervisor's tables from the PTE up to the PML4, and more for the guest's.
use alcatraz.Prelude.{
  ℕ, zero, suc, ◌-◌, ◌*◌, ◌≤◌, ◌<◌, ◌≡◌, ◌≢◌, refl, sym, ◌∙◌, arith, true, false, not,
  if◌then◌else◌, Bool-cases, inl, inr, bit_and,
}
use alcatraz.Memory.PageTable.{
  Tables, PageEntry, get_addr, is_present, is_size_flag_set, index_of, of_large_page, walk, Paging,
  expand_entries,
}
use alcatraz.Memory.PageTable.Sync.{Host}
use alcatraz.Vmx.Registers.{not64}
use alcatraz.Memory.PageTable.Masks.{expanded-size}

abbrev pub no_entries : PageEntry
no_entries = λ i. 0

-- The entry of the page of 4 KB that a walk from a table of level `k` ends with.
abbrev pub frame : Tables → ℕ → ℕ → ℕ → ℕ
frame mem addr k table = walk mem addr k table no_entries 3

walk-same :
    (mem : Tables) (addr k table : ℕ) (out out' : PageEntry)
    → out 3 ≡ out' 3
    → walk mem addr k table out 3 ≡ walk mem addr k table out' 3
unfolding walk
walk-same mem addr zero table out out' e = refl
walk-same mem addr (suc k) table out out' e =
    let value = mem table (index_of addr (suc k)) in
    elim (Bool-cases (is_present value)) [
      | inr a ↦ rw a (ground (arith, e))
      | inl a ↦ elim (Bool-cases (is_size_flag_set value)) [
        | inl f ↦ rw (a, f) refl
        | inr f ↦ rw (a, f) (walk-same mem addr k (get_addr value) _ _ (ground (arith, e)))
      ]
    ]

pub frame-suc :
    (mem : Tables) (addr k table : ℕ)
    → let value = mem table (index_of addr (suc k)) in
      frame mem addr (suc k) table ≡ (
        if not (is_present value)
        then 0
        else if is_size_flag_set value
        then of_large_page addr (suc k) value
        else frame mem addr k (get_addr value))
unfolding walk
frame-suc mem addr k table =
    let value = mem table (index_of addr (suc k)) in
    elim (Bool-cases (is_present value)) [
      | inr e ↦ rw e (ground arith)
      | inl e ↦ elim (Bool-cases (is_size_flag_set value)) [
        | inl f ↦ rw (e, f) refl
        | inr f ↦ rw (e, f) (walk-same mem addr k (get_addr value) _ _ (ground arith))
      ]
    ]

module _ (addr : ℕ) where
  -- The guest's tables on the way to an address.
  abbrev pub GuestPath : (ℕ → ℕ) → Tables → ℕ → ℕ → Type 0
  GuestPath rank mem zero t = 4 < rank t
  GuestPath rank mem (suc k) t =
      (4 < rank t)
      × (is_present (mem t (index_of addr (suc k))) ≡ true
          → is_size_flag_set (mem t (index_of addr (suc k))) ≡ false
          → GuestPath rank mem k (get_addr (mem t (index_of addr (suc k)))))

  -- Only tables of rank `k + 1` and below, and pages of the pool, have changed.
  abbrev pub Kept : (ℕ → ℕ) → ℕ → Tables → Tables → Type 0
  Kept rank k mem mem' = (t i : ℕ) → suc k < rank t → mem' t i ≡ mem t i

  pub GuestPath-head : (rank : ℕ → ℕ) (mem : Tables) (k t : ℕ) → GuestPath rank mem k t → 4 < rank t
  GuestPath-head rank mem zero t p = p
  GuestPath-head rank mem (suc k) t p = p.0

  pub guest-frame :
      (rank rank' : ℕ → ℕ) (mem mem' : Tables)
      → ((t : ℕ) → 4 < rank t → rank' t ≡ rank t)
      → ((t i : ℕ) → 4 < rank t → mem' t i ≡ mem t i)
      → (k t : ℕ) → GuestPath rank mem k t
      → GuestPath rank' mem' k t × (frame mem' addr k t ≡ frame mem addr k t)
  unfolding walk
  guest-frame rank rank' mem mem' same_rank same zero t p =
      (omega (arith, same_rank t p), same t (index_of addr 0) p)
  guest-frame rank rank' mem mem' same_rank same (suc k) t p =
      let i = index_of addr (suc k) in
      let v = mem t i in
      let e : mem' t i ≡ v = same t i p.0 in
      let high : 4 < rank' t = omega (arith, same_rank t p.0, p.0) in
      let below = guest-frame rank rank' mem mem' same_rank same k (get_addr v) in
      let path : is_present v ≡ true
          → is_size_flag_set v ≡ false
          → GuestPath rank' mem' k (get_addr v) =
        λ a b. (below (p.1 a b)).0 in
      (
        (high, rw e path),
        frame-suc mem' addr k t
            ∙ (rw e (elim (Bool-cases (is_present v)) [
              | inr a ↦ rw a refl
              | inl a ↦ elim (Bool-cases (is_size_flag_set v)) [
                | inl b ↦ rw (a, b) refl
                | inr b ↦ rw (a, b) (below (p.1 a b)).1
              ]
            ]))
            ∙ sym (frame-suc mem addr k t),
      )

  -- What the tables of the hypervisor and the pool satisfy between two calls.
  pub record Separate (h : Host) (rank : ℕ → ℕ) (s : Paging) : Type 0 where
    pub linked :
        (t k : ℕ)
        → k < 3
        → rank t ≡ suc (suc k)
        → s.mem t (index_of addr (suc k)) ≢ 0
        → is_size_flag_set (s.mem t (index_of addr (suc k))) ≡ false
        → (is_present (s.mem t (index_of addr (suc k))) ≡ true)
          × (rank (get_addr (s.mem t (index_of addr (suc k)))) ≡ suc k)
    pub unused :
        (j : ℕ)
        → s.pool.pop_index ≤ j
        → j < s.pool.max_count
        → (rank (h.virt_to_phys (s.pool.page j)) ≡ 0)
          × (get_addr (h.virt_to_phys (s.pool.page j)) ≡ h.virt_to_phys (s.pool.page j))
    pub distinct :
        (i j : ℕ)
        → i < j
        → j < s.pool.max_count
        → h.virt_to_phys (s.pool.page i) ≢ h.virt_to_phys (s.pool.page j)

pub expand-other :
    (n table start size : ℕ) (mem : Tables) (t i : ℕ)
    → t ≢ table
    → expand_entries n table start size mem t i ≡ mem t i
unfolding expand_entries
expand-other zero table start size mem t i h = refl
expand-other (suc n) table start size mem t i h =
    ground (arith, expand-other n table start size mem t i h)

pub expand-size :
    (n table start q : ℕ) (mem : Tables) (i : ℕ)
    → q * 4096 ≢ 4096
    → i < n
    → is_size_flag_set (expand_entries n table start (q * 4096) mem table i) ≡ true
unfolding expand_entries
expand-size zero table start q mem i h lt = absurd (omega arith)
expand-size (suc n) table start q mem i h lt = ground (
  arith,
  expand-size n table start q mem i h,
  expanded-size (bit_and start (not64 (q * 4096 - 1))) q n,
)
