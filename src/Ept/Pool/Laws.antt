-- ===== src/Ept/Pool/Laws.antt =====
-- The pages of the pool are hidden from the guest, or given back to it.
use alcatraz.Prelude.{
  ℕ, zero, suc, ◌+◌, ◌*◌, ◌/◌, ◌%◌, ◌^◌, ◌≤◌, ◌<◌, ◌≡◌, ◌≢◌, ◌⊎◌, inl, inr, refl, ap, sym, ◌∙◌,
  arith, ◌==◌, ==_iff, true, false, Bool-cases, Option, none, some, Option-cases,
}
use alcatraz.Ept.{
  Ept, Kernel, alloc_kmalloc, phys_of, on_range, hide_range, set_all_access_range,
  set_ept_hide_page, set_ept_all_access_page,
}
use alcatraz.Ept.Pages.{Words}
use alcatraz.Ept.Ranges.{for_pages-Words, for_pages-keeps}
use alcatraz.Ept.Protect.{
  IsHidden, IsPermissive, page_of, hide_marks, all_access_marks, hide_range-IsHidden,
  all_access_range-IsPermissive,
}
use alcatraz.Ept.Pool.{fill_pool, release_pool, setup_memory_pool}

module _ (k : Kernel) (page : ℕ → ℕ) where
  abbrev end_of : ℕ → ℕ
  end_of i = (page i + 4096) % 2 ^ 64

  abbrev hidden_after : Ept → ℕ → Ept
  hidden_after e i = hide_range k e (page i) (end_of i) alloc_kmalloc

  abbrev opened_after : Ept → ℕ → Ept
  opened_after e i = set_all_access_range k e (page i) (end_of i) alloc_kmalloc

  hide_step-Words : (e : Ept) (i : ℕ) → Words e → Words (hidden_after e i)
  unfolding hide_range on_range
  hide_step-Words e i w =
      for_pages-Words set_ept_hide_page (phys_of k alloc_kmalloc) IsHidden
        (hide_marks (phys_of k alloc_kmalloc)) _ _ _ e w

  hide_step-keeps : (e : Ept) (i n : ℕ) → Words e → IsHidden e n → IsHidden (hidden_after e i) n
  unfolding hide_range on_range
  hide_step-keeps e i n w h =
      for_pages-keeps set_ept_hide_page (phys_of k alloc_kmalloc) IsHidden
        (hide_marks (phys_of k alloc_kmalloc)) _ _ _ n e w h

  fill-Words : (m i : ℕ) (e : Ept) → Words e → Words (fill_pool k page m i e).0
  unfolding fill_pool
  fill-Words zero i e w = w
  fill-Words (suc m) i e w = elim (Bool-cases (page i == 0)) [
    | inl z ↦ rw z w
    | inr z ↦ rw z (fill-Words m (i + 1) (hidden_after e i) (hide_step-Words e i w))
  ]

  fill-keeps :
      (m i n : ℕ) (e : Ept) → Words e → IsHidden e n → IsHidden (fill_pool k page m i e).0 n
  unfolding fill_pool
  fill-keeps zero i n e w h = h
  fill-keeps (suc m) i n e w h = elim (Bool-cases (page i == 0)) [
    | inl z ↦ rw z h
    | inr z ↦ rw z (
        fill-keeps m (i + 1) n (hidden_after e i) (hide_step-Words e i w)
          (hide_step-keeps e i n w h))
  ]

  fill_goes :
      (m i : ℕ) (e : Ept)
      → (page i == 0) ≡ false
      → fill_pool k page (suc m) i e ≡ fill_pool k page m (i + 1) (hidden_after e i)
  unfolding fill_pool
  fill_goes m i e z = rw z refl

  fill_none : (i n : ℕ) (e : Ept) → (fill_pool k page zero i e).1 ≢ some n
  unfolding fill_pool
  fill_none i n e f = cc f

  fill_here :
      (m i n : ℕ) (e : Ept)
      → (page i == 0) ≡ true
      → (fill_pool k page (suc m) i e).1 ≡ some n
      → i ≡ n
  unfolding fill_pool
  fill_here m i n e z f = let r : some i ≡ some n = (rw z refl) ∙ f in cc r

  fill_stops : (m i : ℕ) (e : Ept) → (page i == 0) ≡ true → (fill_pool k page (suc m) i e).1 ≢ none
  unfolding fill_pool
  fill_stops m i e z ok = let r : some i ≡ none = (rw z refl) ∙ ok in cc r

  -- The number of a failure is that of a call without a page.
  fill_failed : (m i n : ℕ) (e : Ept) → (fill_pool k page m i e).1 ≡ some n → page n ≡ 0
  fill_failed zero i n e f = absurd (fill_none i n e f)
  fill_failed (suc m) i n e f = elim (Bool-cases (page i == 0)) [
    | inl z ↦
        let same : i ≡ n = fill_here m i n e z f in ap page (sym same) ∙ (==_iff (page i) 0).0 z
    | inr z ↦
        fill_failed m (i + 1) n (hidden_after e i)
          (sym (ap (λ (x : Ept × Option ℕ). x.1) (fill_goes m i e z)) ∙ f)
  ]

  setup_done :
      (ram : ℕ) (e : Ept)
      → (fill_pool k page (ram / 2 ^ 21 * 2) 0 e).1 ≡ none
      → setup_memory_pool k true page ram e ≡ (
        (fill_pool k page (ram / 2 ^ 21 * 2) 0 e).0,
        some (record { page = page; pop_index = 0; max_count = ram / 2 ^ 21 * 2 }),
      )
  unfolding setup_memory_pool
  setup_done ram e ok = rw (setup_memory_pool, ok) refl

  setup_fails :
      (ram n : ℕ) (e : Ept)
      → (fill_pool k page (ram / 2 ^ 21 * 2) 0 e).1 ≡ some n
      → setup_memory_pool k true page ram e
        ≡ (release_pool k page n 0 (fill_pool k page (ram / 2 ^ 21 * 2) 0 e).0, none)
  unfolding setup_memory_pool
  setup_fails ram n e failed = rw (setup_memory_pool, failed) refl

  -- No page lies at the top of the address space.
  module _ (fits : (i : ℕ) → page i + 8191 < 2 ^ 64) where
    hide_step-hides :
        (e : Ept) (i b : ℕ)
        → Words e
        → page i ≤ b
        → b < page i + 4096
        → IsHidden (hidden_after e i) (page_of k alloc_kmalloc b)
    hide_step-hides e i b w lo hi =
        (hide_range-IsHidden k alloc_kmalloc (page i) (end_of i) e w (omega (arith, fits i))
            (omega (arith, fits i))).0
          b lo (omega (arith, fits i, hi))

    fill-hides :
        (m i j b : ℕ) (e : Ept)
        → Words e
        → (fill_pool k page m i e).1 ≡ none
        → i ≤ j
        → j < i + m
        → page j ≤ b
        → b < page j + 4096
        → IsHidden (fill_pool k page m i e).0 (page_of k alloc_kmalloc b)
    fill-hides zero i j b e w ok le lt lo hi = absurd (omega arith)
    fill-hides (suc m) i j b e w ok le lt lo hi = elim (Bool-cases (page i == 0)) [
      | inl z ↦ absurd (fill_stops m i e z ok)
      | inr z ↦
          let next = fill_goes m i e z in
          let e' = hidden_after e i in
          let w' : Words e' = hide_step-Words e i w in
          rw next (elim (Bool-cases (i == j)) [
            | inl q ↦
                let same : i ≡ j = (==_iff i j).0 q in
                fill-keeps m (i + 1) (page_of k alloc_kmalloc b) e' w' (
                  hide_step-hides e i b w (omega (arith, ap page same, lo))
                    (omega (arith, ap page same, hi)))
            | inr q ↦
                fill-hides m (i + 1) j b e' w' (sym (ap (λ (x : Ept × Option ℕ). x.1) next) ∙ ok)
                  (ground (arith, le, q)) (omega (arith, lt)) lo hi
          ])
    ]

    -- The pages are 64-bit addresses for the processor as well.
    module _ (small : (a : ℕ) → phys_of k alloc_kmalloc a < 2 ^ 64) where
      open_step-Words : (e : Ept) (i : ℕ) → Words e → Words (opened_after e i)
      unfolding set_all_access_range on_range
      open_step-Words e i w =
          for_pages-Words set_ept_all_access_page (phys_of k alloc_kmalloc) IsPermissive
            (all_access_marks (phys_of k alloc_kmalloc) small) _ _ _ e w

      open_step-keeps :
          (e : Ept) (i n : ℕ) → Words e → IsPermissive e n → IsPermissive (opened_after e i) n
      unfolding set_all_access_range on_range
      open_step-keeps e i n w h =
          for_pages-keeps set_ept_all_access_page (phys_of k alloc_kmalloc) IsPermissive
            (all_access_marks (phys_of k alloc_kmalloc) small) _ _ _ n e w h

      release-keeps :
          (m i n : ℕ) (e : Ept)
          → Words e
          → IsPermissive e n
          → IsPermissive (release_pool k page m i e) n
      unfolding release_pool
      release-keeps zero i n e w h = h
      release-keeps (suc m) i n e w h =
          release-keeps m (i + 1) n (opened_after e i) (open_step-Words e i w)
            (open_step-keeps e i n w h)

      release-opens :
          (m i j b : ℕ) (e : Ept)
          → Words e
          → i ≤ j
          → j < i + m
          → page j ≤ b
          → b < page j + 4096
          → IsPermissive (release_pool k page m i e) (page_of k alloc_kmalloc b)
      unfolding release_pool
      release-opens zero i j b e w le lt lo hi = absurd (omega arith)
      release-opens (suc m) i j b e w le lt lo hi =
          let e' = opened_after e i in
          let w' : Words e' = open_step-Words e i w in
          elim (Bool-cases (i == j)) [
            | inl q ↦
                let same : i ≡ j = (==_iff i j).0 q in
                release-keeps m (i + 1) (page_of k alloc_kmalloc b) e' w' (
                  all_access_range-IsPermissive k alloc_kmalloc (page i) (end_of i) b e w
                    (omega (arith, fits i)) (omega (arith, fits i)) small
                    (omega (arith, ap page same, lo)) (omega (arith, fits i, ap page same, hi)))
            | inr q ↦
                release-opens m (i + 1) j b e' w' (ground (arith, le, q)) (omega (arith, lt)) lo hi
          ]

      -- A set-up for a machine of `ram` bytes, with an array for the pool. If it succeeds, the pool
      -- has two pages per 2 MB and the guest may not touch a byte of them. If the allocator fails, the
      -- guest may do everything with the pages of each earlier call.
      pub setup_memory_pool_settles :
          (ram : ℕ) (e : Ept)
          → Words e
          → let r = setup_memory_pool k true page ram e in
            ((r.1 ≡ some (record { page = page; pop_index = 0; max_count = ram / 2 ^ 21 * 2 }))
              × ((j b : ℕ)
                  → j < ram / 2 ^ 21 * 2
                  → page j ≤ b
                  → b < page j + 4096
                  → IsHidden r.0 (page_of k alloc_kmalloc b)))
            ⊎ ((r.1 ≡ none)
                × (n : ℕ) × (page n ≡ 0)
                × ((j b : ℕ)
                    → j < n
                    → page j ≤ b
                    → b < page j + 4096
                    → IsPermissive r.0 (page_of k alloc_kmalloc b)))
      setup_memory_pool_settles ram e w =
          let m = ram / 2 ^ 21 * 2 in
          let f = fill_pool k page m 0 e in
          elim (Option-cases f.1) [
            | inl ok ↦ rw (setup_done ram e ok) (
                inl (
                  refl,
                  λ j b lt lo hi. fill-hides m 0 j b e w ok (omega arith) (omega (arith, lt)) lo hi,
                ))
            | inr (n, failed) ↦ rw (setup_fails ram n e failed) (
                inr (
                  refl,
                  n,
                  fill_failed m 0 n e failed,
                  λ j b lt lo hi.
                      release-opens n 0 j b f.0 (fill-Words m 0 e w) (omega arith)
                        (omega (arith, lt)) lo hi,
                ))
          ]
