-- ===== src/Ept/Own/Laws.antt =====
-- The hypervisor's own code, out of the guest's reach.
use alcatraz.Prelude.{
  ℕ, ◌+◌, ◌*◌, ◌/◌, ◌%◌, ◌^◌, ◌≤◌, ◌<◌, ◌≡◌, ap, ◌∙◌, arith, ◌==◌, false, Bool-cases, inl, inr,
}
use alcatraz.Ept.{
  Ept, Kernel, alloc_vmalloc, phys_of, on_range, lock_range, set_all_access_range, hide_range,
  set_ept_hide_page, set_ept_all_access_page,
}
use alcatraz.Ept.Pages.{entry, Words}
use alcatraz.Ept.Ranges.{for_pages-Words, range_others}
use alcatraz.Ept.Protect.{
  IsHidden, IsLocked, IsPermissive, page_of, hide_marks, all_access_marks, hide_range-IsHidden,
  lock_range-IsLocked, all_access_range-IsPermissive,
}
use alcatraz.Ept.Modules.Laws.{lock_range-Words, all_access_range-Words}
use alcatraz.Ept.Own.{
  ListedModule, add64, protect_core, protect_hyper_box_module, protect_mode_hide, protect_mode_lock,
}

module _ (k : Kernel) (small : (a : ℕ) → phys_of k alloc_vmalloc a < 2 ^ 64) where
  -- No address in the pages of a range is mapped to the page `n`.
  abbrev pub Apart : ℕ → ℕ → ℕ → Type 0
  Apart start_addr end_addr n =
      (a : ℕ)
      → start_addr / 4096 * 4096 ≤ a
      → a < end_addr + 4095
      → (n == phys_of k alloc_vmalloc a / 4096) ≡ false

  hide-Words : (e : Ept) (s t : ℕ) → Words e → Words (hide_range k e s t alloc_vmalloc)
  unfolding hide_range on_range
  hide-Words e s t w =
      for_pages-Words set_ept_hide_page (phys_of k alloc_vmalloc) IsHidden
        (hide_marks (phys_of k alloc_vmalloc)) _ _ _ e w

  opened-Apart :
      (e : Ept) (s t n : ℕ)
      → Words e
      → s < 2 ^ 64
      → t + 4095 < 2 ^ 64
      → Apart s t n
      → entry (set_all_access_range k e s t alloc_vmalloc) n ≡ entry e n
  unfolding set_all_access_range on_range
  opened-Apart e s t n w hs ht out =
      range_others set_ept_all_access_page (phys_of k alloc_vmalloc) IsPermissive
        (all_access_marks (phys_of k alloc_vmalloc) small) s t n e w hs ht out

  core-Words : (m : ListedModule) (mode : ℕ) (e : Ept) → Words e → Words (protect_core k m mode e)
  unfolding protect_core
  core-Words m mode e w = elim (Bool-cases (mode == protect_mode_hide)) [
    | inl hide ↦ rw hide (hide-Words e m.base (add64 m.base m.core_size) w)
    | inr lock ↦ rw lock (
        all_access_range-Words k alloc_vmalloc small _ _ _
          (lock_range-Words k alloc_vmalloc small e m.base (add64 m.base m.ro_size) w))
  ]

  -- A page of the core that the rest of the core is not mapped to.
  core-IsLocked :
      (m : ListedModule) (b : ℕ) (e : Ept)
      → Words e
      → m.base + m.core_size + 4095 < 2 ^ 64
      → m.ro_size ≤ m.core_size
      → m.base ≤ b
      → b < m.base + m.ro_size
      → Apart (m.base + m.ro_size) (m.base + m.core_size) (page_of k alloc_vmalloc b)
      → IsLocked (protect_core k m protect_mode_lock e) (page_of k alloc_vmalloc b)
  unfolding protect_core
  core-IsLocked m b e w fits le lo hi out =
      let core : add64 m.base m.core_size ≡ m.base + m.core_size = omega arith in
      let ro : add64 m.base m.ro_size ≡ m.base + m.ro_size = omega arith in
      rw (core, ro)
        (opened-Apart (lock_range k e m.base (m.base + m.ro_size) alloc_vmalloc)
            (m.base + m.ro_size) (m.base + m.core_size) (page_of k alloc_vmalloc b)
            (lock_range-Words k alloc_vmalloc small e m.base (m.base + m.ro_size) w) (omega arith)
            (omega arith) out
          ∙ (lock_range-IsLocked k alloc_vmalloc m.base (m.base + m.ro_size) e w (omega arith)
                (omega arith) small).0
              b lo hi)

  core-IsHidden :
      (m : ListedModule) (b : ℕ) (e : Ept)
      → Words e
      → m.base + m.core_size + 4095 < 2 ^ 64
      → m.base ≤ b
      → b < m.base + m.core_size
      → IsHidden (protect_core k m protect_mode_hide e) (page_of k alloc_vmalloc b)
  unfolding protect_core
  core-IsHidden m b e w fits lo hi =
      let core : add64 m.base m.core_size ≡ m.base + m.core_size = omega arith in
      rw core (
        (hide_range-IsHidden k alloc_vmalloc m.base (m.base + m.core_size) e w (omega arith)
            (omega arith)).0
          b lo hi)

  module _ (size : ℕ) (m : ListedModule) (e : Ept) (w : Words e)
      (core_fits : m.base + m.core_size + 4095 < 2 ^ 64)
      (struct_fits : m.module_addr + size + 4095 < 2 ^ 64) where
    -- The hypervisor's own module, where neither its core nor its structure reaches the top of the
    -- address space. In the mode HIDE the guest may not touch the page of any byte of the core, and in
    -- the mode LOCK it may read and execute but not write the page of each byte of the read-only part,
    -- except for the pages to which the kernel's structure of the module, or in the mode LOCK the
    -- rest of the core, is mapped as well. With the page of each byte of the structure the guest may
    -- do everything.
    pub protect_hyper_box_module-IsHidden :
        ((b : ℕ)
          → m.base ≤ b
          → b < m.base + m.core_size
          → Apart m.module_addr (m.module_addr + size) (page_of k alloc_vmalloc b)
          → IsHidden
              (protect_hyper_box_module k size m protect_mode_hide e)
              (page_of k alloc_vmalloc b))
        × ((b : ℕ)
            → m.ro_size ≤ m.core_size
            → m.base ≤ b
            → b < m.base + m.ro_size
            → Apart m.module_addr (m.module_addr + size) (page_of k alloc_vmalloc b)
            → Apart (m.base + m.ro_size) (m.base + m.core_size) (page_of k alloc_vmalloc b)
            → IsLocked
                (protect_hyper_box_module k size m protect_mode_lock e)
                (page_of k alloc_vmalloc b))
        × ((mode b : ℕ)
            → m.module_addr ≤ b
            → b < m.module_addr + size
            → IsPermissive (protect_hyper_box_module k size m mode e) (page_of k alloc_vmalloc b))
    unfolding protect_hyper_box_module
    protect_hyper_box_module-IsHidden =
        let struct : add64 m.module_addr size ≡ m.module_addr + size = omega arith in
        let kept : (mode n : ℕ)
            → Apart m.module_addr (m.module_addr + size) n
            → entry
                (set_all_access_range k (protect_core k m mode e) m.module_addr
                  (m.module_addr + size) alloc_vmalloc)
                n
              ≡ entry (protect_core k m mode e) n =
          λ mode n out.
            opened-Apart (protect_core k m mode e) m.module_addr (m.module_addr + size) n
              (core-Words m mode e w) (omega arith) (omega arith) out in
        (
          λ b lo hi out. rw struct (
              ap (λ (x : ℕ). x % 8) (kept protect_mode_hide _ out)
              ∙ core-IsHidden m b e w core_fits lo hi),
          λ b le lo hi out out'.
              rw struct
                (kept protect_mode_lock _ out ∙ core-IsLocked m b e w core_fits le lo hi out'),
          λ mode b lo hi. rw struct (
              all_access_range-IsPermissive k alloc_vmalloc m.module_addr (m.module_addr + size) b _
                (core-Words m mode e w) (omega arith) (omega arith) small lo hi),
        )
