-- ===== src/Ept/Modules/Laws.antt =====
-- What protection means for the kernel's text and for a module over its life.
use alcatraz.Prelude.{ℕ, ◌+◌, ◌^◌, ◌<◌, ◌≤◌, ◌≡◌, ◌≢◌, ◌==◌, ◌&&◌, not, true, List, length, arith}
use mathlib.Core.Logic.Or
use alcatraz.Memory.RoArea.{max_ro_array_count, ro_module, is_addr_in_ro_area}
use alcatraz.Memory.RoArea.Laws.{delete_ro_area-add_ro_area, Fresh}
use alcatraz.Ept.{
  Ept, Kernel, AllocType, alloc_kmalloc, alloc_vmalloc, phys_of, on_range, lock_range,
  set_all_access_range, set_ept_lock_page, set_ept_all_access_page,
}
use alcatraz.Ept.Pages.{Words}
use alcatraz.Ept.Ranges.{for_pages-Words}
use alcatraz.Ept.Protect.{
  IsLocked, IsPermissive, page_of, lock_marks, all_access_marks, all_access_range-IsPermissive,
}
use alcatraz.Ept.Modules.{
  Guarded, Symbol, Module, core_end, add_and_protect_module_ro, delete_and_unprotect_module_ro,
}

module _ (k : Kernel) (al : AllocType) (p : (a : ℕ) → phys_of k al a < 2 ^ 64) where
  pub lock_range-Words : (e : Ept) (s t : ℕ) → Words e → Words (lock_range k e s t al)
  unfolding lock_range on_range
  lock_range-Words e s t w =
      for_pages-Words set_ept_lock_page (phys_of k al) IsLocked (lock_marks (phys_of k al) p) _ _ _
        e w

  pub all_access_range-Words :
      (e : Ept) (s t : ℕ) → Words e → Words (set_all_access_range k e s t al)
  unfolding set_all_access_range on_range
  all_access_range-Words e s t w =
      for_pages-Words set_ept_all_access_page (phys_of k al) IsPermissive
        (all_access_marks (phys_of k al) p) _ _ _ e w

module _ (k : Kernel) (p : (a : ℕ) → phys_of k alloc_vmalloc a < 2 ^ 64) where
  -- A module that is loaded and unloaded: where the array of areas has room and does not know the
  -- module's area yet, its read-only bytes may be written again afterwards, and for every address
  -- whether it counts as read-only is what it was before.
  pub unload-load :
      (size addr b : ℕ) (m : Module) (s : Guarded)
      → Words s.ept
      → m.core_base ≢ 0
      → m.core_ro_size ≢ 0
      → m.core_base + m.core_ro_size + 4095 < 2 ^ 64
      → length s.ro < max_ro_array_count
      → Fresh m.core_base (m.core_base + m.core_ro_size) s.ro
      → m.core_base ≤ b
      → b < m.core_base + m.core_ro_size
      → let s' =
          delete_and_unprotect_module_ro k m.core_base m.core_ro_size
            (add_and_protect_module_ro k size m s) in
        IsPermissive s'.ept (page_of k alloc_vmalloc b)
        × (is_addr_in_ro_area s'.ro addr ≡ is_addr_in_ro_area s.ro addr)
  unfolding delete_and_unprotect_module_ro add_and_protect_module_ro
  unload-load size addr b m s w nz nzs fits room fresh low high =
      let stop : core_end m.core_base m.core_ro_size ≡ m.core_base + m.core_ro_size = omega arith in
      let guard : (not (m.core_base == 0) && not (m.core_ro_size == 0)) ≡ true = ground arith in
      let round =
        delete_ro_area-add_ro_area s.ro m.core_base (m.core_base + m.core_ro_size) ro_module addr
          room fresh in
      (
        rw guard (
            rw stop (
              rw (round.0) (
                all_access_range-IsPermissive k alloc_vmalloc m.core_base
                  (m.core_base + m.core_ro_size) b _
                  (all_access_range-Words k alloc_vmalloc p _ _ _
                    (lock_range-Words k alloc_vmalloc p s.ept _ _ w))
                  (omega arith) fits p low high))),
        rw guard (rw stop (round.1)),
      )

module _ (k : Kernel) (symbol : Symbol → ℕ) (p : (a : ℕ) → phys_of k alloc_kmalloc a < 2 ^ 64) where
  -- A byte that is locked and known as read-only.
  abbrev pub IsGuarded : Guarded → ℕ → Type 0
  IsGuarded s b = IsLocked s.ept (page_of k alloc_kmalloc b) × (is_addr_in_ro_area s.ro b ≡ true)
