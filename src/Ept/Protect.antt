-- ===== src/Ept/Protect.antt =====
-- Whole ranges hidden, locked and opened, and the page tables themselves hidden from the guest:
-- `hb_protect_ept_pages` of Source/hyper_box/mmu.c.
use alcatraz.Prelude.{ℕ, ◌+◌, ◌*◌, ◌/◌, ◌%◌, ◌^◌, ◌<◌, ◌≤◌, ◌≡◌, arith, ◌==◌, ==_self, false}
use alcatraz.Ept.{
  Ept, Kernel, AllocType, phys_of, on_range, lock_range, hide_range, set_all_access_range,
  set_ept_hide_page, set_ept_lock_page, set_ept_all_access_page,
}
use alcatraz.Ept.Pages.{
  entry, Words, set_page-entry, hide_page-entry, hide-Words, lock-Words, all_access-Words,
}
use alcatraz.Ept.Ranges.{Marks, range_marks, range_others}

-- The guest may neither read, nor write, nor execute the page.
abbrev pub IsHidden : Ept → ℕ → Type 0
IsHidden e n = entry e n % 8 ≡ 0

-- The guest may read and execute the page, which is mapped to itself.
abbrev pub IsLocked : Ept → ℕ → Type 0
IsLocked e n = entry e n ≡ n * 4096 + 0x35

-- The physical address of the page that holds the byte at `b`.
abbrev pub page_of : Kernel → AllocType → ℕ → ℕ
page_of k t b = phys_of k t (b / 4096 * 4096) / 4096

pub hide_marks : (phys : ℕ → ℕ) → Marks set_ept_hide_page phys IsHidden
hide_marks phys = record {
  keeps_words = λ e a w. hide-Words e (phys a) w;
  marks = λ e a w.
      ground (arith, hide_page-entry e (phys a) (phys a / 4096) w, ==_self (phys a / 4096));
  keeps_marks = λ e a n w h. ground (arith, hide_page-entry e (phys a) n w, h);
  keeps_others = λ e a n w h. ground (arith, hide_page-entry e (phys a) n w, h);
}

pub lock_marks :
    (phys : ℕ → ℕ) → ((a : ℕ) → phys a < 2 ^ 64) → Marks set_ept_lock_page phys IsLocked
lock_marks phys p = record {
  keeps_words = λ e a w. lock-Words e (phys a) w (p a);
  marks = λ e a w.
      ground
        (arith, (set_page-entry e (phys a) (phys a / 4096) w (p a)).0, ==_self (phys a / 4096));
  keeps_marks = λ e a n w h. ground (arith, (set_page-entry e (phys a) n w (p a)).0, h);
  keeps_others = λ e a n w h. ground (arith, (set_page-entry e (phys a) n w (p a)).0, h);
}

module _ (k : Kernel) (t : AllocType) (start_addr end_addr : ℕ) (e : Ept) (w : Words e)
    (hs : start_addr < 2 ^ 64) (he : end_addr + 4095 < 2 ^ 64) where
  -- Hiding a range that does not reach the top of the address space takes every permission from the
  -- page of each of its bytes, and changes no page to which no address from the range's first page
  -- up to 4095 bytes past its end is mapped.
  pub hide_range-IsHidden :
      ((b : ℕ)
        → start_addr ≤ b
        → b < end_addr
        → IsHidden (hide_range k e start_addr end_addr t) (page_of k t b))
      × ((n : ℕ)
          → ((a : ℕ)
              → start_addr / 4096 * 4096 ≤ a
              → a < end_addr + 4095
              → (n == phys_of k t a / 4096) ≡ false)
          → entry (hide_range k e start_addr end_addr t) n ≡ entry e n)
  unfolding hide_range on_range
  hide_range-IsHidden = (
    λ b low high.
        range_marks set_ept_hide_page (phys_of k t) IsHidden (hide_marks (phys_of k t)) start_addr
          end_addr b e w hs he low high,
    λ n out.
        range_others set_ept_hide_page (phys_of k t) IsHidden (hide_marks (phys_of k t)) start_addr
          end_addr n e w hs he out,
  )

  -- Locking a range that does not reach the top of the address space leaves the guest reading and
  -- executing the page of each of its bytes, but not writing it, and changes no page to which no
  -- address from the range's first page up to 4095 bytes past its end is mapped.
  pub lock_range-IsLocked :
      ((a : ℕ) → phys_of k t a < 2 ^ 64)
      → ((b : ℕ)
          → start_addr ≤ b
          → b < end_addr
          → IsLocked (lock_range k e start_addr end_addr t) (page_of k t b))
        × ((n : ℕ)
            → ((a : ℕ)
                → start_addr / 4096 * 4096 ≤ a
                → a < end_addr + 4095
                → (n == phys_of k t a / 4096) ≡ false)
            → entry (lock_range k e start_addr end_addr t) n ≡ entry e n)
  unfolding lock_range on_range
  lock_range-IsLocked p = (
    λ b low high.
        range_marks set_ept_lock_page (phys_of k t) IsLocked (lock_marks (phys_of k t) p) start_addr
          end_addr b e w hs he low high,
    λ n out.
        range_others set_ept_lock_page (phys_of k t) IsLocked (lock_marks (phys_of k t) p)
          start_addr end_addr n e w hs he out,
  )

-- The guest may do everything with the page, which is mapped to itself.
abbrev pub IsPermissive : Ept → ℕ → Type 0
IsPermissive e n = entry e n ≡ n * 4096 + 0x37

pub all_access_marks :
    (phys : ℕ → ℕ) → ((a : ℕ) → phys a < 2 ^ 64) → Marks set_ept_all_access_page phys IsPermissive
all_access_marks phys p = record {
  keeps_words = λ e a w. all_access-Words e (phys a) w (p a);
  marks = λ e a w.
      ground
        (arith, (set_page-entry e (phys a) (phys a / 4096) w (p a)).2, ==_self (phys a / 4096));
  keeps_marks = λ e a n w h. ground (arith, (set_page-entry e (phys a) n w (p a)).2, h);
  keeps_others = λ e a n w h. ground (arith, (set_page-entry e (phys a) n w (p a)).2, h);
}

pub all_access_range-IsPermissive :
    (k : Kernel) (t : AllocType) (start_addr end_addr b : ℕ) (e : Ept)
    → Words e
    → start_addr < 2 ^ 64
    → end_addr + 4095 < 2 ^ 64
    → ((a : ℕ) → phys_of k t a < 2 ^ 64)
    → start_addr ≤ b
    → b < end_addr
    → IsPermissive (set_all_access_range k e start_addr end_addr t) (page_of k t b)
unfolding set_all_access_range on_range
all_access_range-IsPermissive k t start_addr end_addr b e w hs he p low high =
    range_marks set_ept_all_access_page (phys_of k t) IsPermissive
      (all_access_marks (phys_of k t) p) start_addr end_addr b e w hs he low high
