-- ===== src/Ept/Tables.antt =====
-- The page tables themselves are hidden from the guest: `hb_protect_ept_pages` of
-- Source/hyper_box/mmu.c.
use alcatraz.Prelude.{
  ℕ, ◌+◌, ◌*◌, ◌^◌, ◌<◌, ◌≤◌, ◌≡◌, arith, List, [], ◌∷◌, ◌++◌, length, sym, subst, refl, ◌∙◌,
}
use mathlib.Core.List.{Mem, mem-cons, not-mem-nil}
use mathlib.Core.Logic.Or
use alcatraz.Ept.{
  Ept, Kernel, AllocType, alloc_kmalloc, alloc_vmalloc, phys_of, on_range, hide_range,
  set_ept_hide_page,
}
use alcatraz.Ept.Pages.{Words}
use alcatraz.Ept.Ranges.{for_pages-Words, for_pages-keeps}
use alcatraz.Ept.Protect.{IsHidden, page_of, hide_marks, hide_range-IsHidden}

-- One level of `struct hb_ept_info`: where its array is, and the addresses of the page tables in
-- it, as many as the level's page count.
pub record Level : Type 0 where
  pub addr : ℕ
  pub pages : List ℕ

pub record EptInfo : Type 0 where
  pub pml4 : Level
  pub pdpte_pd : Level
  pub pdept : Level
  pub pte_level : Level

unfoldable pub hide_array : Kernel → Level → Ept → Ept
hide_array k l e = hide_range k e l.addr (l.addr + length l.pages * 8) alloc_vmalloc

unfoldable pub hide_pages : Kernel → List ℕ → Ept → Ept
hide_pages k [] e = e
hide_pages k (p ∷ ps) e = hide_pages k ps (hide_range k e p (p + 4096) alloc_kmalloc)

unfoldable pub protect_ept_pages : Kernel → EptInfo → Ept → Ept
protect_ept_pages k info e =
    let e1 = hide_array k info.pml4 e in
    let e2 = hide_array k info.pdpte_pd e1 in
    let e3 = hide_array k info.pdept e2 in
    let e4 = hide_array k info.pte_level e3 in
    let e5 = hide_pages k info.pml4.pages e4 in
    let e6 = hide_pages k info.pdpte_pd.pages e5 in
    let e7 = hide_pages k info.pdept.pages e6 in hide_pages k info.pte_level.pages e7

module _ (k : Kernel) where
  hide_range-Words : (e : Ept) (s t : ℕ) (al : AllocType) → Words e → Words (hide_range k e s t al)
  unfolding hide_range on_range
  hide_range-Words e s t al w =
      for_pages-Words set_ept_hide_page (phys_of k al) IsHidden (hide_marks (phys_of k al)) _ _ _ e
        w

  hide_range-keeps :
      (e : Ept) (s t n : ℕ) (al : AllocType)
      → Words e
      → IsHidden e n
      → IsHidden (hide_range k e s t al) n
  unfolding hide_range on_range
  hide_range-keeps e s t n al w h =
      for_pages-keeps set_ept_hide_page (phys_of k al) IsHidden (hide_marks (phys_of k al)) _ _ _ n
        e w h

  hide_pages-Words : (ps : List ℕ) (e : Ept) → Words e → Words (hide_pages k ps e)
  unfolding hide_pages
  hide_pages-Words [] e w = w
  hide_pages-Words (p ∷ ps) e w =
      hide_pages-Words ps _ (hide_range-Words e p (p + 4096) alloc_kmalloc w)

  hide_pages-keeps :
      (ps : List ℕ) (e : Ept) (n : ℕ) → Words e → IsHidden e n → IsHidden (hide_pages k ps e) n
  unfolding hide_pages
  hide_pages-keeps [] e n w h = h
  hide_pages-keeps (p ∷ ps) e n w h =
      hide_pages-keeps ps _ n (hide_range-Words e p (p + 4096) alloc_kmalloc w)
        (hide_range-keeps e p (p + 4096) n alloc_kmalloc w h)

  hide_pages-IsHidden :
      (ps : List ℕ) (e : Ept) (p b : ℕ)
      → Words e
      → Mem p ps
      → p + 8191 < 2 ^ 64
      → p ≤ b
      → b < p + 4096
      → IsHidden (hide_pages k ps e) (page_of k alloc_kmalloc b)
  unfolding hide_pages
  hide_pages-IsHidden [] e p b w m fits low high = absurd (not-mem-nil m)
  hide_pages-IsHidden (q ∷ ps) e p b w m fits low high =
      let w' = hide_range-Words e q (q + 4096) alloc_kmalloc w in
      Or.elim (hlevel) (mem-cons.0 m)
        (λ here. hide_pages-keeps ps _ _ w' (
          subst
            (λ x. IsHidden (hide_range k e x (x + 4096) alloc_kmalloc) (page_of k alloc_kmalloc b))
            here
            ((hide_range-IsHidden k alloc_kmalloc p (p + 4096) e w (omega arith) (omega arith)).0 b
              low high)))
        (λ there. hide_pages-IsHidden ps _ p b w' there fits low high)

  hide_pages-append :
      (ps qs : List ℕ) (e : Ept) → hide_pages k (ps ++ qs) e ≡ hide_pages k qs (hide_pages k ps e)
  unfolding hide_pages
  hide_pages-append [] qs e = refl
  hide_pages-append (p ∷ ps) qs e =
      hide_pages-append ps qs (hide_range k e p (p + 4096) alloc_kmalloc)

  abbrev pub tables : EptInfo → List ℕ
  tables info =
      info.pml4.pages ++ (info.pdpte_pd.pages ++ (info.pdept.pages ++ info.pte_level.pages))

  arrays_hidden : EptInfo → Ept → Ept
  arrays_hidden info e =
      hide_array k info.pte_level
        (hide_array k info.pdept (hide_array k info.pdpte_pd (hide_array k info.pml4 e)))

  protect_eq :
      (info : EptInfo) (e : Ept)
      → protect_ept_pages k info e ≡ hide_pages k (tables info) (arrays_hidden info e)
  unfolding protect_ept_pages arrays_hidden
  protect_eq info e = sym (
      hide_pages-append info.pml4.pages _ _
      ∙ hide_pages-append info.pdpte_pd.pages _ _
      ∙ hide_pages-append info.pdept.pages info.pte_level.pages _)

  arrays_hidden-Words : (info : EptInfo) (e : Ept) → Words e → Words (arrays_hidden info e)
  unfolding arrays_hidden hide_array
  arrays_hidden-Words info e w = hide_range-Words _ _ _ alloc_vmalloc (
      hide_range-Words _ _ _ alloc_vmalloc
        (hide_range-Words _ _ _ alloc_vmalloc (hide_range-Words e _ _ alloc_vmalloc w)))

  -- After `hb_protect_ept_pages` every byte of every page table, of any level, lies in a page that
  -- the guest may neither read, nor write, nor execute, for page tables that do not lie at the top
  -- of the address space.
  pub protect_ept_pages-IsHidden :
      (info : EptInfo) (e : Ept) (p b : ℕ)
      → Words e
      → Mem p (tables info)
      → p + 8191 < 2 ^ 64
      → p ≤ b
      → b < p + 4096
      → IsHidden (protect_ept_pages k info e) (page_of k alloc_kmalloc b)
  protect_ept_pages-IsHidden info e p b w m fits low high =
      subst (λ x. IsHidden x (page_of k alloc_kmalloc b)) (sym (protect_eq info e))
        (hide_pages-IsHidden (tables info) (arrays_hidden info e) p b (arrays_hidden-Words info e w)
          m fits low high)
