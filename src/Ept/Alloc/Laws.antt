-- ===== src/Ept/Alloc/Laws.antt =====
-- What is allocated for page tables is given back.
use mathlib.Core.List.{Mem, Perm, mem-cons, mem-cons_self, not-mem-nil, perm_middle}
use mathlib.Core.List.Perm
use mathlib.Core.Logic.Or
use alcatraz.Prelude.{
  ℕ, zero, suc, ◌≡◌, refl, List, [], ◌∷◌, ◌++◌, Option, none, some, arith, ◌==◌, ==_iff, Bool, true,
  false, if◌then◌else◌, Bool-cases, inl, inr, ◌&&◌, ℤ, pos,
}
use alcatraz.Monitor.Tree.{remove}
use alcatraz.Ept.Setup.{
  Counts, counts_of, EptType, ept_type_pml4, ept_type_pdptepd, ept_type_pdept, ept_type_pte,
}
use alcatraz.Ept.Alloc.{
  Allocator, Arrays, zeros, zeroed, zeroed_arrays, alloc_ept_pages_internal,
  free_ept_pages_internal, alloc_level, alloc_ept_pages, free_array, free_ept_pages, put_pml4,
  put_pdpte_pd, put_pdept, put_pte,
}

-- The pages in an array.
abbrev pages_in : List ℕ → List ℕ
pages_in [] = []
pages_in (p ∷ array) = if p == 0 then pages_in array else p ∷ pages_in array

abbrev pages_of : Option (List ℕ) → List ℕ
pages_of none = []
pages_of (some array) = pages_in array

remove-Perm : (p : ℕ) (xs : List ℕ) → Mem p xs → Perm xs (p ∷ remove p xs)
remove-Perm p [] h = absurd (not-mem-nil h)
remove-Perm p (x ∷ xs) h = elim (Bool-cases (x == p)) [
  | inl e ↦ rw (e, (==_iff x p).0 e) (Perm.refl _)
  | inr e ↦
      let there : Mem p xs =
        Or.elim (hlevel) (mem-cons.0 h) (λ q. absurd (ground (arith, q, e))) (λ k. k) in
      rw e (Perm.trans (Perm.cons x (remove-Perm p xs there)) (Perm.swap p x _))
]

taken_out : (p : ℕ) (live rest : List ℕ) → Perm live (p ∷ rest) → Perm (remove p live) rest
taken_out p live rest h =
    Perm.cons_inv {a = p}
      (Perm.trans (Perm.symm (remove-Perm p live (Perm.subset (Perm.symm h) p mem-cons_self))) h)

free_internal-Perm :
    (array : List ℕ) (s : Allocator) (rest : List ℕ)
    → Perm s.live (pages_in array ++ rest)
    → Perm (free_ept_pages_internal array s).live rest
unfolding free_ept_pages_internal
free_internal-Perm [] s rest h = h
free_internal-Perm (p ∷ array) s rest h = elim (Bool-cases (p == 0)) [
  | inl e ↦ rw (e, free_ept_pages_internal) (free_internal-Perm array s rest (rw e at h))
  | inr e ↦
      rw (e, free_ept_pages_internal)
        (free_internal-Perm array (record s { live = remove p s.live }) rest
          (taken_out p s.live (pages_in array ++ rest) (rw e at h)))
]

free_array-Perm :
    (array : Option (List ℕ)) (s : Allocator) (rest : List ℕ)
    → Perm s.live (pages_of array ++ rest)
    → Perm (free_array array s).live rest
unfolding free_array
free_array-Perm none s rest h = h
free_array-Perm (some array) s rest h = free_internal-Perm array s rest h

no_pages : (n : ℕ) → pages_in (zeros n) ≡ []
no_pages zero = refl
no_pages (suc n) = no_pages n

alloc_internal-Perm :
    (page : ℕ → ℕ) (n : ℕ) (s : Allocator)
    → let r = alloc_ept_pages_internal page n s in Perm r.1.live (pages_in r.0 ++ s.live)
unfolding alloc_ept_pages_internal
alloc_internal-Perm page zero s = Perm.refl _
alloc_internal-Perm page (suc n) s =
    let p = page s.calls in
    elim (Bool-cases (p == 0)) [
      | inl e ↦ rw (e, no_pages n) (Perm.refl _)
      | inr e ↦
          let given : Allocator = record { calls = suc s.calls; live = p ∷ s.live } in
          rw (e, e)
            (Perm.trans (alloc_internal-Perm page n given)
              (perm_middle (pages_in (alloc_ept_pages_internal page n given).0) s.live))
    ]

swap_front : (a b rest : List ℕ) → Perm (b ++ (a ++ rest)) (a ++ (b ++ rest))
swap_front [] b rest = Perm.refl _
swap_front (x ∷ a) b rest =
    Perm.trans (perm_middle b (a ++ rest)) (Perm.cons x (swap_front a b rest))

module _ (base : List ℕ) where
  -- The pages in the arrays, and those that were allocated before, are all that are allocated.
  abbrev Owns : Arrays → Allocator → Type 0
  Owns info s = Perm s.live (
      pages_of info.pml4_page_addr_array
      ++ (pages_of info.pdpte_pd_page_addr_array
          ++ (pages_of info.pdept_page_addr_array ++ (pages_of info.pte_page_addr_array ++ base))))

  free_ept_pages-Perm :
      (info : Arrays) (s : Allocator) → Owns info s → Perm (free_ept_pages info s).1.live base
  unfolding free_ept_pages
  free_ept_pages-Perm info s h =
      let s1 = free_array info.pml4_page_addr_array s in
      let s2 = free_array info.pdpte_pd_page_addr_array s1 in
      let s3 = free_array info.pdept_page_addr_array s2 in
      free_array-Perm info.pte_page_addr_array s3 base (
        free_array-Perm info.pdept_page_addr_array s2 _ (
          free_array-Perm info.pdpte_pd_page_addr_array s1 _
            (free_array-Perm info.pml4_page_addr_array s _ h)))

  level-Owns :
      (page : ℕ → ℕ) (n : ℕ) (put : List ℕ → Arrays → Arrays)
      (rest : Arrays → Allocator → ℤ × Arrays × Allocator) (info : Arrays) (s : Allocator)
      → let r = alloc_ept_pages_internal page n s in
        Owns (put r.0 info) r.1
        → Owns (rest (put r.0 info) r.1).1 (rest (put r.0 info) r.1).2
        → let done = alloc_level page n put rest info s in Owns done.1 done.2
  unfolding alloc_level
  level-Owns page n put rest info s here there =
      elim (Bool-cases (alloc_ept_pages_internal page n s).2) [
        | inl e ↦ rw (e, alloc_level) there
        | inr e ↦ rw (e, alloc_level) here
      ]

free_twice :
    (info : Arrays) (s : Allocator)
    → let (left, t) = free_ept_pages info s in free_ept_pages left t ≡ (left, t)
unfolding free_ept_pages free_array
free_twice info s = refl

module _ (page : ℕ → ℕ) (given : EptType → Bool) (ram : ℕ) (s : Allocator) where
  abbrev counts : Counts
  counts = counts_of ram

  abbrev info : Arrays
  info = zeroed_arrays given counts

  slot : (b : Bool) (n : ℕ) → pages_of (zeroed b n) ≡ []
  slot true n = no_pages n
  slot false n = refl

  -- The four calls, each with what it has taken.
  chain-Owns :
      let done =
        alloc_level page 1 put_pml4
          (alloc_level page counts.pdpte_pd_page_count put_pdpte_pd (
            alloc_level page counts.pdept_page_count put_pdept
              (alloc_level page counts.pte_page_count put_pte (λ i t. (pos 0, i, t)))))
          info
          s in
      Owns s.live done.1 done.2
  chain-Owns =
      let e2 = slot (given ept_type_pdptepd) counts.pdpte_pd_page_count in
      let e3 = slot (given ept_type_pdept) counts.pdept_page_count in
      let e4 = slot (given ept_type_pte) counts.pte_page_count in
      let (a, s1, ok1) = alloc_ept_pages_internal page 1 s in
      let i1 = put_pml4 a info in
      let (b, s2, ok2) = alloc_ept_pages_internal page counts.pdpte_pd_page_count s1 in
      let i2 = put_pdpte_pd b i1 in
      let (c, s3, ok3) = alloc_ept_pages_internal page counts.pdept_page_count s2 in
      let i3 = put_pdept c i2 in
      let (d, s4, ok4) = alloc_ept_pages_internal page counts.pte_page_count s3 in
      let i4 = put_pte d i3 in
      let h1 : Perm s1.live (pages_in a ++ s.live) = alloc_internal-Perm page 1 s in
      let h2 : Perm s2.live (pages_in a ++ (pages_in b ++ s.live)) =
        Perm.trans (alloc_internal-Perm page counts.pdpte_pd_page_count s1) (
          Perm.trans (Perm.append_left (pages_in b) h1)
            (swap_front (pages_in a) (pages_in b) s.live)) in
      let h3 : Perm s3.live (pages_in a ++ (pages_in b ++ (pages_in c ++ s.live))) =
        Perm.trans (alloc_internal-Perm page counts.pdept_page_count s2) (
          Perm.trans (Perm.append_left (pages_in c) h2) (
            Perm.trans (swap_front (pages_in a) (pages_in c) (pages_in b ++ s.live))
              (Perm.append_left (pages_in a) (swap_front (pages_in b) (pages_in c) s.live)))) in
      let h4 : Perm s4.live (pages_in a ++ (pages_in b ++ (pages_in c ++ (pages_in d ++ s.live)))) =
        Perm.trans (alloc_internal-Perm page counts.pte_page_count s3) (
          Perm.trans (Perm.append_left (pages_in d) h3) (
            Perm.trans (swap_front (pages_in a) (pages_in d) (pages_in b ++ (pages_in c ++ s.live)))
              (Perm.append_left (pages_in a) (
                Perm.trans (swap_front (pages_in b) (pages_in d) (pages_in c ++ s.live)) (
                  Perm.append_left (pages_in b)
                    (swap_front (pages_in c) (pages_in d) s.live)))))) in
      level-Owns s.live page 1 put_pml4 _ info s (rw (e2, e3, e4) h1) (
        level-Owns s.live page counts.pdpte_pd_page_count put_pdpte_pd _ i1 s1 (rw (e3, e4) h2) (
          level-Owns s.live page counts.pdept_page_count put_pdept _ i2 s2 (rw e4 h3)
            (level-Owns s.live page counts.pte_page_count put_pte _ i3 s3 h4 h4)))

  alloc_ept_pages-Owns : let done = alloc_ept_pages page given ram s in Owns s.live done.1 done.2
  unfolding alloc_ept_pages
  alloc_ept_pages-Owns =
      elim (Bool-cases (
        given ept_type_pml4
        && given ept_type_pdptepd
        && given ept_type_pdept
        && given ept_type_pte)) [
          | inl e ↦ rw e chain-Owns
          | inr e ↦ rw e (
              rw
                (
                  slot (given ept_type_pml4) 1,
                  slot (given ept_type_pdptepd) counts.pdpte_pd_page_count,
                  slot (given ept_type_pdept) counts.pdept_page_count,
                  slot (given ept_type_pte) counts.pte_page_count,
                )
                (Perm.refl _))
        ]

  -- Whether the allocation of the page tables succeeds or stops at any point, for want of an array or
  -- of a page, the release afterwards leaves exactly the pages allocated that were allocated before,
  -- in some order, and no array; a second release changes nothing.
  pub free-alloc_ept_pages :
      let (result, arrays, s') = alloc_ept_pages page given ram s in
      let (left, t) = free_ept_pages arrays s' in
      Perm t.live s.live × (free_ept_pages left t ≡ (left, t))
  free-alloc_ept_pages =
      let (result, arrays, s') = alloc_ept_pages page given ram s in
      (free_ept_pages-Perm s.live arrays s' alloc_ept_pages-Owns, free_twice arrays s')
