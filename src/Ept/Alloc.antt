-- ===== src/Ept/Alloc.antt =====
-- The memory of the page tables: `hb_alloc_ept_pages`, `hb_free_ept_pages` and their helpers in
-- Source/hyper_box/mmu.c. `page i` is what the kernel's allocator gives at the call with number
-- `i`, or 0; whether there is memory for an array is an argument, as for `vzalloc`.
pub mod Laws
use alcatraz.Prelude.{
  ℕ, zero, suc, ◌==◌, Bool, true, false, ◌&&◌, if◌then◌else◌, List, [], ◌∷◌, Option, none, some, ℤ,
  pos, minus_one,
}
use alcatraz.Monitor.Tree.{remove}
use alcatraz.Ept.Setup.{
  EptType, ept_type_pml4, ept_type_pdptepd, ept_type_pdept, ept_type_pte, Counts, counts_of,
}

-- `live` are the pages that are allocated.
pub record Allocator : Type 0 where
  pub calls : ℕ
  pub live : List ℕ

abbrev pub zeros : ℕ → List ℕ
zeros zero = []
zeros (suc n) = 0 ∷ zeros n

-- The loop over an array of zeros.
unfoldable pub alloc_ept_pages_internal : (ℕ → ℕ) → ℕ → Allocator → List ℕ × Allocator × Bool
alloc_ept_pages_internal page zero s = ([], s, true)
alloc_ept_pages_internal page (suc n) s =
    let p = page s.calls in
    let called = record s { calls = suc s.calls } in
    let (rest, s', ok) = alloc_ept_pages_internal page n (record called { live = p ∷ s.live }) in
    if p == 0 then (0 ∷ zeros n, called, false) else (p ∷ rest, s', ok)

unfoldable pub free_ept_pages_internal : List ℕ → Allocator → Allocator
free_ept_pages_internal [] s = s
free_ept_pages_internal (p ∷ array) s =
    free_ept_pages_internal array (if p == 0 then s else record s { live = remove p s.live })

-- The arrays of `struct hb_ept_info`; `none` is the null pointer.
pub record Arrays : Type 0 where
  pub pml4_page_addr_array : Option (List ℕ)
  pub pdpte_pd_page_addr_array : Option (List ℕ)
  pub pdept_page_addr_array : Option (List ℕ)
  pub pte_page_addr_array : Option (List ℕ)

abbrev pub zeroed : Bool → ℕ → Option (List ℕ)
zeroed given n = if given then some (zeros n) else none

abbrev pub zeroed_arrays : (EptType → Bool) → Counts → Arrays
zeroed_arrays given c = record {
  pml4_page_addr_array = zeroed (given ept_type_pml4) 1;
  pdpte_pd_page_addr_array = zeroed (given ept_type_pdptepd) c.pdpte_pd_page_count;
  pdept_page_addr_array = zeroed (given ept_type_pdept) c.pdept_page_count;
  pte_page_addr_array = zeroed (given ept_type_pte) c.pte_page_count;
}

-- One step of the chain of calls: the array is filled, and the chain goes on if there were pages
-- enough.
unfoldable pub alloc_level :
    (ℕ → ℕ)
    → ℕ
    → (List ℕ → Arrays → Arrays)
    → (Arrays → Allocator → ℤ × Arrays × Allocator)
    → Arrays
    → Allocator
    → ℤ × Arrays × Allocator
alloc_level page n put rest info s =
    let (array, s', ok) = alloc_ept_pages_internal page n s in
    let filled = put array info in
    let done = rest filled s' in if ok then done else (minus_one, filled, s')

abbrev pub put_pml4 : List ℕ → Arrays → Arrays
put_pml4 a info = record info { pml4_page_addr_array = some a }

abbrev pub put_pdpte_pd : List ℕ → Arrays → Arrays
put_pdpte_pd a info = record info { pdpte_pd_page_addr_array = some a }

abbrev pub put_pdept : List ℕ → Arrays → Arrays
put_pdept a info = record info { pdept_page_addr_array = some a }

abbrev pub put_pte : List ℕ → Arrays → Arrays
put_pte a info = record info { pte_page_addr_array = some a }

unfoldable pub alloc_ept_pages : (ℕ → ℕ) → (EptType → Bool) → ℕ → Allocator → ℤ × Arrays × Allocator
alloc_ept_pages page given max_ram_size s =
    let c = counts_of max_ram_size in
    let info = zeroed_arrays given c in
    let allocated =
      alloc_level page 1 put_pml4
        (alloc_level page c.pdpte_pd_page_count put_pdpte_pd (
          alloc_level page c.pdept_page_count put_pdept
            (alloc_level page c.pte_page_count put_pte (λ info s. (pos 0, info, s)))))
        info s in
    if given ept_type_pml4 && given ept_type_pdptepd && given ept_type_pdept && given ept_type_pte
    then allocated
    else (minus_one, info, s)

-- The pages of an array, if there is one.
unfoldable pub free_array : Option (List ℕ) → Allocator → Allocator
free_array none s = s
free_array (some array) s = free_ept_pages_internal array s

unfoldable pub free_ept_pages : Arrays → Allocator → Arrays × Allocator
free_ept_pages info s = (
  record {
    pml4_page_addr_array = none;
    pdpte_pd_page_addr_array = none;
    pdept_page_addr_array = none;
    pte_page_addr_array = none;
  },
  free_array info.pte_page_addr_array (
      free_array info.pdept_page_addr_array
        (free_array info.pdpte_pd_page_addr_array (free_array info.pml4_page_addr_array s))),
)
