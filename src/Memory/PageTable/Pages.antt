-- ===== src/Memory/PageTable/Pages.antt =====
-- `hb_sync_page` of Source/hyper_box/monitor.c, which the monitor calls before it reads the guest's
-- data: the pages of a range are synchronized one by one.
use alcatraz.Prelude.{
  sym, Option-cases, inl, inr, [], ◌∷◌, refl, ap, ◌∙◌, ℕ, zero, suc, ◌+◌, ◌-◌, ◌*◌, ◌/◌, ◌%◌, ◌^◌,
  ◌≤◌, ◌<◌, ◌≡◌, arith, Option, none, some, List,
}
use alcatraz.Memory.RoArea.{RoAddr}
use alcatraz.Memory.PageTable.{Paging}
use alcatraz.Memory.PageTable.Sync.{Host, sync_page_table}

unfoldable pub page_count : ℕ → ℕ → ℕ
page_count addr size = (addr % 4096 + size + 4096 - 1) % 2 ^ 64 / 4096

abbrev pub page_at : ℕ → ℕ → ℕ
page_at addr i = (addr + 4096 * i) % 2 ^ 64

-- The last `n` of the `i + n` pages. `none` is the fault of a call.
unfoldable pub sync_pages : Host → List RoAddr → ℕ → ℕ → ℕ → ℕ → Paging → Option Paging
sync_pages h ro pml4 addr zero i s = some s
sync_pages h ro pml4 addr (suc n) i s = elim (sync_page_table h ro s (page_at addr i) pml4 0) [
  | none ↦ none
  | some (s', expand) ↦ sync_pages h ro pml4 addr n (i + 1) s'
]

unfoldable pub sync_page : Host → List RoAddr → ℕ → ℕ → ℕ → Paging → Option Paging
sync_page h ro pml4 addr size s = sync_pages h ro pml4 addr (page_count addr size) 0 s

-- The calls of `hb_sync_page_table` for a list of addresses, one after the other.
unfoldable pub sync_each : Host → List RoAddr → ℕ → List ℕ → Paging → Option Paging
sync_each h ro pml4 [] s = some s
sync_each h ro pml4 (a ∷ addrs) s = elim (sync_page_table h ro s a pml4 0) [
  | none ↦ none
  | some (s', expand) ↦ sync_each h ro pml4 addrs s'
]

-- `n` addresses from `a` on, one for each page.
abbrev pub addresses : ℕ → ℕ → List ℕ
addresses a zero = []
addresses a (suc n) = a ∷ addresses (a + 4096) n

-- The pages that have a byte of a range.
abbrev pub pages_touched : ℕ → ℕ → ℕ
pages_touched addr size = (addr + size - 1) / 4096 + 1 - addr / 4096

-- Both loops go on in the same way after a call.
sync_pages-step :
    (h : Host) (ro : List RoAddr) (pml4 addr n i : ℕ) (s : Paging) (r : Option (Paging × ℕ))
    (addrs : List ℕ)
    → sync_page_table h ro s (page_at addr i) pml4 0 ≡ r
    → addr + 4096 * i < 2 ^ 64
    → ((s' : Paging) → sync_pages h ro pml4 addr n (i + 1) s' ≡ sync_each h ro pml4 addrs s')
    → sync_pages h ro pml4 addr (suc n) i s ≡ sync_each h ro pml4 ((addr + 4096 * i) ∷ addrs) s
unfolding sync_pages sync_each
sync_pages-step h ro pml4 addr n i s r addrs e fits same =
    let here : page_at addr i ≡ addr + 4096 * i = omega (arith, fits) in
    let e' : sync_page_table h ro s (addr + 4096 * i) pml4 0 ≡ r =
      ap (λ (a : ℕ). sync_page_table h ro s a pml4 0) (sym here) ∙ e in
    elim (Option-cases r) [
      | inl z ↦ rw (e ∙ z, sync_pages) (rw (e' ∙ z, sync_each) refl)
      | inr ((s', expand), z) ↦ rw (e ∙ z, sync_pages) (rw (e' ∙ z, sync_each) (same s'))
    ]

sync_pages-each :
    (h : Host) (ro : List RoAddr) (pml4 addr n i : ℕ) (s : Paging)
    → addr + 4096 * (i + n) < 2 ^ 64
    → sync_pages h ro pml4 addr n i s ≡ sync_each h ro pml4 (addresses (addr + 4096 * i) n) s
unfolding sync_pages sync_each
sync_pages-each h ro pml4 addr zero i s fits = refl
sync_pages-each h ro pml4 addr (suc n) i s fits =
    let next : addr + 4096 * (i + 1) ≡ addr + 4096 * i + 4096 = omega arith in
    sync_pages-step h ro pml4 addr n i s _ (addresses (addr + 4096 * i + 4096) n) refl
      (omega (arith, fits))
      (λ s'.
        sync_pages-each h ro pml4 addr n (i + 1) s' (omega (arith, fits))
        ∙ ap (λ (a : ℕ). sync_each h ro pml4 (addresses a n) s') next)

count_is :
    (addr size : ℕ)
    → addr + size + 8192 ≤ 2 ^ 64
    → 0 < size
    → page_count addr size ≡ pages_touched addr size
unfolding page_count
count_is addr size fits pos = omega arith

-- The first byte that the range and one of its pages share.
byte_of :
    (addr size i : ℕ)
    → i < pages_touched addr size
    → 0 < size
    → (b : ℕ) × (addr ≤ b) × (b < addr + size) × ((addr + 4096 * i) / 4096 ≡ b / 4096)
byte_of addr size zero lt pos = (addr, omega arith, omega arith, omega arith)
byte_of addr size (suc i) lt pos =
    ((addr / 4096 + suc i) * 4096, omega arith, omega (arith, lt), omega (arith, lt))

-- Let a range not be empty and not reach the last pages of the address space. To synchronize it is
-- to call `hb_sync_page_table` once for each page from that of its first byte to that of its last one,
-- in this order and up to the first call that fails: the page of each byte is among them, and each of
-- them has a byte of the range.
pub sync_page-covers :
    (h : Host) (ro : List RoAddr) (pml4 addr size : ℕ) (s : Paging)
    → addr + size + 8192 ≤ 2 ^ 64
    → 0 < size
    → (sync_page h ro pml4 addr size s
        ≡ sync_each h ro pml4 (addresses addr (pages_touched addr size)) s)
      × ((b : ℕ)
          → addr ≤ b
          → b < addr + size
          → (i : ℕ) × (i < pages_touched addr size) × ((addr + 4096 * i) / 4096 ≡ b / 4096))
      × ((i : ℕ)
          → i < pages_touched addr size
          → (b : ℕ) × (addr ≤ b) × (b < addr + size) × ((addr + 4096 * i) / 4096 ≡ b / 4096))
unfolding sync_page
sync_page-covers h ro pml4 addr size s fits pos =
    let n = pages_touched addr size in
    let first : addr + 4096 * 0 ≡ addr = omega arith in
    (
      ap (λ (m : ℕ). sync_pages h ro pml4 addr m 0 s) (count_is addr size fits pos)
          ∙ sync_pages-each h ro pml4 addr n 0 s (omega (arith, fits, pos))
          ∙ ap (λ (a : ℕ). sync_each h ro pml4 (addresses a n) s) first,
      λ b lo hi. (b / 4096 - addr / 4096, omega arith, omega arith),
      λ i lt. byte_of addr size i lt pos,
    )
