-- ===== src/Ept/Setup/Identity.antt =====
-- The table that was set up maps every address to itself.
use alcatraz.Prelude.{
  ℕ, List, ◌+◌, ◌*◌, ◌/◌, ◌%◌, ◌^◌, ◌<◌, ◌≤◌, ◌≡◌, refl, ap, ◌∙◌, arith, if◌then◌else◌, Bool-cases,
  inl, inr, ltb, ltb→lt, true, false,
}
use alcatraz.Ept.Setup.{EptType, ept_type_pdptepd, ept_type_pdept, ept_type_pte, ceil}
use alcatraz.Ept.Setup.Walk.{frame, walk, IsOwn, finish-huge, finish-large, finish-small}
use alcatraz.Ept.Setup.Entries.{tables, pml4_at, pdpte_pd_at, pdept_at, pte_at}

-- The size of the page that an address is to be mapped by.
abbrev pub page_size : ℕ → ℕ → ℕ
page_size ram a =
    if ltb a ((ram + 0x1FFFFF) / 0x200000 * 0x200000)
    then 4096
    else if ltb a ((ram + 0x3FFFFFFF) / 0x40000000 * 0x40000000)
    then 0x200000
    else 0x40000000

size_huge :
    (ram a : ℕ) → ltb (a / 0x40000000) (ceil ram 0x40000000) ≡ false → 0x40000000 ≡ page_size ram a
size_huge ram a h = ground arith

size_large :
    (ram a : ℕ)
    → ltb (a / 0x40000000) (ceil ram 0x40000000) ≡ true
    → ltb (a / 0x200000) (ceil ram 0x200000) ≡ false
    → 0x200000 ≡ page_size ram a
size_large ram a h k = ground arith

size_small : (ram a : ℕ) → ltb (a / 0x200000) (ceil ram 0x200000) ≡ true → 4096 ≡ page_size ram a
size_small ram a h = ground arith

module _ (phys : EptType → ℕ → ℕ) (ram : ℕ) (ranges : List (ℕ × ℕ))
    (aligned : (t : EptType) (j : ℕ) → phys t j % 4096 ≡ 0) (small : ram ≤ 2 ^ 46) where
  -- The tables as they lie in memory, where the processor reads them.
  pub record InMemory (mem : ℕ → ℕ → ℕ) (root : ℕ) : Type 0 where
    pub at_root : (i : ℕ) → i < 512 → mem root i ≡ (tables phys ram ranges aligned small).pml4 i
    pub at_pdpte_pd :
        (j i : ℕ)
        → j < 512
        → i < 512
        → mem (phys ept_type_pdptepd j) i ≡ (tables phys ram ranges aligned small).pdpte_pd j i
    pub at_pdept :
        (j i : ℕ)
        → j < ceil (ceil ram 0x200000) 512
        → i < 512
        → mem (phys ept_type_pdept j) i ≡ (tables phys ram ranges aligned small).pdept j i
    pub at_pte :
        (j i : ℕ)
        → j < ceil (ceil ram 4096) 512
        → i < 512
        → mem (phys ept_type_pte j) i ≡ (tables phys ram ranges aligned small).pte j i

  module _ (mem : ℕ → ℕ → ℕ) (root a : ℕ) (m : InMemory mem root) (fits : a < 2 ^ 48) where
    abbrev e3 : ℕ
    e3 = mem (frame (mem root (a / 0x8000000000 % 512))) (a / 0x40000000 % 512)

    abbrev e2 : ℕ
    e2 = mem (frame e3) (a / 0x200000 % 512)

    abbrev e1 : ℕ
    e1 = mem (frame e2) (a / 4096 % 512)

    e3_is : e3 ≡ (
        if ltb (a / 0x40000000) (ceil ram 0x40000000)
        then phys ept_type_pdept (a / 0x40000000) + 7
        else a / 0x40000000 * 0x40000000 + 0xB7)
    e3_is =
        let i4 = a / 0x8000000000 % 512 in
        let i3 = a / 0x40000000 % 512 in
        let gigabyte : i4 * 512 + i3 ≡ a / 0x40000000 = omega (arith, fits) in
        let up : frame (mem root i4) ≡ phys ept_type_pdptepd i4 = omega (
          arith,
          m.at_root i4 (omega arith),
          pml4_at phys ram ranges aligned small i4 (omega arith),
          aligned ept_type_pdptepd i4,
        ) in
        ap (λ p. mem p i3) up
        ∙ m.at_pdpte_pd i4 i3 (omega arith) (omega arith)
        ∙ pdpte_pd_at phys ram ranges aligned small i4 i3 (omega arith) (omega arith)
        ∙ ap
            (λ g.
              if ltb g (ceil ram 0x40000000)
              then phys ept_type_pdept g + 7
              else g * 0x40000000 + 0xB7)
            gigabyte

    e2_is :
        ltb (a / 0x40000000) (ceil ram 0x40000000) ≡ true
        → e2 ≡ (
            if ltb (a / 0x200000) (ceil ram 0x200000)
            then phys ept_type_pte (a / 0x200000) + 7
            else a / 0x200000 * 0x200000 + 0xB7)
    e2_is ram_here =
        let i3 = a / 0x40000000 in
        let i2 = a / 0x200000 % 512 in
        let there : i3 < ceil (ceil ram 0x200000) 512 =
          omega (arith, ltb→lt i3 (ceil ram 0x40000000) ram_here) in
        let index : i3 * 512 + i2 ≡ a / 0x200000 = omega arith in
        let table : e3 ≡ phys ept_type_pdept i3 + 7 = e3_is ∙ rw ram_here refl in
        let up : frame e3 ≡ phys ept_type_pdept i3 =
          omega (arith, table, aligned ept_type_pdept i3) in
        ap (λ p. mem p i2) up
        ∙ m.at_pdept i3 i2 there (omega arith)
        ∙ pdept_at phys ram ranges aligned small i3 i2 there (omega arith)
        ∙ ap
            (λ g.
              if ltb g (ceil ram 0x200000) then phys ept_type_pte g + 7 else g * 0x200000 + 0xB7)
            index

    e1_is :
        ltb (a / 0x40000000) (ceil ram 0x40000000) ≡ true
        → ltb (a / 0x200000) (ceil ram 0x200000) ≡ true
        → e1 ≡ a / 4096 * 4096 + 0x37
    e1_is ram_here ram_there =
        let i2 = a / 0x200000 in
        let i1 = a / 4096 % 512 in
        let there : i2 < ceil (ceil ram 4096) 512 =
          omega (arith, ltb→lt i2 (ceil ram 0x200000) ram_there) in
        let index : i2 * 512 + i1 ≡ a / 4096 = omega arith in
        let table : e2 ≡ phys ept_type_pte i2 + 7 = e2_is ram_here ∙ rw ram_there refl in
        let up : frame e2 ≡ phys ept_type_pte i2 = omega (arith, table, aligned ept_type_pte i2) in
        ap (λ p. mem p i1) up
        ∙ m.at_pte i2 i1 there (omega arith)
        ∙ pte_at phys ram ranges aligned small i2 i1 there (omega arith)
        ∙ ap (λ (g : ℕ). g * 4096 + 0x37) index

  -- With the tables in memory, each at the start of a page, the processor's walk takes every
  -- address of 48 bits to itself, with all permissions, whatever the amount of RAM is, up to 64 TB:
  -- up to the end of the RAM, rounded up to 2 MB, by pages of 4 KB, from there to the end rounded up
  -- to 1 GB by pages of 2 MB, and above by pages of 1 GB.
  pub walk-setup_tables :
      (mem : ℕ → ℕ → ℕ) (root a : ℕ)
      → InMemory mem root
      → a < 2 ^ 48
      → IsOwn a (page_size ram a) (walk mem root a)
  unfolding walk
  walk-setup_tables mem root a m fits =
      let g = a / 0x40000000 in
      let l = a / 0x200000 in
      elim (Bool-cases (ltb g (ceil ram 0x40000000))) [
        | inr out ↦
            rw (← size_huge ram a out) (finish-huge _ _ _ a (e3_is mem root a m fits ∙ rw out refl))
        | inl here ↦
            let table : e3 mem root a m fits ≡ phys ept_type_pdept g / 4096 * 4096 + 7 =
              e3_is mem root a m fits ∙ rw here (omega (arith, aligned ept_type_pdept g)) in
            elim (Bool-cases (ltb l (ceil ram 0x200000))) [
              | inr out ↦
                  rw (← size_large ram a here out)
                    (finish-large _ _ _ a _ table (e2_is mem root a m fits here ∙ rw out refl))
              | inl there ↦ rw (← size_small ram a there) (
                  finish-small _ _ _ a _ (phys ept_type_pte l / 4096) table
                    (e2_is mem root a m fits here
                      ∙ rw there (omega (arith, aligned ept_type_pte l)))
                    (e1_is mem root a m fits here there))
            ]
      ]
