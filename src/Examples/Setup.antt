-- ===== src/Examples/Setup.antt =====
-- A machine with 1 GB of RAM, whose page tables lie one behind the other.
use alcatraz.Prelude.{
  ℕ, ◌+◌, ◌-◌, ◌*◌, ◌/◌, ◌%◌, ◌^◌, ◌≤◌, ◌≡◌, refl, List, [], ◌∷◌, arith, ltb, if◌then◌else◌,
}
use alcatraz.Ept.Setup.{EptType, ept_type_pml4, ept_type_pdptepd, ept_type_pdept, ept_type_pte}
use alcatraz.Ept.Setup.Walk.{walk, IsOwn}
use alcatraz.Ept.Setup.Entries.{tables}
use alcatraz.Ept.Setup.Identity.{InMemory, walk-setup_tables}

-- Page 0 is the root; then 512 tables of the second level, and so on.
abbrev table_phys : EptType → ℕ → ℕ
table_phys ept_type_pml4 j = 0
table_phys ept_type_pdptepd j = (1 + j) * 4096
table_phys ept_type_pdept j = (1000 + j) * 4096
table_phys ept_type_pte j = (2000 + j) * 4096

aligned : (t : EptType) (j : ℕ) → table_phys t j % 4096 ≡ 0
aligned ept_type_pml4 j = refl
aligned ept_type_pdptepd j = omega arith
aligned ept_type_pdept j = omega arith
aligned ept_type_pte j = omega arith

abbrev ranges : List (ℕ × ℕ)
ranges = (1, 159) ∷ (256, 1000) ∷ []

one_gb-bound : 0x40000000 ≤ 2 ^ 46
one_gb-bound = omega arith

abbrev at_page : ℕ → ℕ → ℕ
at_page n i =
    let t = tables table_phys 0x40000000 ranges aligned one_gb-bound in
    if ltb n 1
    then t.pml4 i
    else if ltb n 1000
    then t.pdpte_pd (n - 1) i
    else if ltb n 2000
    then t.pdept (n - 1000) i
    else t.pte (n - 2000) i

abbrev mem : ℕ → ℕ → ℕ
mem p i = at_page (p / 4096) i

mem-InMemory : InMemory table_phys 0x40000000 ranges aligned one_gb-bound mem 0
mem-InMemory = record {
  at_root = λ i h. refl;
  at_pdpte_pd = λ j i h k.
      let page : (1 + j) * 4096 / 4096 ≡ 1 + j = omega arith in
      let back : 1 + j - 1 ≡ j = omega arith in rw page (rw back (ground (arith, h)));
  at_pdept = λ j i h k.
      let page : (1000 + j) * 4096 / 4096 ≡ 1000 + j = omega arith in
      let back : 1000 + j - 1000 ≡ j = omega arith in rw page (rw back (ground (arith, h)));
  at_pte = λ j i h k.
      let page : (2000 + j) * 4096 / 4096 ≡ 2000 + j = omega arith in
      let back : 2000 + j - 2000 ≡ j = omega arith in rw page (rw back (ground (arith, h)));
}

walk-setup_tables_example : IsOwn 0x12345678 4096 (walk mem 0 0x12345678)
walk-setup_tables_example =
    walk-setup_tables table_phys 0x40000000 ranges aligned one_gb-bound mem 0 0x12345678
      mem-InMemory (omega arith)
