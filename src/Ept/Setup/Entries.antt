-- ===== src/Ept/Setup/Entries.antt =====
-- The entries of the table that is set up.
use alcatraz.Prelude.{
  ℕ, List, [], ◌∷◌, ◌&&◌, zero, suc, ◌+◌, ◌*◌, ◌/◌, ◌%◌, ◌^◌, ◌<◌, ◌≤◌, ◌≡◌, refl, ap, sym, ◌∙◌,
  arith, ◌==◌, if◌then◌else◌, Bool-cases, inl, inr, ltb, bit_or,
}
use alcatraz.Prelude.Bits.{bits_ext, bit-bit_or, page_flags}
use alcatraz.Ept.Setup.{
  EptType, ept_type_pdptepd, ept_type_pdept, ept_type_pte, Tables, counts_of, ceil, next_table,
  large_page, small_page, pml4_entry, pdpte_pd_entry, pdept_entry, pte_entry, setup_tables,
  set_write_back, setup_ept_system_ram_range, setup_ept_pagetable_4KB,
}
use alcatraz.Ept.Setup.Fill.{fill-at, tables-at}

three_flags : (x : ℕ) → large_page x ≡ bit_or x 0xB7
three_flags x = bits_ext _ _ λ k. omega (
  arith,
  bit-bit_or k (bit_or (bit_or x 7) 0x80) 0x30,
  bit-bit_or k (bit_or x 7) 0x80,
  bit-bit_or k x 7,
  bit-bit_or k x 0xB7,
  bit-bit_or k (bit_or 7 0x80) 0x30,
  bit-bit_or k 7 0x80,
)

two_flags : (x : ℕ) → small_page x ≡ bit_or x 0x37
two_flags x = bits_ext _ _ λ k. omega (
  arith,
  bit-bit_or k (bit_or x 7) 0x30,
  bit-bit_or k x 7,
  bit-bit_or k x 0x37,
  bit-bit_or k 7 0x30,
)

-- Write-back memory is what every small page has already.
written_back : (q : ℕ) → bit_or (q * 4096 + 0x37) 0x30 ≡ q * 4096 + 0x37
written_back q =
    let flagged : bit_or (q * 4096) 0x37 ≡ q * 4096 + 0x37 = page_flags q 0x37 (omega arith) in
    ap (λ x. bit_or x 0x30) (sym flagged)
    ∙ bits_ext _ _ (λ k. omega (
      arith,
      bit-bit_or k (bit_or (q * 4096) 0x37) 0x30,
      bit-bit_or k (q * 4096) 0x37,
      bit-bit_or k 0x37 0x30,
    ))
    ∙ flagged

set_write_back_keeps :
    (n i : ℕ) (t : ℕ → ℕ → ℕ) (j k q : ℕ)
    → t j k ≡ q * 4096 + 0x37
    → set_write_back n i t j k ≡ q * 4096 + 0x37
unfolding set_write_back
set_write_back_keeps zero i t j k q h = h
set_write_back_keeps (suc n) i t j k q h =
    set_write_back_keeps n (suc i) _ j k q (elim (Bool-cases (j == i / 512 && k == i % 512)) [
      | inl e ↦ rw (e, h) (written_back q)
      | inr e ↦ rw e h
    ])

set_ram_keeps :
    (ranges : List (ℕ × ℕ)) (t : ℕ → ℕ → ℕ) (j k q : ℕ)
    → t j k ≡ q * 4096 + 0x37
    → setup_ept_system_ram_range ranges t j k ≡ q * 4096 + 0x37
unfolding setup_ept_system_ram_range
set_ram_keeps [] t j k q h = h
set_ram_keeps ((start, size) ∷ ranges) t j k q h =
    set_ram_keeps ranges _ j k q (set_write_back_keeps size start t j k q h)

module _ (phys : EptType → ℕ → ℕ) (ram : ℕ) (ranges : List (ℕ × ℕ))
    (aligned : (t : EptType) (j : ℕ) → phys t j % 4096 ≡ 0) (small : ram ≤ 2 ^ 46) where
  abbrev pub tables : Tables
  tables = setup_ept_pagetable_4KB phys (counts_of ram) ranges

  next_eq : (t : EptType) (j : ℕ) → next_table (phys t j) ≡ phys t j + 7
  next_eq t j =
      let paged : phys t j ≡ phys t j / 4096 * 4096 = omega (arith, aligned t j) in
      ap (λ x. bit_or x 7) paged
      ∙ page_flags (phys t j / 4096) 7 (omega arith)
      ∙ omega (arith, paged)

  pub pml4_at : (i : ℕ) → i < 512 → tables.pml4 i ≡ phys ept_type_pdptepd i + 7
  unfolding setup_ept_pagetable_4KB setup_tables pml4_entry
  pml4_at i h =
      fill-at (pml4_entry phys (counts_of ram)) 0 (λ m. 0) 512 0 i 0 (λ k. 0) (λ m l q. refl) refl
        (omega arith) (omega arith)
      ∙ next_eq ept_type_pdptepd i

  large_eq : (m : ℕ) → large_page (m * 0x200000) ≡ m * 0x200000 + 0xB7
  large_eq m =
      let paged : m * 0x200000 ≡ m * 512 * 4096 = omega arith in
      three_flags (m * 0x200000)
      ∙ ap (λ x. bit_or x 0xB7) paged
      ∙ page_flags (m * 512) 0xB7 (omega arith)
      ∙ omega arith

  huge_eq : (m : ℕ) → large_page (m * 0x40000000) ≡ m * 0x40000000 + 0xB7
  huge_eq m =
      let paged : m * 0x40000000 ≡ m * 512 * 0x200000 = omega arith in
      ap large_page paged ∙ large_eq (m * 512) ∙ omega arith

  -- The entry for the `m`th gigabyte: a table where there is RAM, else the gigabyte itself.
  pub pdpte_pd_at :
      (j i : ℕ)
      → j < 512
      → i < 512
      → tables.pdpte_pd j i ≡ (
          if ltb (j * 512 + i) (ceil ram 0x40000000)
          then phys ept_type_pdept (j * 512 + i) + 7
          else (j * 512 + i) * 0x40000000 + 0xB7)
  unfolding setup_ept_pagetable_4KB setup_tables pdpte_pd_entry
  pdpte_pd_at j i h k =
      tables-at (pdpte_pd_entry phys (counts_of ram)) 0x40000000 (λ m. m * 0x40000000) 512 0 j i 0
        (λ j i. 0) (λ m q. omega arith) refl (omega arith) (omega arith) k
      ∙ ground (arith, next_eq ept_type_pdept (j * 512 + i), huge_eq (j * 512 + i))

  pub pdept_at :
      (j i : ℕ)
      → j < ceil (ceil ram 0x200000) 512
      → i < 512
      → tables.pdept j i ≡ (
          if ltb (j * 512 + i) (ceil ram 0x200000)
          then phys ept_type_pte (j * 512 + i) + 7
          else (j * 512 + i) * 0x200000 + 0xB7)
  unfolding setup_ept_pagetable_4KB setup_tables pdept_entry
  pdept_at j i h k =
      tables-at (pdept_entry phys (counts_of ram)) 0x200000 (λ m. m * 0x200000)
        (ceil (ceil ram 0x200000) 512) 0 j i 0 (λ j i. 0) (λ m q. omega arith) refl (omega arith)
        (omega arith) k
      ∙ ground (arith, next_eq ept_type_pte (j * 512 + i), large_eq (j * 512 + i))

  first_pte_at :
      (j i : ℕ)
      → j < ceil (ceil ram 4096) 512
      → i < 512
      → (setup_tables phys (counts_of ram)).pte j i ≡ (j * 512 + i) * 4096 + 0x37
  unfolding setup_tables pte_entry
  first_pte_at j i h k =
      tables-at (pte_entry phys (counts_of ram)) 0 (λ m. 0) (ceil (ceil ram 4096) 512) 0 j i 0
        (λ j i. 0) (λ m q. refl) refl (omega arith) (omega arith) k
      ∙ two_flags ((j * 512 + i) * 4096)
      ∙ page_flags (j * 512 + i) 0x37 (omega arith)

  pub pte_at :
      (j i : ℕ)
      → j < ceil (ceil ram 4096) 512
      → i < 512
      → tables.pte j i ≡ (j * 512 + i) * 4096 + 0x37
  unfolding setup_ept_pagetable_4KB
  pte_at j i h k =
      set_ram_keeps ranges (setup_tables phys (counts_of ram)).pte j i (j * 512 + i)
        (first_pte_at j i h k)
