-- ===== src/Ept/Setup.antt =====
-- The extended page table that is set up before the guest runs: `hb_setup_ept_pagetable_4KB` of
-- Source/hyper_box/mmu.c, with the counts that `hb_alloc_ept_pages` computes.
pub mod Fill
pub mod Walk
pub mod Entries
pub mod Identity
use alcatraz.Prelude.{
  ℕ, zero, suc, ◌+◌, ◌-◌, ◌*◌, ◌/◌, ◌%◌, ◌^◌, ◌==◌, ◌&&◌, if◌then◌else◌, ltb, bit_or, List, [], ◌∷◌,
}

pub data EptType : Type 0 where
  ept_type_pml4 ept_type_pdptepd ept_type_pdept ept_type_pte : EptType

pub record Tables : Type 0 where
  pub pml4 : ℕ → ℕ
  pub pdpte_pd : ℕ → ℕ → ℕ
  pub pdept : ℕ → ℕ → ℕ
  pub pte : ℕ → ℕ → ℕ

-- CEIL.
abbrev pub ceil : ℕ → ℕ → ℕ
ceil x y = (x + y - 1) / y

-- The counts of `struct hb_ept_info` that the set-up reads.
pub record Counts : Type 0 where
  pub pdpte_pd_ent_count : ℕ
  pub pdept_ent_count : ℕ
  pub pdpte_pd_page_count : ℕ
  pub pdept_page_count : ℕ
  pub pte_page_count : ℕ

abbrev pub counts_of : ℕ → Counts
counts_of max_ram_size = record {
  pdpte_pd_ent_count = ceil max_ram_size 0x40000000;
  pdept_ent_count = ceil max_ram_size 0x200000;
  pdpte_pd_page_count = 512;
  pdept_page_count = ceil (ceil max_ram_size 0x200000) 512;
  pte_page_count = ceil (ceil max_ram_size 4096) 512;
}

-- The loop over the entries of one table, from entry `i` on: `base` grows by `step` with each entry.
unfoldable pub fill : (ℕ → ℕ → ℕ) → ℕ → ℕ → ℕ → ℕ → (ℕ → ℕ) → (ℕ → ℕ) × ℕ
fill entry step zero i base t = (t, base)
fill entry step (suc n) i base t =
    fill entry step n (suc i) ((base + step) % 2 ^ 64) (λ k. if k == i then entry i base else t k)

-- The loop over the tables of one level, each cleared by `memset` first.
unfoldable pub fill_tables : (ℕ → ℕ → ℕ → ℕ) → ℕ → ℕ → ℕ → ℕ → (ℕ → ℕ → ℕ) → ℕ → ℕ → ℕ
fill_tables entry step zero j base t = t
fill_tables entry step (suc n) j base t =
    let (row, next) = fill (entry j) step 512 0 base (λ k. 0) in
    fill_tables entry step n (suc j) next (λ k. if k == j then row else t k)

-- EPT_ALL_ACCESS, alone and with MASK_PAGE_SIZE_FLAG and EPT_BIT_MEM_TYPE_WB.
abbrev pub next_table : ℕ → ℕ
next_table addr = bit_or addr 7

abbrev pub large_page : ℕ → ℕ
large_page addr = bit_or (bit_or (bit_or addr 7) 0x80) 0x30

abbrev pub small_page : ℕ → ℕ
small_page addr = bit_or (bit_or addr 7) 0x30

-- `hb_callback_set_write_back_to_ram`, for `n` pages from page `i` on, and the walk over the ranges
-- of RAM that the kernel names.
unfoldable pub set_write_back : ℕ → ℕ → (ℕ → ℕ → ℕ) → ℕ → ℕ → ℕ
set_write_back zero i t = t
set_write_back (suc n) i t =
    set_write_back n (suc i)
      (λ j k. if j == i / 512 && k == i % 512 then bit_or (t j k) 0x30 else t j k)

unfoldable pub setup_ept_system_ram_range : List (ℕ × ℕ) → (ℕ → ℕ → ℕ) → ℕ → ℕ → ℕ
setup_ept_system_ram_range [] t = t
setup_ept_system_ram_range ((start, size) ∷ ranges) t =
    setup_ept_system_ram_range ranges (set_write_back size start t)

-- `table_phys` is `hb_get_pagetable_phy_addr`.
module _ (table_phys : EptType → ℕ → ℕ) (c : Counts) where
  abbrev pub loop_cnt : ℕ → ℕ → ℕ
  loop_cnt ent_count j =
      let left = (ent_count + 2 ^ 64 - j * 512) % 2 ^ 64 in if ltb 512 left then 512 else left

  unfoldable pub pml4_entry : ℕ → ℕ → ℕ
  pml4_entry i base = next_table (table_phys ept_type_pdptepd i)

  unfoldable pub pdpte_pd_entry : ℕ → ℕ → ℕ → ℕ
  pdpte_pd_entry j i base =
      if ltb c.pdpte_pd_ent_count (j * 512)
      then large_page base
      else if ltb i (loop_cnt c.pdpte_pd_ent_count j)
      then next_table (table_phys ept_type_pdept (j * 512 + i))
      else large_page base

  unfoldable pub pdept_entry : ℕ → ℕ → ℕ → ℕ
  pdept_entry j i base =
      if ltb i (loop_cnt c.pdept_ent_count j)
      then next_table (table_phys ept_type_pte (j * 512 + i))
      else large_page base

  unfoldable pub pte_entry : ℕ → ℕ → ℕ → ℕ
  pte_entry j i base = small_page ((j * 512 + i) * 4096)

  -- Before the walk over the system's RAM.
  unfoldable pub setup_tables : Tables
  setup_tables = record {
    pml4 = (fill pml4_entry 0 512 0 0 (λ k. 0)).0;
    pdpte_pd = fill_tables pdpte_pd_entry 0x40000000 c.pdpte_pd_page_count 0 0 (λ j i. 0);
    pdept = fill_tables pdept_entry 0x200000 c.pdept_page_count 0 0 (λ j i. 0);
    pte = fill_tables pte_entry 0 c.pte_page_count 0 0 (λ j i. 0);
  }

  unfoldable pub setup_ept_pagetable_4KB : List (ℕ × ℕ) → Tables
  setup_ept_pagetable_4KB ranges = record setup_tables {
    pte = setup_ept_system_ram_range ranges setup_tables.pte;
  }
