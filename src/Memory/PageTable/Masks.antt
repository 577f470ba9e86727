-- ===== src/Memory/PageTable/Masks.antt =====
-- The flags and the address of an entry that is put together from an address and another entry.
use alcatraz.Prelude.{
  ℕ, ◌+◌, ◌*◌, ◌%◌, ◌^◌, ◌≡◌, refl, ap, ◌∙◌, arith, true, false, not, ◌==◌, bit_and, bit_or,
}
use alcatraz.Prelude.Bits.{
  bit, bit-lt, bit-bit_and, bit-bit_or, bits_ext, bit_zero, bit-single, bit_and-zero, bit_or-zero,
}
use alcatraz.Memory.PageTable.{
  get_addr, mask_pageflag, mask_page_size_flag, is_present, is_size_flag_set,
}

bit_and_assoc : (a b c : ℕ) → bit_and (bit_and a b) c ≡ bit_and a (bit_and b c)
bit_and_assoc a b c = bits_ext _ _ λ k. ground (
  arith,
  bit-bit_and k (bit_and a b) c,
  bit-bit_and k a b,
  bit-bit_and k a (bit_and b c),
  bit-bit_and k b c,
  bit-lt k a,
  bit-lt k b,
  bit-lt k c,
)

bit_and-bit_or : (a b m : ℕ) → bit_and (bit_or a b) m ≡ bit_or (bit_and a m) (bit_and b m)
bit_and-bit_or a b m = bits_ext _ _ λ k. ground (
  arith,
  bit-bit_and k (bit_or a b) m,
  bit-bit_or k a b,
  bit-bit_or k (bit_and a m) (bit_and b m),
  bit-bit_and k a m,
  bit-bit_and k b m,
  bit-lt k a,
  bit-lt k b,
  bit-lt k m,
)

zero_or : (a : ℕ) → bit_or 0 a ≡ a
zero_or a = bits_ext _ _ λ k. ground (arith, bit-bit_or k 0 a, bit_zero k)

-- The entry that `hb_sync_page_table_flag` writes.
abbrev pub merged : ℕ → ℕ → ℕ
merged addr e = bit_or (get_addr addr) (bit_and e mask_pageflag)

merged_mask :
    (addr e m : ℕ)
    → bit_and (merged addr e) m
      ≡ bit_or (bit_and addr (bit_and 0x00FFFFFFFFFFF000 m)) (bit_and e (bit_and mask_pageflag m))
merged_mask addr e m =
    bit_and-bit_or (get_addr addr) (bit_and e mask_pageflag) m
    ∙ ap (λ (t : ℕ). bit_or t (bit_and (bit_and e mask_pageflag) m)) (bit_and_assoc addr _ m)
    ∙ ap (bit_or (bit_and addr (bit_and 0x00FFFFFFFFFFF000 m))) (bit_and_assoc e mask_pageflag m)

pub merged-addr : (addr e : ℕ) → get_addr (merged addr e) ≡ get_addr addr
merged-addr addr e =
    merged_mask addr e 0x00FFFFFFFFFFF000
    ∙ ap (bit_or (get_addr addr)) (bit_and-zero e)
    ∙ bit_or-zero (get_addr addr)

-- A flag outside the address is the other entry's.
merged_flag :
    (addr e m : ℕ)
    → bit_and 0x00FFFFFFFFFFF000 m ≡ 0
    → bit_and mask_pageflag m ≡ m
    → bit_and (merged addr e) m ≡ bit_and e m
merged_flag addr e m out inside =
    merged_mask addr e m
    ∙ ap (λ (t : ℕ). bit_or (bit_and addr t) (bit_and e (bit_and mask_pageflag m))) out
    ∙ ap (λ (t : ℕ). bit_or t (bit_and e (bit_and mask_pageflag m))) (bit_and-zero addr)
    ∙ zero_or (bit_and e (bit_and mask_pageflag m))
    ∙ ap (bit_and e) inside

pub merged-present : (addr e : ℕ) → is_present (merged addr e) ≡ is_present e
merged-present addr e = ap (λ (t : ℕ). not (t == 0)) (merged_flag addr e 1 refl refl)

pub merged-size : (addr e : ℕ) → is_size_flag_set (merged addr e) ≡ is_size_flag_set e
merged-size addr e = ap (λ (t : ℕ). not (t == 0)) (merged_flag addr e mask_page_size_flag refl refl)

size_of_bit : (x : ℕ) → bit 7 x ≡ 1 → is_size_flag_set x ≡ true
size_of_bit x h = ground (arith, bit-bit_and 7 x mask_page_size_flag, bit-single 7 7, bit_zero 7)

-- What expands a page by pages of more than 4 KB has the flag of a large page.
pub expanded-size :
    (start q n : ℕ)
    → is_size_flag_set ((bit_or start mask_page_size_flag + n * (q * 2 ^ 12)) % 2 ^ 64) ≡ true
expanded-size start q n =
    let set : bit 7 (bit_or start mask_page_size_flag) ≡ 1 =
      ground (arith, bit-bit_or 7 start mask_page_size_flag, bit-lt 7 start) in
    size_of_bit _ (grind (arith, set))

pub zero_absent : is_present 0 ≡ false
zero_absent = refl
