-- ===== src/Vmx/Gdt/Laws.antt =====
-- Descriptors as the processor lays them out, read back.
use alcatraz.Prelude.{
  ℕ, ◌+◌, ◌*◌, ◌/◌, ◌%◌, ◌^◌, ◌<◌, ◌≤◌, ◌≡◌, refl, ap, ◌≢◌, arith, bit_and, bit_or, ◌==◌, false,
}
use alcatraz.Prelude.Bits.{
  bit_or-shifted, bit_and-above, bit_and-dbl, bit_and-ones, ones, dbl, hlf, low-eq,
}
use alcatraz.Ept.Processor.{DescPtr}
use alcatraz.Vmx.Gdt.{
  Bytes, u16_at, u32_at, desc_at, base32, base64, limit20, access_rights, SystemSegment,
  ldtr_fields, tr_fields, get_desc_base, get_desc_access,
}

-- A descriptor: the access byte has the type, S, DPL and P, the flags are AVL, L, D and G.
pub record Segment : Type 0 where
  pub base : ℕ
  pub limit : ℕ
  pub access_byte : ℕ
  pub flags : ℕ

pub record IsSegment (d : Segment) : Type 0 where
  pub base_fits : d.base < 2 ^ 64
  pub limit_fits : d.limit < 2 ^ 20
  pub access_fits : d.access_byte < 2 ^ 8
  pub flags_fit : d.flags < 2 ^ 4

-- A descriptor of 16 bytes at an address, by the processor's layout.
pub record IsAt (mem : Bytes) (a : ℕ) (d : Segment) : Type 0 where
  pub limit_low : mem a ≡ d.limit % 256
  pub limit_mid : mem (a + 1) ≡ d.limit / 256 % 256
  pub base_0 : mem (a + 2) ≡ d.base % 256
  pub base_1 : mem (a + 3) ≡ d.base / 256 % 256
  pub base_2 : mem (a + 4) ≡ d.base / 2 ^ 16 % 256
  pub rights : mem (a + 5) ≡ d.access_byte
  pub limit_high : mem (a + 6) ≡ d.limit / 2 ^ 16 + d.flags * 16
  pub base_3 : mem (a + 7) ≡ d.base / 2 ^ 24 % 256
  pub base_4 : mem (a + 8) ≡ d.base / 2 ^ 32 % 256
  pub base_5 : mem (a + 9) ≡ d.base / 2 ^ 40 % 256
  pub base_6 : mem (a + 10) ≡ d.base / 2 ^ 48 % 256
  pub base_7 : mem (a + 11) ≡ d.base / 2 ^ 56

above : (k r h w : ℕ) → hlf k r ≡ 0 → dbl k h ≡ w → bit_or r w ≡ r + w
above k r h w fits e = rw (← e) (bit_or-shifted k r h fits)

pub above_16 : (r h : ℕ) → r < 2 ^ 16 → bit_or r (h * 2 ^ 16) ≡ r + h * 2 ^ 16
above_16 r h fits = above 16 r h _ (omega arith) (omega arith)

above_24 : (r h : ℕ) → r < 2 ^ 24 → bit_or r (h * 2 ^ 24) ≡ r + h * 2 ^ 24
above_24 r h fits = above 24 r h _ (omega arith) (omega arith)

above_32 : (r h : ℕ) → r < 2 ^ 32 → bit_or r (h * 2 ^ 32) ≡ r + h * 2 ^ 32
above_32 r h fits = above 32 r h _ (omega arith) (omega arith)

rights_mask : (a : ℕ) → bit_and a 0xF0FF ≡ a % 256 + a / 4096 % 16 * 4096
rights_mask a = omega (
  arith,
  bit_and-above 8 a 0xF0,
  bit_and-dbl 4 (hlf 8 a) (ones 4),
  bit_and-ones 4 (hlf 4 (hlf 8 a)),
)

module _ (mem : Bytes) (a : ℕ) (d : Segment) (v : IsSegment d) (l : IsAt mem a d) where
  open v use {base_fits, limit_fits, access_fits, flags_fit}
  open l use {
    limit_low, limit_mid, base_0, base_1, base_2, rights, limit_high, base_3, base_4, base_5,
    base_6, base_7,
  }

  at : (i j k : ℕ) → i + j ≡ k → mem (a + i + j) ≡ mem (a + k)
  at i j k e = ap mem (omega arith)

  low_base : bit_or (u16_at mem (a + 2)) (mem (a + 4) * 2 ^ 16) ≡ d.base % 2 ^ 24
  low_base = omega (
    arith,
    at 2 1 3 refl,
    above_16 (u16_at mem (a + 2)) (mem (a + 4)) (omega (arith, at 2 1 3 refl)),
  )

  pub base32-eq : base32 mem a ≡ d.base % 2 ^ 32
  base32-eq = rw low_base (omega (arith, above_24 (d.base % 2 ^ 24) (mem (a + 7)) (omega arith)))

  pub limit20-eq : limit20 mem a ≡ d.limit
  limit20-eq = omega (arith, above_16 (u16_at mem a) (mem (a + 6) % 16) (omega arith))

  pub access_rights-eq : access_rights mem a ≡ d.access_byte + d.flags * 4096
  access_rights-eq =
      omega (
        arith,
        at 4 1 5 refl,
        at 4 2 6 refl,
        at 4 3 7 refl,
        rights_mask (u32_at mem (a + 4) / 2 ^ 8),
      )

  pub base64-eq : base64 mem a ≡ d.base
  base64-eq = rw base32-eq (
      omega (
        arith,
        at 8 1 9 refl,
        at 8 2 10 refl,
        at 8 3 11 refl,
        above_32 (d.base % 2 ^ 32) (u32_at mem (a + 8)) (omega arith),
      ))

abbrev pub segment_of : Segment → SystemSegment
segment_of d = record {
  base_addr = d.base;
  limit = d.limit;
  access = d.access_byte + d.flags * 4096;
}

-- A selector of the GDT: the index of a descriptor, not the first one, and the privilege level in the
-- two low bits, with the bit between them, TI, clear.
pub record IsSelector (gdtr : DescPtr) (selector index rpl : ℕ) : Type 0 where
  pub parts : selector ≡ index * 8 + rpl
  pub not_null : index ≢ 0
  pub index_fits : index < 2 ^ 13
  pub rpl_fits : rpl < 4
  pub table_fits : gdtr.address + 2 ^ 16 ≤ 2 ^ 64

selector_masked :
    (index rpl : ℕ)
    → index < 2 ^ 13
    → rpl < 4
    → bit_and (index * 8 + rpl) 0xFFFF_FFFF_FFFF_FFFC ≡ index * 8
selector_masked index rpl fits low =
    let x : ℕ = index * 8 + rpl in
    omega (
      arith,
      bit_and-dbl 2 x (ones 62),
      bit_and-ones 62 (hlf 2 x),
      low-eq 62 (hlf 2 x) (omega arith),
    )

-- The code finds the descriptor whose number the selector has.
pub desc_at-eq :
    (gdtr : DescPtr) (selector index rpl : ℕ)
    → IsSelector gdtr selector index rpl
    → desc_at gdtr selector ≡ gdtr.address + index * 8
desc_at-eq gdtr selector index rpl v = rw v.parts (
    rw (selector_masked index rpl v.index_fits v.rpl_fits)
      (omega (arith, v.index_fits, v.table_fits)))

pub selector-used :
    (gdtr : DescPtr) (selector index rpl : ℕ)
    → IsSelector gdtr selector index rpl
    → (selector == 0) ≡ false
selector-used gdtr selector index rpl v = ground (arith, v.parts, v.not_null)

-- A selector of the GDT, with any privilege level and an index that is not 0, names the descriptor
-- with that index in the table, 8 bytes for each index. Where a descriptor of 16 bytes is there, it is
-- read back whole: LDTR and TR get its base of 64 bits, its limit of 20 bits and its access rights with
-- the flags above the byte, and a segment register gets the low 32 bits of the base and the same access
-- rights.
pub descriptor_read :
    (mem : Bytes) (gdtr : DescPtr) (selector index rpl : ℕ) (d : Segment)
    → IsSelector gdtr selector index rpl
    → IsSegment d
    → IsAt mem (gdtr.address + index * 8) d
    → (ldtr_fields mem gdtr selector ≡ segment_of d)
      × (tr_fields mem gdtr selector ≡ segment_of d)
      × (get_desc_base mem gdtr selector ≡ d.base % 2 ^ 32)
      × (get_desc_access mem gdtr selector ≡ d.access_byte + d.flags * 4096)
unfolding ldtr_fields tr_fields get_desc_base get_desc_access
descriptor_read mem gdtr selector index rpl d used v l =
    let a = gdtr.address + index * 8 in
    rw
      (
        selector-used gdtr selector index rpl used,
        desc_at-eq gdtr selector index rpl used,
        base64-eq mem a d v l,
        limit20-eq mem a d v l,
        access_rights-eq mem a d v l,
      )
      (refl, refl, base32-eq mem a d v l, refl)
