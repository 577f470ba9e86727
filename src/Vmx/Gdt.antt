-- ===== src/Vmx/Gdt.antt =====
-- Segment descriptors in memory: `hb_get_desc_base` and `hb_get_desc_access`, and how
-- `hb_setup_vm_guest_register` reads the descriptors of LDTR and TR, of
-- Source/hyper_box/hypervisor.c.
pub mod Laws
use alcatraz.Prelude.{ℕ, ◌+◌, ◌*◌, ◌/◌, ◌%◌, ◌^◌, ◌==◌, if◌then◌else◌, bit_and, bit_or}
use alcatraz.Vmx.Registers.{not64}
use alcatraz.Ept.Processor.{DescPtr}

-- The byte at each linear address.
abbrev pub Bytes : Type 0
Bytes = ℕ → ℕ

abbrev pub u16_at : Bytes → ℕ → ℕ
u16_at mem a = mem a + mem (a + 1) * 256

abbrev pub u32_at : Bytes → ℕ → ℕ
u32_at mem a = mem a + mem (a + 1) * 2 ^ 8 + mem (a + 2) * 2 ^ 16 + mem (a + 3) * 2 ^ 24

-- `gdtr.address + (selector & ~MASK_GDT_ACCESS)`.
abbrev pub desc_at : DescPtr → ℕ → ℕ
desc_at gdtr selector = (gdtr.address + bit_and selector (not64 3)) % 2 ^ 64

-- `base0 | (base1 << 16) | (base2 << 24)`, the fields of `struct desc_struct`.
abbrev pub base32 : Bytes → ℕ → ℕ
base32 mem gdt =
    bit_or (bit_or (u16_at mem (gdt + 2)) (mem (gdt + 4) * 2 ^ 16)) (mem (gdt + 7) * 2 ^ 24)

-- The same with `base3 << 32`, the field of `LDTTSS_DESC`.
abbrev pub base64 : Bytes → ℕ → ℕ
base64 mem gdt = bit_or (base32 mem gdt) (u32_at mem (gdt + 8) * 2 ^ 32)

-- `limit0 | (limit1 << 16)`, where `limit1` is a field of four bits.
abbrev pub limit20 : Bytes → ℕ → ℕ
limit20 mem gdt = bit_or (u16_at mem gdt) (mem (gdt + 6) % 16 * 2 ^ 16)

-- `(*((u32*)gdt + 1) >> 8) & 0xF0FF`.
abbrev pub access_rights : Bytes → ℕ → ℕ
access_rights mem gdt = bit_and (u32_at mem (gdt + 4) / 2 ^ 8) 0xF0FF

unfoldable pub get_desc_base : Bytes → DescPtr → ℕ → ℕ
get_desc_base mem gdtr offset = if offset == 0 then 0 else base32 mem (desc_at gdtr offset)

unfoldable pub get_desc_access : Bytes → DescPtr → ℕ → ℕ
get_desc_access mem gdtr offset =
    if offset == 0 then 0x10000 else access_rights mem (desc_at gdtr offset)

-- What is read of the descriptor of LDTR or TR.
pub record SystemSegment : Type 0 where
  pub base_addr : ℕ
  pub limit : ℕ
  pub access : ℕ

unfoldable pub ldtr_fields : Bytes → DescPtr → ℕ → SystemSegment
ldtr_fields mem gdtr selector =
    if selector == 0 then record { base_addr = 0; limit = 0; access = 0x10000 } else record {
      base_addr = base64 mem (desc_at gdtr selector);
      limit = limit20 mem (desc_at gdtr selector);
      access = access_rights mem (desc_at gdtr selector);
    }

unfoldable pub tr_fields : Bytes → DescPtr → ℕ → SystemSegment
tr_fields mem gdtr selector =
    if selector == 0 then record { base_addr = 0; limit = 0; access = 0 } else record {
      base_addr = base64 mem (desc_at gdtr selector);
      limit = limit20 mem (desc_at gdtr selector);
      access = access_rights mem (desc_at gdtr selector);
    }
