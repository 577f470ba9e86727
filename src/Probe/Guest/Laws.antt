-- ===== src/Probe/Guest/Laws.antt =====
-- The descriptors as hypervisor/hb_probe.c reads them, against Source/hyper_box/hypervisor.c.
use alcatraz.Prelude.{ℕ, ◌+◌, ◌*◌, ◌/◌, ◌%◌, ◌^◌, ◌≡◌, ◌↔◌, refl, arith, bit_or}
use alcatraz.Ept.Processor.{DescPtr}
use alcatraz.Vmx.Gdt.{Bytes, u16_at}
use alcatraz.Vmx.Gdt.Laws.{
  Segment, IsSegment, IsAt, above_16, IsSelector, desc_at-eq, selector-used, segment_of, base32-eq,
  base64-eq, access_rights-eq,
}
use alcatraz.Probe.Guest.{gdt_desc_base, gdt_desc_access, ldtr_tr_fields}

-- The limit that is read when the byte of the access rights stands for the high bits of the limit.
abbrev pub wrong_limit : Segment → ℕ
wrong_limit d = d.limit % 2 ^ 16 + d.access_byte * 2 ^ 16

wrong_limit-eq :
    (mem : Bytes) (a : ℕ) (d : Segment)
    → IsSegment d
    → IsAt mem a d
    → bit_or (u16_at mem a) (mem (a + 5) * 2 ^ 16) ≡ wrong_limit d
wrong_limit-eq mem a d v l = omega (
  arith,
  v.limit_fits,
  v.access_fits,
  l.limit_low,
  l.limit_mid,
  l.rights,
  above_16 (u16_at mem a) (mem (a + 5)) (omega (arith, v.limit_fits, l.limit_low, l.limit_mid)),
)

-- Where a selector of the GDT, with an index that is not 0, names a descriptor of 16 bytes: the module
-- reads its base and its access rights as they are, and those of a segment register are the low 32 bits
-- of the base and the access rights. The limit of a system segment is wrong: it has the access byte of
-- the descriptor above its low 16 bits, so it is the descriptor's only where that byte is the same
-- number as the high bits of the limit.
pub ldtr_tr_fields-eq :
    (mem : Bytes) (gdtr : DescPtr) (selector index rpl : ℕ) (d : Segment)
    → IsSelector gdtr selector index rpl
    → IsSegment d
    → IsAt mem (gdtr.address + index * 8) d
    → (gdt_desc_base mem gdtr selector ≡ d.base % 2 ^ 32)
      × (gdt_desc_access mem gdtr selector ≡ d.access_byte + d.flags * 4096)
      × (ldtr_tr_fields mem gdtr selector ≡ record (segment_of d) { limit = wrong_limit d })
      × (((ldtr_tr_fields mem gdtr selector).limit ≡ d.limit) ↔ (d.access_byte ≡ d.limit / 2 ^ 16))
unfolding gdt_desc_base gdt_desc_access ldtr_tr_fields
ldtr_tr_fields-eq mem gdtr selector index rpl d used v l =
    let a = gdtr.address + index * 8 in
    rw
      (
        selector-used gdtr selector index rpl used,
        desc_at-eq gdtr selector index rpl used,
        wrong_limit-eq mem a d v l,
        base64-eq mem a d v l,
        access_rights-eq mem a d v l,
      )
      (
        base32-eq mem a d v l,
        refl,
        refl,
        (λ e. omega (arith, v.limit_fits), λ e. omega (arith, v.limit_fits)),
      )
