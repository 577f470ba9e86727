-- ===== src/Probe/Guest.antt =====
-- The guest's state that hypervisor/hb_probe.c takes from the processor.
pub mod Laws
use alcatraz.Prelude.{ℕ, ◌+◌, ◌*◌, ◌/◌, ◌%◌, ◌^◌, ◌==◌, if◌then◌else◌, bit_and, bit_or}
use alcatraz.Vmx.Gdt.{Bytes, SystemSegment, u16_at, u32_at, desc_at, base32, access_rights}
use alcatraz.Ept.Processor.{DescPtr}
use alcatraz.Probe.{Hardware, Cpu}

-- `struct hb_probe_guest_state`.
pub record GuestState : Type 0 where
  pub cr0 : ℕ
  pub cr3 : ℕ
  pub cr4 : ℕ
  pub dr7 : ℕ
  pub rsp : ℕ
  pub rip : ℕ
  pub rflags : ℕ
  pub cs_sel : ℕ
  pub ss_sel : ℕ
  pub ds_sel : ℕ
  pub es_sel : ℕ
  pub fs_sel : ℕ
  pub gs_sel : ℕ
  pub ldtr_sel : ℕ
  pub tr_sel : ℕ
  pub cs_base : ℕ
  pub ss_base : ℕ
  pub ds_base : ℕ
  pub es_base : ℕ
  pub fs_base : ℕ
  pub gs_base : ℕ
  pub cs_lim : ℕ
  pub ss_lim : ℕ
  pub ds_lim : ℕ
  pub es_lim : ℕ
  pub fs_lim : ℕ
  pub gs_lim : ℕ
  pub cs_ar : ℕ
  pub ss_ar : ℕ
  pub ds_ar : ℕ
  pub es_ar : ℕ
  pub fs_ar : ℕ
  pub gs_ar : ℕ
  pub ldtr : SystemSegment
  pub tr : SystemSegment
  pub gdtr_base : ℕ
  pub idtr_base : ℕ
  pub gdtr_lim : ℕ
  pub idtr_lim : ℕ
  pub sysenter_cs : ℕ
  pub sysenter_esp : ℕ
  pub sysenter_eip : ℕ
  pub debugctl : ℕ
  pub pat : ℕ
  pub efer : ℕ
  pub vmcs_link_ptr : ℕ

unfoldable pub gdt_desc_base : Bytes → DescPtr → ℕ → ℕ
gdt_desc_base mem gdtr selector = if selector == 0 then 0 else base32 mem (desc_at gdtr selector)

unfoldable pub gdt_desc_access : Bytes → DescPtr → ℕ → ℕ
gdt_desc_access mem gdtr selector =
    if selector == 0 then 0x10000 else access_rights mem (desc_at gdtr selector)

-- `struct hb_ldttss_desc64` has the byte `limit1` at offset 5 and `limit2` at offset 6.
unfoldable pub ldtr_tr_fields : Bytes → DescPtr → ℕ → SystemSegment
ldtr_tr_fields mem gdtr selector =
    if selector == 0
    then record { base_addr = 0; limit = 0; access = 0x10000 }
    else let ent = desc_at gdtr selector in
      record {
        base_addr = bit_or (base32 mem ent) (u32_at mem (ent + 8) * 2 ^ 32);
        limit = bit_or (u16_at mem ent) (mem (ent + 5) * 2 ^ 16);
        access = access_rights mem ent;
      }

-- `HB_GUEST_RIP_RSP_PLACEHOLDER`, which is also the link pointer of no VMCS.
abbrev pub placeholder : ℕ
placeholder = 0xFFFF_FFFF_FFFF_FFFF

unfoldable pub capture_guest_state : Hardware → ℕ → Cpu → GuestState
capture_guest_state h cpu c =
    let r = h.registers cpu in
    let base = gdt_desc_base h.mem r.gdtr in
    let ar = gdt_desc_access h.mem r.gdtr in
    record {
      cr0 = c.cr0;
      cr3 = r.cr3;
      cr4 = c.cr4;
      dr7 = r.dr7;
      rsp = placeholder;
      rip = placeholder;
      rflags = r.rflags;
      cs_sel = r.cs;
      ss_sel = r.ss;
      ds_sel = r.ds;
      es_sel = r.es;
      fs_sel = r.fs;
      gs_sel = r.gs;
      ldtr_sel = r.ldtr;
      tr_sel = r.tr;
      cs_base = base r.cs;
      ss_base = base r.ss;
      ds_base = base r.ds;
      es_base = base r.es;
      fs_base = h.rdmsr cpu 0xC0000100;
      gs_base = h.rdmsr cpu 0xC0000101;
      cs_lim = 0xFFFFFFFF;
      ss_lim = 0xFFFFFFFF;
      ds_lim = 0xFFFFFFFF;
      es_lim = 0xFFFFFFFF;
      fs_lim = 0xFFFFFFFF;
      gs_lim = 0xFFFFFFFF;
      cs_ar = ar r.cs;
      ss_ar = ar r.ss;
      ds_ar = ar r.ds;
      es_ar = ar r.es;
      fs_ar = ar r.fs;
      gs_ar = ar r.gs;
      ldtr = ldtr_tr_fields h.mem r.gdtr r.ldtr;
      tr =
          (if r.tr == 0
            then record { base_addr = 0; limit = 0; access = 0 }
            else ldtr_tr_fields h.mem r.gdtr r.tr);
      gdtr_base = r.gdtr.address;
      idtr_base = r.idtr.address;
      gdtr_lim = r.gdtr.size;
      idtr_lim = r.idtr.size;
      sysenter_cs = h.rdmsr cpu 0x174;
      sysenter_esp = h.rdmsr cpu 0x175;
      sysenter_eip = h.rdmsr cpu 0x176;
      debugctl = 0;
      pat = h.rdmsr cpu 0x277;
      efer = h.rdmsr cpu 0xC0000080;
      vmcs_link_ptr = placeholder;
    }
