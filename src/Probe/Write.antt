-- ===== src/Probe/Write.antt =====
-- VMWRITE and VMREAD in hypervisor/hb_probe.c: the guest's state is written field by field.
pub mod Laws
use alcatraz.Prelude.{
  ℕ, ◌==◌, Bool, true, false, if◌then◌else◌, List, [], ◌∷◌, Option, none, some, map,
}
use alcatraz.Probe.{Code, success, fail, eio, is_success, Cpu, Hardware, put}
use alcatraz.Probe.Guest.{GuestState, capture_guest_state, placeholder}

abbrev pub vmcs_link_ptr : ℕ
vmcs_link_ptr = 0x2800

abbrev pub guest_cr3 : ℕ
guest_cr3 = 0x6802

-- `hb_write_vmcs`, and the wrapper of the module that also prints.
unfoldable pub write_field : Hardware → ℕ → ℕ → ℕ → Cpu → Code × Cpu
write_field h cpu field value c =
    if h.vmwrite_ok cpu c field value
    then (success, record c { vmcs = put c.vmcs field value })
    else (fail, c)

-- The first write that fails ends the sequence with its result.
unfoldable pub write_fields : Hardware → ℕ → List (ℕ × ℕ) → Cpu → Code × Cpu
write_fields h cpu [] c = (success, c)
write_fields h cpu (f ∷ fs) c =
    let (ret, c') = write_field h cpu f.0 f.1 c in
    let rest = write_fields h cpu fs c' in if is_success ret then rest else (ret, c')

-- The encodings and values of `hb_probe_vmwrite_guest_state`, in its order.
unfoldable pub guest_fields : GuestState → List (ℕ × ℕ)
guest_fields g =
    (0x6800, g.cr0)
    ∷ (0x6802, g.cr3)
    ∷ (0x6804, g.cr4)
    ∷ (0x681A, g.dr7)
    ∷ (0x681C, g.rsp)
    ∷ (0x681E, g.rip)
    ∷ (0x6820, g.rflags)
    ∷ (0x802, g.cs_sel)
    ∷ (0x804, g.ss_sel)
    ∷ (0x806, g.ds_sel)
    ∷ (0x800, g.es_sel)
    ∷ (0x808, g.fs_sel)
    ∷ (0x80A, g.gs_sel)
    ∷ (0x80C, g.ldtr_sel)
    ∷ (0x80E, g.tr_sel)
    ∷ (0x6808, g.cs_base)
    ∷ (0x680A, g.ss_base)
    ∷ (0x680C, g.ds_base)
    ∷ (0x6806, g.es_base)
    ∷ (0x680E, g.fs_base)
    ∷ (0x6810, g.gs_base)
    ∷ (0x6812, g.ldtr.base_addr)
    ∷ (0x6814, g.tr.base_addr)
    ∷ (0x4802, g.cs_lim)
    ∷ (0x4804, g.ss_lim)
    ∷ (0x4806, g.ds_lim)
    ∷ (0x4800, g.es_lim)
    ∷ (0x4808, g.fs_lim)
    ∷ (0x480A, g.gs_lim)
    ∷ (0x480C, g.ldtr.limit)
    ∷ (0x480E, g.tr.limit)
    ∷ (0x4816, g.cs_ar)
    ∷ (0x4818, g.ss_ar)
    ∷ (0x481A, g.ds_ar)
    ∷ (0x4814, g.es_ar)
    ∷ (0x481C, g.fs_ar)
    ∷ (0x481E, g.gs_ar)
    ∷ (0x4820, g.ldtr.access)
    ∷ (0x4822, g.tr.access)
    ∷ (0x6816, g.gdtr_base)
    ∷ (0x6818, g.idtr_base)
    ∷ (0x4810, g.gdtr_lim)
    ∷ (0x4812, g.idtr_lim)
    ∷ (0x2802, g.debugctl)
    ∷ (0x482A, g.sysenter_cs)
    ∷ (0x6824, g.sysenter_esp)
    ∷ (0x6826, g.sysenter_eip)
    ∷ (0x2804, g.pat)
    ∷ (0x2806, g.efer)
    ∷ (0x2800, g.vmcs_link_ptr)
    ∷ (0x4824, 0)
    ∷ (0x4826, 0)
    ∷ (0x4828, 0)
    ∷ (0x6822, 0)
    ∷ []

unfoldable pub vmwrite_guest_state : Hardware → ℕ → GuestState → Cpu → Code × Cpu
vmwrite_guest_state h cpu g c = write_fields h cpu (guest_fields g) c

-- A VMREAD and the comparison with what was written.
unfoldable pub check_field : Hardware → ℕ → ℕ → ℕ → Cpu → Code
check_field h cpu field written c = elim (h.vmread cpu c field) [
  | none ↦ fail
  | some read_back ↦ if read_back == written then success else eio
]

unfoldable pub probe_guest_state : Hardware → ℕ → Cpu → Code × Cpu
probe_guest_state h cpu c =
    let gst = capture_guest_state h cpu c in
    let (ret, c') = vmwrite_guest_state h cpu gst c in
    if is_success ret then (check_field h cpu guest_cr3 gst.cr3 c', c') else (ret, c')

unfoldable pub probe_vmwrite : Hardware → ℕ → Cpu → Code × Cpu
probe_vmwrite h cpu c =
    let (ret, c') = write_field h cpu vmcs_link_ptr placeholder c in
    let checked = check_field h cpu vmcs_link_ptr placeholder c' in
    if is_success ret
    then (if is_success checked then probe_guest_state h cpu c' else (checked, c'))
    else (ret, c')
