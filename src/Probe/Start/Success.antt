-- ===== src/Probe/Start/Success.antt =====
-- A processor that keeps to the manual: every instruction of hypervisor/hb_probe.c succeeds on it.
use alcatraz.Prelude.{
  ℕ, ◌≡◌, ◌≢◌, refl, ap, sym, ◌∙◌, Bool, true, false, ◌==◌, ◌&&◌, ◌%◌, ◌^◌, ◌<◌, if◌then◌else◌,
  List, [], ◌∷◌, Option, none, some, length, arith, if_true, ==_self, ltb,
}
use alcatraz.Probe.{Code, success, fail, eio, is_success, Hardware, Cpu, PercpuVmx, put}
use alcatraz.Probe.Guest.{GuestState, capture_guest_state, placeholder}
use alcatraz.Probe.Write.{
  write_field, write_fields, guest_fields, vmwrite_guest_state, check_field, probe_guest_state,
  probe_vmwrite, guest_cr3, vmcs_link_ptr,
}
use alcatraz.Probe.Write.Laws.{vmwrite_guest_state-IsPrefix}
use alcatraz.Probe.Regions.Count.{has}
use alcatraz.Probe.Start.{load_and_write, ready, start_cpu, out_keep_vmx}
use alcatraz.Probe.Start.Live.{IsAllowed, IsConsistent, IsEnabled, ready-IsAllowed}

-- The encodings of the guest's state, and of the link pointer.
abbrev pub encodings : List ℕ
encodings =
    0x6800 ∷ 0x6802 ∷ 0x6804 ∷ 0x681A ∷ 0x681C ∷ 0x681E ∷ 0x6820 ∷ 0x802 ∷ 0x804 ∷ 0x806 ∷ 0x800
    ∷ 0x808 ∷ 0x80A ∷ 0x80C ∷ 0x80E ∷ 0x6808 ∷ 0x680A ∷ 0x680C ∷ 0x6806 ∷ 0x680E ∷ 0x6810 ∷ 0x6812
    ∷ 0x6814 ∷ 0x4802 ∷ 0x4804 ∷ 0x4806 ∷ 0x4800 ∷ 0x4808 ∷ 0x480A ∷ 0x480C ∷ 0x480E ∷ 0x4816
    ∷ 0x4818 ∷ 0x481A ∷ 0x4814 ∷ 0x481C ∷ 0x481E ∷ 0x4820 ∷ 0x4822 ∷ 0x6816 ∷ 0x6818 ∷ 0x4810
    ∷ 0x4812 ∷ 0x2802 ∷ 0x482A ∷ 0x6824 ∷ 0x6826 ∷ 0x2804 ∷ 0x2806 ∷ 0x2800 ∷ 0x4824 ∷ 0x4826
    ∷ 0x4828 ∷ 0x6822 ∷ []

-- An address that VMXON, VMCLEAR and VMPTRLD can take: of a page, and of at most `width` bits.
pub record IsRegion (width a : ℕ) : Type 0 where
  pub used : a ≢ 0
  pub aligned : a % 4096 ≡ 0
  pub fits : a < 2 ^ width

-- The instructions, as the manual describes them: VMXON works in a state that it allows, VMCLEAR and
-- VMPTRLD in VMX operation for a region that is not the one of VMXON, where the region has the revision
-- of the processor; with a current VMCS the fields of the guest are written, and VMREAD reads what a
-- field holds. `width` is the number of bits of a physical address.
pub record IsManual (h : Hardware) (revision width : ℕ) : Type 0 where
  pub consistent : (cpu : ℕ) → IsConsistent h cpu
  pub vmxon :
      (cpu : ℕ) (c : Cpu) (region : ℕ)
      → IsAllowed h cpu c
      → IsRegion width region
      → h.vmxon_ok cpu c region revision ≡ true
  pub vmclear :
      (cpu : ℕ) (c : Cpu) (region : ℕ)
      → c.in_vmx ≡ true
      → IsRegion width region
      → region ≢ c.vmxon_pointer
      → h.vmclear_ok cpu c region revision ≡ true
  pub vmptrld :
      (cpu : ℕ) (c : Cpu) (region : ℕ)
      → c.in_vmx ≡ true
      → IsRegion width region
      → region ≢ c.vmxon_pointer
      → h.vmptrld_ok cpu c region revision ≡ true
  pub vmwrite :
      (cpu : ℕ) (c : Cpu) (f v : ℕ)
      → c.in_vmx ≡ true
      → c.current ≢ 0
      → has f encodings ≡ true
      → h.vmwrite_ok cpu c f v ≡ true
  pub vmread :
      (cpu : ℕ) (c : Cpu) (f : ℕ)
      → c.in_vmx ≡ true
      → c.current ≢ 0
      → has f encodings ≡ true
      → h.vmread cpu c f ≡ some (c.vmcs f)

abbrev are_encodings : List (ℕ × ℕ) → Bool
are_encodings [] = true
are_encodings (x ∷ xs) = has x.0 encodings && are_encodings xs

guest_fields-encodings : (g : GuestState) → are_encodings (guest_fields g) ≡ true
unfolding guest_fields
guest_fields-encodings g = refl

-- In VMX operation with a current VMCS.
abbrev pub IsReadyCpu : Cpu → Type 0
IsReadyCpu c = (c.in_vmx ≡ true) × (c.current ≢ 0)

module _ (h : Hardware) (revision width : ℕ) (m : IsManual h revision width) (cpu : ℕ) where
  write_fields-success :
      (fs : List (ℕ × ℕ)) (c : Cpu)
      → IsReadyCpu c
      → are_encodings fs ≡ true
      → (write_fields h cpu fs c).0 ≡ success
  unfolding write_fields write_field
  write_fields-success [] c r e = refl
  write_fields-success (f ∷ fs) c r e =
      rw (m.vmwrite cpu c f.0 f.1 r.0 r.1 (ground arith))
        (write_fields-success fs (record c { vmcs = put c.vmcs f.0 f.1 }) r (ground arith))

  check_field-success :
      (f v : ℕ) (c : Cpu)
      → IsReadyCpu c
      → has f encodings ≡ true
      → c.vmcs f ≡ v
      → check_field h cpu f v c ≡ success
  unfolding check_field
  check_field-success f v c r e same =
      ap (compared v) (m.vmread cpu c f r.0 r.1 e) ∙ rw same (rw (==_self v) refl)
    where
      compared : ℕ → Option ℕ → Code
      compared written none = fail
      compared written (some read_back) = if read_back == written then success else eio

  vmwrite_guest_state-success :
      (g : GuestState) (c : Cpu) → IsReadyCpu c → (vmwrite_guest_state h cpu g c).0 ≡ success
  unfolding vmwrite_guest_state
  vmwrite_guest_state-success g c r =
      write_fields-success (guest_fields g) c r (guest_fields-encodings g)

  cr3_written :
      (g : GuestState) (c : Cpu)
      → IsReadyCpu c
      → (vmwrite_guest_state h cpu g c).1.vmcs guest_cr3 ≡ g.cr3
  unfolding guest_fields
  cr3_written g c r =
      let ((k, p, most, whole), same) = vmwrite_guest_state-IsPrefix h cpu g c in
      let all : (k == length (guest_fields g)) ≡ true =
        sym whole ∙ ap is_success (vmwrite_guest_state-success g c r) in
      let past : ltb 1 k ≡ true = ground arith in p 1 (guest_cr3, g.cr3) refl ∙ rw past refl

  stays : (c c' : Cpu) → IsReadyCpu c → c' ≡ record c { vmcs = c'.vmcs } → IsReadyCpu c'
  stays c c' r same =
      (ap (λ (x : Cpu). x.in_vmx) same ∙ r.0, λ z. r.1 (sym (ap (λ (x : Cpu). x.current) same) ∙ z))

  probe_guest_state-success : (c : Cpu) → IsReadyCpu c → (probe_guest_state h cpu c).0 ≡ success
  unfolding probe_guest_state
  probe_guest_state-success c r =
      let g = capture_guest_state h cpu c in
      let written = vmwrite_guest_state h cpu g c in
      let after = stays c written.1 r (vmwrite_guest_state-IsPrefix h cpu g c).1 in
      rw
        (if_true (check_field h cpu guest_cr3 g.cr3 written.1, written.1) written
          (ap is_success (vmwrite_guest_state-success g c r)))
        (check_field-success guest_cr3 g.cr3 written.1 after refl (cr3_written g c r))

  probe_vmwrite-success : (c : Cpu) → IsReadyCpu c → (probe_vmwrite h cpu c).0 ≡ success
  unfolding probe_vmwrite write_field
  probe_vmwrite-success c r =
      let linked : Cpu = record c { vmcs = put c.vmcs vmcs_link_ptr placeholder } in
      rw (m.vmwrite cpu c vmcs_link_ptr placeholder r.0 r.1 refl) (
        rw
          (if_true (probe_guest_state h cpu linked)
            (check_field h cpu vmcs_link_ptr placeholder linked, linked)
            (ap is_success (check_field-success vmcs_link_ptr placeholder linked r refl refl)))
          (probe_guest_state-success linked r))

  -- Where the regions have the revision, the whole sequence on a processor succeeds.
  pub start_cpu-success :
      (c : Cpu) (pc : PercpuVmx)
      → IsEnabled h cpu
      → c.in_vmx ≡ false
      → IsRegion width pc.vmxon_region
      → IsRegion width pc.vmcs_region
      → pc.vmcs_region ≢ pc.vmxon_region
      → (start_cpu h cpu revision revision c pc).failed ≡ false
  unfolding start_cpu load_and_write out_keep_vmx
  start_cpu-success c pc firmware off on vmcs apart =
      let on_cpu : Cpu = record (ready h cpu c) {
        in_vmx = true;
        vmxon_pointer = pc.vmxon_region;
      } in
      let loaded : Cpu = record on_cpu { current = pc.vmcs_region } in
      rw
        (
          m.vmxon cpu (ready h cpu c) pc.vmxon_region
              (ready-IsAllowed h cpu c (m.consistent cpu) firmware off) on,
          m.vmclear cpu on_cpu pc.vmcs_region refl vmcs apart,
          m.vmptrld cpu on_cpu pc.vmcs_region refl vmcs apart,
          probe_vmwrite-success loaded (refl, vmcs.used),
        )
        refl
