-- ===== src/Vmx/Setup/Controls.antt =====
-- The controls in the VMCS after `hb_setup_vmcs` of Source/hyper_box/hypervisor.c.
use alcatraz.Prelude.{ℕ, ◌≡◌, refl, ◌∙◌, Bool, true, false, if◌then◌else◌, some, get_elem?}
use alcatraz.Vmx.Controls.{ControlRegister}
use alcatraz.Vmx.Setup.{HostRegister, VmGuestRegister}
use alcatraz.Vmx.Setup.Laws.{untouched, setup_vmcs-field}
use alcatraz.Vmx.Setup.Fields.{
  host_fields, vm_guest_fields, control_fields, vmcs_fields, setup_vmcs,
}

-- What `g_support_vpid` is where VPIDs are used, and where not.
abbrev pub vpid_of : Bool → ℕ
vpid_of used = if used then 1 else 0

module _ (accepts : ℕ → Bool) (h : HostRegister) (g : VmGuestRegister) (c : ControlRegister)
    (pre_timer : ℕ) (vpid : Bool) (vmcs : ℕ → ℕ) where
  -- A field has a value where the processor accepts the field, and stays where it does not.
  abbrev pub Holds : ℕ → ℕ → Type 0
  Holds f v =
      setup_vmcs accepts h g c pre_timer (vpid_of vpid) vmcs f ≡ (if accepts f then v else vmcs f)

  abbrev pub AreControls : Type 0
  AreControls =
      Holds 0x4000 c.pin_based_ctrl
      × Holds 0x4002 c.pri_proc_based_ctrl
      × Holds 0x401E c.sec_proc_based_ctrl
      × Holds 0x4004 c.except_bitmap
      × Holds 0x2000 c.io_bitmap_addr_a
      × Holds 0x2002 c.io_bitmap_addr_b
      × Holds 0x201A c.ept_ptr
      × Holds 0x2004 c.msr_bitmap_addr
      × Holds 0x2026 c.vmread_bitmap_addr
      × Holds 0x2028 c.vmwrite_bitmap_addr
      × Holds 0x4012 c.vm_entry_ctrl_field
      × Holds 0x400C c.vm_exti_ctrl_field
      × Holds 0x2012 c.virt_apic_page_addr
      × Holds 0x6000 c.cr0_guest_host_mask
      × Holds 0x6002 c.cr4_guest_host_mask
      × Holds 0x6004 c.cr0_read_shadow
      × Holds 0x6006 c.cr4_read_shadow
      × Holds 0x400A 0
      × Holds 0 (if vpid then 0xFFFF else vmcs 0)

module _ (accepts : ℕ → Bool) (h : HostRegister) (g : VmGuestRegister) (c : ControlRegister)
    (pre_timer : ℕ) (vmcs : ℕ → ℕ) where
  at_control :
      (support_vpid i : ℕ) (x : ℕ × ℕ)
      → get_elem? (vmcs_fields h g c pre_timer support_vpid) i ≡ some x
      → setup_vmcs accepts h g c pre_timer support_vpid vmcs x.0
        ≡ (if accepts x.0 then x.1 else vmcs x.0)
  at_control support_vpid = setup_vmcs-field accepts h g c pre_timer support_vpid vmcs

  same_either_way : (b : Bool) (v : ℕ) → v ≡ (if b then v else v)
  same_either_way true v = refl
  same_either_way false v = refl

  no_vpid : setup_vmcs accepts h g c pre_timer 0 vmcs 0 ≡ vmcs 0
  unfolding setup_vmcs vmcs_fields host_fields vm_guest_fields control_fields
  no_vpid = untouched accepts 0 (vmcs_fields h g c pre_timer 0) vmcs refl

-- Each control that `hb_setup_vm_control_register` has computed is in its field of the VMCS, by the
-- manual's encodings: the pin-based, the primary and the secondary controls, the exception bitmap, the
-- addresses of the bitmaps of I/O ports, MSRs and VMCS fields, of the EPT and of the page of the virtual
-- APIC, the controls of entry and exit, the masks and the shadows of CR0 and CR4; no target of CR3 is
-- counted, and the VPID is 0xFFFF where VPIDs are used and is left alone where not. This holds for each
-- field that the processor accepts, with or without VPIDs; one that it refuses stays as it was.
pub controls_in_place :
    (accepts : ℕ → Bool) (h : HostRegister) (g : VmGuestRegister) (c : ControlRegister)
    (pre_timer : ℕ) (vpid : Bool) (vmcs : ℕ → ℕ)
    → AreControls accepts h g c pre_timer vpid vmcs
unfolding vmcs_fields host_fields vm_guest_fields control_fields
controls_in_place accepts h g c pre_timer true vmcs =
    let at = at_control accepts h g c pre_timer vmcs 1 in
    (
      at 80 (0x4000, c.pin_based_ctrl) refl,
      at 81 (0x4002, c.pri_proc_based_ctrl) refl,
      at 82 (0x401E, c.sec_proc_based_ctrl) refl,
      at 83 (0x4004, c.except_bitmap) refl,
      at 84 (0x2000, c.io_bitmap_addr_a) refl,
      at 85 (0x2002, c.io_bitmap_addr_b) refl,
      at 86 (0x201A, c.ept_ptr) refl,
      at 87 (0x2004, c.msr_bitmap_addr) refl,
      at 88 (0x2026, c.vmread_bitmap_addr) refl,
      at 89 (0x2028, c.vmwrite_bitmap_addr) refl,
      at 90 (0x4012, c.vm_entry_ctrl_field) refl,
      at 91 (0x400C, c.vm_exti_ctrl_field) refl,
      at 92 (0x2012, c.virt_apic_page_addr) refl,
      at 93 (0x6000, c.cr0_guest_host_mask) refl,
      at 94 (0x6002, c.cr4_guest_host_mask) refl,
      at 95 (0x6004, c.cr0_read_shadow) refl,
      at 96 (0x6006, c.cr4_read_shadow) refl,
      at 103 (0x400A, 0) refl,
      at 79 (0, 0xFFFF) refl,
    )
controls_in_place accepts h g c pre_timer false vmcs =
    let at = at_control accepts h g c pre_timer vmcs 0 in
    (
      at 79 (0x4000, c.pin_based_ctrl) refl,
      at 80 (0x4002, c.pri_proc_based_ctrl) refl,
      at 81 (0x401E, c.sec_proc_based_ctrl) refl,
      at 82 (0x4004, c.except_bitmap) refl,
      at 83 (0x2000, c.io_bitmap_addr_a) refl,
      at 84 (0x2002, c.io_bitmap_addr_b) refl,
      at 85 (0x201A, c.ept_ptr) refl,
      at 86 (0x2004, c.msr_bitmap_addr) refl,
      at 87 (0x2026, c.vmread_bitmap_addr) refl,
      at 88 (0x2028, c.vmwrite_bitmap_addr) refl,
      at 89 (0x4012, c.vm_entry_ctrl_field) refl,
      at 90 (0x400C, c.vm_exti_ctrl_field) refl,
      at 91 (0x2012, c.virt_apic_page_addr) refl,
      at 92 (0x6000, c.cr0_guest_host_mask) refl,
      at 93 (0x6002, c.cr4_guest_host_mask) refl,
      at 94 (0x6004, c.cr0_read_shadow) refl,
      at 95 (0x6006, c.cr4_read_shadow) refl,
      at 102 (0x400A, 0) refl,
      no_vpid accepts h g c pre_timer vmcs
          ∙ same_either_way accepts h g c pre_timer vmcs (accepts 0) (vmcs 0),
    )
