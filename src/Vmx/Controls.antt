-- ===== src/Vmx/Controls.antt =====
-- The controls of the guest's VMCS: `hb_setup_vm_control_register` and
-- `hb_vm_set_vmread_vmwrite_bitmap` of Source/hyper_box/hypervisor.c, built as hyper_box.h sets it
-- (HYPERBOX_USE_EPT, _HW_BREAKPOINT, _VPID and _VMCS_SHADOWING, without the timer and the protection
-- of MSRs). The address of a bitmap or of a page is an argument, its content a function.
pub mod Laws
pub mod Fields
use alcatraz.Prelude.{ℕ, ◌/◌, ◌%◌, ◌^◌, ◌==◌, ◌&&◌, not, Bool, if◌then◌else◌, bit_and, bit_or}
use alcatraz.Vmx.Nested.{vm_host_rip, vm_host_rsp, vm_host_cr3}

-- The bytes of the two bitmaps.
pub record FieldBitmaps : Type 0 where
  pub vmread : ℕ → ℕ
  pub vmwrite : ℕ → ℕ

abbrev pub set_bit : (ℕ → ℕ) → ℕ → (ℕ → ℕ)
set_bit bitmap number =
    λ a. if a == number / 8 then bit_or (bitmap a) (2 ^ (number % 8) % 256) else bitmap a

unfoldable pub set_vmread_vmwrite_bitmap : FieldBitmaps → ℕ → FieldBitmaps
set_vmread_vmwrite_bitmap b field_number = record {
  vmread = set_bit b.vmread field_number;
  vmwrite = set_bit b.vmwrite field_number;
}

-- The bitmaps after `memset` and the three calls for nested hypervisors.
unfoldable pub nested_bitmaps : FieldBitmaps
nested_bitmaps =
    set_vmread_vmwrite_bitmap
      (set_vmread_vmwrite_bitmap
        (set_vmread_vmwrite_bitmap (record { vmread = λ a. 0; vmwrite = λ a. 0 }) vm_host_rip)
        vm_host_rsp)
      vm_host_cr3

-- `struct hb_vm_control_register`.
pub record ControlRegister : Type 0 where
  pub pin_based_ctrl : ℕ
  pub pri_proc_based_ctrl : ℕ
  pub sec_proc_based_ctrl : ℕ
  pub except_bitmap : ℕ
  pub io_bitmap_addr_a : ℕ
  pub io_bitmap_addr_b : ℕ
  pub ept_ptr : ℕ
  pub msr_bitmap_addr : ℕ
  pub vm_entry_ctrl_field : ℕ
  pub vm_exti_ctrl_field : ℕ
  pub virt_apic_page_addr : ℕ
  pub cr0_guest_host_mask : ℕ
  pub cr0_read_shadow : ℕ
  pub cr4_guest_host_mask : ℕ
  pub cr4_read_shadow : ℕ
  pub vmread_bitmap_addr : ℕ
  pub vmwrite_bitmap_addr : ℕ

-- What the set-up reads: the MSRs, `virt_to_phys` and the pages of this processor.
pub record Platform : Type 0 where
  pub rdmsr : ℕ → ℕ
  pub virt_to_phys : ℕ → ℕ
  pub support_xsave : ℕ
  pub io_bitmap_a : ℕ
  pub io_bitmap_b : ℕ
  pub msr_bitmap : ℕ
  pub vmread_bitmap : ℕ
  pub vmwrite_bitmap : ℕ
  pub virt_apic_page : ℕ
  pub pml4_page : ℕ

abbrev pub msr_ia32_vmx_procbased_ctls2 : ℕ
msr_ia32_vmx_procbased_ctls2 = 0x48B

-- The upper half of the MSR allows a control.
abbrev pub allows : Platform → ℕ → Bool
allows p flag = not (bit_and (p.rdmsr msr_ia32_vmx_procbased_ctls2 / 2 ^ 32) flag == 0)

abbrev pub optional : Bool → ℕ → ℕ
optional supported flag = if supported then flag else 0

abbrev pub enable_invpcid : ℕ
enable_invpcid = 0x1000

abbrev pub enable_xsave : ℕ
enable_xsave = 0x100000

abbrev pub enable_rdtscp : ℕ
enable_rdtscp = 8

abbrev pub vmcs_shadowing : ℕ
vmcs_shadowing = 0x4000

abbrev pub enable_vpid : ℕ
enable_vpid = 0x20

-- `sec_flags`: UNREST_GUEST and USE_EPT, and what the processor allows.
unfoldable pub sec_flags : Platform → ℕ
sec_flags p =
    let base = bit_or 0x80 2 in
    let with_invpcid = bit_or base (optional (allows p enable_invpcid) enable_invpcid) in
    let with_xsave =
      bit_or with_invpcid (optional (p.support_xsave == 1 && allows p enable_xsave) enable_xsave) in
    let with_rdtscp = bit_or with_xsave (optional (allows p enable_rdtscp) enable_rdtscp) in
    let with_shadowing = bit_or with_rdtscp (optional (allows p vmcs_shadowing) vmcs_shadowing) in
    bit_or with_shadowing (optional (allows p enable_vpid) enable_vpid)

-- The controls, and what `g_support_vmcs_shadowing` and `g_support_vpid` are afterwards.
unfoldable pub setup_vm_control_register : Platform → ℕ → ℕ → ControlRegister × ℕ × ℕ
setup_vm_control_register p support_vmcs_shadowing support_vpid = (
  record {
    pin_based_ctrl = bit_and (p.rdmsr 0x48D) 0xFFFFFFFF;
    pri_proc_based_ctrl =
        bit_and
          (bit_or (bit_or (bit_or (bit_or (p.rdmsr 0x48E) 0x2000000) 0x10000000) 0x80000000)
            0x800000)
          0xFFFFFFFF;
    sec_proc_based_ctrl =
        bit_and (bit_or (p.rdmsr msr_ia32_vmx_procbased_ctls2) (sec_flags p)) 0xFFFFFFFF;
    except_bitmap = 2;
    io_bitmap_addr_a = p.virt_to_phys p.io_bitmap_a;
    io_bitmap_addr_b = p.virt_to_phys p.io_bitmap_b;
    ept_ptr = bit_or (bit_or (p.virt_to_phys p.pml4_page) 0x18) 6;
    msr_bitmap_addr = p.virt_to_phys p.msr_bitmap;
    vm_entry_ctrl_field = bit_and (bit_or (bit_or (p.rdmsr 0x490) 0x200) 4) 0xFFFFFFFF;
    vm_exti_ctrl_field =
        bit_and (bit_or (bit_or (bit_or (p.rdmsr 0x48F) 0x200) 4) 0x100000) 0xFFFFFFFF;
    virt_apic_page_addr = p.virt_to_phys p.virt_apic_page;
    cr0_guest_host_mask = 0x10000;
    cr0_read_shadow = 0x10000;
    cr4_guest_host_mask = bit_or (bit_or 0x2000 0x100000) 0x40;
    cr4_read_shadow = bit_or 0x2000 0x100000;
    vmread_bitmap_addr = p.virt_to_phys p.vmread_bitmap;
    vmwrite_bitmap_addr = p.virt_to_phys p.vmwrite_bitmap;
  },
  (if allows p vmcs_shadowing then 1 else support_vmcs_shadowing),
  (if allows p enable_vpid then 1 else support_vpid),
)
