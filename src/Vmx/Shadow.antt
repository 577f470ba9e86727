-- ===== src/Vmx/Shadow.antt =====
-- VMX instructions of a nested hypervisor with one operand, and the shadow VMCS that the processor
-- serves VMREAD and VMWRITE from: `hb_vm_exit_callback_vmx_inst_type1`,
-- `hb_vm_set_vmcs_shadowing_to_current` and `hb_vm_clear_vmcs_shadowing_to_current` of
-- Source/hyper_box/hypervisor.c, built with HYPERBOX_USE_VMCS_SHADOWING as hyper_box.h sets it.
-- What VMCLEAR itself does to a VMCS, beside writing it back, is not modelled.
pub mod Laws
use alcatraz.Prelude.{ℕ, ◌+◌, ◌%◌, ◌^◌, ◌==◌, ◌||◌, not, Bool, if◌then◌else◌, bit_and, bit_or}
use alcatraz.Vmx.Registers.{Vm, write_vmcs, advance_vm_guest_rip, clear_vmx_inst_flags}
use alcatraz.Vmx.Nested.{
  Nested, processor, on_processor, calc_dest_mem_addr, vm_data_vm_exit_inst_info,
  vm_data_exit_qualification,
}
use alcatraz.Vmx.Descriptor.{load}

-- `revision p` is the first word of the VMCS at `p`, `support` is `g_support_vmcs_shadowing`.
pub record Shadow : Type 0 where
  pub nested : Nested
  pub revision : ℕ → ℕ
  pub support : Bool

abbrev pub vm_vmcs_link_ptr : ℕ
vm_vmcs_link_ptr = 0x2800

abbrev pub no_link : ℕ
no_link = 0xFFFF_FFFF_FFFF_FFFF

abbrev pub vm_bit_revision_shadow_vmcs : ℕ
vm_bit_revision_shadow_vmcs = 0x80000000

abbrev pub vm_exit_reason_vmclear : ℕ
vm_exit_reason_vmclear = 19

abbrev pub vm_exit_reason_vmptrld : ℕ
vm_exit_reason_vmptrld = 21

abbrev pub put_revision : Shadow → ℕ → ℕ → Shadow
put_revision s p v = record s { revision = λ q. if q == p then v else s.revision q }

abbrev pub put_link : Shadow → ℕ → Shadow
put_link s v = record s { nested = on_processor (λ u. write_vmcs u vm_vmcs_link_ptr v) s.nested }

abbrev pub link_of : Shadow → ℕ
link_of s = s.nested.region s.nested.current vm_vmcs_link_ptr

unfoldable pub set_vmcs_shadowing_to_current : Shadow → ℕ → Shadow
set_vmcs_shadowing_to_current s shadow_vmcs_phy_addr =
    if not s.support
    then s
    else put_link
        (put_revision s shadow_vmcs_phy_addr
          (bit_or (s.revision shadow_vmcs_phy_addr) vm_bit_revision_shadow_vmcs))
        shadow_vmcs_phy_addr

unfoldable pub clear_vmcs_shadowing_to_current : Shadow → Shadow
clear_vmcs_shadowing_to_current s =
    let shadow = link_of s in
    if not s.support || shadow == no_link
    then s
    else put_revision (put_link s no_link) shadow (bit_and (s.revision shadow) 0x7FFFFFFF)

-- The address of the VMCS, which the instruction's operand in memory holds.
unfoldable pub vmcs_operand : Nested → ℕ
vmcs_operand s =
    let v = processor s in
    let dest_addr =
      (calc_dest_mem_addr v (v.vmcs vm_data_vm_exit_inst_info) + v.vmcs vm_data_exit_qualification)
      % 2 ^ 64 in
    load 8 dest_addr s.memory

-- VMXON and the other instructions only move on.
unfoldable pub vm_exit_callback_vmx_inst_type1 : Shadow → ℕ → Shadow
vm_exit_callback_vmx_inst_type1 s exit_reason =
    let vmcs = vmcs_operand s.nested in
    let n = on_processor (λ u. clear_vmx_inst_flags (advance_vm_guest_rip u)) s.nested in
    if exit_reason == vm_exit_reason_vmclear
    then if n.nested_vmcs_ptr == vmcs
      then clear_vmcs_shadowing_to_current (record s { nested = record n { nested_vmcs_ptr = 0 } })
      else record s { nested = n }
    else if exit_reason == vm_exit_reason_vmptrld
    then set_vmcs_shadowing_to_current (record s { nested = record n { nested_vmcs_ptr = vmcs } })
        vmcs
    else record s { nested = n }
