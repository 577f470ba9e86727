-- ===== src/Vmx/Control/Laws.antt =====
-- The bits of the control registers that the guest cannot change.
use alcatraz.Prelude.{
  ℕ, Bool, true, false, ◌&&◌, ◌≡◌, ◌≢◌, refl, arith, ◌<◌, ◌==◌, if◌then◌else◌, bit_or, ◌∙◌, ap, ◌%◌,
  ◌+◌,
}
use alcatraz.Prelude.Bits.{
  bit, bit-lt, single, ones, bit-single, bit-ones, bit-bit_and, bit-bit_or, bit-bit_xor,
}
use alcatraz.Vmx.Registers.{
  Vm, vm_guest_cr0, vm_guest_cr4, get_reg_value_from_index, set_reg_value_from_index,
  advance_vm_guest_rip, not64,
}
use alcatraz.Vmx.Control.{
  read_cr, forced_cr0, forced_cr4, write_cr, vm_exit_callback_access_cr, ctrl_reg_number, acc_type,
  gp_reg_number,
}

bit-forced_cr0 : (v k : ℕ) → bit k (forced_cr0 v) ≡ (if k == 16 then 1 else bit k v)
bit-forced_cr0 v k = bit-bit_or k v (single 16) ∙ ground (arith, bit-single 16 k, bit-lt k v)

pub bit-not64 : (x k : ℕ) → k < 64 → bit k (not64 x) ≡ (bit k x + 1) % 2
bit-not64 x k h = bit-bit_xor k x (ones 64) ∙ ground (arith, bit-ones 64 k, h)

bit-forced_cr4 :
    (v k : ℕ)
    → k < 64
    → bit k (forced_cr4 v)
      ≡ (if k == 6 then 0 else if k == 13 then 1 else if k == 20 then 1 else bit k v)
bit-forced_cr4 v k h = ground (
  arith,
  bit-bit_and k (bit_or v (bit_or (single 13) (single 20))) (not64 (single 6)),
  bit-bit_or k v (bit_or (single 13) (single 20)),
  bit-bit_or k (single 13) (single 20),
  bit-not64 (single 6) k h,
  bit-single 13 k,
  bit-single 20 k,
  bit-single 6 k,
  bit-lt k v,
)

pub set_reg-vmcs :
    (s : Vm) (i v f : ℕ)
    → (0x681C == f) ≡ false
    → (set_reg_value_from_index s i v).vmcs f ≡ s.vmcs f
unfolding set_reg_value_from_index
set_reg-vmcs s i v f h = ground (arith, h)

if_bit : (x y k : ℕ) (b : Bool) (d : ℕ) → bit k x ≡ d → bit k y ≡ d → bit k (if b then x else y) ≡ d
if_bit x y k true d p q = p
if_bit x y k false d p q = q

-- What the exit leaves in CR0 and in CR4.
module _ (s : Vm) (exit_qual cr2 cr8 : ℕ) where
  abbrev pub accessed : Vm
  accessed = vm_exit_callback_access_cr s exit_qual cr2 cr8

  abbrev pub operand : ℕ
  operand = get_reg_value_from_index s (gp_reg_number exit_qual)

  abbrev pub writes : ℕ → Bool
  writes number = acc_type exit_qual == 0 && ctrl_reg_number exit_qual == number

  cr0_after :
      accessed.vmcs vm_guest_cr0 ≡ (if writes 0 then forced_cr0 operand else s.vmcs vm_guest_cr0)
  unfolding vm_exit_callback_access_cr advance_vm_guest_rip write_cr
  cr0_after = ground (
    arith,
    set_reg-vmcs s (gp_reg_number exit_qual) (read_cr s (ctrl_reg_number exit_qual) cr2 cr8)
        vm_guest_cr0 refl,
  )

  cr4_after :
      accessed.vmcs vm_guest_cr4 ≡ (if writes 4 then forced_cr4 operand else s.vmcs vm_guest_cr4)
  unfolding vm_exit_callback_access_cr advance_vm_guest_rip write_cr
  cr4_after = ground (
    arith,
    set_reg-vmcs s (gp_reg_number exit_qual) (read_cr s (ctrl_reg_number exit_qual) cr2 cr8)
        vm_guest_cr4 refl,
  )

-- Write protection, VMX and SMEP are on, and machine-check exceptions are off.
abbrev pub Protected : Vm → Type 0
Protected s =
    (bit 16 (s.vmcs vm_guest_cr0) ≡ 1)
    × (bit 13 (s.vmcs vm_guest_cr4) ≡ 1)
    × (bit 20 (s.vmcs vm_guest_cr4) ≡ 1)
    × (bit 6 (s.vmcs vm_guest_cr4) ≡ 0)

-- No access of the guest to a control register, whatever its operands are, turns off write
-- protection, VMX or SMEP, or turns on machine-check exceptions.
pub access_cr-Protected :
    (s : Vm) (exit_qual cr2 cr8 : ℕ)
    → Protected s
    → Protected (vm_exit_callback_access_cr s exit_qual cr2 cr8)
access_cr-Protected s q cr2 cr8 (wp, vmxe, smep, mce) =
    let v = operand s q cr2 cr8 in
    let w = writes s q cr2 cr8 in
    let cr0 = s.vmcs vm_guest_cr0 in
    let cr4 = s.vmcs vm_guest_cr4 in
    let after = cr4_after s q cr2 cr8 in
    (
      ap (bit 16) (cr0_after s q cr2 cr8)
          ∙ if_bit (forced_cr0 v) cr0 16 (w 0) 1 (bit-forced_cr0 v 16) wp,
      ap (bit 13) after
          ∙ if_bit (forced_cr4 v) cr4 13 (w 4) 1 (bit-forced_cr4 v 13 (omega arith)) vmxe,
      ap (bit 20) after
          ∙ if_bit (forced_cr4 v) cr4 20 (w 4) 1 (bit-forced_cr4 v 20 (omega arith)) smep,
      ap (bit 6) after ∙ if_bit (forced_cr4 v) cr4 6 (w 4) 0 (bit-forced_cr4 v 6 (omega arith)) mce,
    )

-- The bits that are not forced are the guest's: a MOV to CR0 puts every bit but WP of the operand
-- there, and a MOV to CR4 every bit but VMXE, SMEP and MCE.
pub access_cr_passes :
    (s : Vm) (exit_qual cr2 cr8 k : ℕ)
    → k < 64
    → acc_type exit_qual ≡ 0
    → let s' = vm_exit_callback_access_cr s exit_qual cr2 cr8 in
      let v = get_reg_value_from_index s (gp_reg_number exit_qual) in
      (ctrl_reg_number exit_qual ≡ 0 → k ≢ 16 → bit k (s'.vmcs vm_guest_cr0) ≡ bit k v)
      × (ctrl_reg_number exit_qual ≡ 4
          → k ≢ 6
          → k ≢ 13
          → k ≢ 20
          → bit k (s'.vmcs vm_guest_cr4) ≡ bit k v)
access_cr_passes s q cr2 cr8 k h to = (
  (λ number other.
      ap (bit k) (cr0_after s q cr2 cr8)
      ∙ ground (arith, to, number, other, bit-forced_cr0 (operand s q cr2 cr8) k)),
  (λ number mce vmxe smep.
      ap (bit k) (cr4_after s q cr2 cr8)
      ∙ ground (arith, to, number, mce, vmxe, smep, bit-forced_cr4 (operand s q cr2 cr8) k h)),
)
