-- ===== src/Probe/Start/Live.antt =====
-- A processor that keeps to the manual: each instruction of hypervisor/hb_probe.c then succeeds.
use alcatraz.Prelude.{ℕ, ◌≡◌, ap, false, arith, bit_and, bit_or}
use alcatraz.Prelude.Bits.{bit, bit-bit_and, bit-bit_or, bits_ext}
use alcatraz.Probe.{
  Hardware, Cpu, enable_vmx, adjust_vmx_cr0_cr4, msr_cr0_fixed0, msr_cr0_fixed1, msr_cr4_fixed0,
  msr_cr4_fixed1,
}
use alcatraz.Probe.Start.{ready}

-- Every bit of `fixed0` is set, and none outside `fixed1` is.
pub record IsFixed (fixed0 fixed1 x : ℕ) : Type 0 where
  pub ones_set : bit_and x fixed0 ≡ fixed0
  pub zeros_clear : bit_or x fixed1 ≡ fixed1

-- The firmware has set the lock of IA32_FEATURE_CONTROL, and allows VMXON outside SMX.
pub record IsEnabled (h : Hardware) (cpu : ℕ) : Type 0 where
  pub locked : bit_and (h.rdmsr cpu 0x3A) 1 ≡ 1
  pub vmxon_allowed : bit_and (h.rdmsr cpu 0x3A) 4 ≡ 4

-- What the manual asks of a processor for VMXON.
pub record IsAllowed (h : Hardware) (cpu : ℕ) (c : Cpu) : Type 0 where
  pub enabled : IsEnabled h cpu
  pub outside : c.in_vmx ≡ false
  pub vmxe : bit_and c.cr4 0x2000 ≡ 0x2000
  pub cr0_fixed : IsFixed (h.rdmsr cpu msr_cr0_fixed0) (h.rdmsr cpu msr_cr0_fixed1) c.cr0
  pub cr4_fixed : IsFixed (h.rdmsr cpu msr_cr4_fixed0) (h.rdmsr cpu msr_cr4_fixed1) c.cr4

-- The MSRs of the fixed bits do not contradict each other, and allow CR4.VMXE.
pub record IsConsistent (h : Hardware) (cpu : ℕ) : Type 0 where
  pub cr0_bits :
      bit_and (h.rdmsr cpu msr_cr0_fixed0) (h.rdmsr cpu msr_cr0_fixed1) ≡ h.rdmsr cpu msr_cr0_fixed0
  pub cr4_bits :
      bit_and (h.rdmsr cpu msr_cr4_fixed0) (h.rdmsr cpu msr_cr4_fixed1) ≡ h.rdmsr cpu msr_cr4_fixed0
  pub vmxe_bit : bit_and 0x2000 (h.rdmsr cpu msr_cr4_fixed1) ≡ 0x2000

adjusted : (x f0 f1 : ℕ) → bit_and f0 f1 ≡ f0 → IsFixed f0 f1 (bit_and (bit_or x f0) f1)
adjusted x f0 f1 sub = record {
  ones_set = bits_ext _ _ λ k. omega (
    arith,
    bit-bit_and k (bit_and (bit_or x f0) f1) f0,
    bit-bit_and k (bit_or x f0) f1,
    bit-bit_or k x f0,
    ap (bit k) sub,
    bit-bit_and k f0 f1,
  );
  zeros_clear = bits_ext _ _ λ k.
      omega (arith, bit-bit_or k (bit_and (bit_or x f0) f1) f1, bit-bit_and k (bit_or x f0) f1);
}

with_bits : (x b f0 f1 : ℕ) → bit_and b f1 ≡ b → IsFixed f0 f1 x → IsFixed f0 f1 (bit_or x b)
with_bits x b f0 f1 sub v = record {
  ones_set = bits_ext _ _ λ k. omega (
    arith,
    bit-bit_and k (bit_or x b) f0,
    bit-bit_or k x b,
    ap (bit k) v.ones_set,
    bit-bit_and k x f0,
  );
  zeros_clear = bits_ext _ _ λ k. omega (
    arith,
    bit-bit_or k (bit_or x b) f1,
    bit-bit_or k x b,
    ap (bit k) v.zeros_clear,
    bit-bit_or k x f1,
    ap (bit k) sub,
    bit-bit_and k b f1,
  );
}

bit_and-bit_or_self : (x b : ℕ) → bit_and (bit_or x b) b ≡ b
bit_and-bit_or_self x b =
    bits_ext _ _ λ k. omega (arith, bit-bit_and k (bit_or x b) b, bit-bit_or k x b)

-- Just before VMXON a processor is as the manual asks, whatever its control registers were.
pub ready-IsAllowed :
    (h : Hardware) (cpu : ℕ) (c : Cpu)
    → IsConsistent h cpu
    → IsEnabled h cpu
    → c.in_vmx ≡ false
    → IsAllowed h cpu (ready h cpu c)
unfolding enable_vmx adjust_vmx_cr0_cr4
ready-IsAllowed h cpu c v w off = record {
  enabled = w;
  outside = off;
  vmxe = bit_and-bit_or_self _ 0x2000;
  cr0_fixed = adjusted c.cr0 _ _ v.cr0_bits;
  cr4_fixed = with_bits _ 0x2000 _ _ v.vmxe_bit (adjusted c.cr4 _ _ v.cr4_bits);
}
