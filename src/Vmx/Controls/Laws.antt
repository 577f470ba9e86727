-- ===== src/Vmx/Controls/Laws.antt =====
-- Which features the controls switch on, and which fields a nested hypervisor reaches by itself.
use alcatraz.Prelude.{
  ℕ, ◌≡◌, refl, ap, ◌∙◌, arith, ◌==◌, ◌&&◌, Bool, true, false, if◌then◌else◌, bit_or, max,
}
use alcatraz.Prelude.Bits.{bit, bit-bit_or, bit-bit_and, bit-lt}
use alcatraz.Vmx.Controls.{
  Platform, allows, optional, sec_flags, setup_vm_control_register, enable_invpcid, enable_xsave,
  enable_rdtscp, vmcs_shadowing, enable_vpid, msr_ia32_vmx_procbased_ctls2,
}

bit-optional :
    (k : ℕ) (b : Bool) (f : ℕ) → bit k 0 ≡ 0 → bit k (optional b f) ≡ (if b then bit k f else 0)
bit-optional k true f z = refl
bit-optional k false f z = z

-- The bit of a control in `sec_flags`, one summand per feature.
bit-sec_flags :
    (p : Platform) (k : ℕ)
    → bit k 0 ≡ 0
    → bit k (sec_flags p)
      ≡ max
          (max
            (max
              (max
                (max (bit k 0x82) (if allows p enable_invpcid then bit k enable_invpcid else 0))
                (if p.support_xsave == 1 && allows p enable_xsave then bit k enable_xsave else 0))
              (if allows p enable_rdtscp then bit k enable_rdtscp else 0))
            (if allows p vmcs_shadowing then bit k vmcs_shadowing else 0))
          (if allows p enable_vpid then bit k enable_vpid else 0)
unfolding sec_flags
bit-sec_flags p k z =
    rw
      (
        bit-bit_or k _ (optional (allows p enable_vpid) enable_vpid),
        bit-bit_or k _ (optional (allows p vmcs_shadowing) vmcs_shadowing),
        bit-bit_or k _ (optional (allows p enable_rdtscp) enable_rdtscp),
        bit-bit_or k _ (optional (p.support_xsave == 1 && allows p enable_xsave) enable_xsave),
        bit-bit_or k _ (optional (allows p enable_invpcid) enable_invpcid),
        bit-optional k (allows p enable_vpid) enable_vpid z,
        bit-optional k (allows p vmcs_shadowing) vmcs_shadowing z,
        bit-optional k (allows p enable_rdtscp) enable_rdtscp z,
        bit-optional k (p.support_xsave == 1 && allows p enable_xsave) enable_xsave z,
        bit-optional k (allows p enable_invpcid) enable_invpcid z,
      )
      refl

module _ (p : Platform) (support_vmcs_shadowing support_vpid : ℕ) where
  abbrev msr : ℕ
  msr = p.rdmsr msr_ia32_vmx_procbased_ctls2

  abbrev controls : ℕ
  controls = (setup_vm_control_register p support_vmcs_shadowing support_vpid).0.sec_proc_based_ctrl

  bit-controls :
      (k : ℕ) → bit k 0xFFFFFFFF ≡ 1 → bit k controls ≡ max (bit k msr) (bit k (sec_flags p))
  unfolding setup_vm_control_register
  bit-controls k low = omega (
    arith,
    bit-bit_and k (bit_or msr (sec_flags p)) 0xFFFFFFFF,
    bit-bit_or k msr (sec_flags p),
    low,
    bit-lt k msr,
    bit-lt k (sec_flags p),
  )

  -- The secondary controls switch the extended page table and the unrestricted guest on, and each of
  -- INVPCID, XSAVE, RDTSCP, VMCS shadowing and VPID where the processor allows it (XSAVE only where
  -- the kernel uses it) or where the processor's default has it on already. If the default has it off
  -- and the global variable was 0, the variable `g_support_vmcs_shadowing` says afterwards whether
  -- VMCS shadowing is on, and `g_support_vpid` whether VPID is.
  pub setup_controls_allowed :
      let (r, shadowing, vpid) = setup_vm_control_register p support_vmcs_shadowing support_vpid in
      let on = λ (k : ℕ). bit k r.sec_proc_based_ctrl in
      ((on 1 ≡ 1) × (on 7 ≡ 1))
      × (on 12 ≡ (if allows p enable_invpcid then 1 else bit 12 msr))
      × (on 20 ≡ (if p.support_xsave == 1 && allows p enable_xsave then 1 else bit 20 msr))
      × (on 3 ≡ (if allows p enable_rdtscp then 1 else bit 3 msr))
      × (on 14 ≡ (if allows p vmcs_shadowing then 1 else bit 14 msr))
      × (on 5 ≡ (if allows p enable_vpid then 1 else bit 5 msr))
      × (bit 14 msr ≡ 0 → support_vmcs_shadowing ≡ 0 → shadowing ≡ on 14)
      × (bit 5 msr ≡ 0 → support_vpid ≡ 0 → vpid ≡ on 5)
  unfolding setup_vm_control_register
  setup_controls_allowed =
      let c = λ (k : ℕ) (low : bit k 0xFFFFFFFF ≡ 1) (z : bit k 0 ≡ 0).
        bit-controls k low ∙ ap (max (bit k msr)) (bit-sec_flags p k z) in
      (
        (omega (arith, c 1 refl refl, bit-lt 1 msr), omega (arith, c 7 refl refl, bit-lt 7 msr)),
        ground (arith, c 12 refl refl, bit-lt 12 msr),
        ground (arith, c 20 refl refl, bit-lt 20 msr),
        ground (arith, c 3 refl refl, bit-lt 3 msr),
        ground (arith, c 14 refl refl, bit-lt 14 msr),
        ground (arith, c 5 refl refl, bit-lt 5 msr),
        λ z y. ground (arith, c 14 refl refl, z, y),
        λ z y. ground (arith, c 5 refl refl, z, y),
      )
