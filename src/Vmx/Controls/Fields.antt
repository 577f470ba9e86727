-- ===== src/Vmx/Controls/Fields.antt =====
-- The fields of a nested VMCS whose VMREAD and VMWRITE exit to the hypervisor.
use alcatraz.Prelude.{
  ℕ, zero, suc, ◌/◌, ◌%◌, ◌≡◌, ◌≢◌, ◌⊎◌, refl, sym, false, ap, ◌∙◌, arith, ◌==◌, ◌||◌,
  if◌then◌else◌, Bool-cases, inl, inr, ==_iff,
}
use alcatraz.Prelude.Bits.{bit, bit_zero}
use alcatraz.Vmx.Nested.{Host, NestedVmcs, divert, lookup, vm_host_rip, vm_host_rsp, vm_host_cr3}
use alcatraz.Vmx.Controls.{set_vmread_vmwrite_bitmap, nested_bitmaps}

-- What the processor looks up in a bitmap.
abbrev pub exits : (ℕ → ℕ) → ℕ → ℕ
exits bitmap field = bit (field % 8) (bitmap (field / 8))

-- The bytes with the bits of HOST_RIP and HOST_RSP, and of HOST_CR3.
abbrev byte_of : ℕ → ℕ
byte_of a = if a == 0xD82 then 0x50 else if a == 0xD80 then 4 else 0

byte_eq : (a : ℕ) → (nested_bitmaps.vmread a ≡ byte_of a) × (nested_bitmaps.vmwrite a ≡ byte_of a)
unfolding nested_bitmaps set_vmread_vmwrite_bitmap
byte_eq a = (ground arith, ground arith)

bits_rip_rsp : (r : ℕ) → bit r 0x50 ≡ (if r == 6 || r == 4 then 1 else 0)
bits_rip_rsp zero = refl
bits_rip_rsp (suc zero) = refl
bits_rip_rsp (suc (suc zero)) = refl
bits_rip_rsp (suc (suc (suc zero))) = refl
bits_rip_rsp (suc (suc (suc (suc zero)))) = refl
bits_rip_rsp (suc (suc (suc (suc (suc zero))))) = refl
bits_rip_rsp (suc (suc (suc (suc (suc (suc zero)))))) = refl
bits_rip_rsp (suc (suc (suc (suc (suc (suc (suc r))))))) = bit_zero r ∙ ground arith

bits_cr3 : (r : ℕ) → bit r 4 ≡ (if r == 2 then 1 else 0)
bits_cr3 zero = refl
bits_cr3 (suc zero) = refl
bits_cr3 (suc (suc zero)) = refl
bits_cr3 (suc (suc (suc r))) = bit_zero r ∙ ground arith

exits_byte :
    (f : ℕ)
    → bit (f % 8) (byte_of (f / 8))
      ≡ (if f == vm_host_rip || f == vm_host_rsp || f == vm_host_cr3 then 1 else 0)
exits_byte f = ground (arith, bits_rip_rsp (f % 8), bits_cr3 (f % 8), bit_zero (f % 8))

-- VMCS shadowing changes nothing for a nested hypervisor: a field that it reads and writes without
-- an exit is one of which the handler would keep nothing back, for reads as for writes. The fields
-- that exit are HOST_RIP, HOST_RSP and HOST_CR3.
pub exits-divert :
    (h : Host) (n : NestedVmcs) (vmcs : ℕ → ℕ) (f v : ℕ)
    → (exits nested_bitmaps.vmread f ≡ exits nested_bitmaps.vmwrite f)
      × (exits nested_bitmaps.vmwrite f ≡ 0
          → (divert h n f v ≡ (n, v)) × (lookup n vmcs f ≡ vmcs f))
      × (exits nested_bitmaps.vmwrite f ≢ 0
          → (f ≡ vm_host_rip) ⊎ ((f ≡ vm_host_rsp) ⊎ (f ≡ vm_host_cr3)))
unfolding divert lookup
exits-divert h n vmcs f v =
    let (r, w) = byte_eq (f / 8) in
    let e = ap (bit (f % 8)) w ∙ exits_byte f in
    (
      ap (bit (f % 8)) (r ∙ sym w),
      λ z.
          let rip : (f == vm_host_rip) ≡ false = ground (arith, e, z) in
          let rsp : (f == vm_host_rsp) ≡ false = ground (arith, e, z) in
          let cr3 : (f == vm_host_cr3) ≡ false = ground (arith, e, z) in
          rw (rip, rsp, cr3) (refl, refl),
      λ z. elim (Bool-cases (f == vm_host_rip)) [
        | inl a ↦ inl ((==_iff f vm_host_rip).0 a)
        | inr a ↦ elim (Bool-cases (f == vm_host_rsp)) [
          | inl b ↦ inr (inl ((==_iff f vm_host_rsp).0 b))
          | inr b ↦ inr (inr (ground (arith, e, z, a, b)))
        ]
      ],
    )
