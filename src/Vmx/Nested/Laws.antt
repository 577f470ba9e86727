-- ===== src/Vmx/Nested/Laws.antt =====
-- What a nested hypervisor sees of its host state, and what it cannot change.
use alcatraz.Prelude.{
  ℕ, ◌/◌, ◌<◌, ◌≡◌, ◌≢◌, refl, ap, ◌∙◌, arith, ◌==◌, Bool, true, false, if◌then◌else◌, bit_and,
  length, get_or, get_or-set_self, Bool-cases, inl, inr, ==_self,
}
use alcatraz.Vmx.Registers.{GuestRegister, Vm, get_reg_value_from_index, set_reg_value_from_index}
use alcatraz.Vmx.Registers.Laws.{get_reg-set_reg}
use alcatraz.Vmx.Nested.{
  NestedVmcs, Nested, no_nested, processor, Host, divert, lookup, nested_vmwrite, nested_vmread,
}

lookup-divert :
    (h : Host) (n : NestedVmcs) (vmcs : ℕ → ℕ) (field v : ℕ)
    → lookup
        (divert h n field v).0
        (λ f. if field == f then (divert h n field v).1 else vmcs f)
        field
      ≡ v
unfolding lookup divert
lookup-divert h n vmcs field v = ground (arith, ==_self field)

-- All registers but RSP are outside the VMCS.
get_reg-vmcs :
    (g : GuestRegister) (a b : ℕ → ℕ) (i : ℕ)
    → i ≢ 4
    → get_reg_value_from_index (record { regs = g; vmcs = a }) i
      ≡ get_reg_value_from_index (record { regs = g; vmcs = b }) i
unfolding get_reg_value_from_index
get_reg-vmcs g a b i other = ground arith

module _ (h : Host) (loadable : ℕ → Bool) where
  vmread_value :
      (s : Nested) (slot field inst_info dest : ℕ)
      → loadable s.nested_vmcs_ptr ≡ true
      → bit_and (inst_info / 8) 0xF < 16
      → bit_and (inst_info / 8) 0xF ≢ 4
      → get_reg_value_from_index
          (processor (nested_vmread h loadable s slot field false inst_info dest))
          (bit_and (inst_info / 8) 0xF)
        ≡ lookup (get_or s.nested_array slot no_nested) (s.region s.nested_vmcs_ptr) field
  unfolding nested_vmread
  vmread_value s slot field inst_info dest ok small other =
      let r = bit_and (inst_info / 8) 0xF in
      let value =
        lookup (get_or s.nested_array slot no_nested) (s.region s.nested_vmcs_ptr) field in
      let v : Vm = record { regs = s.regs; vmcs = s.region s.nested_vmcs_ptr } in
      rw ok (
        get_reg-vmcs (set_reg_value_from_index v r value).regs _
          (set_reg_value_from_index v r value).vmcs r other
        ∙ get_reg-set_reg v r r value small
        ∙ ground (arith, ==_self r))

  vmwrite_lookup :
      (s : Nested) (slot field v : ℕ)
      → slot < length s.nested_array
      → loadable s.nested_vmcs_ptr ≡ true
      → let s' = nested_vmwrite h loadable s slot field v in
        lookup (get_or s'.nested_array slot no_nested) (s'.region s'.nested_vmcs_ptr) field ≡ v
  unfolding nested_vmwrite
  vmwrite_lookup s slot field v fits ok =
      let n = get_or s.nested_array slot no_nested in
      rw ok (
        rw (get_or-set_self s.nested_array slot (divert h n field v).0 no_nested fits)
          (rw (==_self s.nested_vmcs_ptr) (lookup-divert h n (s.region s.nested_vmcs_ptr) field v)))

  vmwrite_ptr :
      (s : Nested) (slot field v : ℕ)
      → (nested_vmwrite h loadable s slot field v).nested_vmcs_ptr ≡ s.nested_vmcs_ptr
  unfolding nested_vmwrite
  vmwrite_ptr s slot field v = elim (Bool-cases (loadable s.nested_vmcs_ptr)) [
    | inl e ↦ rw e refl
    | inr e ↦ rw e refl
  ]

  -- A nested hypervisor whose VMCS has a slot and can be loaded reads back what it has written, of
  -- every field: of HOST_RIP, HOST_RSP and HOST_CR3 its own values, although the VMCS holds the
  -- hypervisor's. This is so for a VMREAD into a register other than RSP.
  pub vmread-vmwrite :
      (s : Nested) (slot field v inst_info dest : ℕ)
      → slot < length s.nested_array
      → loadable s.nested_vmcs_ptr ≡ true
      → bit_and (inst_info / 8) 0xF < 16
      → bit_and (inst_info / 8) 0xF ≢ 4
      → get_reg_value_from_index
          (processor (
            nested_vmread h loadable
              (nested_vmwrite h loadable s slot field v)
              slot
              field
              false
              inst_info
              dest))
          (bit_and (inst_info / 8) 0xF)
        ≡ v
  vmread-vmwrite s slot field v inst_info dest fits ok small other =
      vmread_value (nested_vmwrite h loadable s slot field v) slot field inst_info dest
        (ap loadable (vmwrite_ptr s slot field v) ∙ ok) small other
      ∙ vmwrite_lookup s slot field v fits ok
