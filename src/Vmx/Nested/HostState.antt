-- ===== src/Vmx/Nested/HostState.antt =====
-- The hypervisor's own host state in a nested VMCS cannot be overwritten.
use alcatraz.Prelude.{
  ℕ, ◌/◌, ◌≡◌, ◌≢◌, refl, sym, ap, ◌∙◌, arith, ◌==◌, Bool, false, bit_and, get_or, Bool-cases,
  Option-cases, inl, inr, ==_iff,
}
use alcatraz.Vmx.Registers.{
  Vm, get_reg_value_from_index, set_reg_value_from_index, advance_vm_guest_rip,
  clear_vmx_inst_flags, vm_guest_rsp, vm_guest_rip, vm_guest_rflags,
}
use alcatraz.Vmx.Control.Laws.{set_reg-vmcs}
use alcatraz.Vmx.Nested.{
  NestedVmcs, Nested, no_nested, processor, on_processor, Host, divert, lookup, nested_vmwrite,
  nested_vmread, vm_exit_callback_vmx_inst_type2, vm_host_rip, vm_host_rsp, vm_host_cr3,
  vm_exit_reason_vmwrite, vm_exit_reason_vmread, find_nested_vmcs_struct,
}

pub on_processor-region :
    (g : Vm → Vm) (s : Nested) (p f : ℕ)
    → ((u : Vm) → (g u).vmcs f ≡ u.vmcs f)
    → (on_processor g s).region p f ≡ s.region p f
on_processor-region g s p f same = elim (Bool-cases (p == s.current)) [
  | inl e ↦ rw e (same (processor s) ∙ ap (λ q. s.region q f) (sym ((==_iff p s.current).0 e)))
  | inr e ↦ rw e refl
]

stepped-vmcs :
    (u : Vm) (f : ℕ)
    → (vm_guest_rip == f) ≡ false
    → (vm_guest_rflags == f) ≡ false
    → (clear_vmx_inst_flags (advance_vm_guest_rip u)).vmcs f ≡ u.vmcs f
unfolding clear_vmx_inst_flags advance_vm_guest_rip
stepped-vmcs u f a b = ground (arith, a, b)

-- A field `f` in which every VMWRITE leaves `w`.
module _ (h : Host) (loadable : ℕ → Bool) (f w : ℕ)
    (own : (n : NestedVmcs) (v : ℕ) → (divert h n f v).1 ≡ w)
    (not_rip : (vm_guest_rip == f) ≡ false) (not_rflags : (vm_guest_rflags == f) ≡ false)
    (not_rsp : (vm_guest_rsp == f) ≡ false) where
  vmwrite-region :
      (s : Nested) (slot field v p : ℕ)
      → s.region p f ≡ w
      → (nested_vmwrite h loadable s slot field v).region p f ≡ w
  unfolding nested_vmwrite
  vmwrite-region s slot field v p held = elim (Bool-cases (loadable s.nested_vmcs_ptr)) [
    | inl e ↦ rw e (elim (Bool-cases (p == s.nested_vmcs_ptr)) [
      | inl q ↦ rw q (elim (Bool-cases (field == f)) [
        | inl r ↦ rw r (
            ap (λ x. (divert h (get_or s.nested_array slot no_nested) x v).1) ((==_iff field f).0 r)
            ∙ own (get_or s.nested_array slot no_nested) v)
        | inr r ↦ rw r (ap (λ x. s.region x f) (sym ((==_iff p s.nested_vmcs_ptr).0 q)) ∙ held)
      ])
      | inr q ↦ rw q held
    ])
    | inr e ↦ rw e held
  ]

  vmread-region :
      (s : Nested) (slot field : ℕ) (memory : Bool) (inst_info dest p : ℕ)
      → s.region p f ≡ w
      → (nested_vmread h loadable s slot field memory inst_info dest).region p f ≡ w
  unfolding nested_vmread
  vmread-region s slot field memory inst_info dest p held =
      let value =
        lookup (get_or s.nested_array slot no_nested) (s.region s.nested_vmcs_ptr) field in
      let r = bit_and (inst_info / 8) 0xF in
      elim (Bool-cases (loadable s.nested_vmcs_ptr)) [
        | inl e ↦ rw e (elim (Bool-cases memory) [
          | inl m ↦ rw m held
          | inr m ↦ rw m (
              on_processor-region (λ v. set_reg_value_from_index v r value)
                (record s { current = s.nested_vmcs_ptr }) p f
                (λ u. set_reg-vmcs u r value f not_rsp)
              ∙ held)
        ])
        | inr e ↦ rw e held
      ]

  type2-region :
      (s : Nested) (exit_reason p : ℕ)
      → s.region p f ≡ w
      → (vm_exit_callback_vmx_inst_type2 h loadable s exit_reason).region p f ≡ w
  unfolding vm_exit_callback_vmx_inst_type2
  type2-region s exit_reason p held =
      let step = λ (u : Vm). clear_vmx_inst_flags (advance_vm_guest_rip u) in
      let s1 = on_processor step s in
      let held1 : s1.region p f ≡ w =
        on_processor-region step s p f (λ u. stepped-vmcs u f not_rip not_rflags) ∙ held in
      elim (Option-cases (find_nested_vmcs_struct s.nested_array s.nested_vmcs_ptr)) [
        | inl n ↦ rw (n, vm_exit_callback_vmx_inst_type2) held1
        | inr (slot, e) ↦
            rw (e, vm_exit_callback_vmx_inst_type2)
              (elim (Bool-cases (exit_reason == vm_exit_reason_vmwrite)) [
                | inl a ↦ rw a (vmwrite-region _ slot _ _ p held1)
                | inr a ↦ rw a (elim (Bool-cases (exit_reason == vm_exit_reason_vmread)) [
                  | inl b ↦ rw b (vmread-region _ slot _ _ _ _ p held1)
                  | inr b ↦ rw b held1
                ])
              ])
      ]

-- The VMCS at `p` enters the hypervisor, on its stack and with its page table, when a nested
-- guest exits.
abbrev pub Owned : Host → Nested → ℕ → Type 0
Owned h s p =
    (s.region p vm_host_rip ≡ h.stub)
    × (s.region p vm_host_rsp ≡ h.stack)
    × (s.region p vm_host_cr3 ≡ h.pml4)

-- No instruction with two operands, whatever a nested hypervisor's operands are and whichever VMCS
-- it works on, takes the exits of an owned VMCS away from the hypervisor.
pub type2-Owned :
    (h : Host) (loadable : ℕ → Bool) (s : Nested) (exit_reason p : ℕ)
    → Owned h s p
    → Owned h (vm_exit_callback_vmx_inst_type2 h loadable s exit_reason) p
unfolding divert
type2-Owned h loadable s exit_reason p (rip, rsp, cr3) = (
  type2-region h loadable vm_host_rip h.stub (λ n v. refl) refl refl refl s exit_reason p rip,
  type2-region h loadable vm_host_rsp h.stack (λ n v. refl) refl refl refl s exit_reason p rsp,
  type2-region h loadable vm_host_cr3 h.pml4 (λ n v. refl) refl refl refl s exit_reason p cr3,
)

-- A VMREAD of a register operand that is RSP is lost: while another VMCS than the guest's is loaded,
-- the value goes to that VMCS, and the guest's RSP keeps its old value.
pub vmread_rsp_lost :
    (h : Host) (loadable : ℕ → Bool) (s : Nested) (slot field inst_info dest : ℕ)
    → bit_and (inst_info / 8) 0xF ≡ 4
    → s.current ≢ s.nested_vmcs_ptr
    → get_reg_value_from_index
        (processor (nested_vmread h loadable s slot field false inst_info dest))
        4
      ≡ get_reg_value_from_index (processor s) 4
unfolding nested_vmread get_reg_value_from_index set_reg_value_from_index
vmread_rsp_lost h loadable s slot field inst_info dest rsp other =
    elim (Bool-cases (loadable s.nested_vmcs_ptr)) [
      | inl e ↦ ground (arith, e, rsp, other)
      | inr e ↦ rw e refl
    ]
