-- ===== src/Vmx/Shadow/Laws.antt =====
-- The shadow VMCS is marked as long as it is linked.
use alcatraz.Prelude.{
  ℕ, ◌≡◌, ◌≢◌, ◌⊎◌, inl, inr, refl, sym, subst, if_elim, ◌∙◌, arith, ◌==◌, ==_iff, ==_self, ◌||◌,
  not, true, false, if◌then◌else◌, Bool-cases, bit_and, bit_or,
}
use alcatraz.Prelude.Bits.{bit, bit-lt, bit-bit_and, bit-bit_or, ones, single}
use alcatraz.Vmx.Registers.{advance_vm_guest_rip, clear_vmx_inst_flags}
use alcatraz.Vmx.Nested.{on_processor}
use alcatraz.Vmx.Shadow.{
  Shadow, no_link, vm_bit_revision_shadow_vmcs, put_link, link_of, set_vmcs_shadowing_to_current,
  clear_vmcs_shadowing_to_current, vmcs_operand, vm_exit_callback_vmx_inst_type1,
  vm_exit_reason_vmclear, vm_exit_reason_vmptrld,
}

-- The current VMCS links no VMCS, or one that is marked as a shadow.
abbrev pub Linked : Shadow → Type 0
Linked s = (link_of s ≡ no_link) ⊎ (bit 31 (s.revision (link_of s)) ≡ 1)

marked : (v : ℕ) → bit 31 (bit_or v vm_bit_revision_shadow_vmcs) ≡ 1
marked v = bit-bit_or 31 v (single 31) ∙ omega (arith, bit-lt 31 v)

pub unmarked : (v : ℕ) → bit 31 (bit_and v 0x7FFFFFFF) ≡ 0
unmarked v = bit-bit_and 31 v (ones 31) ∙ omega (arith, bit-lt 31 v)

link_put : (s : Shadow) (v : ℕ) → link_of (put_link s v) ≡ v
link_put s v = rw (==_self s.nested.current) refl

pub set-Linked : (s : Shadow) (a : ℕ) → Linked s → Linked (set_vmcs_shadowing_to_current s a)
unfolding set_vmcs_shadowing_to_current
set-Linked s a l = elim (Bool-cases s.support) [
  | inr e ↦ rw e l
  | inl e ↦ rw e (rw (==_self s.nested.current) (inr (rw (==_self a) (marked (s.revision a)))))
]

-- A link that is taken away leaves the VMCS unmarked.
pub clear-Linked : (s : Shadow) → Linked s → Linked (clear_vmcs_shadowing_to_current s)
unfolding clear_vmcs_shadowing_to_current
clear-Linked s l = elim (Bool-cases (not s.support || link_of s == no_link)) [
  | inl e ↦ rw e l
  | inr e ↦ rw e (inl (rw (==_self s.nested.current) refl))
]

pub clear-ptr :
    (s : Shadow)
    → (clear_vmcs_shadowing_to_current s).nested.nested_vmcs_ptr ≡ s.nested.nested_vmcs_ptr
unfolding clear_vmcs_shadowing_to_current
clear-ptr s = elim (Bool-cases (not s.support || link_of s == no_link)) [
  | inl e ↦ rw e refl
  | inr e ↦ rw e refl
]

abbrev stepped : Shadow → Shadow
stepped s = record s {
  nested = on_processor (λ u. clear_vmx_inst_flags (advance_vm_guest_rip u)) s.nested;
}

stepped-link : (s : Shadow) → link_of (stepped s) ≡ link_of s
unfolding clear_vmx_inst_flags advance_vm_guest_rip
stepped-link s = rw (==_self s.nested.current) refl

abbrev with_ptr : Shadow → ℕ → Shadow
with_ptr s p = record s { nested = record s.nested { nested_vmcs_ptr = p } }

-- The three ways of an instruction with one operand.
module _ (s : Shadow) where
  abbrev operand : ℕ
  operand = vmcs_operand s.nested

  loads :
      vm_exit_callback_vmx_inst_type1 s vm_exit_reason_vmptrld
      ≡ set_vmcs_shadowing_to_current (with_ptr (stepped s) operand) operand
  unfolding vm_exit_callback_vmx_inst_type1
  loads = refl

  clears : vm_exit_callback_vmx_inst_type1 s vm_exit_reason_vmclear ≡ (
      if s.nested.nested_vmcs_ptr == operand
      then clear_vmcs_shadowing_to_current (with_ptr (stepped s) 0)
      else stepped s)
  unfolding vm_exit_callback_vmx_inst_type1
  clears = refl

  passes :
      (r : ℕ)
      → (r == vm_exit_reason_vmclear) ≡ false
      → (r == vm_exit_reason_vmptrld) ≡ false
      → vm_exit_callback_vmx_inst_type1 s r ≡ stepped s
  unfolding vm_exit_callback_vmx_inst_type1
  passes r a b = rw (a, b) refl

  stepped-Linked : Linked s → Linked (stepped s)
  stepped-Linked (inl n) = inl (stepped-link s ∙ n)
  stepped-Linked (inr m) = inr (rw (stepped-link s) m)

  type1_keeps : (r : ℕ) → Linked s → Linked (vm_exit_callback_vmx_inst_type1 s r)
  type1_keeps r l = elim (Bool-cases (r == vm_exit_reason_vmclear)) [
    | inl a ↦
        subst (λ (q : ℕ). Linked (vm_exit_callback_vmx_inst_type1 s q)) (sym ((==_iff _ _).0 a))
          (subst Linked (sym clears) (
            if_elim Linked (s.nested.nested_vmcs_ptr == operand)
              (clear_vmcs_shadowing_to_current (with_ptr (stepped s) 0)) (stepped s)
              (clear-Linked (with_ptr (stepped s) 0) (stepped-Linked l)) (stepped-Linked l)))
    | inr a ↦ elim (Bool-cases (r == vm_exit_reason_vmptrld)) [
      | inl b ↦
          subst (λ (q : ℕ). Linked (vm_exit_callback_vmx_inst_type1 s q)) (sym ((==_iff _ _).0 b))
            (subst Linked (sym loads)
              (set-Linked (with_ptr (stepped s) operand) operand (stepped-Linked l)))
      | inr b ↦ subst Linked (sym (passes r a b)) (stepped-Linked l)
    ]
  ]

  load_links :
      let s' = set_vmcs_shadowing_to_current (with_ptr (stepped s) operand) operand in
      (s'.nested.nested_vmcs_ptr ≡ operand)
      × (s.support ≡ true → (link_of s' ≡ operand) × (bit 31 (s'.revision operand) ≡ 1))
  unfolding set_vmcs_shadowing_to_current
  load_links = elim (Bool-cases s.support) [
    | inl e ↦ rw e (
      refl,
      λ t. (rw (==_self s.nested.current) refl, rw (==_self operand) (marked (s.revision operand))),
    )
    | inr e ↦ rw e (refl, λ t. absurd (cc t))
  ]

  clear_forgets :
      operand ≢ 0
      → (vm_exit_callback_vmx_inst_type1 s vm_exit_reason_vmclear).nested.nested_vmcs_ptr ≢ operand
  clear_forgets ne = rw clears (elim (Bool-cases (s.nested.nested_vmcs_ptr == operand)) [
    | inl e ↦ rw e (λ z. ne (sym z ∙ clear-ptr (with_ptr (stepped s) 0)))
    | inr e ↦ rw e (λ z. ground (arith, e, z))
  ])

-- VMXON, VMCLEAR, VMPTRLD and VMPTRST leave the current VMCS with no link, or linked to a VMCS that
-- is marked as a shadow, if it was so before. VMPTRLD makes its operand the nested VMCS, and links it
-- where the processor has shadow VMCSs; after a VMCLEAR the operand is not the nested VMCS any more,
-- if it is not 0.
pub type1-Linked :
    (s : Shadow) (r : ℕ)
    → Linked s
    → let s' = vm_exit_callback_vmx_inst_type1 s r in
      let a = vmcs_operand s.nested in
      Linked s'
      × (r ≡ vm_exit_reason_vmptrld
          → (s'.nested.nested_vmcs_ptr ≡ a)
            × (s.support ≡ true → (link_of s' ≡ a) × (bit 31 (s'.revision a) ≡ 1)))
      × (r ≡ vm_exit_reason_vmclear → a ≢ 0 → s'.nested.nested_vmcs_ptr ≢ a)
type1-Linked s r l =
    (type1_keeps s r l, λ e. rw e (rw (loads s) (load_links s)), λ e ne. rw e (clear_forgets s ne))
