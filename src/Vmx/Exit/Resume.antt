-- ===== src/Vmx/Exit/Resume.antt =====
-- Out of a nested guest, back to the nested hypervisor.
use alcatraz.Prelude.{
  ◌⊎◌, if◌then◌else◌, ℕ, ◌<◌, ◌≡◌, ◌≢◌, inl, inr, refl, ap, ◌∙◌, arith, ◌==◌, ==_self, Bool, false,
  Bool-cases, List, length, get_or, set, get_or-set_self, some,
}
use alcatraz.Vmx.Registers.{write_vmcs, vm_guest_rip, vm_guest_rsp, vm_guest_cr3, vm_guest_rflags}
use alcatraz.Vmx.Nested.{
  Host, NestedVmcs, Nested, no_nested, find_nested_vmcs_struct, divert, nested_vmwrite, vm_host_rip,
  vm_host_rsp, vm_host_cr3,
}
use alcatraz.Vmx.Nested.HostState.{on_processor-region}
use alcatraz.Vmx.Shadow.{Shadow, vm_vmcs_link_ptr, set_vmcs_shadowing_to_current}
use alcatraz.Vmx.Exit.{Machinery, Cpu}
use alcatraz.Vmx.Exit.Dispatch.{
  restore_host, entered, vm_host_fs_base, vm_host_gs_base, leave_nested, vm_exit_callback,
}

shadow_keeps :
    (s : Shadow) (a p f : ℕ)
    → (vm_vmcs_link_ptr == f) ≡ false
    → (set_vmcs_shadowing_to_current s a).nested.region p f ≡ s.nested.region p f
unfolding set_vmcs_shadowing_to_current
shadow_keeps s a p f other = elim (Bool-cases s.support) [
  | inr e ↦ rw e refl
  | inl e ↦
      rw e (
        on_processor-region (λ u. write_vmcs u vm_vmcs_link_ptr a) s.nested p f
          (λ u. rw other refl))
]

shadow-current :
    (s : Shadow) (a : ℕ) → (set_vmcs_shadowing_to_current s a).nested.current ≡ s.nested.current
unfolding set_vmcs_shadowing_to_current
shadow-current s a = elim (Bool-cases s.support) [ inl e ↦ rw e refl | inr e ↦ rw e refl ]

module _ (e : Machinery) (c : Cpu) where
  abbrev guest_after : Cpu → ℕ → ℕ
  guest_after d = d.shadow.nested.region e.guest_vmcs

  -- The nested hypervisor's state in the guest's VMCS.
  abbrev pub Resumed : Cpu → NestedVmcs → Type 0
  Resumed d n =
      (d.shadow.nested.current ≡ e.guest_vmcs)
      × (guest_after d vm_guest_rip ≡ n.rip)
      × (guest_after d vm_guest_rsp ≡ n.rsp)
      × (guest_after d vm_guest_cr3 ≡ n.cr3)
      × (guest_after d vm_guest_rflags ≡ 2)

  guest_field :
      (prev f : ℕ) (n : NestedVmcs)
      → (vm_vmcs_link_ptr == f) ≡ false
      → guest_after (leave_nested e c prev n) f
        ≡ (restore_host
              (c.shadow.nested.region prev vm_host_fs_base)
              (c.shadow.nested.region prev vm_host_gs_base)
              n
              (record {
                regs = c.shadow.nested.regs;
                vmcs = c.shadow.nested.region e.guest_vmcs;
              })).vmcs
            f
  unfolding leave_nested
  guest_field prev f n other =
      shadow_keeps (entered e c prev n).shadow prev e.guest_vmcs f other
      ∙ (rw (==_self e.guest_vmcs) refl)

  leave-Resumed : (prev : ℕ) (n : NestedVmcs) → Resumed (leave_nested e c prev n) n
  unfolding leave_nested restore_host
  leave-Resumed prev n = (
    shadow-current (entered e c prev n).shadow prev,
    guest_field prev vm_guest_rip n refl,
    guest_field prev vm_guest_rsp n refl,
    guest_field prev vm_guest_cr3 n refl,
    guest_field prev vm_guest_rflags n refl,
  )

module _ (e : Machinery) (c : Cpu) where
  abbrev running : Cpu
  running = record c { root_mode = 1 }

  exit-leave :
      (slot : ℕ)
      → (c.shadow.nested.current == e.guest_vmcs) ≡ false
      → find_nested_vmcs_struct c.shadow.nested.nested_array c.shadow.nested.current ≡ some slot
      → vm_exit_callback e c
        ≡ record (leave_nested e running c.shadow.nested.current
            (get_or c.shadow.nested.nested_array slot no_nested)) { root_mode = 0 }
  unfolding vm_exit_callback
  exit-leave slot off found = rw (off, found, vm_exit_callback) refl

  -- A guest of a nested hypervisor exits whose VMCS, `prev`, is not the guest's and has a slot in the
  -- hypervisor's list. Afterwards the processor works on the guest's VMCS, and the nested hypervisor
  -- goes on with the RIP, RSP and CR3 of the slot and with interrupts off.
  pub nested_exit-Resumed :
      (slot : ℕ)
      → c.shadow.nested.current ≢ e.guest_vmcs
      → find_nested_vmcs_struct c.shadow.nested.nested_array c.shadow.nested.current ≡ some slot
      → Resumed e c (vm_exit_callback e c) (get_or c.shadow.nested.nested_array slot no_nested)
  nested_exit-Resumed slot ne found =
      let off : (c.shadow.nested.current == e.guest_vmcs) ≡ false = ground (arith, ne) in
      let n = get_or c.shadow.nested.nested_array slot no_nested in
      rw (exit-leave slot off found) (leave-Resumed e running c.shadow.nested.current n)

vmwrite-array :
    (h : Host) (loadable : ℕ → Bool) (s : Nested) (slot field v : ℕ)
    → (nested_vmwrite h loadable s slot field v).nested_array
      ≡ set s.nested_array slot (divert h (get_or s.nested_array slot no_nested) field v).0
unfolding nested_vmwrite
vmwrite-array h loadable s slot field v = elim (Bool-cases (loadable s.nested_vmcs_ptr)) [
  | inl a ↦ rw a refl
  | inr a ↦ rw a refl
]

-- What the hypervisor remembers of a field of the nested hypervisor's state, and where the guest has
-- it after the exit.
abbrev pub host_value : NestedVmcs → ℕ → ℕ
host_value n field =
    if field == vm_host_rip then n.rip else if field == vm_host_rsp then n.rsp else n.cr3

abbrev pub resumed_field : ℕ → ℕ
resumed_field field =
    if field == vm_host_rip
    then vm_guest_rip
    else if field == vm_host_rsp
    then vm_guest_rsp
    else vm_guest_cr3

-- The fields whose value is where the nested hypervisor goes on.
abbrev pub IsResumeField : ℕ → Type 0
IsResumeField field = (field ≡ vm_host_rip) ⊎ (field ≡ vm_host_rsp) ⊎ (field ≡ vm_host_cr3)

remembered :
    (h : Host) (n : NestedVmcs) (field v : ℕ)
    → IsResumeField field
    → host_value (divert h n field v).0 field ≡ v
unfolding divert
remembered h n field v r = elim r [
  | inl q ↦ rw q refl
  | inr (inl q) ↦ rw q refl
  | inr (inr q) ↦ rw q refl
]

resumed_at :
    (vmcs : ℕ → ℕ) (n : NestedVmcs) (field : ℕ)
    → IsResumeField field
    → vmcs vm_guest_rip ≡ n.rip
    → vmcs vm_guest_rsp ≡ n.rsp
    → vmcs vm_guest_cr3 ≡ n.cr3
    → vmcs (resumed_field field) ≡ host_value n field
resumed_at vmcs n field r rip rsp cr3 = elim r [
  | inl q ↦ rw q rip
  | inr (inl q) ↦ rw q rsp
  | inr (inr q) ↦ rw q cr3
]

-- A nested hypervisor writes HOST_RIP, HOST_RSP or HOST_CR3 of its VMCS, which has a slot of the list.
-- Later a guest exits while the processor works on that VMCS, and the list still finds it in the slot,
-- with what the write left there for this field; whatever else has happened in between, the nested
-- hypervisor goes on at the value written, on the guest's VMCS, with interrupts off.
pub nested_exit-vmwrite :
    (e : Machinery) (c : Cpu) (s : Nested) (slot field v : ℕ)
    → IsResumeField field
    → slot < length s.nested_array
    → c.shadow.nested.current ≢ e.guest_vmcs
    → find_nested_vmcs_struct c.shadow.nested.nested_array c.shadow.nested.current ≡ some slot
    → host_value (get_or c.shadow.nested.nested_array slot no_nested) field
      ≡ host_value
          (get_or (nested_vmwrite e.host e.loadable s slot field v).nested_array slot no_nested)
          field
    → let s' = (vm_exit_callback e c).shadow.nested in
      (s'.current ≡ e.guest_vmcs)
      × (s'.region e.guest_vmcs (resumed_field field) ≡ v)
      × (s'.region e.guest_vmcs vm_guest_rflags ≡ 2)
nested_exit-vmwrite e c s slot field v r fits apart found kept =
    let n = get_or c.shadow.nested.nested_array slot no_nested in
    let resumed = nested_exit-Resumed e c slot apart found in
    let array =
      ap (λ (xs : List NestedVmcs). host_value (get_or xs slot no_nested) field)
        (vmwrite-array e.host e.loadable s slot field v) in
    let stored =
      ap (λ (x : NestedVmcs). host_value x field)
        (get_or-set_self s.nested_array slot
          (divert e.host (get_or s.nested_array slot no_nested) field v).0 no_nested fits) in
    (
      resumed.0,
      resumed_at ((vm_exit_callback e c).shadow.nested.region e.guest_vmcs) n field r resumed.1
            resumed.2 resumed.3
          ∙ kept
          ∙ array
          ∙ stored
          ∙ remembered e.host (get_or s.nested_array slot no_nested) field v r,
      resumed.4,
    )
