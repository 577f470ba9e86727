-- ===== src/Vmx/Exit/Entry.antt =====
-- What the VMX instructions make of the guest's RIP.
use alcatraz.Prelude.{
  ℕ, ◌≡◌, ◌≢◌, refl, ◌∙◌, ◌==◌, ==_self, ◌||◌, not, if_elim, Bool-cases, inl, inr,
}
use alcatraz.Vmx.Registers.{write_vmcs, vm_guest_rip, advance_vm_guest_rip, clear_vmx_inst_flags}
use alcatraz.Vmx.Nested.{Nested, on_processor, vm_exit_callback_vmx_inst_type2, vm_host_rsp}
use alcatraz.Vmx.Nested.HostState.{on_processor-region}
use alcatraz.Vmx.Shadow.{
  Shadow, set_vmcs_shadowing_to_current, clear_vmcs_shadowing_to_current,
  vm_exit_callback_vmx_inst_type1, vm_vmcs_link_ptr, no_link, vmcs_operand, vm_exit_reason_vmclear,
  vm_exit_reason_vmptrld,
}
use alcatraz.Vmx.Exit.{Machinery, Cpu}
use alcatraz.Vmx.Exit.Instructions.{
  load_nested, enter_nested, exit_vmlaunch, exit_vmresume, exit_vmxoff, set_host_rsp, set_vm_launch,
  set_host_rsp, set_vm_launch,
}
use alcatraz.Vmx.Exit.Steps.{stepped_rip, stepped_once, type2-Steps}
use alcatraz.Vmx.Exit.Dispatch.{on_nested, dispatch_vmx}

-- The shadow VMCS is a matter of the link pointer.
pub set_shadowing-rip :
    (s : Shadow) (a p : ℕ)
    → (set_vmcs_shadowing_to_current s a).nested.region p vm_guest_rip
      ≡ s.nested.region p vm_guest_rip
unfolding set_vmcs_shadowing_to_current
set_shadowing-rip s a p = elim (Bool-cases s.support) [
  | inl e ↦ rw e (
      on_processor-region (λ u. write_vmcs u vm_vmcs_link_ptr a) s.nested p vm_guest_rip
        (λ u. refl))
  | inr e ↦ rw e refl
]

clear_shadowing-rip :
    (s : Shadow) (p : ℕ)
    → (clear_vmcs_shadowing_to_current s).nested.region p vm_guest_rip
      ≡ s.nested.region p vm_guest_rip
unfolding clear_vmcs_shadowing_to_current
clear_shadowing-rip s p =
    elim (Bool-cases
      (not s.support || s.nested.region s.nested.current vm_vmcs_link_ptr == no_link)) [
        | inl e ↦ rw e refl
        | inr e ↦ rw e (
            on_processor-region (λ u. write_vmcs u vm_vmcs_link_ptr no_link) s.nested p vm_guest_rip
              (λ u. refl))
      ]

module _ (e : Machinery) (c : Cpu) (here : c.shadow.nested.current ≡ e.guest_vmcs) where
  abbrev rip_of : Cpu → ℕ
  rip_of d = d.shadow.nested.region e.guest_vmcs vm_guest_rip

  abbrev next_rip : ℕ
  next_rip = stepped_rip (c.shadow.nested.region e.guest_vmcs)

  pub nested-rip :
      (r : ℕ)
      → c.shadow.nested.nested_vmcs_ptr ≢ e.guest_vmcs
      → rip_of (on_nested (λ n. vm_exit_callback_vmx_inst_type2 e.host e.loadable n r) c) ≡ next_rip
  nested-rip r apart = type2-Steps e.host e.loadable e.guest_vmcs c.shadow.nested r here apart

  advanced-rip :
      (s : Nested)
      → s.current ≡ e.guest_vmcs
      → (on_processor advance_vm_guest_rip s).region e.guest_vmcs vm_guest_rip
        ≡ stepped_rip (s.region e.guest_vmcs)
  unfolding advance_vm_guest_rip
  advanced-rip s at = rw (← at) (rw (==_self s.current) refl)

  -- Entering a nested guest touches only flags, the link and the host's stack after the step.
  enter-rip : (enter_nested e c.shadow).nested.region e.guest_vmcs vm_guest_rip ≡ next_rip
  unfolding enter_nested load_nested clear_vmx_inst_flags
  enter-rip =
      let s = c.shadow in
      let s1 : Shadow = record s { nested = on_processor advance_vm_guest_rip s.nested } in
      let s2 = clear_vmcs_shadowing_to_current s1 in
      let flags : (on_processor clear_vmx_inst_flags s2.nested).region e.guest_vmcs vm_guest_rip
          ≡ next_rip =
        on_processor-region clear_vmx_inst_flags s2.nested e.guest_vmcs vm_guest_rip (λ u. refl)
        ∙ clear_shadowing-rip s1 e.guest_vmcs
        ∙ advanced-rip s.nested here in
      elim (Bool-cases (e.loadable s2.nested.nested_vmcs_ptr)) [
        | inl a ↦ rw a flags
        | inr a ↦ rw a flags
      ]

  set_rsp-rip :
      (s : Shadow)
      → (set_host_rsp e s).nested.region e.guest_vmcs vm_guest_rip
        ≡ s.nested.region e.guest_vmcs vm_guest_rip
  set_rsp-rip s =
      on_processor-region (λ u. write_vmcs u vm_host_rsp e.host.stack) s.nested e.guest_vmcs
        vm_guest_rip (λ u. refl)

  launch-rip :
      ((exit_vmlaunch e c.shadow).nested.region e.guest_vmcs vm_guest_rip ≡ next_rip)
      × ((exit_vmresume e c.shadow).nested.region e.guest_vmcs vm_guest_rip ≡ next_rip)
  unfolding exit_vmlaunch exit_vmresume
  launch-rip = (
    elim (Bool-cases (e.loadable c.shadow.nested.nested_vmcs_ptr)) [
      | inl a ↦ rw a (set_rsp-rip (set_vm_launch (enter_nested e c.shadow)) ∙ enter-rip)
      | inr a ↦ rw a (set_rsp-rip (enter_nested e c.shadow) ∙ enter-rip)
    ],
    (let entered = set_host_rsp e (enter_nested e c.shadow) in
        let moved = set_rsp-rip (enter_nested e c.shadow) ∙ enter-rip in
        if_elim (λ (t : Shadow). t.nested.region e.guest_vmcs vm_guest_rip ≡ next_rip)
          c.shadow.support (set_vm_launch entered) entered moved moved),
  )

  type1-rip :
      (r : ℕ)
      → (vm_exit_callback_vmx_inst_type1 c.shadow r).nested.region e.guest_vmcs vm_guest_rip
        ≡ next_rip
  unfolding vm_exit_callback_vmx_inst_type1
  type1-rip r =
      let n = on_processor (λ u. clear_vmx_inst_flags (advance_vm_guest_rip u)) c.shadow.nested in
      let moved = stepped_once c.shadow.nested e.guest_vmcs here in
      let s1 : Shadow = record c.shadow { nested = n } in
      elim (Bool-cases (r == vm_exit_reason_vmclear)) [
        | inl a ↦ rw a (
            if_elim (λ (t : Shadow). t.nested.region e.guest_vmcs vm_guest_rip ≡ next_rip)
              (n.nested_vmcs_ptr == vmcs_operand c.shadow.nested)
              (clear_vmcs_shadowing_to_current
                (record s1 { nested = record n { nested_vmcs_ptr = 0 } }))
              s1
              (clear_shadowing-rip (record s1 { nested = record n { nested_vmcs_ptr = 0 } })
                  e.guest_vmcs
                ∙ moved)
              moved)
        | inr a ↦ rw a (elim (Bool-cases (r == vm_exit_reason_vmptrld)) [
          | inl b ↦ rw b (
              set_shadowing-rip
                (record s1 { nested = record n { nested_vmcs_ptr = vmcs_operand c.shadow.nested } })
                (vmcs_operand c.shadow.nested) e.guest_vmcs
              ∙ moved)
          | inr b ↦ rw b moved
        ])
      ]

  pub vmx-rip :
      (r : ℕ)
      → c.shadow.nested.nested_vmcs_ptr ≢ e.guest_vmcs
      → rip_of (dispatch_vmx e c r) ≡ next_rip
  unfolding dispatch_vmx exit_vmxoff
  vmx-rip r apart = elim (Bool-cases (r == 20)) [
    | inl a ↦ rw a launch-rip.0
    | inr a ↦ rw a (elim (Bool-cases (r == 24)) [
      | inl b ↦ rw b launch-rip.1
      | inr b ↦ rw b (elim (Bool-cases (r == 23 || r == 25)) [
        | inl d ↦ rw d (nested-rip r apart)
        | inr d ↦ rw d (elim (Bool-cases (r == 26)) [
          | inl f ↦ rw f (advanced-rip (record c.shadow.nested { nested_vmcs_ptr = 0 }) here)
          | inr f ↦ rw f (type1-rip r)
        ])
      ])
    ])
  ]
