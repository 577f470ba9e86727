-- ===== src/Vmx/Exit/Launch.antt =====
-- Into a nested guest: what VMLAUNCH leaves behind.
use alcatraz.Prelude.{
  ℕ, ◌≡◌, ◌≢◌, inl, inr, refl, ap, sym, ◌∙◌, arith, ◌==◌, ==_iff, ==_self, true, false, Bool-cases,
}
use alcatraz.Prelude.Bits.{bit}
use alcatraz.Vmx.Registers.{write_vmcs, advance_vm_guest_rip, clear_vmx_inst_flags}
use alcatraz.Vmx.Nested.{on_processor, vm_host_rsp}
use alcatraz.Vmx.Nested.HostState.{on_processor-region}
use alcatraz.Vmx.Shadow.{
  Shadow, vm_vmcs_link_ptr, no_link, link_of, clear_vmcs_shadowing_to_current,
}
use alcatraz.Vmx.Shadow.Laws.{unmarked, clear-ptr}
use alcatraz.Vmx.Exit.{Machinery}
use alcatraz.Vmx.Exit.Instructions.{
  load_nested, enter_nested, exit_vmlaunch, set_host_rsp, set_vm_launch,
}

clear-unlinks :
    (s : Shadow)
    → s.support ≡ true
    → (clear_vmcs_shadowing_to_current s).nested.region s.nested.current vm_vmcs_link_ptr ≡ no_link
unfolding clear_vmcs_shadowing_to_current
clear-unlinks s on = elim (Bool-cases (link_of s == no_link)) [
  | inl a ↦ rw (on, a) ((==_iff _ _).0 a)
  | inr a ↦ rw (on, a) (rw (==_self s.nested.current) refl)
]

clear-unmarks :
    (s : Shadow) (p : ℕ)
    → s.support ≡ true
    → link_of s ≡ p
    → p ≢ no_link
    → bit 31 ((clear_vmcs_shadowing_to_current s).revision p) ≡ 0
unfolding clear_vmcs_shadowing_to_current
clear-unmarks s p on link ne =
    let linked : (link_of s == no_link) ≡ false = ground (arith, link, ne) in
    rw (← link) (rw (on, linked) (rw (==_self (link_of s)) (unmarked (s.revision (link_of s)))))

rsp_set :
    (e : Machinery) (s : Shadow)
    → (set_host_rsp e s).nested.region s.nested.current vm_host_rsp ≡ e.host.stack
rsp_set e s = rw (==_self s.nested.current) refl

module _ (e : Machinery) (s : Shadow) where
  abbrev moved : Shadow
  moved = record s { nested = on_processor advance_vm_guest_rip s.nested }

  abbrev unlinked : Shadow
  unlinked = clear_vmcs_shadowing_to_current moved

  abbrev ready : Shadow
  ready = record unlinked { nested = on_processor clear_vmx_inst_flags unlinked.nested }

  enter-loads :
      e.loadable s.nested.nested_vmcs_ptr ≡ true
      → enter_nested e s
        ≡ record ready { nested = record ready.nested { current = ready.nested.nested_vmcs_ptr } }
  unfolding enter_nested load_nested
  enter-loads loads =
      let can : e.loadable unlinked.nested.nested_vmcs_ptr ≡ true =
        ap e.loadable (clear-ptr moved) ∙ loads in
      rw can refl

  moved-link : link_of moved ≡ link_of s
  unfolding advance_vm_guest_rip
  moved-link = rw (==_self s.nested.current) refl

  ready-link : s.support ≡ true → ready.nested.region s.nested.current vm_vmcs_link_ptr ≡ no_link
  unfolding clear_vmx_inst_flags
  ready-link on =
      on_processor-region clear_vmx_inst_flags unlinked.nested s.nested.current vm_vmcs_link_ptr
        (λ u. refl)
      ∙ clear-unlinks moved on

-- A VMLAUNCH of a nested VMCS that the processor can load. The processor works on that VMCS then, is
-- told to launch it, and comes back to the hypervisor's stack when the nested guest exits. Where the
-- processor has shadow VMCSs, the guest's VMCS links none, and the launched one, if it was the linked
-- one, is not marked as a shadow any more.
pub launch_enters :
    (e : Machinery) (s : Shadow)
    → e.loadable s.nested.nested_vmcs_ptr ≡ true
    → let s' = exit_vmlaunch e s in
      (s'.nested.current ≡ s.nested.nested_vmcs_ptr)
      × (s'.nested.regs.vm_launch ≡ 1)
      × (s'.nested.region s.nested.nested_vmcs_ptr vm_host_rsp ≡ e.host.stack)
      × (s.support ≡ true
          → (s'.nested.region s.nested.current vm_vmcs_link_ptr ≡ no_link)
            × (link_of s ≡ s.nested.nested_vmcs_ptr
                → s.nested.nested_vmcs_ptr ≢ no_link
                → bit 31 (s'.revision s.nested.nested_vmcs_ptr) ≡ 0))
unfolding exit_vmlaunch
launch_enters e s loads =
    let r = ready e s in
    let p = r.nested.nested_vmcs_ptr in
    let same : p ≡ s.nested.nested_vmcs_ptr = clear-ptr (moved e s) in
    let in_it : Shadow = set_vm_launch (record r { nested = record r.nested { current = p } }) in
    rw loads (
      rw (enter-loads e s loads) (
        same,
        refl,
        ap (λ (q : ℕ). (set_host_rsp e in_it).nested.region q vm_host_rsp) (sym same)
            ∙ rsp_set e in_it,
        λ on. (
          on_processor-region (λ u. write_vmcs u vm_host_rsp e.host.stack) in_it.nested
                s.nested.current vm_vmcs_link_ptr (λ u. refl)
              ∙ ready-link e s on,
          λ link ne.
              clear-unmarks (moved e s) s.nested.nested_vmcs_ptr on (moved-link e s ∙ link) ne,
        ),
      ))
