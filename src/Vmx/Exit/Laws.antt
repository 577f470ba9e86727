-- ===== src/Vmx/Exit/Laws.antt =====
-- Each exit of the guest moves it on once, or not at all.
use alcatraz.Prelude.{
  ℕ, ◌+◌, ◌-◌, ◌%◌, ◌^◌, ◌≡◌, ◌≢◌, refl, ap, sym, ◌∙◌, arith, ◌==◌, ==_iff, ◌&&◌, ◌||◌, not, leb,
  Bool, true, false, if◌then◌else◌, if_elim, Bool-cases, inl, inr, bit_and,
}
use alcatraz.Vmx.Registers.{write_vmcs, vm_guest_rip, vm_data_vm_exit_inst_length}
use alcatraz.Vmx.Nested.{on_processor, vm_data_exit_qualification}
use alcatraz.Vmx.Nested.HostState.{on_processor-region}
use alcatraz.Vmx.Shadow.{Shadow, set_vmcs_shadowing_to_current}
use alcatraz.Vmx.Exit.{
  Machinery, Cpu, vm_of, on_vm, on_shadow, check_shutdown_timer, hide_hyper_box,
}
use alcatraz.Vmx.Exit.Steps.{stepped_rip}
use alcatraz.Vmx.Exit.Dispatch.{
  dispatch, exit_from_guest, vm_exit_callback, vm_data_exit_reason, vm_ctrl_vm_entry_inst_length,
}
use alcatraz.Vmx.Exit.Entry.{set_shadowing-rip}
use alcatraz.Vmx.Exit.Moves.{stays, dispatch-rip}

module _ (e : Machinery) where
  -- What happens before the dispatch changes neither the guest's VMCS nor its instruction.
  abbrev prepared : Cpu → Cpu
  prepared c =
      hide_hyper_box e
        (on_vm (λ v. write_vmcs v vm_ctrl_vm_entry_inst_length 0) (check_shutdown_timer e c))

  timed-shadow : (c : Cpu) → (check_shutdown_timer e c).shadow ≡ c.shadow
  unfolding check_shutdown_timer
  timed-shadow c =
      elim (Bool-cases
        (c.timer && leb 600000 (e.msecs ((e.time + 2 ^ 64 - c.shutdown_jiffies) % 2 ^ 64)))) [
          | inl a ↦ rw a refl
          | inr a ↦ rw a refl
        ]

  hidden-shadow : (c : Cpu) → (hide_hyper_box e c).shadow ≡ c.shadow
  unfolding hide_hyper_box
  hidden-shadow c = ground arith

  prepared-shadow :
      (c : Cpu)
      → (prepared c).shadow ≡ (on_vm (λ v. write_vmcs v vm_ctrl_vm_entry_inst_length 0) c).shadow
  prepared-shadow c =
      hidden-shadow
        (on_vm (λ v. write_vmcs v vm_ctrl_vm_entry_inst_length 0) (check_shutdown_timer e c))
      ∙ ap
          (λ (s : Shadow).
            let n = on_processor (λ v. write_vmcs v vm_ctrl_vm_entry_inst_length 0) s.nested in
            let s' : Shadow = record s { nested = n } in s')
          (timed-shadow c)

  prepared-field :
      (c : Cpu) (f : ℕ)
      → (vm_ctrl_vm_entry_inst_length == f) ≡ false
      → (prepared c).shadow.nested.region e.guest_vmcs f ≡ c.shadow.nested.region e.guest_vmcs f
  prepared-field c f other =
      ap (λ (s : Shadow). s.nested.region e.guest_vmcs f) (prepared-shadow c)
      ∙ on_processor-region (λ v. write_vmcs v vm_ctrl_vm_entry_inst_length 0) c.shadow.nested
          e.guest_vmcs f (λ u. rw other refl)

  -- The shadow VMCS that is set at the end does not matter for RIP.
  left-rip :
      (c : Cpu)
      → let done =
          dispatch e
            (prepared c)
            (bit_and ((vm_of c).vmcs vm_data_exit_reason) 0xFFFF)
            ((vm_of c).vmcs vm_data_exit_qualification) in
        (exit_from_guest e c).shadow.nested.region e.guest_vmcs vm_guest_rip
        ≡ done.shadow.nested.region e.guest_vmcs vm_guest_rip
  unfolding exit_from_guest
  left-rip c =
      let r = bit_and ((vm_of c).vmcs vm_data_exit_reason) 0xFFFF in
      let done = dispatch e (prepared c) r ((vm_of c).vmcs vm_data_exit_qualification) in
      let set : Shadow → Shadow = λ s. set_vmcs_shadowing_to_current s s.nested.nested_vmcs_ptr in
      if_elim
        (λ (d : Cpu).
          d.shadow.nested.region e.guest_vmcs vm_guest_rip
          ≡ done.shadow.nested.region e.guest_vmcs vm_guest_rip)
        (done.shadow.support
          && not (r == 20 || r == 24)
          && not (done.shadow.nested.nested_vmcs_ptr == 0))
        (on_shadow set done) done
        (set_shadowing-rip done.shadow done.shadow.nested.nested_vmcs_ptr e.guest_vmcs) refl

  ends :
      (b : Bool) (c : Cpu)
      → (prepared c).shadow.nested.region e.guest_vmcs vm_guest_rip
        ≡ c.shadow.nested.region e.guest_vmcs vm_guest_rip
      → (prepared c).shadow.nested.region e.guest_vmcs vm_data_vm_exit_inst_length
        ≡ c.shadow.nested.region e.guest_vmcs vm_data_vm_exit_inst_length
      → (if b
          then (prepared c).shadow.nested.region e.guest_vmcs vm_guest_rip
          else stepped_rip ((prepared c).shadow.nested.region e.guest_vmcs))
        ≡ (if b
            then c.shadow.nested.region e.guest_vmcs vm_guest_rip
            else stepped_rip (c.shadow.nested.region e.guest_vmcs))
  ends b c rip len = rw (rip, len) refl

  -- An exit of the guest itself, while the system is not shutting down and the nested hypervisor has
  -- not made the guest's own VMCS the nested one. After an exception, an external interrupt, a signal
  -- INIT or start-up, a violation of the EPT or the end of the hypervisor's timer, the guest's RIP is
  -- as it was; after every other exit, for a reason known to the hypervisor or not, it has moved past
  -- the instruction once.
  pub exit_steps :
      (c : Cpu)
      → c.shadow.nested.current ≡ e.guest_vmcs
      → e.shutdowning ≡ false
      → c.shadow.nested.nested_vmcs_ptr ≢ e.guest_vmcs
      → let r = bit_and ((vm_of c).vmcs vm_data_exit_reason) 0xFFFF in
        let guest = c.shadow.nested.region e.guest_vmcs in
        (vm_exit_callback e c).shadow.nested.region e.guest_vmcs vm_guest_rip ≡ (
          if stays r
          then guest vm_guest_rip
          else (guest vm_guest_rip + guest vm_data_vm_exit_inst_length) % 2 ^ 64)
  unfolding vm_exit_callback
  exit_steps c here up apart =
      let c1 : Cpu = record c { root_mode = 1 } in
      let r = bit_and ((vm_of c).vmcs vm_data_exit_reason) 0xFFFF in
      let q = (vm_of c).vmcs vm_data_exit_qualification in
      let c2 = prepared c1 in
      let shadow2 = prepared-shadow c1 in
      let at : c2.shadow.nested.current ≡ e.guest_vmcs =
        ap (λ (s : Shadow). s.nested.current) shadow2 ∙ here in
      let apart2 : c2.shadow.nested.nested_vmcs_ptr ≢ e.guest_vmcs =
        λ z. apart (sym (ap (λ (s : Shadow). s.nested.nested_vmcs_ptr) shadow2) ∙ z) in
      let moved = dispatch-rip e c2 at r q up apart2 in
      let rip = prepared-field c1 vm_guest_rip refl in
      let len = prepared-field c1 vm_data_vm_exit_inst_length refl in
      let own : (c.shadow.nested.current == e.guest_vmcs) ≡ true = (==_iff _ _).1 here in
      rw own (left-rip c1 ∙ moved ∙ ends (stays r) c1 rip len)
