-- ===== src/Vmx/Exit/Moves.antt =====
-- What each reason for an exit makes of the guest's RIP.
use alcatraz.Prelude.{
  ℕ, ◌%◌, ◌^◌, ◌≡◌, ◌≢◌, refl, ap, sym, ◌∙◌, arith, ◌==◌, ==_iff, ==_self, ◌&&◌, ◌||◌, leb, Bool,
  true, false, if◌then◌else◌, Bool-cases, inl, inr,
}
use alcatraz.Vmx.Registers.{Vm, vm_guest_rip, advance_vm_guest_rip}
use alcatraz.Vmx.Control.{vm_exit_callback_vmcall, vm_exit_callback_access_cr}
use alcatraz.Vmx.Breakpoint.{vm_exit_callback_int}
use alcatraz.Vmx.Descriptor.{vm_exit_callback_gdtr_idtr, vm_exit_callback_ldtr_tr}
use alcatraz.Vmx.Violation.{vm_exit_callback_ept_violation}
use alcatraz.Vmx.Exit.{
  Machinery, Cpu, vm_of, on_vm, machine_of, access_of, violation_of, put_violation,
}
use alcatraz.Vmx.Exit.Instructions.{
  vm_exit_callback_cpuid, put_edx_eax, exit_rdmsr, exit_wrmsr, exit_xsetbv,
  vm_exit_callback_pre_timer_expired,
}
use alcatraz.Vmx.Exit.Steps.{
  stepped_rip, Steps, advance-Steps, cpuid-Steps, vmcall-Steps, access_cr-Steps, gdtr_idtr-Steps,
  int_stays, violation_stays,
}
use alcatraz.Vmx.Exit.Dispatch.{
  dispatch_event, dispatch_other, dispatch, vm_data_guest_linear_addr, vm_data_guest_phy_addr,
}
use alcatraz.Vmx.Descriptor.Laws.{ldtr_tr_step}
use alcatraz.Vmx.Exit.Entry.{nested-rip, vmx-rip}

-- The reasons for which the guest stays where it is: exceptions, external interrupts, the signals INIT
-- and start-up, violations of the EPT, and the hypervisor's timer.
abbrev pub stays : ℕ → Bool
stays r = r == 0 || (r == 1 || r == 3 || r == 4) || r == 48 || r == 52

stays_low : (r : ℕ) → leb r 17 ≡ true → stays r ≡ (r == 0 || (r == 1 || r == 3 || r == 4))
stays_low r h = ground (arith, h)

stays_vmx : (r : ℕ) → leb r 17 ≡ false → leb r 27 ≡ true → stays r ≡ false
stays_vmx r h k = ground (arith, h, k)

stays_high : (r : ℕ) → leb r 17 ≡ false → stays r ≡ (r == 48 || r == 52)
stays_high r h = ground (arith, h)

grouped : (r : ℕ) → (r == 50 || r == 53 || r == 58) ≡ true → stays r ≡ false
grouped r h = ground (arith, h)

stays_last : (r : ℕ) → leb r 17 ≡ false → (r == 48) ≡ false → (r == 52) ≡ false → stays r ≡ false
stays_last r h a b = ground (arith, h, a, b)

module _ (e : Machinery) where
  module _ (c : Cpu) (here : c.shadow.nested.current ≡ e.guest_vmcs) where
    abbrev pub rip_of : Cpu → ℕ
    rip_of d = d.shadow.nested.region e.guest_vmcs vm_guest_rip

    abbrev pub next_rip : ℕ
    next_rip = stepped_rip (c.shadow.nested.region e.guest_vmcs)

    -- A handler on the guest's own VMCS.
    on_vm-rip : (f : Vm → Vm) → Steps (vm_of c) (f (vm_of c)) → rip_of (on_vm f c) ≡ next_rip
    on_vm-rip f moved = rw (← here) (rw (==_self c.shadow.nested.current) moved)

    on_vm-stays :
        (f : Vm → Vm)
        → (f (vm_of c)).vmcs vm_guest_rip ≡ (vm_of c).vmcs vm_guest_rip
        → rip_of (on_vm f c) ≡ rip_of c
    on_vm-stays f same = rw (← here) (rw (==_self c.shadow.nested.current) same)

    -- What the exit with reason `r` makes of the guest's RIP.
    abbrev pub Moves : ℕ → Cpu → Type 0
    Moves r d = rip_of d ≡ (if stays r then rip_of c else next_rip)

    event-rip : (r q : ℕ) → leb r 17 ≡ true → Moves r (dispatch_event e c r q)
    unfolding dispatch_event
    event-rip r q small = rw (stays_low r small) (elim (Bool-cases (r == 0)) [
      | inl a ↦ rw a (
          on_vm-stays
            (λ u. (vm_exit_callback_int e.rb e.current e.task_at e.shutdowning (machine_of c) q).vm)
            (int_stays e.rb e.current e.task_at e.shutdowning (machine_of c) q))
      | inr a ↦ rw a (elim (Bool-cases (r == 1 || r == 3 || r == 4)) [
        | inl b ↦ rw b refl
        | inr b ↦ rw b (elim (Bool-cases (r == 10)) [
          | inl d ↦ rw d (on_vm-rip (vm_exit_callback_cpuid e) (cpuid-Steps e (vm_of c)))
          | inr d ↦ rw d (on_vm-rip advance_vm_guest_rip (advance-Steps (vm_of c)))
        ])
      ])
    ])

    violation-rip :
        rip_of (
          put_violation c (
            vm_exit_callback_ept_violation e.ro e.sleep_notify e.shutdowning e.time
              (violation_of c)
              ((vm_of c).vmcs vm_data_guest_linear_addr)
              ((vm_of c).vmcs vm_data_guest_phy_addr)))
        ≡ rip_of c
    violation-rip =
        on_vm-stays
          (λ u.
            (vm_exit_callback_ept_violation e.ro e.sleep_notify e.shutdowning e.time
              (violation_of c) ((vm_of c).vmcs vm_data_guest_linear_addr)
              ((vm_of c).vmcs vm_data_guest_phy_addr)).vm)
          (violation_stays e.ro e.sleep_notify ((vm_of c).vmcs vm_data_guest_linear_addr)
            ((vm_of c).vmcs vm_data_guest_phy_addr) e.time (violation_of c) e.shutdowning)

    timer-rip : rip_of (vm_exit_callback_pre_timer_expired e c) ≡ rip_of c
    unfolding vm_exit_callback_pre_timer_expired
    timer-rip = elim (Bool-cases e.shutdowning) [
      | inl u ↦ rw u (rw (← here) (rw (==_self c.shadow.nested.current) refl))
      | inr u ↦ rw u (rw (← here) (rw (==_self c.shadow.nested.current) refl))
    ]

    msr-rip :
        (rip_of (exit_rdmsr c) ≡ next_rip)
        × (rip_of (exit_wrmsr c) ≡ next_rip)
        × (rip_of (exit_xsetbv c) ≡ next_rip)
    unfolding exit_rdmsr exit_wrmsr exit_xsetbv
    msr-rip = (
      (let v = c.msr ((vm_of c).regs.rcx % 2 ^ 32) in
          on_vm-rip (λ s. advance_vm_guest_rip (put_edx_eax v s))
            (advance-Steps (put_edx_eax v (vm_of c)))),
      on_vm-rip advance_vm_guest_rip (advance-Steps (vm_of c)),
      on_vm-rip advance_vm_guest_rip (advance-Steps (vm_of c)),
    )

    other-rip :
        (r q : ℕ) (moves : Bool)
        → stays r ≡ moves
        → e.shutdowning ≡ false
        → c.shadow.nested.nested_vmcs_ptr ≢ e.guest_vmcs
        → leb r 17 ≡ false
        → rip_of (dispatch_other e c r q) ≡ (if moves then rip_of c else next_rip)
    unfolding dispatch_other
    other-rip r q moves same up apart large =
        let is = λ (n : ℕ) (a : (r == n) ≡ true). sym same ∙ ap stays ((==_iff r n).0 a) in
        elim (Bool-cases (r == 18)) [
          | inl a ↦ rw (is 18 a) (
              rw a (
                on_vm-rip (λ u. vm_exit_callback_vmcall u e.log_info)
                  (vmcall-Steps (vm_of c) e.log_info)))
          | inr a ↦ rw a (elim (Bool-cases (r == 28)) [
            | inl b ↦ rw (is 28 b) (
                rw b (
                  on_vm-rip (λ u. vm_exit_callback_access_cr u q e.cr2 e.cr8)
                    (access_cr-Steps (vm_of c) q e.cr2 e.cr8)))
            | inr b ↦ rw b (elim (Bool-cases (r == 31)) [
              | inl d ↦ rw (is 31 d) (rw d msr-rip.0)
              | inr d ↦ rw d (elim (Bool-cases (r == 32)) [
                | inl f ↦ rw (is 32 f) (rw f msr-rip.1)
                | inr f ↦ rw f (elim (Bool-cases (r == 46)) [
                  | inl g ↦ rw (is 46 g) (
                      rw (g, up)
                        (on_vm-rip (λ u. (vm_exit_callback_gdtr_idtr false (access_of c)).vm)
                          (gdtr_idtr-Steps (access_of c))))
                  | inr g ↦ rw g (elim (Bool-cases (r == 47)) [
                    | inl h ↦ rw (is 47 h) (
                        rw h (
                          on_vm-rip (λ u. (vm_exit_callback_ldtr_tr (access_of c)).vm)
                            (ldtr_tr_step (access_of c))))
                    | inr h ↦ rw h (elim (Bool-cases (r == 48)) [
                      | inl i ↦ rw (is 48 i) (rw i violation-rip)
                      | inr i ↦ rw i (elim (Bool-cases (r == 50 || r == 53 || r == 58)) [
                        | inl j ↦ rw (sym same ∙ grouped r j) (rw j (nested-rip e c here r apart))
                        | inr j ↦ rw j (elim (Bool-cases (r == 52)) [
                          | inl k ↦ rw (is 52 k) (rw k timer-rip)
                          | inr k ↦ rw (sym same ∙ stays_last r large i k) (
                              rw k (elim (Bool-cases (r == 55)) [
                                | inl l ↦ rw l msr-rip.2
                                | inr l ↦
                                    rw l (on_vm-rip advance_vm_guest_rip (advance-Steps (vm_of c)))
                              ]))
                        ])
                      ])
                    ])
                  ])
                ])
              ])
            ])
          ])
        ]

    pub dispatch-rip :
        (r q : ℕ)
        → e.shutdowning ≡ false
        → c.shadow.nested.nested_vmcs_ptr ≢ e.guest_vmcs
        → Moves r (dispatch e c r q)
    unfolding dispatch
    dispatch-rip r q up apart = elim (Bool-cases (leb r 17)) [
      | inl a ↦ rw a (event-rip r q a)
      | inr a ↦ rw a (elim (Bool-cases (leb 19 r && leb r 27)) [
        | inl b ↦ rw b (rw (stays_vmx r a (ground (arith, b))) (vmx-rip e c here r apart))
        | inr b ↦ rw b (other-rip r q (stays r) refl up apart a)
      ])
    ]
