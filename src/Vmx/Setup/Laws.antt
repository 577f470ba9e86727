-- ===== src/Vmx/Setup/Laws.antt =====
-- What every field of the VMCS holds after the set-up.
use alcatraz.Prelude.{
  ℕ, zero, suc, ◌+◌, ◌-◌, ◌%◌, ◌^◌, ◌≡◌, ◌≢◌, refl, ap, ◌∙◌, Bool, true, false, ◌==◌, if◌then◌else◌,
  List, [], ◌∷◌, some, get_elem?, arith, Bool-cases, inl, inr, ==_self,
}
use alcatraz.Prelude.Keys.{absent, are_distinct, absent-get}
use alcatraz.Vmx.Controls.{ControlRegister}
use alcatraz.Vmx.Setup.{
  Processor, HostRegister, VmGuestRegister, setup_vm_host_register, setup_vm_guest_register,
  encode_dr7,
}
use alcatraz.Vmx.Setup.Fields.{
  host_fields, vm_guest_fields, control_fields, vmcs_fields, write_all, setup_vmcs,
}

-- The fields after one write, which the processor accepts or not.
abbrev written : Bool → ℕ × ℕ → (ℕ → ℕ) → (ℕ → ℕ)
written ok x vmcs = if ok then (λ f. if f == x.0 then x.1 else vmcs f) else vmcs

written-here :
    (ok : Bool) (x : ℕ × ℕ) (vmcs : ℕ → ℕ) → written ok x vmcs x.0 ≡ (if ok then x.1 else vmcs x.0)
written-here true x vmcs = rw (==_self x.0) refl
written-here false x vmcs = refl

written-apart :
    (ok : Bool) (f : ℕ) (x : ℕ × ℕ) (vmcs : ℕ → ℕ)
    → (f == x.0) ≡ false
    → written ok x vmcs f ≡ vmcs f
written-apart true f x vmcs h = rw h refl
written-apart false f x vmcs h = refl

module _ (accepts : ℕ → Bool) where
  pub untouched :
      (f : ℕ) (xs : List (ℕ × ℕ)) (vmcs : ℕ → ℕ)
      → absent f xs ≡ true
      → write_all accepts xs vmcs f ≡ vmcs f
  unfolding write_all
  untouched f [] vmcs a = refl
  untouched f (x ∷ xs) vmcs a =
      let other : (f == x.0) ≡ false = ground arith in
      untouched f xs _ (ground arith) ∙ written-apart (accepts x.0) f x vmcs other

  write_all-get :
      (xs : List (ℕ × ℕ)) (i : ℕ) (x : ℕ × ℕ) (vmcs : ℕ → ℕ)
      → are_distinct xs ≡ true
      → get_elem? xs i ≡ some x
      → write_all accepts xs vmcs x.0 ≡ (if accepts x.0 then x.1 else vmcs x.0)
  unfolding write_all
  write_all-get [] i x vmcs d e = cc
  write_all-get (y ∷ ys) zero x vmcs d e =
      let same : y ≡ x = cc in
      rw (← same) (untouched y.0 ys _ (ground arith) ∙ written-here (accepts y.0) y vmcs)
  write_all-get (y ∷ ys) (suc i) x vmcs d e =
      let other : x.0 ≢ y.0 = absent-get y.0 ys i x (ground arith) e in
      write_all-get ys i x _ (ground arith) e
      ∙ ap (λ (w : ℕ). if accepts x.0 then x.1 else w)
          (written-apart (accepts y.0) x.0 y vmcs (ground arith))

vmcs_fields-distinct :
    (h : HostRegister) (g : VmGuestRegister) (c : ControlRegister) (pre_timer support_vpid : ℕ)
    → are_distinct (vmcs_fields h g c pre_timer support_vpid) ≡ true
unfolding vmcs_fields host_fields vm_guest_fields control_fields
vmcs_fields-distinct h g c pre_timer support_vpid = elim (Bool-cases (support_vpid == 1)) [
  | inl used ↦ rw used refl
  | inr unused ↦ rw unused refl
]

-- The set-up leaves in every field that it writes the value that the list of its writes has for it,
-- where the processor accepts the field, and what was there before where it does not: no field is
-- written twice.
pub setup_vmcs-field :
    (accepts : ℕ → Bool) (h : HostRegister) (g : VmGuestRegister) (c : ControlRegister)
    (pre_timer support_vpid : ℕ) (vmcs : ℕ → ℕ) (i : ℕ) (x : ℕ × ℕ)
    → get_elem? (vmcs_fields h g c pre_timer support_vpid) i ≡ some x
    → setup_vmcs accepts h g c pre_timer support_vpid vmcs x.0
      ≡ (if accepts x.0 then x.1 else vmcs x.0)
unfolding setup_vmcs
setup_vmcs-field accepts h g c pre_timer support_vpid vmcs i x e =
    write_all-get accepts (vmcs_fields h g c pre_timer support_vpid) i x vmcs
      (vmcs_fields-distinct h g c pre_timer support_vpid) e

abbrev pub host_of : Processor → HostRegister
host_of p = setup_vm_host_register p

abbrev pub guest_of : Processor → VmGuestRegister
guest_of p = setup_vm_guest_register p (host_of p)

module _ (p : Processor) (c : ControlRegister) (pre_timer support_vpid : ℕ) (vmcs : ℕ → ℕ) where
  -- What a field holds on a processor that accepts all fields.
  abbrev pub field_of : ℕ → ℕ
  field_of = setup_vmcs (λ f. true) (host_of p) (guest_of p) c pre_timer support_vpid vmcs

  at_field :
      (i : ℕ) (x : ℕ × ℕ)
      → get_elem? (vmcs_fields (host_of p) (guest_of p) c pre_timer support_vpid) i ≡ some x
      → field_of x.0 ≡ x.1
  at_field = setup_vmcs-field (λ f. true) (host_of p) (guest_of p) c pre_timer support_vpid vmcs

  -- The fields that the kernel's state and the hypervisor's stand in.
  abbrev pub IsInPlace : Type 0
  IsInPlace =
      (field_of 0x6800 ≡ p.cr0)
      × (field_of 0x6802 ≡ p.cr3)
      × (field_of 0x6804 ≡ p.cr4)
      × (field_of 0x681A ≡ 0x4AA)
      × (field_of 0x6820 ≡ p.rflags)
      × (field_of 0x802 ≡ p.cs)
      × (field_of 0x804 ≡ p.ss)
      × (field_of 0x806 ≡ p.ds)
      × (field_of 0x800 ≡ p.es)
      × (field_of 0x808 ≡ p.fs)
      × (field_of 0x80A ≡ p.gs)
      × (field_of 0x80C ≡ p.ldtr)
      × (field_of 0x80E ≡ p.tr)
      × (field_of 0x6816 ≡ p.gdtr.address)
      × (field_of 0x4810 ≡ p.gdtr.size)
      × (field_of 0x6818 ≡ p.idtr.address)
      × (field_of 0x4812 ≡ p.idtr.size)
      × (field_of 0x680E ≡ p.rdmsr 0xC0000100)
      × (field_of 0x6810 ≡ p.rdmsr 0xC0000101)
      × (field_of 0x2806 ≡ p.rdmsr 0xC0000080)
      × (field_of 0x2800 ≡ 0xFFFF_FFFF_FFFF_FFFF)
      × (field_of 0x6C00 ≡ p.cr0)
      × (field_of 0x6C04 ≡ p.cr4)
      × (field_of 0x6C02 ≡ p.host_phy_pml4)
      × (field_of 0x6C0E ≡ p.host_idtr.address)
      × (field_of 0x6C16 ≡ p.vm_exit_callback_stub)
      × (field_of 0x6C14 ≡ (p.vm_exit_stack + p.stack_size - 4096) % 2 ^ 64)

  -- On a processor that accepts every field the guest goes on where the kernel is: the VMCS has for
  -- the guest the processor's CR0, CR3, CR4 and RFLAGS, its eight selectors, the base and the limit of
  -- its GDT and of its IDT, the bases of FS and GS and EFER from their MSRs, no linked VMCS, and a DR7
  -- that arms the four breakpoints on execution. The hypervisor has the same CR0 and CR4, page tables
  -- and IDT of its own, and is entered at its stub on the stack for exits.
  pub guest_in_place : IsInPlace
  unfolding vmcs_fields host_fields vm_guest_fields setup_vm_host_register setup_vm_guest_register
      encode_dr7
  guest_in_place = (
    at_field 23 (0x6800, p.cr0) refl,
    at_field 24 (0x6802, p.cr3) refl,
    at_field 25 (0x6804, p.cr4) refl,
    at_field 26 (0x681A, 0x4AA) refl,
    at_field 29 (0x6820, p.rflags) refl,
    at_field 30 (0x802, p.cs) refl,
    at_field 31 (0x804, p.ss) refl,
    at_field 32 (0x806, p.ds) refl,
    at_field 33 (0x800, p.es) refl,
    at_field 34 (0x808, p.fs) refl,
    at_field 35 (0x80A, p.gs) refl,
    at_field 36 (0x80C, p.ldtr) refl,
    at_field 37 (0x80E, p.tr) refl,
    at_field 62 (0x6816, p.gdtr.address) refl,
    at_field 64 (0x4810, p.gdtr.size) refl,
    at_field 63 (0x6818, p.idtr.address) refl,
    at_field 65 (0x4812, p.idtr.size) refl,
    at_field 42 (0x680E, p.rdmsr 0xC0000100) refl,
    at_field 43 (0x6810, p.rdmsr 0xC0000101) refl,
    at_field 72 (0x2806, p.rdmsr 0xC0000080) refl,
    at_field 73 (0x2800, 0xFFFF_FFFF_FFFF_FFFF) refl,
    at_field 0 (0x6C00, p.cr0) refl,
    at_field 2 (0x6C04, p.cr4) refl,
    at_field 1 (0x6C02, p.host_phy_pml4) refl,
    at_field 16 (0x6C0E, p.host_idtr.address) refl,
    at_field 4 (0x6C16, p.vm_exit_callback_stub) refl,
    at_field 3 (0x6C14, (p.vm_exit_stack + p.stack_size - 4096) % 2 ^ 64) refl,
  )
