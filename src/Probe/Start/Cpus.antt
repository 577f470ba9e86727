-- ===== src/Probe/Start/Cpus.antt =====
-- One processor of hypervisor/hb_probe.c, whichever instruction fails.
use alcatraz.Prelude.{ℕ, ◌+◌, ◌≡◌, refl, ap, sym, ◌∙◌, true, false, if◌then◌else◌, arith, if_elim}
use alcatraz.Probe.{
  Code, is_success, Hardware, Cpu, PercpuVmx, enable_vmx, disable_vmx, adjust_vmx_cr0_cr4,
}
use alcatraz.Probe.Guest.{capture_guest_state, placeholder}
use alcatraz.Probe.Write.{
  write_field, vmwrite_guest_state, check_field, probe_guest_state, probe_vmwrite, vmcs_link_ptr,
}
use alcatraz.Probe.Write.Laws.{vmwrite_guest_state-IsPrefix}
use alcatraz.Probe.Start.{
  Outcome, out_restore_cr, out_vmxoff, out_keep_vmx, load_and_write, ready, start_cpu, stop_cpu,
}

-- The two processors differ in the fields of the VMCS at most.
abbrev pub IsSameCpu : Cpu → Cpu → Type 0
IsSameCpu c c' = c' ≡ record c { vmcs = c'.vmcs }

IsSameCpu-trans : (a b c : Cpu) → IsSameCpu a b → IsSameCpu b c → IsSameCpu a c
IsSameCpu-trans a b c p q = q ∙ ap (λ (x : Cpu). record x { vmcs = c.vmcs }) p

-- What a write or a check returns keeps the processor.
abbrev Keeps : Cpu → Code × Cpu → Type 0
Keeps c r = IsSameCpu c r.1

module _ (h : Hardware) (cpu : ℕ) where
  write_field-keeps : (f v : ℕ) (c : Cpu) → IsSameCpu c (write_field h cpu f v c).1
  unfolding write_field
  write_field-keeps f v c = if_elim (Keeps c) (h.vmwrite_ok cpu c f v) _ _ refl refl

  probe_guest_state-keeps : (c : Cpu) → IsSameCpu c (probe_guest_state h cpu c).1
  unfolding probe_guest_state
  probe_guest_state-keeps c =
      let g = capture_guest_state h cpu c in
      let same = (vmwrite_guest_state-IsPrefix h cpu g c).1 in
      if_elim (Keeps c) (is_success (vmwrite_guest_state h cpu g c).0) _ _ same same

  pub probe_vmwrite-keeps : (c : Cpu) → IsSameCpu c (probe_vmwrite h cpu c).1
  unfolding probe_vmwrite
  probe_vmwrite-keeps c =
      let linked = write_field h cpu vmcs_link_ptr placeholder c in
      let same = write_field-keeps vmcs_link_ptr placeholder c in
      if_elim (Keeps c) (is_success linked.0) _ _
        (if_elim (Keeps c) (is_success (check_field h cpu vmcs_link_ptr placeholder linked.1)) _ _
          (IsSameCpu-trans c linked.1 _ same (probe_guest_state-keeps linked.1)) same)
        same

-- A processor against what it was before: its mark says whether it is in VMX operation; when it is
-- not its control registers are what they were, and when it is they are saved.
pub record IsTracked (before c : Cpu) (pc : PercpuVmx) : Type 0 where
  pub marked : pc.vmx_on ≡ c.in_vmx
  pub cr0_kept : (if pc.vmx_on then pc.saved_cr0 else c.cr0) ≡ before.cr0
  pub cr4_kept : (if pc.vmx_on then pc.saved_cr4 else c.cr4) ≡ before.cr4
  pub preempt_kept : c.preempt_count ≡ before.preempt_count

-- What holds of an outcome: a failure leaves the processor outside VMX operation, and the regions stay.
pub record IsOutcome (before : Cpu) (vmxon_region vmcs_region : ℕ) (o : Outcome) : Type 0 where
  pub tracked : IsTracked before o.cpu o.pc
  pub decided : o.pc.vmx_on ≡ (if o.failed then false else true)
  pub same_vmxon : o.pc.vmxon_region ≡ vmxon_region
  pub same_vmcs : o.pc.vmcs_region ≡ vmcs_region

abbrev pub IsGood : Cpu → PercpuVmx → Outcome → Type 0
IsGood before pc o = IsOutcome before pc.vmxon_region pc.vmcs_region o

module _ (before : Cpu) (c : Cpu) (pc : PercpuVmx)
    (held : c.preempt_count ≡ before.preempt_count + 1) where
  out_restore_cr-IsGood :
      c.in_vmx ≡ false
      → pc.vmx_on ≡ false
      → IsGood before pc (out_restore_cr before.cr0 before.cr4 c pc)
  unfolding out_restore_cr disable_vmx
  out_restore_cr-IsGood off unmarked = record {
    tracked = record {
      marked = unmarked ∙ sym off;
      cr0_kept = rw unmarked refl;
      cr4_kept = rw unmarked refl;
      preempt_kept = omega arith;
    };
    decided = unmarked;
    same_vmxon = refl;
    same_vmcs = refl;
  }

  out_vmxoff-IsGood : IsGood before pc (out_vmxoff before.cr0 before.cr4 c pc)
  unfolding out_vmxoff out_restore_cr disable_vmx
  out_vmxoff-IsGood = record {
    tracked = record {
      marked = refl;
      cr0_kept = refl;
      cr4_kept = refl;
      preempt_kept = omega arith;
    };
    decided = refl;
    same_vmxon = refl;
    same_vmcs = refl;
  }

  out_keep_vmx-IsGood :
      c.in_vmx ≡ true
      → pc.vmx_on ≡ true
      → pc.saved_cr0 ≡ before.cr0
      → pc.saved_cr4 ≡ before.cr4
      → IsGood before pc (out_keep_vmx c pc)
  unfolding out_keep_vmx
  out_keep_vmx-IsGood on marked e0 e4 = record {
    tracked = record {
      marked = marked ∙ sym on;
      cr0_kept = rw marked e0;
      cr4_kept = rw marked e4;
      preempt_kept = omega arith;
    };
    decided = marked;
    same_vmxon = refl;
    same_vmcs = refl;
  }

module _ (h : Hardware) (cpu : ℕ) (before : Cpu) where
  load_and_write-IsGood :
      (r : ℕ) (c : Cpu) (pc : PercpuVmx)
      → c.preempt_count ≡ before.preempt_count + 1
      → c.in_vmx ≡ true
      → pc.vmx_on ≡ true
      → pc.saved_cr0 ≡ before.cr0
      → pc.saved_cr4 ≡ before.cr4
      → IsGood before pc (load_and_write h cpu r before.cr0 before.cr4 c pc)
  unfolding load_and_write
  load_and_write-IsGood r c pc held on marked e0 e4 =
      let loaded : Cpu = record c { current = pc.vmcs_region } in
      let written = probe_vmwrite h cpu loaded in
      let same : IsSameCpu loaded written.1 = probe_vmwrite-keeps h cpu loaded in
      let counted : written.1.preempt_count ≡ before.preempt_count + 1 =
        ap (λ (x : Cpu). x.preempt_count) same ∙ held in
      let off = out_vmxoff-IsGood before c pc held in
      if_elim (IsGood before pc) (h.vmclear_ok cpu c pc.vmcs_region r) _ _
        (if_elim (IsGood before pc) (h.vmptrld_ok cpu c pc.vmcs_region r) _ _
          (if_elim (IsGood before pc) (is_success written.0) _ _
            (out_keep_vmx-IsGood before written.1 pc counted (ap (λ (x : Cpu). x.in_vmx) same ∙ on)
              marked e0 e4)
            (out_vmxoff-IsGood before written.1 pc counted))
          off)
        off

  -- A processor that is not in VMX operation ends in it with its control registers saved, or not in
  -- it with its control registers as they were.
  pub start_cpu-IsGood :
      (r r' : ℕ) (pc : PercpuVmx)
      → pc.vmx_on ≡ false
      → before.in_vmx ≡ false
      → IsGood before pc (start_cpu h cpu r r' before pc)
  unfolding start_cpu enable_vmx adjust_vmx_cr0_cr4
  start_cpu-IsGood r r' pc unmarked off =
      if_elim (IsGood before pc) (h.vmxon_ok cpu (ready h cpu before) pc.vmxon_region r) _ _
        (load_and_write-IsGood r'
          (record (ready h cpu before) { in_vmx = true; vmxon_pointer = pc.vmxon_region })
          (record pc { vmx_on = true; saved_cr0 = before.cr0; saved_cr4 = before.cr4 }) refl refl
          refl refl refl)
        (out_restore_cr-IsGood before (ready h cpu before)
          (record pc { saved_cr0 = before.cr0; saved_cr4 = before.cr4 }) refl off unmarked)

-- Turning VMX off gives a processor its control registers back.
pub stop_cpu-IsTracked :
    (before c : Cpu) (pc : PercpuVmx)
    → pc.vmx_on ≡ true
    → IsTracked before c pc
    → IsTracked before (stop_cpu c pc) (record pc { vmx_on = false })
unfolding stop_cpu disable_vmx
stop_cpu-IsTracked before c pc marked t = record {
  marked = refl;
  cr0_kept = rw (← t.cr0_kept) (rw marked refl);
  cr4_kept = rw (← t.cr4_kept) (rw marked refl);
  preempt_kept = omega (arith, t.preempt_kept);
}
