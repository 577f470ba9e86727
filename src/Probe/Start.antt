-- ===== src/Probe/Start.antt =====
-- VMX on and off on one processor and on all: `hb_vmxon_on_cpu`, `hb_vmxoff_on_cpu`,
-- `hb_vmx_startup_all_cpus` and `hb_vmx_teardown_all_cpus` of hypervisor/hb_probe.c.
-- `smp_call_function_single` runs its function on the processor that it names, and waits for it.
pub mod Cpus
pub mod Laws
pub mod Stop
pub mod Live
pub mod Success
use alcatraz.Prelude.{ℕ, ◌+◌, ◌-◌, ◌==◌, Bool, true, false, ◌||◌, if◌then◌else◌, List, [], ◌∷◌}
use alcatraz.Probe.{
  Code, success, eio, is_success, Hardware, Cpu, PercpuVmx, Machine, put, enable_vmx, disable_vmx,
  adjust_vmx_cr0_cr4,
}
use alcatraz.Probe.Write.{probe_vmwrite}

-- `preempt_disable` and `local_irq_disable`, and their inverses at the end.
abbrev pub hold : Cpu → Cpu
hold c = record c { irq_enabled = false; preempt_count = c.preempt_count + 1 }

abbrev pub release : Cpu → Cpu
release c = record c { irq_enabled = true; preempt_count = c.preempt_count - 1 }

pub record Outcome : Type 0 where
  pub failed : Bool
  pub cpu : Cpu
  pub pc : PercpuVmx

-- From the label `out_restore_cr`.
unfoldable pub out_restore_cr : ℕ → ℕ → Cpu → PercpuVmx → Outcome
out_restore_cr saved_cr0 saved_cr4 c pc = record {
  failed = true;
  cpu = release (record (disable_vmx c) { cr4 = saved_cr4; cr0 = saved_cr0 });
  pc = pc;
}

-- From the label `out_vmxoff`, which is reached in VMX operation only.
unfoldable pub out_vmxoff : ℕ → ℕ → Cpu → PercpuVmx → Outcome
out_vmxoff saved_cr0 saved_cr4 c pc =
    out_restore_cr saved_cr0 saved_cr4 (record c { in_vmx = false; current = 0 })
      (record pc { vmx_on = false })

unfoldable pub out_keep_vmx : Cpu → PercpuVmx → Outcome
out_keep_vmx c pc = record { failed = false; cpu = release c; pc = pc }

-- VMCLEAR, VMPTRLD and the writes, after VMXON; `revision` is the first dword of the region.
unfoldable pub load_and_write : Hardware → ℕ → ℕ → ℕ → ℕ → Cpu → PercpuVmx → Outcome
load_and_write h cpu revision saved_cr0 saved_cr4 c pc =
    let loaded = record c { current = pc.vmcs_region } in
    let (ret, written) = probe_vmwrite h cpu loaded in
    if h.vmclear_ok cpu c pc.vmcs_region revision
    then (if h.vmptrld_ok cpu c pc.vmcs_region revision
        then (if is_success ret
            then out_keep_vmx written pc
            else out_vmxoff saved_cr0 saved_cr4 written pc)
        else out_vmxoff saved_cr0 saved_cr4 c pc)
    else out_vmxoff saved_cr0 saved_cr4 c pc

-- The processor just before VMXON.
abbrev pub ready : Hardware → ℕ → Cpu → Cpu
ready h cpu c = enable_vmx (adjust_vmx_cr0_cr4 h cpu (hold c))

-- From `preempt_disable` on.
unfoldable pub start_cpu : Hardware → ℕ → ℕ → ℕ → Cpu → PercpuVmx → Outcome
start_cpu h cpu vmxon_revision vmcs_revision c pc =
    let saved = record pc { saved_cr0 = c.cr0; saved_cr4 = c.cr4 } in
    let c' = ready h cpu c in
    if h.vmxon_ok cpu c' pc.vmxon_region vmxon_revision
    then load_and_write h cpu vmcs_revision c.cr0 c.cr4
        (record c' { in_vmx = true; vmxon_pointer = pc.vmxon_region })
        (record saved { vmx_on = true })
    else out_restore_cr c.cr0 c.cr4 c' saved

unfoldable pub vmxon_on_cpu : Hardware → ℕ → Machine → Machine
vmxon_on_cpu h cpu s =
    let pc = s.percpu cpu in
    let word = put (put s.word pc.vmxon_region s.revision) pc.vmcs_region s.revision in
    let o = start_cpu h cpu (word pc.vmxon_region) (word pc.vmcs_region) (s.cpus cpu) pc in
    if s.probe_failed
    then s
    else if pc.vmxon_region == 0 || pc.vmcs_region == 0
    then record s { probe_failed = true }
    else record s {
      word = word;
      cpus = put s.cpus cpu o.cpu;
      percpu = put s.percpu cpu o.pc;
      probe_failed = o.failed;
    }

unfoldable pub stop_cpu : Cpu → PercpuVmx → Cpu
stop_cpu c pc =
    let off = disable_vmx (record (hold c) { in_vmx = false; current = 0 }) in
    release (record off { cr4 = pc.saved_cr4; cr0 = pc.saved_cr0 })

unfoldable pub vmxoff_on_cpu : ℕ → Machine → Machine
vmxoff_on_cpu cpu s =
    let pc = s.percpu cpu in
    if pc.vmx_on
    then record s {
      cpus = put s.cpus cpu (stop_cpu (s.cpus cpu) pc);
      percpu = put s.percpu cpu (record pc { vmx_on = false });
    }
    else s

-- The loop of `hb_vmx_startup_all_cpus`.
unfoldable pub startup_cpus : Hardware → List ℕ → Machine → Code × Machine
startup_cpus h [] s = (success, s)
startup_cpus h (cpu ∷ cpus) s =
    let s' = vmxon_on_cpu h cpu s in
    let rest = startup_cpus h cpus s' in if s'.probe_failed then (eio, s') else rest

unfoldable pub startup_all_cpus : Hardware → List ℕ → Machine → Code × Machine
startup_all_cpus h online s = startup_cpus h online (record s { probe_failed = false })

unfoldable pub teardown_cpus : List ℕ → Machine → Machine
teardown_cpus [] s = s
teardown_cpus (cpu ∷ cpus) s = teardown_cpus cpus (vmxoff_on_cpu cpu s)

unfoldable pub teardown_all_cpus : List ℕ → Machine → Machine
teardown_all_cpus online s = if s.g_vmx then teardown_cpus online s else s
