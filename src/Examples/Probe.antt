-- ===== src/Examples/Probe.antt =====
-- Two processors on which the module of hypervisor/hb_probe.c is loaded, and one that refuses VMPTRLD.
use alcatraz.Prelude.{
  ℕ, ◌+◌, ◌*◌, ◌/◌, ◌%◌, ◌^◌, ◌≡◌, refl, arith, true, false, ◌==◌, if◌then◌else◌, [], ◌∷◌, some,
  get_or, ◌-◌, ◌↔◌, not, ℕ,
}
use alcatraz.Ept.Processor.{DescPtr}
use alcatraz.Vmx.Gdt.{Bytes, get_desc_base, get_desc_access, ldtr_fields, tr_fields}
use alcatraz.Vmx.Gdt.Laws.{Segment, IsSegment, IsSelector, IsAt, segment_of, descriptor_read}
use alcatraz.Probe.{
  success, Registers, Cpu, Hardware, Machine, enable_vmx, disable_vmx, adjust_vmx_cr0_cr4,
}
use alcatraz.Probe.Guest.{capture_guest_state, gdt_desc_base, gdt_desc_access, ldtr_tr_fields}
use alcatraz.Probe.Guest.Laws.{wrong_limit, ldtr_tr_fields-eq}
use alcatraz.Probe.Write.{
  write_field, write_fields, guest_fields, vmwrite_guest_state, check_field, probe_guest_state,
  probe_vmwrite,
}
use alcatraz.Probe.Regions.{no_regions, alloc_cpus, alloc_regions}
use alcatraz.Probe.Start.{
  out_restore_cr, out_vmxoff, out_keep_vmx, load_and_write, start_cpu, vmxon_on_cpu, startup_cpus,
  startup_all_cpus,
}
use alcatraz.Probe.Start.Success.{IsManual}
use alcatraz.Probe.Start.Live.{IsEnabled}
use alcatraz.Probe.Module.{
  Host, set_up, vmx_revision_id, is_vmx_supported, is_bios_vmx_allowed, is_kvm_loaded,
  hypervisor_init, hypervisor_exit,
}
use alcatraz.Probe.Module.Laws.{
  All, IsUndone, hypervisor_init-IsUndone, hypervisor_exit-hypervisor_init,
}
use alcatraz.Probe.Module.Live.{HasMemory, hypervisor_init-success}

abbrev no_table : DescPtr
no_table = record { address = 0x1000; size = 0x7F }

abbrev registers : Registers
registers = record {
  cr3 = 0x5000;
  dr7 = 0x400;
  rflags = 2;
  cs = 0x10;
  ss = 0x18;
  ds = 0;
  es = 0;
  fs = 0;
  gs = 0;
  ldtr = 0;
  tr = 0x40;
  gdtr = no_table;
  idtr = no_table;
}

abbrev hardware : Hardware
hardware = record {
  rdmsr = λ cpu msr.
      if msr == 0x486
      then 0x21
      else if msr == 0x487
      then 0x80050033
      else if msr == 0x488
      then 0x2000
      else if msr == 0x489
      then 0x3767FF
      else if msr == 0x480
      then 0x80000004
      else 5;
  registers = λ cpu. registers;
  mem = λ a. 0;
  vmxon_ok = λ cpu c region revision. true;
  vmclear_ok = λ cpu c region revision. not (region == c.vmxon_pointer);
  vmptrld_ok = λ cpu c region revision. not (region == c.vmxon_pointer);
  vmwrite_ok = λ cpu c f v. true;
  vmread = λ cpu c f. some (c.vmcs f);
  free_page = λ n. (n + 1) * 4096;
  kcalloc_ok = true;
}

-- The second processor refuses VMPTRLD.
abbrev refusing : Hardware
refusing = record hardware { vmptrld_ok = λ cpu c region revision. cpu == 0 }

abbrev idle : Cpu
idle = record {
  cr0 = 0x80050033;
  cr4 = 0x6F0;
  in_vmx = false;
  vmxon_pointer = 0;
  current = 0;
  vmcs = λ f. 0;
  irq_enabled = true;
  preempt_count = 0;
}

abbrev machine : Machine
machine = record {
  cpus = λ cpu. idle;
  g_vmx = false;
  percpu = λ cpu. no_regions;
  revision = 0;
  probe_failed = false;
  live = λ p. 0;
  calls = 0;
  word = λ p. 0;
}

abbrev host : Hardware → Host
host h = record {
  hardware = h;
  online = 0 ∷ 1 ∷ [];
  this_cpu = 0;
  cpuid_1_ecx = 0x20;
  module_loaded = λ name. false;
}

hardware-IsManual : IsManual hardware (vmx_revision_id (host hardware)) 39
hardware-IsManual = record {
  consistent = λ cpu. record { cr0_bits = refl; cr4_bits = refl; vmxe_bit = refl };
  vmxon = λ cpu c region a r. refl;
  vmclear = λ cpu c region on r apart. ground (arith, apart);
  vmptrld = λ cpu c region on r apart. ground (arith, apart);
  vmwrite = λ cpu c f v on cur e. refl;
  vmread = λ cpu c f on cur e. refl;
}

hardware-HasMemory : HasMemory hardware 39 4
hardware-HasMemory = record {
  array = refl;
  pages = λ n lt. record {
    used = λ e. absurd (omega (arith, e));
    aligned = omega arith;
    fits = omega (arith, lt);
  };
  differ = λ n lt e. absurd (omega (arith, e));
}

firmware : (cpu : ℕ) → IsEnabled hardware cpu
firmware cpu = record { locked = refl; vmxon_allowed = refl }

succeeds : (hypervisor_init (host hardware) machine).0 ≡ success
unfolding is_vmx_supported is_bios_vmx_allowed is_kvm_loaded
succeeds =
    hypervisor_init-success (host hardware) machine 39 4 refl firmware refl hardware-IsManual
      hardware-HasMemory (omega arith) refl (λ j. refl)

hypervisor_init-success_example : (hypervisor_init (host hardware) machine).0 ≡ success
unfolding is_vmx_supported is_bios_vmx_allowed is_kvm_loaded
hypervisor_init-success_example =
    hypervisor_init-success (host hardware) machine 39 4 refl firmware refl hardware-IsManual
      hardware-HasMemory (omega arith) refl (λ j. refl)

hypervisor_exit-hypervisor_init_example :
    All (λ j. ((hypervisor_init (host hardware) machine).1.cpus j).in_vmx ≡ true) (0 ∷ 1 ∷ [])
    × IsUndone machine.cpus machine.live
        (hypervisor_exit (host hardware) (hypervisor_init (host hardware) machine).1)
hypervisor_exit-hypervisor_init_example =
    hypervisor_exit-hypervisor_init (host hardware) machine refl (λ j. refl) refl succeeds

hypervisor_init-IsUndone_example :
    IsUndone machine.cpus machine.live (hypervisor_init (host refusing) machine).1
unfolding hypervisor_init is_vmx_supported is_bios_vmx_allowed is_kvm_loaded set_up alloc_regions
    alloc_cpus startup_all_cpus startup_cpus vmxon_on_cpu start_cpu load_and_write out_keep_vmx
    out_vmxoff out_restore_cr probe_vmwrite probe_guest_state vmwrite_guest_state write_fields
    write_field check_field guest_fields capture_guest_state enable_vmx adjust_vmx_cr0_cr4
    disable_vmx gdt_desc_base gdt_desc_access ldtr_tr_fields vmx_revision_id
hypervisor_init-IsUndone_example =
    hypervisor_init-IsUndone (host refusing) machine refl (λ j. refl) refl refl

-- The descriptor of a task state segment at the selector 0x40.
abbrev tss : Segment
tss = record { base = 0xFFFFFE0000003000; limit = 0x206F; access_byte = 0x8B; flags = 0 }

abbrev gdt : Bytes
gdt = λ a.
    get_or (0x6F ∷ 0x20 ∷ 0 ∷ 0x30 ∷ 0 ∷ 0x8B ∷ 0 ∷ 0 ∷ 0 ∷ 0xFE ∷ 0xFF ∷ 0xFF ∷ []) (a - 0x1040) 0

tss-IsSegment : IsSegment tss
tss-IsSegment = record {
  base_fits = omega arith;
  limit_fits = omega arith;
  access_fits = omega arith;
  flags_fit = omega arith;
}

tss-IsAt : IsAt gdt 0x1040 tss
tss-IsAt = record {
  limit_low = refl;
  limit_mid = refl;
  base_0 = refl;
  base_1 = refl;
  base_2 = refl;
  rights = refl;
  limit_high = refl;
  base_3 = refl;
  base_4 = refl;
  base_5 = refl;
  base_6 = refl;
  base_7 = refl;
}

tss-IsSelector : IsSelector no_table 0x43 8 3
tss-IsSelector = record {
  parts = refl;
  not_null = λ e. absurd (omega (arith, e));
  index_fits = omega arith;
  rpl_fits = omega arith;
  table_fits = omega arith;
}

descriptor_read_example :
    (ldtr_fields gdt no_table 0x43 ≡ segment_of tss)
    × (tr_fields gdt no_table 0x43 ≡ segment_of tss)
    × (get_desc_base gdt no_table 0x43 ≡ tss.base % 2 ^ 32)
    × (get_desc_access gdt no_table 0x43 ≡ tss.access_byte + tss.flags * 4096)
descriptor_read_example =
    descriptor_read gdt no_table 0x43 8 3 tss tss-IsSelector tss-IsSegment tss-IsAt

-- The limit that is read is 0x8B206F.
ldtr_tr_fields-eq_example :
    (gdt_desc_base gdt no_table 0x43 ≡ 0x3000)
    × (gdt_desc_access gdt no_table 0x43 ≡ 0x8B)
    × (ldtr_tr_fields gdt no_table 0x43 ≡ record (segment_of tss) { limit = wrong_limit tss })
    × (((ldtr_tr_fields gdt no_table 0x43).limit ≡ 0x206F) ↔ (tss.access_byte ≡ tss.limit / 2 ^ 16))
ldtr_tr_fields-eq_example =
    ldtr_tr_fields-eq gdt no_table 0x43 8 3 tss tss-IsSelector tss-IsSegment tss-IsAt
