-- ===== src/Probe/Module.antt =====
-- `hypervisor_init` and `hypervisor_exit` of hypervisor/hb_probe.c, with their tests.
pub mod Laws
pub mod Live
use alcatraz.Prelude.{ℕ, ◌%◌, ◌^◌, ◌==◌, Bool, true, false, ◌||◌, not, if◌then◌else◌, List, bit_and}
use alcatraz.Probe.{Code, success, enodev, ebusy, is_success, Hardware, Machine}
use alcatraz.Probe.Regions.{alloc_regions, free_regions}
use alcatraz.Probe.Start.{startup_all_cpus, teardown_all_cpus}

-- The modules whose directory under /sys/module is looked up.
pub data Kvm : Type 0 where
  kvm_intel kvm : Kvm

-- Where the module is loaded: the processor that runs `hypervisor_init`, ECX of CPUID 1, and which
-- directories there are.
pub record Host : Type 0 where
  pub hardware : Hardware
  pub online : List ℕ
  pub this_cpu : ℕ
  pub cpuid_1_ecx : ℕ
  pub module_loaded : Kvm → Bool

unfoldable pub is_vmx_supported : Host → Bool
is_vmx_supported o = not (bit_and o.cpuid_1_ecx 32 == 0)

abbrev pub feature_control : Host → ℕ
feature_control o = o.hardware.rdmsr o.this_cpu 0x3A

unfoldable pub is_bios_vmx_allowed : Host → Bool
is_bios_vmx_allowed o =
    if bit_and (feature_control o) 1 == 0
    then true
    else if bit_and (feature_control o) 4 == 0
    then false
    else true

unfoldable pub is_kvm_loaded : Host → Bool
is_kvm_loaded o = o.module_loaded kvm_intel || o.module_loaded kvm

unfoldable pub vmx_revision_id : Host → ℕ
vmx_revision_id o = bit_and (o.hardware.rdmsr o.this_cpu 0x480) 0x7FFFFFFF % 2 ^ 32

-- After the tests: `set_up` with an error undone.
unfoldable pub set_up : Hardware → List ℕ → Machine → Code × Machine
set_up h online s =
    let (ret, s1) = alloc_regions h online s in
    let (ret', s2) = startup_all_cpus h online s1 in
    if is_success ret
    then (if is_success ret'
        then (success, s2)
        else (ret', free_regions online (teardown_all_cpus online s2)))
    else (ret, s1)

unfoldable pub hypervisor_init : Host → Machine → Code × Machine
hypervisor_init o s =
    if is_vmx_supported o
    then (if is_bios_vmx_allowed o
        then (if is_kvm_loaded o
            then (ebusy, s)
            else set_up o.hardware o.online (record s { revision = vmx_revision_id o }))
        else (enodev, s))
    else (enodev, s)

unfoldable pub hypervisor_exit : Host → Machine → Machine
hypervisor_exit o s = free_regions o.online (teardown_all_cpus o.online s)
