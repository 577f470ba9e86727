-- ===== src/Probe/Regions.antt =====
-- The VMXON and VMCS regions of the processors: `hb_vmx_alloc_regions` and `hb_vmx_free_regions` of
-- hypervisor/hb_probe.c. `online` lists the processors that are online.
pub mod Count
pub mod Laws
use alcatraz.Prelude.{
  ℕ, zero, ◌+◌, ◌-◌, ◌==◌, Bool, true, false, ◌||◌, if◌then◌else◌, List, [], ◌∷◌,
}
use alcatraz.Probe.{Code, success, enomem, Hardware, PercpuVmx, Machine, put}

abbrev pub no_regions : PercpuVmx
no_regions = record {
  vmxon_region = 0;
  vmcs_region = 0;
  vmx_on = false;
  saved_cr0 = 0;
  saved_cr4 = 0;
}

-- `__get_free_page` and `free_page`.
abbrev pub get_free_page : Hardware → Machine → Machine
get_free_page h s = record s {
  calls = s.calls + 1;
  live = λ p. (if p == h.free_page s.calls then (if p == 0 then 0 else 1) else 0) + s.live p;
}

abbrev pub free_page : ℕ → Machine → Machine
free_page page s = record s { live = λ p. if p == page then s.live p - 1 else s.live p }

-- The body of the loop of `hb_vmx_free_regions`.
abbrev pub free_vmxon : ℕ → Machine → Machine
free_vmxon cpu s =
    if (s.percpu cpu).vmxon_region == 0
    then s
    else let s' = free_page (s.percpu cpu).vmxon_region s in
      record s' { percpu = put s.percpu cpu (record (s.percpu cpu) { vmxon_region = 0 }) }

abbrev pub free_vmcs : ℕ → Machine → Machine
free_vmcs cpu s =
    if (s.percpu cpu).vmcs_region == 0
    then s
    else let s' = free_page (s.percpu cpu).vmcs_region s in
      record s' { percpu = put s.percpu cpu (record (s.percpu cpu) { vmcs_region = 0 }) }

unfoldable pub free_cpus : List ℕ → Machine → Machine
free_cpus [] s = s
free_cpus (cpu ∷ cpus) s = free_cpus cpus (free_vmcs cpu (free_vmxon cpu s))

unfoldable pub free_regions : List ℕ → Machine → Machine
free_regions online s =
    if s.g_vmx then (let s' = free_cpus online s in record s' { g_vmx = false }) else s

-- The two pages of a processor, and what `memset` leaves in their first dwords.
abbrev pub get_regions : Hardware → ℕ → Machine → Machine
get_regions h cpu s =
    let s' = get_free_page h (get_free_page h s) in
    record s' {
      percpu = put s.percpu cpu (record (s.percpu cpu) {
        vmxon_region = h.free_page s.calls;
        vmcs_region = h.free_page (s.calls + 1);
      });
    }

abbrev pub clear_regions : ℕ → Machine → Machine
clear_regions cpu s = record s {
  word = put (put s.word (s.percpu cpu).vmxon_region 0) (s.percpu cpu).vmcs_region 0;
}

-- The loop, from a processor on.
unfoldable pub alloc_cpus : Hardware → List ℕ → List ℕ → Machine → Code × Machine
alloc_cpus h online [] s = (success, s)
alloc_cpus h online (cpu ∷ cpus) s =
    let s' = get_regions h cpu s in
    let rest = alloc_cpus h online cpus (clear_regions cpu s') in
    if (s'.percpu cpu).vmxon_region == 0 || (s'.percpu cpu).vmcs_region == 0
    then (enomem, free_regions online s')
    else rest

unfoldable pub alloc_regions : Hardware → List ℕ → Machine → Code × Machine
alloc_regions h online s =
    if h.kcalloc_ok
    then alloc_cpus h online online (record s { g_vmx = true; percpu = λ i. no_regions })
    else (enomem, record s { g_vmx = false })
