-- ===== src/Probe/Module/Live.antt =====
-- Loading the module of hypervisor/hb_probe.c on a machine that keeps to the manual.
use alcatraz.Prelude.{
  length, ◌*◌, ◌<◌, ◌≤◌, ◌⊎◌, Bool-cases, ==_iff, ℕ, ◌+◌, ◌≡◌, ◌≢◌, refl, ap, ◌∙◌, true, false,
  ◌==◌, ◌||◌, List, [], ◌∷◌, arith, if_false, if_split, if_elim, inl, inr, ==_self,
}
use alcatraz.Probe.{Code, success, eio, is_success, Hardware, Cpu, PercpuVmx, Machine, put}
use alcatraz.Probe.Regions.{no_regions, get_regions, clear_regions, alloc_cpus, alloc_regions}
use alcatraz.Probe.Regions.Count.{has, is_once, has-first, has-later, has-elsewhere}
use alcatraz.Probe.Regions.Laws.{alloc_regions-cpus, refused, refused-eq}
use alcatraz.Probe.Start.{start_cpu, vmxon_on_cpu, startup_cpus, startup_all_cpus}
use alcatraz.Probe.Start.Success.{IsManual, IsRegion, start_cpu-success}
use alcatraz.Probe.Start.Live.{IsEnabled}
use alcatraz.Probe.Module.{
  Host, set_up, vmx_revision_id, is_vmx_supported, is_bios_vmx_allowed, is_kvm_loaded,
  hypervisor_init,
}

-- What two writes of the same value leave at each of their addresses.
put_first : (w : ℕ → ℕ) (a b r : ℕ) → put (put w a r) b r a ≡ r
put_first w a b r = if_elim (λ (x : ℕ). x ≡ r) (a == b) _ _ refl (rw (==_self a) refl)

put_second : (w : ℕ → ℕ) (b r : ℕ) → put w b r b ≡ r
put_second w b r = rw (==_self b) refl

-- The regions of a processor, and that VMX can use them.
pub record HasRegions (width : ℕ) (pc : PercpuVmx) : Type 0 where
  pub vmxon : IsRegion width pc.vmxon_region
  pub vmcs : IsRegion width pc.vmcs_region
  pub apart : pc.vmcs_region ≢ pc.vmxon_region

module _ (h : Hardware) (revision width : ℕ) (m : IsManual h revision width)
    (firmware : (cpu : ℕ) → IsEnabled h cpu) where
  record IsTurn (cpus : List ℕ) (s : Machine) : Type 0 where
    going : s.probe_failed ≡ false
    same_revision : s.revision ≡ revision
    present : (j : ℕ) → has j cpus ≡ true → HasRegions width (s.percpu j)
    outside : (j : ℕ) → has j cpus ≡ true → (s.cpus j).in_vmx ≡ false

  started :
      (c : ℕ) (s : Machine) (x y : ℕ)
      → x ≡ revision
      → y ≡ revision
      → (s.cpus c).in_vmx ≡ false
      → HasRegions width (s.percpu c)
      → (start_cpu h c x y (s.cpus c) (s.percpu c)).failed ≡ false
  started c s x y ex ey off r =
      rw (ex, ey)
        (start_cpu-success h revision width m c (s.cpus c) (s.percpu c) (firmware c) off r.vmxon
          r.vmcs r.apart)

  vmxon_on_cpu-IsTurn :
      (c : ℕ) (cs : List ℕ) (s : Machine)
      → is_once (c ∷ cs) ≡ true
      → IsTurn (c ∷ cs) s
      → IsTurn cs (vmxon_on_cpu h c s)
  unfolding vmxon_on_cpu
  vmxon_on_cpu-IsTurn c cs s once t =
      let first = has-first c cs in
      if_split (IsTurn cs) s.probe_failed _ _ (λ was. absurd (cc t.going))
        (λ ok.
          if_split (IsTurn cs) ((s.percpu c).vmxon_region == 0 || (s.percpu c).vmcs_region == 0) _ _
            (λ missing.
              absurd
                (ground (arith, (t.present c first).vmxon.used, (t.present c first).vmcs.used)))
            (λ fine. record {
              going =
                  started c s _ _
                    (put_first s.word (s.percpu c).vmxon_region (s.percpu c).vmcs_region s.revision
                      ∙ t.same_revision)
                    (put_second (put s.word (s.percpu c).vmxon_region s.revision)
                        (s.percpu c).vmcs_region s.revision
                      ∙ t.same_revision)
                    (t.outside c first) (t.present c first);
              same_revision = t.same_revision;
              present = λ j e. rw (has-elsewhere c j cs once e) (t.present j (has-later c j cs e));
              outside = λ j e. rw (has-elsewhere c j cs once e) (t.outside j (has-later c j cs e));
            }))

  startup_cpus-success :
      (cpus : List ℕ) (s : Machine)
      → is_once cpus ≡ true
      → IsTurn cpus s
      → (startup_cpus h cpus s).0 ≡ success
  unfolding startup_cpus
  startup_cpus-success [] s once t = refl
  startup_cpus-success (c ∷ cs) s once t =
      let t' = vmxon_on_cpu-IsTurn c cs s once t in
      rw (if_false (eio, vmxon_on_cpu h c s) (startup_cpus h cs (vmxon_on_cpu h c s)) t'.going)
        (startup_cpus-success cs (vmxon_on_cpu h c s) (ground arith) t')

-- The first `top` calls of the allocator give pages, at addresses of at most `width` bits, and two
-- that follow each other differ.
pub record HasMemory (h : Hardware) (width top : ℕ) : Type 0 where
  pub array : h.kcalloc_ok ≡ true
  pub pages : (n : ℕ) → n < top → IsRegion width (h.free_page n)
  pub differ : (n : ℕ) → n + 1 < top → h.free_page (n + 1) ≢ h.free_page n

module _ (h : Hardware) (width top : ℕ) (enough : HasMemory h width top) (online : List ℕ) where
  abbrev IsAllocated : Machine → Code × Machine → Type 0
  IsAllocated s r = (r.0 ≡ success) × (r.1.revision ≡ s.revision)

  -- A processor either has its regions, or gets them in what is left of the loop.
  abbrev Gets : List ℕ → Machine → ℕ → Type 0
  Gets cpus s j = (has j cpus ≡ true) ⊎ HasRegions width (s.percpu j)

  abbrev Given : List ℕ → Machine → Code × Machine → Type 0
  Given cpus s r = IsAllocated s r × ((j : ℕ) → Gets cpus s j → HasRegions width (r.1.percpu j))

  taken :
      (c : ℕ) (s : Machine) → s.calls + 2 ≤ top → HasRegions width ((get_regions h c s).percpu c)
  taken c s room = rw (==_self c) (record {
    vmxon = enough.pages s.calls (omega (arith, room));
    vmcs = enough.pages (s.calls + 1) (omega (arith, room));
    apart = enough.differ s.calls (omega (arith, room));
  })

  Gets-next :
      (c : ℕ) (cs : List ℕ) (s : Machine) (j : ℕ)
      → s.calls + 2 ≤ top
      → Gets (c ∷ cs) s j
      → Gets cs (clear_regions c (get_regions h c s)) j
  Gets-next c cs s j room g = elim (Bool-cases (j == c)) [
    | inl same ↦ rw ((==_iff j c).0 same) (inr (taken c s room))
    | inr other ↦ elim g [
      | inl later ↦ inl (ground (arith, other, later))
      | inr had ↦ inr (rw other had)
    ]
  ]

  alloc_cpus-Given :
      (cpus : List ℕ) (s : Machine)
      → s.calls + 2 * length cpus ≤ top
      → Given cpus s (alloc_cpus h online cpus s)
  unfolding alloc_cpus
  alloc_cpus-Given [] s room =
      ((refl, refl), λ j g. elim g [ inl none_left ↦ absurd (cc (none_left)) | inr had ↦ had ])
  alloc_cpus-Given (c ∷ cs) s room =
      let two : s.calls + 2 ≤ top = omega (arith, room) in
      if_split (Given (c ∷ cs) s) (refused h c s) _ _
        (λ bad.
          let zero_page : (h.free_page s.calls == 0 || h.free_page (s.calls + 1) == 0) ≡ true =
            rw (← refused-eq h c s) bad in
          absurd (
            ground (
              arith,
              zero_page,
              (enough.pages s.calls (omega (arith, two))).used,
              (enough.pages (s.calls + 1) (omega (arith, two))).used,
            )))
        (λ fine.
          let rest =
            alloc_cpus-Given cs (clear_regions c (get_regions h c s)) (omega (arith, room)) in
          (rest.0, λ j g. rest.1 j (Gets-next c cs s j two g)))

  alloc_regions-Given :
      (s : Machine)
      → s.calls + 2 * length online ≤ top
      → IsAllocated s (alloc_regions h online s)
        × ((j : ℕ) → has j online ≡ true → HasRegions width ((alloc_regions h online s).1.percpu j))
  unfolding alloc_regions
  alloc_regions-Given s room =
      if_split
        (λ (r : Code × Machine).
          IsAllocated s r × ((j : ℕ) → has j online ≡ true → HasRegions width (r.1.percpu j)))
        h.kcalloc_ok _ _
        (λ ok.
          let all =
            alloc_cpus-Given online (record s { g_vmx = true; percpu = λ i. no_regions }) room in
          (all.0, λ j e. all.1 j (inl e)))
        (λ bad. absurd (cc (bad, enough.array)))

abbrev Succeeds : Code × Machine → Type 0
Succeeds r = r.0 ≡ success

module _ (h : Hardware) (width top : ℕ) (online : List ℕ) (s : Machine)
    (m : IsManual h s.revision width) (firmware : (cpu : ℕ) → IsEnabled h cpu)
    (enough : HasMemory h width top) (room : s.calls + 2 * length online ≤ top)
    (once : is_once online ≡ true) (off : (j : ℕ) → (s.cpus j).in_vmx ≡ false) where
  startup-success :
      (s1 : Machine)
      → ((j : ℕ) → has j online ≡ true → HasRegions width (s1.percpu j))
      → s1.revision ≡ s.revision
      → s1.cpus ≡ s.cpus
      → (startup_all_cpus h online s1).0 ≡ success
  unfolding startup_all_cpus
  startup-success s1 a same cpus =
      startup_cpus-success h s.revision width m firmware online (record s1 { probe_failed = false })
        once
        (record {
          going = refl;
          same_revision = same;
          present = a;
          outside = λ j e. ap (λ (f : ℕ → Cpu). (f j).in_vmx) cpus ∙ off j;
        })

  set_up-success : (set_up h online s).0 ≡ success
  unfolding set_up
  set_up-success =
      let s1 = (alloc_regions h online s).1 in
      let allocated = alloc_regions-Given h width top enough online s room in
      let good = startup-success s1 allocated.1 allocated.0.1 (alloc_regions-cpus h online s) in
      if_split Succeeds (is_success (alloc_regions h online s).0) _ _
        (λ ok.
          if_split Succeeds (is_success (startup_all_cpus h online s1).0) _ _ (λ started_all. refl)
            (λ bad. absurd (cc (bad, good))))
        (λ bad. absurd (cc (bad, allocated.0.0)))

allowed : (o : Host) → IsEnabled o.hardware o.this_cpu → is_bios_vmx_allowed o ≡ true
unfolding is_bios_vmx_allowed
allowed o v = ground (arith, v.locked, v.vmxon_allowed)

-- Where the processors have VMX, the firmware has locked IA32_FEATURE_CONTROL on each with VMXON allowed
-- and KVM is not loaded, the allocator gives two pages for each processor, and the instructions work
-- as the manual says, VMXON, VMCLEAR and VMPTRLD on pages that they can take, the initialization
-- succeeds: the code brings every processor into the state that VMXON asks for, and what it writes is
-- what it reads back.
pub hypervisor_init-success :
    (o : Host) (s : Machine) (width top : ℕ)
    → is_vmx_supported o ≡ true
    → ((cpu : ℕ) → IsEnabled o.hardware cpu)
    → is_kvm_loaded o ≡ false
    → IsManual o.hardware (vmx_revision_id o) width
    → HasMemory o.hardware width top
    → s.calls + 2 * length o.online ≤ top
    → is_once o.online ≡ true
    → ((j : ℕ) → (s.cpus j).in_vmx ≡ false)
    → (hypervisor_init o s).0 ≡ success
unfolding hypervisor_init
hypervisor_init-success o s width top vmx firmware kvm m enough room once off =
    let s' : Machine = record s { revision = vmx_revision_id o } in
    rw (vmx, allowed o (firmware o.this_cpu), kvm)
      (set_up-success o.hardware width top o.online s' m firmware enough room once off)
