-- ===== src/Probe/Module/Laws.antt =====
-- The module of hypervisor/hb_probe.c is loaded whole or not at all, and its exit undoes its start.
use alcatraz.Prelude.{
  ℕ, ◌≡◌, refl, sym, subst, ◌∙◌, ◌⊎◌, true, false, List, [], ◌∷◌, if_split, if_elim, inl, inr,
}
use alcatraz.Probe.{Code, success, is_success, Hardware, Cpu, Machine}
use alcatraz.Probe.Regions.{alloc_regions, free_regions}
use alcatraz.Probe.Regions.Count.{
  has, has-first, has-later, is_once, IsFreed, free_regions-IsFreed, free_regions-cpus,
}
use alcatraz.Probe.Regions.Laws.{IsReady, alloc_regions-lem, alloc_regions-cpus}
use alcatraz.Probe.Start.{startup_all_cpus, teardown_all_cpus}
use alcatraz.Probe.Start.Laws.{IsRunning, IsStarted, startup_cpus-IsStarted}
use alcatraz.Probe.Start.Stop.{IsRestored, teardown_all_cpus-lem}
use alcatraz.Probe.Module.{
  Host, set_up, vmx_revision_id, is_vmx_supported, is_bios_vmx_allowed, is_kvm_loaded,
  hypervisor_init, hypervisor_exit,
}

-- A predicate of every processor of a list.
abbrev pub All : (ℕ → Type 0) → List ℕ → Type 0
All P [] = Unit
All P (c ∷ cs) = P c × All P cs

All-intro : (P : ℕ → Type 0) (cs : List ℕ) → ((j : ℕ) → has j cs ≡ true → P j) → All P cs
All-intro P [] h = tt
All-intro P (c ∷ cs) h = (h c (has-first c cs), All-intro P cs (λ j e. h j (has-later c j cs e)))

-- Nothing is left of the module: no page, no array, and every processor as it was.
pub record IsUndone (before : ℕ → Cpu) (base : ℕ → ℕ) (s : Machine) : Type 0 where
  pub freed : IsFreed base s
  pub restored : (j : ℕ) → IsRestored (before j) (s.cpus j)

-- Every processor that is online is in VMX operation, and its control registers are saved.
pub record IsLoaded (before : ℕ → Cpu) (base : ℕ → ℕ) (online : List ℕ) (s : Machine) : Type 0 where
  pub running : IsRunning before base online s
  pub on : (j : ℕ) → has j online ≡ true → (s.percpu j).vmx_on ≡ true

module _ (online : List ℕ) (once : is_once online ≡ true) (s : Machine)
    (off : (j : ℕ) → (s.cpus j).in_vmx ≡ false) where
  -- Teardown and freeing, after any start.
  undo :
      (s' : Machine)
      → IsRunning s.cpus s.live online s'
      → IsUndone s.cpus s.live (free_regions online (teardown_all_cpus online s'))
  undo s' r =
      let t = teardown_all_cpus-lem s.cpus s.live online s' r in
      record {
        freed = free_regions-IsFreed s.live online _ once t.0.owner;
        restored = λ j.
            subst (λ (f : ℕ → Cpu). IsRestored (s.cpus j) (f j))
              (sym (free_regions-cpus online (teardown_all_cpus online s'))) (t.1 j);
      }

  started :
      (s' : Machine)
      → IsReady s.live online s'
      → s'.cpus ≡ s.cpus
      → IsRunning s.cpus s.live online (record s' { probe_failed = false })
  started s' a same = record {
    tracked = λ j. rw same (record {
      marked = a.off j ∙ sym (off j);
      cr0_kept = rw (a.off j) refl;
      cr4_kept = rw (a.off j) refl;
      preempt_kept = refl;
    });
    owner = record { set = a.owner.set; counted = a.owner.counted };
    outside = λ j e. a.off j;
  }

  abbrev IsSetUp : Code × Machine → Type 0
  IsSetUp r =
      ((r.0 ≡ success) × IsLoaded s.cpus s.live online r.1)
      ⊎ ((is_success r.0 ≡ false) × IsUndone s.cpus s.live r.1)

  start_up :
      (h : Hardware) (s' : Machine)
      → IsReady s.live online s'
      → s'.cpus ≡ s.cpus
      → IsStarted s.cpus s.live online h online
          (record s' { probe_failed = false })
          (startup_all_cpus h online s')
  unfolding startup_all_cpus
  start_up h s' a same =
      startup_cpus-IsStarted s.cpus s.live online h online _ (started s' a same) once (λ j e. e)
        (λ j e. a.off j)

  set_up-lem : (h : Hardware) → IsSetUp (set_up h online s)
  unfolding set_up
  set_up-lem h = elim (alloc_regions-lem h online s once) [
    | inl (e, a) ↦
        let s1 = (alloc_regions h online s).1 in
        let (running, result) = start_up h s1 a (alloc_regions-cpus h online s) in
        if_split IsSetUp (is_success (alloc_regions h online s).0) _ _
          (λ ok.
            if_split IsSetUp (is_success (startup_all_cpus h online s1).0) _ _
              (λ good. inl (
                refl,
                record {
                  running = running;
                  on = λ j l. elim result [ inl (c, o) ↦ o.on j l | inr c ↦ absurd (cc) ];
                },
              ))
              (λ bad. inr (bad, undo _ running)))
          (λ bad. absurd (cc))
    | inr (e, f) ↦
        if_split IsSetUp (is_success (alloc_regions h online s).0) _ _ (λ ok. absurd (cc))
          (λ bad. inr (
            bad,
            record {
              freed = f;
              restored = λ j.
                  subst (λ (g : ℕ → Cpu). IsRestored (s.cpus j) (g j))
                    (sym (alloc_regions-cpus h online s))
                    (record { cr0_same = refl; cr4_same = refl; off = off j; preempt_same = refl });
            },
          ))
  ]

module _ (o : Host) (s : Machine) (once : is_once o.online ≡ true)
    (off : (j : ℕ) → (s.cpus j).in_vmx ≡ false) (unset : s.g_vmx ≡ false) where
  abbrev IsInit : Code × Machine → Type 0
  IsInit r =
      ((r.0 ≡ success) × IsLoaded s.cpus s.live o.online r.1)
      ⊎ ((is_success r.0 ≡ false) × IsUndone s.cpus s.live r.1)

  hypervisor_init-IsInit : IsInit (hypervisor_init o s)
  unfolding hypervisor_init
  hypervisor_init-IsInit =
      let untouched : IsUndone s.cpus s.live s = record {
        freed = record { unset = unset; returned = λ p. refl };
        restored =
            λ j. record { cr0_same = refl; cr4_same = refl; off = off j; preempt_same = refl };
      } in
      let s' : Machine = record s { revision = vmx_revision_id o } in
      if_elim IsInit (is_vmx_supported o) _ _
        (if_elim IsInit (is_bios_vmx_allowed o) _ _
          (if_elim IsInit (is_kvm_loaded o) _ _ (inr (refl, untouched))
            (set_up-lem o.online once s' off o.hardware))
          (inr (refl, untouched)))
        (inr (refl, untouched))

  -- An initialization that fails, whichever test, allocation or instruction of whichever processor
  -- fails, leaves nothing of the module: every page is given back, the array is freed, and every
  -- processor is outside VMX operation with its CR0, CR4 and preemption count as before. It is asked
  -- that each processor is listed once, that none is in VMX operation and that the array is not set.
  pub hypervisor_init-IsUndone :
      is_success (hypervisor_init o s).0 ≡ false → IsUndone s.cpus s.live (hypervisor_init o s).1
  hypervisor_init-IsUndone failed = elim hypervisor_init-IsInit [
    | inl (e, loaded) ↦ absurd (cc)
    | inr (e, undone) ↦ undone
  ]

  -- An initialization that succeeds leaves every processor that is online in VMX operation, and the
  -- module's exit then gives back every page and puts every processor back as it was before.
  pub hypervisor_exit-hypervisor_init :
      (hypervisor_init o s).0 ≡ success
      → All (λ j. ((hypervisor_init o s).1.cpus j).in_vmx ≡ true) o.online
        × IsUndone s.cpus s.live (hypervisor_exit o (hypervisor_init o s).1)
  unfolding hypervisor_exit
  hypervisor_exit-hypervisor_init done = elim hypervisor_init-IsInit [
    | inl (e, loaded) ↦ (
      All-intro _ o.online (λ j l. sym (loaded.running.tracked j).marked ∙ loaded.on j l),
      undo o.online once s off _ loaded.running,
    )
    | inr (e, undone) ↦ absurd (cc)
  ]
