-- ===== src/Probe/Start/Stop.antt =====
-- The processors of hypervisor/hb_probe.c after the teardown.
use alcatraz.Prelude.{
  ℕ, ◌≡◌, refl, ap, sym, subst, ◌∙◌, Bool, true, false, ◌==◌, if◌then◌else◌, List, [], ◌∷◌,
  Bool-cases, if_split, inl, inr, ==_self,
}
use alcatraz.Probe.{Cpu, PercpuVmx, Machine}
use alcatraz.Probe.Regions.Count.{has, has-first, has-apart, has-here, has-later}
use alcatraz.Probe.Start.{vmxoff_on_cpu, teardown_cpus, teardown_all_cpus}
use alcatraz.Probe.Start.Cpus.{IsTracked, stop_cpu-IsTracked}
use alcatraz.Probe.Start.Laws.{IsRunning, replace}

-- A processor as it was, outside VMX operation.
pub record IsRestored (before c : Cpu) : Type 0 where
  pub cr0_same : c.cr0 ≡ before.cr0
  pub cr4_same : c.cr4 ≡ before.cr4
  pub off : c.in_vmx ≡ false
  pub preempt_same : c.preempt_count ≡ before.preempt_count

IsTracked-off :
    (before c : Cpu) (pc : PercpuVmx)
    → IsTracked before c pc
    → pc.vmx_on ≡ false
    → IsRestored before c
IsTracked-off before c pc t off = record {
  cr0_same = subst (λ (b : Bool). (if b then pc.saved_cr0 else c.cr0) ≡ before.cr0) off t.cr0_kept;
  cr4_same = subst (λ (b : Bool). (if b then pc.saved_cr4 else c.cr4) ≡ before.cr4) off t.cr4_kept;
  off = sym t.marked ∙ off;
  preempt_same = t.preempt_kept;
}

module _ (before : ℕ → Cpu) (base : ℕ → ℕ) (online : List ℕ) where
  record IsStopped (cpu : ℕ) (s s' : Machine) : Type 0 where
    running : IsRunning before base online s'
    stopped : (s'.percpu cpu).vmx_on ≡ false
    others : (j : ℕ) → (j == cpu) ≡ false → s'.percpu j ≡ s.percpu j

  vmxoff_on_cpu-IsStopped :
      (cpu : ℕ) (s : Machine)
      → IsRunning before base online s
      → has cpu online ≡ true
      → IsStopped cpu s (vmxoff_on_cpu cpu s)
  unfolding vmxoff_on_cpu
  vmxoff_on_cpu-IsStopped cpu s r on =
      if_split (IsStopped cpu s) (s.percpu cpu).vmx_on _ _
        (λ marked. record {
          running =
              replace before base online s cpu _ _ s.word s.probe_failed r on
                (stop_cpu-IsTracked (before cpu) (s.cpus cpu) (s.percpu cpu) marked (r.tracked cpu))
                refl refl;
          stopped = rw (==_self cpu) refl;
          others = λ j e. rw e refl;
        })
        (λ unmarked. record { running = r; stopped = unmarked; others = λ j e. refl })

  record IsTorn (cpus : List ℕ) (s s' : Machine) : Type 0 where
    running : IsRunning before base online s'
    stopped : (j : ℕ) → has j cpus ≡ true → (s'.percpu j).vmx_on ≡ false
    others : (j : ℕ) → has j cpus ≡ false → s'.percpu j ≡ s.percpu j

  teardown_cpus-IsTorn :
      (cpus : List ℕ) (s : Machine)
      → IsRunning before base online s
      → ((j : ℕ) → has j cpus ≡ true → has j online ≡ true)
      → IsTorn cpus s (teardown_cpus cpus s)
  unfolding teardown_cpus
  teardown_cpus-IsTorn [] s r listed = record {
    running = r;
    stopped = λ j e. cc;
    others = λ j e. refl;
  }
  teardown_cpus-IsTorn (c ∷ cs) s r listed =
      let t = vmxoff_on_cpu-IsStopped c s r (listed c (has-first c cs)) in
      let rest =
        teardown_cpus-IsTorn cs (vmxoff_on_cpu c s) t.running
          (λ j e. listed j (has-later c j cs e)) in
      record {
        running = rest.running;
        stopped = λ j e. elim (Bool-cases (has j cs)) [
          | inl later ↦ rest.stopped j later
          | inr away ↦
              let same : j ≡ c = has-here c j cs e away in
              ap (λ (v : PercpuVmx). v.vmx_on) (rest.others j away) ∙ rw same t.stopped
        ];
        others = λ j e. rest.others j (has-apart c j cs e).1 ∙ t.others j (has-apart c j cs e).0;
      }

  -- The teardown restores every processor, and takes no page.
  pub teardown_all_cpus-lem :
      (s : Machine)
      → IsRunning before base online s
      → IsRunning before base online (teardown_all_cpus online s)
        × ((j : ℕ) → IsRestored (before j) ((teardown_all_cpus online s).cpus j))
  unfolding teardown_all_cpus
  teardown_all_cpus-lem s r =
      let t = teardown_cpus-IsTorn online s r (λ j e. e) in
      let off : (j : ℕ) → ((teardown_cpus online s).percpu j).vmx_on ≡ false = λ j.
        elim (Bool-cases (has j online)) [
          | inl listed ↦ t.stopped j listed
          | inr away ↦ t.running.outside j away
        ] in
      if_split
        (λ (x : Machine).
          IsRunning before base online x × ((j : ℕ) → IsRestored (before j) (x.cpus j)))
        s.g_vmx _ _
        (λ set. (t.running, λ j. IsTracked-off (before j) _ _ (t.running.tracked j) (off j)))
        (λ unset. absurd (cc r.owner.set))
