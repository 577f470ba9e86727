-- ===== src/Probe/Start/Laws.antt =====
-- All processors of hypervisor/hb_probe.c, turned on and off one after the other.
use alcatraz.Prelude.{
  ℕ, ◌≡◌, refl, ap, sym, subst, ◌∙◌, ◌⊎◌, Bool, true, false, ◌||◌, ◌==◌, if◌then◌else◌, List, [],
  ◌∷◌, arith, Bool-cases, if_elim, if_split, inl, inr, ==_self,
}
use alcatraz.Probe.{Code, success, eio, Hardware, Cpu, PercpuVmx, Machine, put}
use alcatraz.Probe.Regions.Count.{
  has, is_once, has-later, has-first, has-elsewhere, has-apart, has-here, owned, held, IsOwner,
}
use alcatraz.Probe.Start.{Outcome, start_cpu, vmxon_on_cpu, startup_cpus}
use alcatraz.Probe.Start.Cpus.{IsTracked, start_cpu-IsGood}

held-same :
    (p : ℕ) (f g : ℕ → PercpuVmx) (cs : List ℕ)
    → ((j : ℕ) → owned p (f j) ≡ owned p (g j))
    → held p f cs ≡ held p g cs
held-same p f g [] same = refl
held-same p f g (c ∷ cs) same = omega (arith, same c, held-same p f g cs same)

IsTracked-from :
    (before c x : Cpu) (pc : PercpuVmx)
    → c.cr0 ≡ before.cr0
    → c.cr4 ≡ before.cr4
    → c.preempt_count ≡ before.preempt_count
    → IsTracked c x pc
    → IsTracked before x pc
IsTracked-from before c x pc e0 e4 ep t = record {
  marked = t.marked;
  cr0_kept = t.cr0_kept ∙ e0;
  cr4_kept = t.cr4_kept ∙ e4;
  preempt_kept = t.preempt_kept ∙ ep;
}

-- Every processor is tracked, the pages are counted, and no other processor than those of `online`
-- is in VMX operation.
pub record IsRunning (before : ℕ → Cpu) (base : ℕ → ℕ) (online : List ℕ) (s : Machine)
    : Type 0 where
  pub tracked : (j : ℕ) → IsTracked (before j) (s.cpus j) (s.percpu j)
  pub owner : IsOwner base online s
  pub outside : (j : ℕ) → has j online ≡ false → (s.percpu j).vmx_on ≡ false

module _ (before : ℕ → Cpu) (base : ℕ → ℕ) (online : List ℕ) where
  -- One processor is replaced, with its regions where they are.
  pub replace :
      (s : Machine) (cpu : ℕ) (c : Cpu) (pc : PercpuVmx) (word : ℕ → ℕ) (failed : Bool)
      → IsRunning before base online s
      → has cpu online ≡ true
      → IsTracked (before cpu) c pc
      → pc.vmxon_region ≡ (s.percpu cpu).vmxon_region
      → pc.vmcs_region ≡ (s.percpu cpu).vmcs_region
      → IsRunning before base online (record s {
        word = word;
        cpus = put s.cpus cpu c;
        percpu = put s.percpu cpu pc;
        probe_failed = failed;
      })
  replace s cpu c pc word failed r on t e_on e_vmcs = record {
    tracked = λ j. elim (Bool-cases (j == cpu)) [
      | inl same ↦ let e : j ≡ cpu = ground arith in rw same (rw e t)
      | inr other ↦ rw other (r.tracked j)
    ];
    owner = record {
      set = r.owner.set;
      counted = λ p.
          omega
            (arith, r.owner.counted p, held-same p s.percpu (put s.percpu cpu pc) online (same p));
    };
    outside = λ j e. elim (Bool-cases (j == cpu)) [
      | inl same ↦
          let eq : j ≡ cpu = ground arith in
          absurd (cc (subst (λ (x : ℕ). has x online ≡ false) eq e))
      | inr other ↦ rw other (r.outside j e)
    ];
  }
    where
      same : (p j : ℕ) → owned p (s.percpu j) ≡ owned p (put s.percpu cpu pc j)
      same p j = elim (Bool-cases (j == cpu)) [
        | inl eq ↦ let e : j ≡ cpu = ground arith in rw eq (rw (e_on, e_vmcs, e) refl)
        | inr other ↦ rw other refl
      ]

  module _ (h : Hardware) where
    module _ (cpu : ℕ) (s : Machine) where
      abbrev word_of : ℕ → ℕ
      word_of =
          put (put s.word (s.percpu cpu).vmxon_region s.revision) (s.percpu cpu).vmcs_region
            s.revision

      abbrev outcome : Outcome
      outcome =
          start_cpu h cpu (word_of (s.percpu cpu).vmxon_region) (word_of (s.percpu cpu).vmcs_region)
            (s.cpus cpu) (s.percpu cpu)

      abbrev started : Machine
      started = record s {
        word = word_of;
        cpus = put s.cpus cpu outcome.cpu;
        percpu = put s.percpu cpu outcome.pc;
        probe_failed = outcome.failed;
      }

    -- What holds after the attempt on one processor.
    record IsTried (cpu : ℕ) (s s' : Machine) : Type 0 where
      running : IsRunning before base online s'
      others : (j : ℕ) → (j == cpu) ≡ false → s'.percpu j ≡ s.percpu j
      decided : s'.probe_failed ≡ false → (s'.percpu cpu).vmx_on ≡ true

    tried :
        (cpu : ℕ) (s : Machine)
        → IsRunning before base online s
        → has cpu online ≡ true
        → (s.percpu cpu).vmx_on ≡ false
        → IsTried cpu s (started cpu s)
    tried cpu s r on off =
        let t = r.tracked cpu in
        let e0 : (s.cpus cpu).cr0 ≡ (before cpu).cr0 =
          subst
            (λ (b : Bool).
              (if b then (s.percpu cpu).saved_cr0 else (s.cpus cpu).cr0) ≡ (before cpu).cr0)
            off t.cr0_kept in
        let e4 : (s.cpus cpu).cr4 ≡ (before cpu).cr4 =
          subst
            (λ (b : Bool).
              (if b then (s.percpu cpu).saved_cr4 else (s.cpus cpu).cr4) ≡ (before cpu).cr4)
            off t.cr4_kept in
        let g =
          start_cpu-IsGood h cpu (s.cpus cpu) (word_of cpu s (s.percpu cpu).vmxon_region)
            (word_of cpu s (s.percpu cpu).vmcs_region) (s.percpu cpu) off (sym t.marked ∙ off) in
        record {
          running =
              replace s cpu _ _ _ _ r on
                (IsTracked-from (before cpu) (s.cpus cpu) _ _ e0 e4 t.preempt_kept g.tracked)
                g.same_vmxon g.same_vmcs;
          others = λ j e. rw e refl;
          decided = λ ok. rw (==_self cpu) (g.decided ∙ rw ok refl);
        }

    vmxon_on_cpu-IsTried :
        (cpu : ℕ) (s : Machine)
        → IsRunning before base online s
        → has cpu online ≡ true
        → (s.percpu cpu).vmx_on ≡ false
        → IsTried cpu s (vmxon_on_cpu h cpu s)
    unfolding vmxon_on_cpu
    vmxon_on_cpu-IsTried cpu s r on off =
        if_split (IsTried cpu s) s.probe_failed _ _
          (λ was. record { running = r; others = λ j e. refl; decided = λ e. cc })
          (λ ok.
            if_elim (IsTried cpu s)
              ((s.percpu cpu).vmxon_region == 0 || (s.percpu cpu).vmcs_region == 0) _ _
              (record {
                running = record {
                  tracked = r.tracked;
                  owner = record { set = r.owner.set; counted = r.owner.counted };
                  outside = r.outside;
                };
                others = λ j e. refl;
                decided = λ e. cc;
              })
              (tried cpu s r on off))

    -- The loop ends with every processor in VMX operation, or with -EIO.
    pub record IsOn (cpus : List ℕ) (s s' : Machine) : Type 0 where
      pub on : (j : ℕ) → has j cpus ≡ true → (s'.percpu j).vmx_on ≡ true
      rest : (j : ℕ) → has j cpus ≡ false → s'.percpu j ≡ s.percpu j

    abbrev pub IsStarted : List ℕ → Machine → Code × Machine → Type 0
    IsStarted cpus s r =
        IsRunning before base online r.1 × (((r.0 ≡ success) × IsOn cpus s r.1) ⊎ (r.0 ≡ eio))

    extend :
        (c : ℕ) (cs : List ℕ) (s s1 : Machine) (r : Code × Machine)
        → IsTried c s s1
        → (s1.percpu c).vmx_on ≡ true
        → is_once (c ∷ cs) ≡ true
        → IsStarted cs s1 r
        → IsStarted (c ∷ cs) s r
    extend c cs s s1 r t turned once (running, inr e) = (running, inr e)
    extend c cs s s1 r t turned once (running, inl (e, o)) = (
      running,
      inl (
        e,
        record {
          on = λ j h. elim (Bool-cases (has j cs)) [
            | inl later ↦ o.on j later
            | inr away ↦
                let same : j ≡ c = has-here c j cs h away in
                rw same (ap (λ (v : PercpuVmx). v.vmx_on) (o.rest c (ground arith)) ∙ turned)
          ];
          rest = λ j h. o.rest j (has-apart c j cs h).1 ∙ t.others j (has-apart c j cs h).0;
        },
      ),
    )

    pub startup_cpus-IsStarted :
        (cpus : List ℕ) (s : Machine)
        → IsRunning before base online s
        → is_once cpus ≡ true
        → ((j : ℕ) → has j cpus ≡ true → has j online ≡ true)
        → ((j : ℕ) → has j cpus ≡ true → (s.percpu j).vmx_on ≡ false)
        → IsStarted cpus s (startup_cpus h cpus s)
    unfolding startup_cpus
    startup_cpus-IsStarted [] s r once listed off =
        (r, inl (refl, record { on = λ j e. cc; rest = λ j e. refl }))
    startup_cpus-IsStarted (c ∷ cs) s r once listed off =
        let t = vmxon_on_cpu-IsTried c s r (listed c (has-first c cs)) (off c (has-first c cs)) in
        if_split (IsStarted (c ∷ cs) s) (vmxon_on_cpu h c s).probe_failed _ _
          (λ bad. (t.running, inr refl))
          (λ ok. extend c cs s _ _ t (t.decided ok) once (
            startup_cpus-IsStarted cs _ t.running (ground arith)
              (λ j e. listed j (has-later c j cs e))
              (λ j e.
                ap (λ (v : PercpuVmx). v.vmx_on) (t.others j (has-elsewhere c j cs once e))
                ∙ off j (has-later c j cs e))))
