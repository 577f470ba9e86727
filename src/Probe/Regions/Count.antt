-- ===== src/Probe/Regions/Count.antt =====
-- Which pages are regions, and how freeing the regions of hypervisor/hb_probe.c takes them off the
-- count.
use alcatraz.Prelude.{
  ℕ, ◌+◌, ◌-◌, ◌≡◌, refl, ap, subst, ◌∙◌, Bool, true, false, ◌&&◌, ◌||◌, not, ◌==◌, if◌then◌else◌,
  List, [], ◌∷◌, arith, Bool-cases, inl, inr, ==_self, if_true,
}
use alcatraz.Probe.{PercpuVmx, Machine, put}
use alcatraz.Probe.Regions.{no_regions, free_vmxon, free_vmcs, free_cpus, free_regions}

abbrev pub has : ℕ → List ℕ → Bool
has c [] = false
has c (x ∷ xs) = x == c || has c xs

-- Each processor is listed once.
abbrev pub is_once : List ℕ → Bool
is_once [] = true
is_once (x ∷ xs) = not (has x xs) && is_once xs

pub has-later : (c j : ℕ) (cs : List ℕ) → has j cs ≡ true → has j (c ∷ cs) ≡ true
has-later c j cs e = ground arith

pub has-elsewhere :
    (c j : ℕ) (cs : List ℕ) → is_once (c ∷ cs) ≡ true → has j cs ≡ true → (j == c) ≡ false
has-elsewhere c j cs o e = elim (Bool-cases (j == c)) [
  | inl same ↦
      let eq : j ≡ c = ground arith in
      absurd (grind (arith, subst (λ (x : ℕ). has x cs ≡ true) eq e))
  | inr other ↦ other
]

pub has-first : (c : ℕ) (cs : List ℕ) → has c (c ∷ cs) ≡ true
has-first c cs = ground (arith, ==_self c)

pub has-apart :
    (c j : ℕ) (cs : List ℕ) → has j (c ∷ cs) ≡ false → ((j == c) ≡ false) × (has j cs ≡ false)
has-apart c j cs h = (ground arith, ground arith)

pub has-here : (c j : ℕ) (cs : List ℕ) → has j (c ∷ cs) ≡ true → has j cs ≡ false → j ≡ c
has-here c j cs h away = ground arith

-- How often a page is a region, of one processor and of those of a list; NULL is none.
abbrev pub one : ℕ → ℕ → ℕ
one p page = if p == page then (if p == 0 then 0 else 1) else 0

abbrev pub owned : ℕ → PercpuVmx → ℕ
owned p v = one p v.vmxon_region + one p v.vmcs_region

abbrev pub held : ℕ → (ℕ → PercpuVmx) → List ℕ → ℕ
held p f [] = 0
held p f (c ∷ cs) = owned p (f c) + held p f cs

held-put_absent :
    (p c : ℕ) (v : PercpuVmx) (f : ℕ → PercpuVmx) (cs : List ℕ)
    → has c cs ≡ false
    → held p (put f c v) cs ≡ held p f cs
held-put_absent p c v f [] h = refl
held-put_absent p c v f (x ∷ xs) h =
    let other : (x == c) ≡ false = ground arith in
    rw other (omega (arith, held-put_absent p c v f xs (ground arith)))

pub held-put :
    (p c : ℕ) (v : PercpuVmx) (f : ℕ → PercpuVmx) (cs : List ℕ)
    → has c cs ≡ true
    → is_once cs ≡ true
    → held p (put f c v) cs + owned p (f c) ≡ held p f cs + owned p v
held-put p c v f [] h d = cc
held-put p c v f (x ∷ xs) h d = elim (Bool-cases (x == c)) [
  | inl same ↦
      let e : x ≡ c = ground arith in
      let gone : has c xs ≡ false = ground arith in
      rw same (rw e (omega (arith, held-put_absent p c v f xs gone)))
  | inr other ↦ rw other (omega (arith, held-put p c v f xs (ground arith) (ground arith)))
]

-- One of the two regions is freed.
free_vmxon-live :
    (c p : ℕ) (s : Machine) → (free_vmxon c s).live p ≡ s.live p - one p (s.percpu c).vmxon_region
free_vmxon-live c p s = ground arith

free_vmcs-live :
    (c p : ℕ) (s : Machine) → (free_vmcs c s).live p ≡ s.live p - one p (s.percpu c).vmcs_region
free_vmcs-live c p s = ground arith

free_vmxon-keeps :
    (c : ℕ) (s : Machine) → ((free_vmxon c s).percpu c).vmcs_region ≡ (s.percpu c).vmcs_region
free_vmxon-keeps c s = ground (arith, ==_self c)

free_vmxon-others :
    (c j : ℕ) (s : Machine) → (j == c) ≡ false → (free_vmxon c s).percpu j ≡ s.percpu j
free_vmxon-others c j s h = ground (arith, h)

free_vmcs-others :
    (c j : ℕ) (s : Machine) → (j == c) ≡ false → (free_vmcs c s).percpu j ≡ s.percpu j
free_vmcs-others c j s h = ground (arith, h)

held-others :
    (p c : ℕ) (f g : ℕ → PercpuVmx) (cs : List ℕ)
    → ((j : ℕ) → (j == c) ≡ false → f j ≡ g j)
    → has c cs ≡ false
    → held p f cs ≡ held p g cs
held-others p c f g [] agree h = refl
held-others p c f g (x ∷ xs) agree h =
    let here : f x ≡ g x = agree x (ground arith) in
    rw here (omega (arith, held-others p c f g xs agree (ground arith)))

-- Freeing the regions of the listed processors takes each of them off the count.
free_cpus-live :
    (p : ℕ) (cs : List ℕ) (s : Machine)
    → is_once cs ≡ true
    → (free_cpus cs s).live p ≡ s.live p - held p s.percpu cs
unfolding free_cpus
free_cpus-live p [] s d = omega arith
free_cpus-live p (c ∷ cs) s d =
    let s1 = free_vmxon c s in
    let same : held p (free_vmcs c s1).percpu cs ≡ held p s.percpu cs =
      held-others p c _ _ cs (λ j e. free_vmcs-others c j s1 e ∙ free_vmxon-others c j s e)
        (ground arith) in
    free_cpus-live p cs (free_vmcs c s1) (ground arith)
    ∙ omega (
      arith,
      same,
      free_vmcs-live c p s1,
      free_vmxon-live c p s,
      ap (λ (r : ℕ). one p r) (free_vmxon-keeps c s),
    )

free_vmxon-cpus : (c : ℕ) (s : Machine) → (free_vmxon c s).cpus ≡ s.cpus
free_vmxon-cpus c s = ground arith

free_vmcs-cpus : (c : ℕ) (s : Machine) → (free_vmcs c s).cpus ≡ s.cpus
free_vmcs-cpus c s = ground arith

free_cpus-cpus : (cs : List ℕ) (s : Machine) → (free_cpus cs s).cpus ≡ s.cpus
unfolding free_cpus
free_cpus-cpus [] s = refl
free_cpus-cpus (c ∷ cs) s =
    free_cpus-cpus cs (free_vmcs c (free_vmxon c s))
    ∙ free_vmcs-cpus c (free_vmxon c s)
    ∙ free_vmxon-cpus c s

-- All pages are either the regions of `online` or were live before, as `base` counts.
pub record IsOwner (base : ℕ → ℕ) (online : List ℕ) (s : Machine) : Type 0 where
  pub set : s.g_vmx ≡ true
  pub counted : (p : ℕ) → s.live p ≡ base p + held p s.percpu online

pub record IsFreed (base : ℕ → ℕ) (s : Machine) : Type 0 where
  pub unset : s.g_vmx ≡ false
  pub returned : (p : ℕ) → s.live p ≡ base p

pub free_regions-IsFreed :
    (base : ℕ → ℕ) (online : List ℕ) (s : Machine)
    → is_once online ≡ true
    → IsOwner base online s
    → IsFreed base (free_regions online s)
unfolding free_regions
free_regions-IsFreed base online s d o =
    let s' : Machine = record (free_cpus online s) { g_vmx = false } in
    rw (if_true s' s o.set) (record {
      unset = refl;
      returned = λ p. omega (arith, free_cpus-live p online s d, o.counted p);
    })

pub free_regions-cpus : (online : List ℕ) (s : Machine) → (free_regions online s).cpus ≡ s.cpus
unfolding free_regions
free_regions-cpus online s = ground (arith, free_cpus-cpus online s)

pub one-null : (p r : ℕ) → r ≡ 0 → one p r ≡ 0
one-null p r e = ground arith

pub held-no_regions : (p : ℕ) (cs : List ℕ) → held p (λ i. no_regions) cs ≡ 0
held-no_regions p [] = refl
held-no_regions p (c ∷ cs) = omega (arith, one-null p 0 refl, held-no_regions p cs)
