-- ===== src/Probe/Regions/Laws.antt =====
-- The pages are counted: an allocation that fails gives back what it took, and freeing gives back all.
use alcatraz.Prelude.{
  ℕ, ◌+◌, ◌≡◌, ◌≢◌, refl, ◌⊎◌, Bool, true, false, ◌||◌, ◌==◌, List, [], ◌∷◌, arith, Bool-cases, inl,
  inr, ==_self, if_true, if_false, if_elim,
}
use alcatraz.Probe.{Code, success, enomem, Hardware, PercpuVmx, Machine}
use alcatraz.Probe.Regions.{
  no_regions, free_regions, get_regions, clear_regions, alloc_cpus, alloc_regions,
}
use alcatraz.Probe.Regions.Count.{
  has, is_once, has-later, has-first, has-elsewhere, held-put, held-no_regions, one-null, IsOwner,
  IsFreed, free_regions-IsFreed, free_regions-cpus,
}

-- Every processor that is online has both regions, and none is in VMX operation.
pub record IsReady (base : ℕ → ℕ) (online : List ℕ) (s : Machine) : Type 0 where
  pub owner : IsOwner base online s
  pub present :
      (j : ℕ)
      → has j online ≡ true
      → ((s.percpu j).vmxon_region ≢ 0) × ((s.percpu j).vmcs_region ≢ 0)
  pub off : (j : ℕ) → (s.percpu j).vmx_on ≡ false

abbrev pub refused : Hardware → ℕ → Machine → Bool
refused h c s =
    ((get_regions h c s).percpu c).vmxon_region == 0
    || ((get_regions h c s).percpu c).vmcs_region == 0

pub refused-eq :
    (h : Hardware) (c : ℕ) (s : Machine)
    → refused h c s ≡ (h.free_page s.calls == 0 || h.free_page (s.calls + 1) == 0)
refused-eq h c s = rw (==_self c) refl

module _ (h : Hardware) (base : ℕ → ℕ) (online : List ℕ) (d : is_once online ≡ true) where
  -- In the loop: the processors still to come have no regions and are online, the others have both.
  record IsLoop (cpus : List ℕ) (s : Machine) : Type 0 where
    owner : IsOwner base online s
    empty :
        (j : ℕ)
        → has j cpus ≡ true
        → ((s.percpu j).vmxon_region ≡ 0) × ((s.percpu j).vmcs_region ≡ 0)
    listed : (j : ℕ) → has j cpus ≡ true → has j online ≡ true
    once : is_once cpus ≡ true
    done :
        (j : ℕ)
        → has j online ≡ true
        → has j cpus ≡ false
        → ((s.percpu j).vmxon_region ≢ 0) × ((s.percpu j).vmcs_region ≢ 0)
    off : (j : ℕ) → (s.percpu j).vmx_on ≡ false

  get_regions-IsOwner :
      (c : ℕ) (cs : List ℕ) (s : Machine)
      → IsLoop (c ∷ cs) s
      → IsOwner base online (get_regions h c s)
  get_regions-IsOwner c cs s l = record {
    set = l.owner.set;
    counted = λ p.
        let v : PercpuVmx = record (s.percpu c) {
          vmxon_region = h.free_page s.calls;
          vmcs_region = h.free_page (s.calls + 1);
        } in
        omega (
          arith,
          l.owner.counted p,
          one-null p _ (l.empty c (has-first c cs)).0,
          one-null p _ (l.empty c (has-first c cs)).1,
          held-put p c v s.percpu online (l.listed c (has-first c cs)) d,
        );
  }

  next :
      (c : ℕ) (cs : List ℕ) (s : Machine)
      → IsLoop (c ∷ cs) s
      → h.free_page s.calls ≢ 0
      → h.free_page (s.calls + 1) ≢ 0
      → IsLoop cs (clear_regions c (get_regions h c s))
  next c cs s l used_on used_vmcs = record {
    owner = record { set = l.owner.set; counted = (get_regions-IsOwner c cs s l).counted };
    empty = λ j e.
        let other : (j == c) ≡ false = has-elsewhere c j cs l.once e in
        rw other (l.empty j (has-later c j cs e));
    listed = λ j e. l.listed j (has-later c j cs e);
    once = ground (arith, l.once);
    done = λ j e f. elim (Bool-cases (j == c)) [
      | inl same ↦ rw same (used_on, used_vmcs)
      | inr other ↦ rw other (l.done j e (ground arith))
    ];
    off = λ j. ground (arith, l.off j, l.off c);
  }

  abbrev rest : ℕ → List ℕ → Machine → Code × Machine
  rest c cs s = alloc_cpus h online cs (clear_regions c (get_regions h c s))

  alloc_cpus-lem :
      (cpus : List ℕ) (s : Machine)
      → IsLoop cpus s
      → (((alloc_cpus h online cpus s).0 ≡ success)
          × IsReady base online (alloc_cpus h online cpus s).1)
        ⊎ (((alloc_cpus h online cpus s).0 ≡ enomem) × IsFreed base (alloc_cpus h online cpus s).1)
  unfolding alloc_cpus
  alloc_cpus-lem [] s l =
      inl (refl, record { owner = l.owner; present = λ j e. l.done j e refl; off = l.off })
  alloc_cpus-lem (c ∷ cs) s l = elim (Bool-cases (refused h c s)) [
    | inl bad ↦
        rw (if_true (enomem, free_regions online (get_regions h c s)) (rest c cs s) bad)
          (inr (refl, free_regions-IsFreed base online _ d (get_regions-IsOwner c cs s l)))
    | inr fine ↦
        let taken : (h.free_page s.calls == 0 || h.free_page (s.calls + 1) == 0) ≡ false =
          rw (← refused-eq h c s) fine in
        rw (if_false (enomem, free_regions online (get_regions h c s)) (rest c cs s) fine) (
          alloc_cpus-lem cs (clear_regions c (get_regions h c s))
            (next c cs s l (ground arith) (ground arith)))
  ]

alloc_cpus-cpus :
    (h : Hardware) (online cpus : List ℕ) (s : Machine)
    → (alloc_cpus h online cpus s).1.cpus ≡ s.cpus
unfolding alloc_cpus
alloc_cpus-cpus h online [] s = refl
alloc_cpus-cpus h online (c ∷ cs) s =
    if_elim (λ (r : Code × Machine). r.1.cpus ≡ s.cpus) (refused h c s) _ _
      (free_regions-cpus online (get_regions h c s))
      (alloc_cpus-cpus h online cs (clear_regions c (get_regions h c s)))

pub alloc_regions-cpus :
    (h : Hardware) (online : List ℕ) (s : Machine) → (alloc_regions h online s).1.cpus ≡ s.cpus
unfolding alloc_regions
alloc_regions-cpus h online s =
    if_elim (λ (r : Code × Machine). r.1.cpus ≡ s.cpus) h.kcalloc_ok _ _
      (alloc_cpus-cpus h online online (record s { g_vmx = true; percpu = λ i. no_regions })) refl

-- Either every processor gets both regions, and only these pages are taken, or the result is -ENOMEM
-- and every page that was taken is given back.
pub alloc_regions-lem :
    (h : Hardware) (online : List ℕ) (s : Machine)
    → is_once online ≡ true
    → (((alloc_regions h online s).0 ≡ success)
        × IsReady s.live online (alloc_regions h online s).1)
      ⊎ (((alloc_regions h online s).0 ≡ enomem) × IsFreed s.live (alloc_regions h online s).1)
unfolding alloc_regions
alloc_regions-lem h online s d = elim (Bool-cases h.kcalloc_ok) [
  | inl ok ↦
      let s' : Machine = record s { g_vmx = true; percpu = λ i. no_regions } in
      rw (if_true (alloc_cpus h online online s') (enomem, record s { g_vmx = false }) ok) (
        alloc_cpus-lem h s.live online d online s' (record {
          owner = record { set = refl; counted = λ p. omega (arith, held-no_regions p online) };
          empty = λ j e. (refl, refl);
          listed = λ j e. e;
          once = d;
          done = λ j e f. absurd (cc);
          off = λ j. refl;
        }))
  | inr bad ↦
      rw
        (if_false (alloc_cpus h online online (record s { g_vmx = true; percpu = λ i. no_regions }))
          (enomem, record s { g_vmx = false }) bad)
        (inr (refl, record { unset = refl; returned = λ p. refl }))
]
