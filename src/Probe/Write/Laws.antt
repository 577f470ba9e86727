-- ===== src/Probe/Write/Laws.antt =====
-- What a sequence of VMWRITEs leaves in the VMCS, whichever of them fails.
use alcatraz.Prelude.{
  ℕ, zero, suc, ◌≤◌, ◌≡◌, ◌≢◌, refl, ◌∙◌, true, ◌==◌, ltb, if◌then◌else◌, List, [], ◌∷◌, some,
  length, get_elem?, arith, Bool-cases, inl, inr,
}
use alcatraz.Prelude.Keys.{absent, are_distinct, absent-get}
use alcatraz.Probe.{is_success, Cpu, Hardware, put}
use alcatraz.Probe.Guest.{GuestState}
use alcatraz.Probe.Write.{write_field, write_fields, guest_fields, vmwrite_guest_state}

guest_fields-distinct : (g : GuestState) → are_distinct (guest_fields g) ≡ true
unfolding guest_fields
guest_fields-distinct g = refl

module _ (h : Hardware) (cpu : ℕ) where
  -- Only the fields of the VMCS change.
  pub write_fields-keeps :
      (fs : List (ℕ × ℕ)) (c : Cpu)
      → (write_fields h cpu fs c).1 ≡ record c { vmcs = (write_fields h cpu fs c).1.vmcs }
  unfolding write_fields write_field
  write_fields-keeps [] c = refl
  write_fields-keeps (f ∷ fs) c = elim (Bool-cases (h.vmwrite_ok cpu c f.0 f.1)) [
    | inl ok ↦ rw ok (write_fields-keeps fs (record c { vmcs = put c.vmcs f.0 f.1 }))
    | inr bad ↦ rw bad refl
  ]

  untouched :
      (f : ℕ) (fs : List (ℕ × ℕ)) (c : Cpu)
      → absent f fs ≡ true
      → (write_fields h cpu fs c).1.vmcs f ≡ c.vmcs f
  unfolding write_fields write_field
  untouched f [] c a = refl
  untouched f (x ∷ fs) c a = elim (Bool-cases (h.vmwrite_ok cpu c x.0 x.1)) [
    | inl ok ↦
        rw ok
          (untouched f fs (record c { vmcs = put c.vmcs x.0 x.1 }) (ground arith) ∙ ground arith)
    | inr bad ↦ rw bad refl
  ]

  abbrev pub IsPrefix : List (ℕ × ℕ) → Cpu → Cpu → ℕ → Type 0
  IsPrefix fs c c' k =
      (i : ℕ) (x : ℕ × ℕ)
      → get_elem? fs i ≡ some x
      → c'.vmcs x.0 ≡ (if ltb i k then x.1 else c.vmcs x.0)

  write_fields-prefix :
      (fs : List (ℕ × ℕ)) (c : Cpu)
      → are_distinct fs ≡ true
      → (k : ℕ) × IsPrefix fs c (write_fields h cpu fs c).1 k
        × (k ≤ length fs)
        × (is_success (write_fields h cpu fs c).0 ≡ (k == length fs))
  unfolding write_fields write_field
  write_fields-prefix [] c d = (0, λ i x e. cc, omega arith, refl)
  write_fields-prefix (f ∷ fs) c d = elim (Bool-cases (h.vmwrite_ok cpu c f.0 f.1)) [
    | inl ok ↦
        let c' : Cpu = record c { vmcs = put c.vmcs f.0 f.1 } in
        let (k, p, most, whole) = write_fields-prefix fs c' (ground arith) in
        rw ok (suc k, step k p, omega (arith, most), whole ∙ ground arith)
    | inr bad ↦ rw bad (0, λ i x e. ground arith, omega arith, ground arith)
  ]
    where
      step :
          (k : ℕ)
          → IsPrefix fs
              (record c { vmcs = put c.vmcs f.0 f.1 })
              (write_fields h cpu fs (record c { vmcs = put c.vmcs f.0 f.1 })).1
              k
          → IsPrefix
              (f ∷ fs)
              c
              (write_fields h cpu fs (record c { vmcs = put c.vmcs f.0 f.1 })).1
              (suc k)
      step k p zero x e =
          let same : f ≡ x = cc in
          let c' : Cpu = record c { vmcs = put c.vmcs f.0 f.1 } in
          rw (← same) (ground (arith, untouched f.0 fs c' (ground arith)))
      step k p (suc i) x e =
          let other : x.0 ≢ f.0 = absent-get f.0 fs i x (ground arith) e in ground (arith, p i x e)

pub vmwrite_guest_state-IsPrefix :
    (h : Hardware) (cpu : ℕ) (g : GuestState) (c : Cpu)
    → ((k : ℕ) × IsPrefix h cpu (guest_fields g) c (vmwrite_guest_state h cpu g c).1 k
        × (k ≤ length (guest_fields g))
        × (is_success (vmwrite_guest_state h cpu g c).0 ≡ (k == length (guest_fields g))))
      × ((vmwrite_guest_state h cpu g c).1
          ≡ record c { vmcs = (vmwrite_guest_state h cpu g c).1.vmcs })
unfolding vmwrite_guest_state
vmwrite_guest_state-IsPrefix h cpu g c = (
  write_fields-prefix h cpu (guest_fields g) c (guest_fields-distinct g),
  write_fields-keeps h cpu (guest_fields g) c,
)
