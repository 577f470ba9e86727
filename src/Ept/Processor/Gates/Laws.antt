-- ===== src/Ept/Processor/Gates/Laws.antt =====
-- Where an exception of the host goes.
use alcatraz.Prelude.{
  ℕ, zero, suc, ◌+◌, ◌*◌, ◌^◌, ◌≤◌, ◌<◌, ◌≡◌, refl, ap, sym, ◌∙◌, Bool, ◌||◌, ◌&&◌, ◌==◌, ltb, leb,
  if◌then◌else◌, if_true, if_false, if_split, if_elim, ==_iff, Bool-cases, inl, inr, List, [], ◌∷◌,
  arith,
}
use alcatraz.Ept.{Ept, Kernel}
use alcatraz.Ept.Processor.{DescPtr, fixed_size}
use alcatraz.Ept.Processor.Gates.{
  Gate, Stubs, handlers, at_or, handler_of, gate_of, fill_idt, setup_host_idt_and_protect,
}

-- The exceptions for which the processor pushes an error code.
abbrev pub pushes_error_code : ℕ → Bool
pushes_error_code i = i == 8 || leb 10 i && leb i 14 || i == 17 || i == 21

-- The stub for a vector.
abbrev pub stub_of : Stubs → ℕ → ℕ
stub_of s i =
    if pushes_error_code i
    then s.int_with_error_callback_stub
    else if i == 2
    then s.int_nmi_callback_stub
    else s.int_callback_stub

-- The address that the processor puts together from a gate.
abbrev pub gate_offset : Gate → ℕ
gate_offset g = g.offset_low + g.offset_middle * 2 ^ 16 + g.offset_high * 2 ^ 32

-- The stubs for `n` vectors from `i` on.
stubs_from : Stubs → ℕ → ℕ → List ℕ
stubs_from s i zero = []
stubs_from s i (suc n) = stub_of s i ∷ stubs_from s (suc i) n

at_or-stubs_from :
    (s : Stubs) (other n i j : ℕ) → j < n → at_or (stubs_from s i n) other j ≡ stub_of s (i + j)
unfolding stubs_from
at_or-stubs_from s other zero i j lt = absurd (omega (arith, lt))
at_or-stubs_from s other (suc n) i zero lt =
    let same : i ≡ i + 0 = omega arith in ap (stub_of s) same
at_or-stubs_from s other (suc n) i (suc j) lt =
    let same : suc i + j ≡ i + suc j = omega arith in
    at_or-stubs_from s other n (suc i) j (omega (arith, lt)) ∙ ap (stub_of s) same

handlers_are : (s : Stubs) → handlers s ≡ stubs_from s 0 22
unfolding stubs_from
handlers_are s = refl

beyond : (s : Stubs) (i : ℕ) → 22 ≤ i → s.int_callback_stub ≡ stub_of s i
beyond s i le = ground arith

handler_of_is : (s : Stubs) (i : ℕ) → handler_of s i ≡ stub_of s i
handler_of_is s i =
    let same : 0 + i ≡ i = omega arith in
    if_split (λ (h : ℕ). h ≡ stub_of s i) (ltb i 22) _ _
      (λ lt.
        ap (λ (l : List ℕ). at_or l s.int_callback_stub i) (handlers_are s)
        ∙ at_or-stubs_from s s.int_callback_stub 22 0 i (ground arith)
        ∙ ap (stub_of s) same)
      (λ ge. beyond s i (ground arith))

-- A gate keeps an address of 64 bits.
gate_offset-gate_of : (s : Stubs) (h : ℕ) → h < 2 ^ 64 → gate_offset (gate_of s h) ≡ h
gate_offset-gate_of s h lt = omega arith

fill_idt_at :
    (s : Stubs) (n i : ℕ) (idt : ℕ → Gate) → i < n → fill_idt s n idt i ≡ gate_of s (handler_of s i)
unfolding fill_idt
fill_idt_at s zero i idt lt = absurd (omega (arith, lt))
fill_idt_at s (suc n) i idt lt = elim (Bool-cases (i == n)) [
  | inl this ↦
      if_true _ _ this ∙ ap (λ (j : ℕ). gate_of s (handler_of s j)) (sym ((==_iff i n).0 this))
  | inr other ↦ if_false _ _ other ∙ fill_idt_at s n i idt (ground arith)
]

-- The stubs are at addresses of 64 bits.
pub record AreStubs (s : Stubs) : Type 0 where
  pub plain : s.int_callback_stub < 2 ^ 64
  pub nmi : s.int_nmi_callback_stub < 2 ^ 64
  pub error : s.int_with_error_callback_stub < 2 ^ 64

stub_of_fits : (s : Stubs) (i : ℕ) → AreStubs s → stub_of s i < 2 ^ 64
stub_of_fits s i a =
    if_elim (λ (h : ℕ). h < 2 ^ 64) (pushes_error_code i) _ _ a.error
      (if_elim (λ (h : ℕ). h < 2 ^ 64) (i == 2) _ _ a.nmi a.plain)

-- For each vector whose gate the register of the host's IDT reaches, with stubs at addresses of 64
-- bits: the processor finds a present interrupt gate there, for the kernel's code segment and level 0, and
-- the address that it puts together is the one of the stub for exceptions with an error code where
-- it pushes one, of the stub for an NMI at vector 2, and of the plain stub elsewhere. The register
-- never reaches past the page.
pub setup_host_idt_and_protect-goes :
    (s : Stubs) (k : Kernel) (page : ℕ) (idtr : DescPtr) (idt : ℕ → Gate) (ept : Ept)
    → AreStubs s
    → let h = setup_host_idt_and_protect s k page idtr idt ept in
      ((i : ℕ)
        → i * 16 + 15 ≤ h.host_idtr.size
        → (gate_offset (h.idt i) ≡ stub_of s i)
          × ((h.idt i).p ≡ 1)
          × ((h.idt i).type_bits ≡ s.gate_interrupt)
          × ((h.idt i).dpl ≡ 0)
          × ((h.idt i).segment ≡ s.kernel_cs))
      × (h.host_idtr.size < 4096)
unfolding setup_host_idt_and_protect
setup_host_idt_and_protect-goes s k page idtr idt ept a =
    let cut : fixed_size idtr.size < 4096 = ground arith in
    (
      λ i reached.
          let g : fill_idt s 256 idt i ≡ gate_of s (stub_of s i) =
            fill_idt_at s 256 i idt (omega (arith, reached, cut))
            ∙ ap (gate_of s) (handler_of_is s i) in
          (
            ap gate_offset g ∙ gate_offset-gate_of s (stub_of s i) (stub_of_fits s i a),
            ap (λ (x : Gate). x.p) g,
            ap (λ (x : Gate). x.type_bits) g,
            ap (λ (x : Gate). x.dpl) g,
            ap (λ (x : Gate). x.segment) g,
          ),
      cut,
    )
