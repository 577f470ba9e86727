-- ===== src/Ept/Ranges.antt =====
-- What the operations on a range do to every page in it, and to every page outside.
use alcatraz.Prelude.{
  ℕ, zero, suc, ◌+◌, ◌*◌, ◌/◌, ◌%◌, ◌^◌, ◌<◌, ◌≤◌, ◌≡◌, refl, ◌∙◌, arith, ◌==◌, ==_iff, true, false,
  ltb, bit_and, Bool-cases, inl, inr, subst,
}
use alcatraz.Prelude.Bits.{page_mask}
use alcatraz.Ept.{Ept, mask_pageaddr, for_pages, align_end}
use alcatraz.Ept.Pages.{entry, Words}

-- What an operation on a page makes true of the page it is given, and does not undo on another.
pub record Marks (op : Ept → ℕ → Ept) (phys : ℕ → ℕ) (Marked : Ept → ℕ → Type 0) : Type 0 where
  pub keeps_words : (e : Ept) (a : ℕ) → Words e → Words (op e (phys a))
  pub marks : (e : Ept) (a : ℕ) → Words e → Marked (op e (phys a)) (phys a / 4096)
  pub keeps_marks : (e : Ept) (a n : ℕ) → Words e → Marked e n → Marked (op e (phys a)) n
  pub keeps_others :
      (e : Ept) (a n : ℕ)
      → Words e
      → (n == phys a / 4096) ≡ false
      → entry (op e (phys a)) n ≡ entry e n

module _ (op : Ept → ℕ → Ept) (phys : ℕ → ℕ) (Marked : Ept → ℕ → Type 0)
    (m : Marks op phys Marked) where
  pub for_pages-Words :
      (fuel i stop : ℕ) (e : Ept) → Words e → Words (for_pages op phys fuel i stop e)
  unfolding for_pages
  for_pages-Words zero i stop e w = w
  for_pages-Words (suc fuel) i stop e w = elim (Bool-cases (ltb i stop)) [
    | inl b ↦
        rw b (for_pages-Words fuel ((i + 4096) % 2 ^ 64) stop (op e (phys i)) (m.keeps_words e i w))
    | inr b ↦ rw b w
  ]

  pub for_pages-keeps :
      (fuel i stop n : ℕ) (e : Ept)
      → Words e
      → Marked e n
      → Marked (for_pages op phys fuel i stop e) n
  unfolding for_pages
  for_pages-keeps zero i stop n e w h = h
  for_pages-keeps (suc fuel) i stop n e w h = elim (Bool-cases (ltb i stop)) [
    | inl b ↦ rw b (
        for_pages-keeps fuel ((i + 4096) % 2 ^ 64) stop n (op e (phys i)) (m.keeps_words e i w)
          (m.keeps_marks e i n w h))
    | inr b ↦ rw b h
  ]

  -- With fuel for every page up to the end, the loop reaches each of them.
  for_pages-marks :
      (fuel i stop a : ℕ) (e : Ept)
      → Words e
      → i % 4096 ≡ 0
      → stop % 4096 ≡ 0
      → stop < 2 ^ 64
      → stop ≤ i + fuel * 4096
      → a % 4096 ≡ 0
      → i ≤ a
      → a < stop
      → Marked (for_pages op phys fuel i stop e) (phys a / 4096)
  unfolding for_pages
  for_pages-marks zero i stop a e w hi hs fits enough ha low high = absurd (omega arith)
  for_pages-marks (suc fuel) i stop a e w hi hs fits enough ha low high =
      let going : ltb i stop ≡ true = ground arith in
      let w' = m.keeps_words e i w in
      elim (Bool-cases (i == a)) [
        | inl q ↦ rw going (
            for_pages-keeps fuel ((i + 4096) % 2 ^ 64) stop (phys a / 4096) (op e (phys i)) w' (
              subst (λ x. Marked (op e (phys i)) (phys x / 4096)) ((==_iff i a).0 q)
                (m.marks e i w)))
        | inr q ↦ rw going (
            for_pages-marks fuel ((i + 4096) % 2 ^ 64) stop a (op e (phys i)) w' (omega arith) hs
              fits (omega arith) ha (ground (arith, q)) high)
      ]

  -- A page that no address of the loop is mapped to keeps its entry.
  for_pages-others :
      (fuel i stop n : ℕ) (e : Ept)
      → Words e
      → i % 4096 ≡ 0
      → stop % 4096 ≡ 0
      → stop < 2 ^ 64
      → ((a : ℕ) → i ≤ a → a < stop → (n == phys a / 4096) ≡ false)
      → entry (for_pages op phys fuel i stop e) n ≡ entry e n
  unfolding for_pages
  for_pages-others zero i stop n e w hi hs fits out = refl
  for_pages-others (suc fuel) i stop n e w hi hs fits out = elim (Bool-cases (ltb i stop)) [
    | inl b ↦
        let next : (a : ℕ) → (i + 4096) % 2 ^ 64 ≤ a → a < stop → (n == phys a / 4096) ≡ false =
          λ a low high. out a (ground (arith, b)) high in
        rw b (
          for_pages-others fuel ((i + 4096) % 2 ^ 64) stop n (op e (phys i)) (m.keeps_words e i w)
            (omega arith) hs fits next
          ∙ m.keeps_others e i n w (out i (omega arith) (ground (arith, b))))
    | inr b ↦ rw b refl
  ]

  -- The loops of the functions on ranges: every byte of the range lies in a page that is marked, and
  -- a page to which no page of the range is mapped stays as it is.
  pub range_marks :
      (start_addr end_addr b : ℕ) (e : Ept)
      → Words e
      → start_addr < 2 ^ 64
      → end_addr + 4095 < 2 ^ 64
      → start_addr ≤ b
      → b < end_addr
      → Marked
          (for_pages op phys
            (align_end end_addr / 4096)
            (bit_and start_addr mask_pageaddr)
            (align_end end_addr)
            e)
          (phys (b / 4096 * 4096) / 4096)
  range_marks start_addr end_addr b e w hs he low high =
      let first : bit_and start_addr mask_pageaddr ≡ start_addr / 4096 * 4096 =
        page_mask start_addr hs in
      let last : align_end end_addr ≡ (end_addr + 4095) / 4096 * 4096 =
        page_mask ((end_addr + 4095) % 2 ^ 64) (omega arith) ∙ omega arith in
      for_pages-marks (align_end end_addr / 4096) (bit_and start_addr mask_pageaddr)
        (align_end end_addr) (b / 4096 * 4096) e w (omega (arith, first)) (omega (arith, last))
        (omega (arith, last)) (omega (arith, last)) (omega arith) (omega (arith, first))
        (omega (arith, last))

  pub range_others :
      (start_addr end_addr n : ℕ) (e : Ept)
      → Words e
      → start_addr < 2 ^ 64
      → end_addr + 4095 < 2 ^ 64
      → ((a : ℕ)
          → start_addr / 4096 * 4096 ≤ a
          → a < end_addr + 4095
          → (n == phys a / 4096) ≡ false)
      → entry
          (for_pages op phys
            (align_end end_addr / 4096)
            (bit_and start_addr mask_pageaddr)
            (align_end end_addr)
            e)
          n
        ≡ entry e n
  range_others start_addr end_addr n e w hs he out =
      let first : bit_and start_addr mask_pageaddr ≡ start_addr / 4096 * 4096 =
        page_mask start_addr hs in
      let last : align_end end_addr ≡ (end_addr + 4095) / 4096 * 4096 =
        page_mask ((end_addr + 4095) % 2 ^ 64) (omega arith) ∙ omega arith in
      for_pages-others (align_end end_addr / 4096) (bit_and start_addr mask_pageaddr)
        (align_end end_addr) n e w (omega (arith, first)) (omega (arith, last))
        (omega (arith, last)) (λ a low high. out a (omega (arith, first)) (omega (arith, last)))
