-- ===== src/Ept/Setup/Fill.antt =====
-- What the loops leave in each entry.
use alcatraz.Prelude.{
  ℕ, zero, suc, ◌+◌, ◌*◌, ◌%◌, ◌^◌, ◌<◌, ◌≤◌, ◌≡◌, refl, ap, ◌∙◌, arith, ◌==◌, ==_self, Bool-cases,
  inl, inr, ==_iff,
}
use alcatraz.Ept.Setup.{fill, fill_tables}

module _ (entry : ℕ → ℕ → ℕ) (step : ℕ) (b : ℕ → ℕ) where
  fill-below : (n i k base : ℕ) (t : ℕ → ℕ) → k < i → (fill entry step n i base t).0 k ≡ t k
  unfolding fill
  fill-below zero i k base t h = refl
  fill-below (suc n) i k base t h = fill-below n (suc i) k _ _ (omega arith) ∙ ground arith

  -- `base` is `b i` before entry `i`, up to entry `i + n`.
  abbrev pub Grows : ℕ → ℕ → Type 0
  Grows i n = (m : ℕ) → i ≤ m → m < i + n → (b m + step) % 2 ^ 64 ≡ b (suc m)

  next_base : (n i base : ℕ) → Grows i (suc n) → base ≡ b i → (base + step) % 2 ^ 64 ≡ b (suc i)
  next_base n i base grows e =
      ap (λ (x : ℕ). (x + step) % 2 ^ 64) e ∙ grows i (omega arith) (omega arith)

  pub fill-at :
      (n i k base : ℕ) (t : ℕ → ℕ)
      → Grows i n
      → base ≡ b i
      → i ≤ k
      → k < i + n
      → (fill entry step n i base t).0 k ≡ entry k (b k)
  unfolding fill
  fill-at zero i k base t grows e low high = absurd (omega arith)
  fill-at (suc n) i k base t grows e low high = elim (Bool-cases (k == i)) [
    | inl q ↦
        let here : k ≡ i = (==_iff k i).0 q in
        fill-below n (suc i) k _ _ (omega (arith, here)) ∙ rw (here, ==_self i) (ap (entry i) e)
    | inr q ↦
        fill-at n (suc i) k _ _ (λ m l h. grows m (omega arith) (omega arith))
          (next_base n i base grows e) (ground (arith, q)) (omega arith)
  ]

  pub fill-end :
      (n i base : ℕ) (t : ℕ → ℕ)
      → Grows i n
      → base ≡ b i
      → (fill entry step n i base t).1 ≡ b (i + n)
  unfolding fill
  fill-end zero i base t grows e = e ∙ ap b (omega arith)
  fill-end (suc n) i base t grows e =
      fill-end n (suc i) _ _ (λ m l h. grows m (omega arith) (omega arith))
        (next_base n i base grows e)
      ∙ ap b (omega arith)

module _ (entry : ℕ → ℕ → ℕ → ℕ) (step : ℕ) (b : ℕ → ℕ) where
  tables-below :
      (n j l k base : ℕ) (t : ℕ → ℕ → ℕ) → l < j → fill_tables entry step n j base t l k ≡ t l k
  unfolding fill_tables
  tables-below zero j l k base t h = refl
  tables-below (suc n) j l k base t h = tables-below n (suc j) l k _ _ (omega arith) ∙ ground arith

  -- `base` is `b (j * 512 + i)` before entry `i` of table `j`, up to the last table.
  pub tables-at :
      (n j l k base : ℕ) (t : ℕ → ℕ → ℕ)
      → ((m : ℕ) → m < (j + n) * 512 → (b m + step) % 2 ^ 64 ≡ b (suc m))
      → base ≡ b (j * 512)
      → j ≤ l
      → l < j + n
      → k < 512
      → fill_tables entry step n j base t l k ≡ entry l k (b (l * 512 + k))
  unfolding fill_tables
  tables-at zero j l k base t grows e low high small = absurd (omega arith)
  tables-at (suc n) j l k base t grows e low high small =
      let row : (x : ℕ) → ℕ = λ x. b (j * 512 + x) in
      let rising : Grows (entry j) step row 0 512 =
        λ m p q. grows (j * 512 + m) (omega arith) ∙ ap b (omega arith) in
      let start : base ≡ row 0 = e ∙ ap b (omega arith) in
      elim (Bool-cases (l == j)) [
        | inl q ↦
            let here : l ≡ j = (==_iff l j).0 q in
            tables-below n (suc j) l k _ _ (omega (arith, here))
            ∙ rw (here, ==_self j)
                (fill-at (entry j) step row 512 0 k base (λ x. 0) rising start (omega arith)
                  (omega arith))
        | inr q ↦
            tables-at n (suc j) l k _ _ (λ m p. grows m (omega arith))
              (fill-end (entry j) step row 512 0 base (λ x. 0) rising start ∙ ap b (omega arith))
              (ground (arith, q)) (omega arith) small
      ]
