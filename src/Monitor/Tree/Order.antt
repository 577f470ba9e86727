-- ===== src/Monitor/Tree/Order.antt =====
-- Lists of nodes in strictly ascending order of their keys: the view of a search tree.
use alcatraz.Prelude.{
  ℕ, suc, ◌≤◌, ◌<◌, ◌≡◌, refl, ◌++◌, List, [], ◌∷◌, Option, none, some, arith, ltb, ◌==◌,
  if◌then◌else◌, length, Bool-cases, inl, inr, ==_iff,
}
use mathlib.Core.List.{Mem, Perm, mem-cons_self, mem-cons_of_mem}
use mathlib.Core.List.Perm
use alcatraz.Monitor.Tree.{remove}

module _ (key : ℕ → ℕ) where
  -- The keys ascend, from `lo` on and below `hi`.
  abbrev pub Chain : ℕ → ℕ → List ℕ → Type 0
  Chain lo hi [] = lo ≤ hi
  Chain lo hi (x ∷ xs) = (lo ≤ key x) × (key x < hi) × Chain (suc (key x)) hi xs

  abbrev pub find_key : ℕ → List ℕ → Option ℕ
  find_key k [] = none
  find_key k (x ∷ xs) = if key x == k then some x else find_key k xs

  -- `n` is put before the first node with a greater key.
  abbrev pub place : ℕ → List ℕ → List ℕ
  place n [] = n ∷ []
  place n (x ∷ xs) = if ltb (key n) (key x) then n ∷ x ∷ xs else x ∷ place n xs

  pub Chain-le : (lo hi : ℕ) (xs : List ℕ) → Chain lo hi xs → lo ≤ hi
  Chain-le lo hi [] c = c
  Chain-le lo hi (x ∷ xs) c = omega arith

  pub Chain-split :
      (lo hi : ℕ) (xs : List ℕ) (y : ℕ) (ys : List ℕ)
      → Chain lo hi (xs ++ y ∷ ys)
      → Chain lo (key y) xs × (key y < hi) × Chain (suc (key y)) hi ys
  Chain-split lo hi [] y ys c = c
  Chain-split lo hi (x ∷ xs) y ys c =
      let rest = Chain-split (suc (key x)) hi xs y ys c.2 in
      ((c.0, Chain-le (suc (key x)) (key y) xs rest.0, rest.0), rest.1, rest.2)

  pub find_key_above : (k lo hi : ℕ) (xs : List ℕ) → Chain lo hi xs → hi ≤ k → find_key k xs ≡ none
  find_key_above k lo hi [] c h = refl
  find_key_above k lo hi (x ∷ xs) c h = ground (arith, find_key_above k (suc (key x)) hi xs c.2 h)

  pub find_key_below : (k lo hi : ℕ) (xs : List ℕ) → Chain lo hi xs → k < lo → find_key k xs ≡ none
  find_key_below k lo hi [] c h = refl
  find_key_below k lo hi (x ∷ xs) c h = ground (arith, find_key_below k (suc (key x)) hi xs c.2)

  -- The search goes on on one side of a node.
  pub find_key-append :
      (k lo hi : ℕ) (xs : List ℕ) (y : ℕ) (ys : List ℕ)
      → Chain lo hi (xs ++ y ∷ ys)
      → find_key k (xs ++ y ∷ ys)
        ≡ (if ltb k (key y) then find_key k xs else if ltb (key y) k then find_key k ys else some y)
  find_key-append k lo hi [] y ys c = ground (arith, find_key_below k (suc (key y)) hi ys c.2)
  find_key-append k lo hi (x ∷ xs) y ys c = ground (
    arith,
    find_key-append k (suc (key x)) hi xs y ys c.2,
    Chain-split (suc (key x)) hi xs y ys c.2,
    Chain-le (suc (key x)) (key y) xs,
  )

  -- So does the place of a new node.
  pub place-append :
      (n lo hi : ℕ) (xs : List ℕ) (y : ℕ) (ys : List ℕ)
      → Chain lo hi (xs ++ y ∷ ys)
      → place n (xs ++ y ∷ ys)
        ≡ (if ltb (key n) (key y) then place n xs ++ y ∷ ys else xs ++ y ∷ place n ys)
  place-append n lo hi [] y ys c = ground arith
  place-append n lo hi (x ∷ xs) y ys c = ground (
    arith,
    place-append n (suc (key x)) hi xs y ys c.2,
    Chain-split (suc (key x)) hi xs y ys c.2,
    Chain-le (suc (key x)) (key y) xs,
  )

  Chain-mono : (lo lo' hi : ℕ) (xs : List ℕ) → lo' ≤ lo → Chain lo hi xs → Chain lo' hi xs
  Chain-mono lo lo' hi [] h c = omega arith
  Chain-mono lo lo' hi (x ∷ xs) h c = (omega arith, c.1, c.2)

  pub place-Chain :
      (n lo hi : ℕ) (xs : List ℕ)
      → lo ≤ key n
      → key n < hi
      → Chain lo hi xs
      → find_key (key n) xs ≡ none
      → Chain lo hi (place n xs)
  place-Chain n lo hi [] p q c e = omega arith
  place-Chain n lo hi (x ∷ xs) p q c e = ground (arith, place-Chain n (suc (key x)) hi xs)

  pub find_key-place :
      (n k lo hi : ℕ) (xs : List ℕ)
      → Chain lo hi xs
      → find_key (key n) xs ≡ none
      → find_key k (place n xs) ≡ (if key n == k then some n else find_key k xs)
  find_key-place n k lo hi [] c e = refl
  find_key-place n k lo hi (x ∷ xs) c e = ground (arith, find_key-place n k (suc (key x)) hi xs c.2)

  pub remove-Chain : (n lo hi : ℕ) (xs : List ℕ) → Chain lo hi xs → Chain lo hi (remove n xs)
  remove-Chain n lo hi [] c = c
  remove-Chain n lo hi (x ∷ xs) c = ground (
    arith,
    remove-Chain n (suc (key x)) hi xs c.2,
    Chain-mono (suc (key x)) lo hi xs (omega arith) c.2,
  )

  pub find_key_hit : (k : ℕ) (xs : List ℕ) (n : ℕ) → find_key k xs ≡ some n → key n ≡ k
  find_key_hit k [] n e = cc
  find_key_hit k (x ∷ xs) n e = ground (arith, find_key_hit k xs n)

  pub find_key-remove :
      (n k lo hi : ℕ) (xs : List ℕ)
      → Chain lo hi xs
      → find_key (key n) xs ≡ some n
      → find_key k (remove n xs) ≡ (if key n == k then none else find_key k xs)
  find_key-remove n k lo hi [] c e = cc
  find_key-remove n k lo hi (x ∷ xs) c e =
      ground (
        arith,
        find_key-remove n k (suc (key x)) hi xs c.2,
        find_key_below k (suc (key x)) hi xs c.2,
      )

  pub length-place : (n : ℕ) (xs : List ℕ) → length (place n xs) ≡ suc (length xs)
  length-place n [] = refl
  length-place n (x ∷ xs) = ground (arith, length-place n xs)

  pub length-remove :
      (n k : ℕ) (xs : List ℕ) → find_key k xs ≡ some n → suc (length (remove n xs)) ≡ length xs
  length-remove n k [] e = cc
  length-remove n k (x ∷ xs) e = ground (arith, length-remove n k xs)

-- Only the keys of the listed nodes matter.
module _ (key key' : ℕ → ℕ) where
  pub Chain-cong :
      (lo hi : ℕ) (xs : List ℕ)
      → ((x : ℕ) → Mem x xs → key x ≡ key' x)
      → Chain key lo hi xs
      → Chain key' lo hi xs
  Chain-cong lo hi [] same c = c
  Chain-cong lo hi (x ∷ xs) same c =
      let e : key x ≡ key' x = same x mem-cons_self in
      let rest : Chain key' (suc (key x)) hi xs =
        Chain-cong (suc (key x)) hi xs (λ y m. same y (mem-cons_of_mem x m)) c.2 in
      rw (← e) (c.0, c.1, rest)

  pub find_key-cong :
      (k : ℕ) (xs : List ℕ)
      → ((x : ℕ) → Mem x xs → key x ≡ key' x)
      → find_key key k xs ≡ find_key key' k xs
  find_key-cong k [] same = refl
  find_key-cong k (x ∷ xs) same =
      rw (same x mem-cons_self, find_key-cong k xs (λ y m. same y (mem-cons_of_mem x m)))

module _ (key : ℕ → ℕ) where
  pub place-perm : (n : ℕ) (xs : List ℕ) → Perm (place key n xs) (n ∷ xs)
  place-perm n [] = Perm.refl _
  place-perm n (x ∷ xs) = elim (Bool-cases (ltb (key n) (key x))) [
    | inl p ↦ rw p (Perm.refl _)
    | inr p ↦ rw p (Perm.trans (Perm.cons x (place-perm n xs)) (Perm.swap n x xs))
  ]

  pub remove-perm : (n k : ℕ) (xs : List ℕ) → find_key key k xs ≡ some n → Perm xs (n ∷ remove n xs)
  remove-perm n k [] e = cc
  remove-perm n k (x ∷ xs) e = elim (Bool-cases (x == n)) [
    | inl p ↦ rw (p, (==_iff x n).0 p) (Perm.refl _)
    | inr p ↦ rw p (Perm.trans (Perm.cons x (remove-perm n k xs (ground arith))) (Perm.swap n x _))
  ]

  pub find_key_mem : (n k : ℕ) (xs : List ℕ) → find_key key k xs ≡ some n → Mem n xs
  find_key_mem n k [] e = cc
  find_key_mem n k (x ∷ xs) e = elim (Bool-cases (key x == k)) [
    | inl p ↦ let here : x ≡ n = ground arith in rw (← here) mem-cons_self
    | inr p ↦ mem-cons_of_mem x (find_key_mem n k xs (ground arith))
  ]
