-- ===== src/Monitor/Tree/Laws.antt =====
-- The search tree refines the ordered list of its nodes.
use alcatraz.Prelude.{
  ℕ, suc, ◌<◌, ◌≡◌, refl, sym, ◌∙◌, Option, none, some, arith, ltb, ◌==◌, if◌then◌else◌,
  Option-cases, Bool-cases, ltb→lt, inl, inr,
}
use mathlib.Core.Option
use alcatraz.Monitor.Tree.{Tree, nil, node, inorder, RbLib, link, add_tree, search_tree, del_tree}
use alcatraz.Monitor.Tree.Order.{
  Chain, find_key, place, Chain-split, find_key-append, place-append, find_key-place, place-Chain,
  remove-Chain, find_key-remove,
}

module _ (key : ℕ → ℕ) where
  -- The descent finds what a walk over all nodes finds.
  pub search_tree-find_key :
      (lo hi : ℕ) (t : Tree) (k : ℕ)
      → Chain key lo hi (inorder t)
      → search_tree key t k ≡ find_key key k (inorder t)
  unfolding search_tree
  search_tree-find_key lo hi nil k c = refl
  search_tree-find_key lo hi (node l y r) k c =
      let parts = Chain-split key lo hi (inorder l) y (inorder r) c in
      rw (
        search_tree-find_key lo (key y) l k parts.0,
        search_tree-find_key (suc (key y)) hi r k parts.2,
        find_key-append key k lo hi (inorder l) y (inorder r) c,
      )

  -- A new key is linked at its place in the order; a key that is there already is not linked.
  abbrev Links : ℕ → Tree → Option Tree → Type 0
  Links n t none = (m : ℕ) × (find_key key (key n) (inorder t) ≡ some m)
  Links n t (some t') =
      (find_key key (key n) (inorder t) ≡ none) × (inorder t' ≡ place key n (inorder t))

  module _ (n lo hi y : ℕ) (l r : Tree) (c : Chain key lo hi (inorder (node l y r))) where
    Links-left :
        (o : Option Tree)
        → key n < key y
        → Links n l o
        → Links n (node l y r) (elim o [ none ↦ none | some l' ↦ some (node l' y r) ])
    Links-left none p (m, e) =
        (m, ground (arith, find_key-append key (key n) lo hi (inorder l) y (inorder r) c))
    Links-left (some l') p (e, f) = (
      ground (arith, find_key-append key (key n) lo hi (inorder l) y (inorder r) c),
      rw f (ground (arith, place-append key n lo hi (inorder l) y (inorder r) c)),
    )

    Links-right :
        (o : Option Tree)
        → key y < key n
        → Links n r o
        → Links n (node l y r) (elim o [ none ↦ none | some r' ↦ some (node l y r') ])
    Links-right none p (m, e) =
        (m, ground (arith, find_key-append key (key n) lo hi (inorder l) y (inorder r) c))
    Links-right (some r') p (e, f) = (
      ground (arith, find_key-append key (key n) lo hi (inorder l) y (inorder r) c),
      rw f (ground (arith, place-append key n lo hi (inorder l) y (inorder r) c)),
    )

    Links-here : key n ≡ key y → Links n (node l y r) none
    Links-here p =
        (y, ground (arith, find_key-append key (key n) lo hi (inorder l) y (inorder r) c))

  link-Links : (n lo hi : ℕ) (t : Tree) → Chain key lo hi (inorder t) → Links n t (link key n t)
  unfolding link
  link-Links n lo hi nil c = (refl, refl)
  link-Links n lo hi (node l y r) c =
      let parts = Chain-split key lo hi (inorder l) y (inorder r) c in
      let left = link-Links n lo (key y) l parts.0 in
      let right = link-Links n (suc (key y)) hi r parts.2 in
      elim (Bool-cases (ltb (key n) (key y))) [
        | inl p ↦ rw p (Links-left n lo hi y l r c (link key n l) (ltb→lt _ _ p) left)
        | inr p ↦ elim (Bool-cases (ltb (key y) (key n))) [
          | inl q ↦ rw (p, q) (Links-right n lo hi y l r c (link key n r) (ltb→lt _ _ q) right)
          | inr q ↦ rw (p, q) (Links-here n lo hi y l r c (ground arith))
        ]
      ]

  module _ (rb : RbLib) where
    add_Links :
        (n : ℕ) (t : Tree) (o : Option Tree)
        → Links n t o
        → find_key key (key n) (inorder t) ≡ none
        → inorder (elim o [ none ↦ t | some t' ↦ rb.insert_color t' ]) ≡ place key n (inorder t)
    add_Links n t none (m, e) h = cc
    add_Links n t (some t') (e, f) h = rb.insert_color_order t' ∙ f

    pub inorder-add_tree_new :
        (n hi : ℕ) (t : Tree)
        → Chain key 0 hi (inorder t)
        → find_key key (key n) (inorder t) ≡ none
        → inorder (add_tree key rb t n) ≡ place key n (inorder t)
    unfolding add_tree
    inorder-add_tree_new n hi t c h = add_Links n t (link key n t) (link-Links n 0 hi t c) h

    old_Links :
        (n m : ℕ) (t : Tree) (o : Option Tree)
        → Links n t o
        → find_key key (key n) (inorder t) ≡ some m
        → elim o [ none ↦ t | some t' ↦ rb.insert_color t' ] ≡ t
    old_Links n m t none l h = refl
    old_Links n m t (some t') (e, f) h = cc

    -- A key that is already in the tree leaves the tree as it was.
    pub add_tree_old :
        (n m hi : ℕ) (t : Tree)
        → Chain key 0 hi (inorder t)
        → find_key key (key n) (inorder t) ≡ some m
        → add_tree key rb t n ≡ t
    unfolding add_tree
    add_tree_old n m hi t c h = old_Links n m t (link key n t) (link-Links n 0 hi t c) h

    pub add_tree-Chain :
        (n hi : ℕ) (t : Tree)
        → key n < hi
        → Chain key 0 hi (inorder t)
        → Chain key 0 hi (inorder (add_tree key rb t n))
    add_tree-Chain n hi t p c = elim (Option-cases (find_key key (key n) (inorder t))) [
      | inl e ↦
          rw (inorder-add_tree_new n hi t c e)
            (place-Chain key n 0 hi (inorder t) (omega arith) p c e)
      | inr (m, e) ↦ rw (add_tree_old n m hi t c e) c
    ]

    pub del_tree-Chain :
        (n hi : ℕ) (t : Tree)
        → Chain key 0 hi (inorder t)
        → Chain key 0 hi (inorder (del_tree rb t n))
    unfolding del_tree
    del_tree-Chain n hi t c = rw (rb.erase_order n t) (remove-Chain key n 0 hi (inorder t) c)

    -- After an insertion the search gives every key that was there the node it had, and a key that
    -- was not there the new node; whatever the library's rebalancing does.
    pub search_tree-add_tree :
        (n k hi : ℕ) (t : Tree)
        → key n < hi
        → Chain key 0 hi (inorder t)
        → search_tree key (add_tree key rb t n) k ≡ (
            if key n == k
            then some (Option.get_or (search_tree key t k) n)
            else search_tree key t k)
    search_tree-add_tree n k hi t p c =
        rw
          (
            search_tree-find_key 0 hi (add_tree key rb t n) k (add_tree-Chain n hi t p c),
            search_tree-find_key 0 hi t k c,
          )
          (elim (Option-cases (find_key key (key n) (inorder t))) [
            | inl e ↦
                rw (inorder-add_tree_new n hi t c e, find_key-place key n k 0 hi (inorder t) c e)
                  (ground arith)
            | inr (m, e) ↦ rw (add_tree_old n m hi t c e) (ground arith)
          ])

    -- After a deletion the key of the node is gone and every other key is found as before.
    pub search_tree-del_tree :
        (n k hi : ℕ) (t : Tree)
        → Chain key 0 hi (inorder t)
        → search_tree key t (key n) ≡ some n
        → search_tree key (del_tree rb t n) k ≡ (if key n == k then none else search_tree key t k)
    search_tree-del_tree n k hi t c h =
        rw
          (
            search_tree-find_key 0 hi (del_tree rb t n) k (del_tree-Chain n hi t c),
            search_tree-find_key 0 hi t k c,
          )
          (unfold del_tree in
            rw (rb.erase_order n t) (
              find_key-remove key n k 0 hi (inorder t) c
                (sym (search_tree-find_key 0 hi t (key n) c) ∙ h)))
