-- ===== src/Monitor/Tree.antt =====
-- The tree of known tasks: `hb_add_tree`, `hb_search_tree` and `hb_del_tree` of
-- Source/hyper_box/monitor.c. A tree holds indices into the pool of nodes; the key of a node
-- (`hb_common_node.key`, which lies over the node's `task` pointer) is read through `key`.
pub mod Order
pub mod Laws
use alcatraz.Prelude.{ℕ, ◌≡◌, ◌++◌, List, [], ◌∷◌, Option, none, some, ltb, ◌==◌, if◌then◌else◌}

pub data Tree : Type 0 where
  nil : Tree
  node : Tree → ℕ → Tree → Tree

-- The nodes from left to right, as `rb_first` and `rb_next` visit them.
abbrev pub inorder : Tree → List ℕ
inorder nil = []
inorder (node l n r) = inorder l ++ n ∷ inorder r

-- The first occurrence of `n` is taken out.
abbrev pub remove : ℕ → List ℕ → List ℕ
remove n [] = []
remove n (x ∷ xs) = if x == n then xs else x ∷ remove n xs

-- The kernel's red-black trees rebalance on insertion and on deletion. They keep the order of the
-- nodes, which is all that the code relies on.
pub record RbLib : Type 0 where
  pub insert_color : Tree → Tree
  pub insert_color_order : (t : Tree) → inorder (insert_color t) ≡ inorder t
  pub erase : ℕ → Tree → Tree
  pub erase_order : (n : ℕ) (t : Tree) → inorder (erase n t) ≡ remove n (inorder t)

module _ (key : ℕ → ℕ) where
  -- The descent of `hb_add_tree` and `rb_link_node`: `none` where the key is already there.
  pub link : ℕ → Tree → Option Tree
  link n nil = some (node nil n nil)
  link n (node l c r) =
      let left = link n l in
      let right = link n r in
      if ltb (key n) (key c)
      then elim left [ none ↦ none | some l' ↦ some (node l' c r) ]
      else if ltb (key c) (key n)
      then elim right [ none ↦ none | some r' ↦ some (node l c r') ]
      else none

  unfoldable pub add_tree : RbLib → Tree → ℕ → Tree
  add_tree rb root n = elim (link n root) [ none ↦ root | some t ↦ rb.insert_color t ]

  unfoldable pub search_tree : Tree → ℕ → Option ℕ
  search_tree nil k = none
  search_tree (node l c r) k =
      let left = search_tree l k in
      let right = search_tree r k in
      if ltb k (key c) then left else if ltb (key c) k then right else some c

unfoldable pub del_tree : RbLib → Tree → ℕ → Tree
del_tree rb root n = rb.erase n root
