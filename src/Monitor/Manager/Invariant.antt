-- ===== src/Monitor/Manager/Invariant.antt =====
-- The operations keep the manager's invariant.
use mathlib.Core.List.{
  Mem, Nodup, Perm, Nodup-cons, perm_middle, append-nil, Nodup-nil, mem-cons, not-mem-nil,
}
use mathlib.Core.List.Perm
use mathlib.Core.Logic.Or
use native.Mathlib.Bridge.{le_prop}
use native.Mathlib.Nat.{lt_irrefl}
use alcatraz.Prelude.{
  ℕ, zero, suc, ◌<◌, ◌^◌, ◌≡◌, sym, ◌∙◌, ap, ◌++◌, List, [], ◌∷◌, none, some, arith, Option-cases,
  List-cases, inl, inr, incr, subst,
}
use alcatraz.Monitor.Tree.{inorder, remove, RbLib, search_tree, del_tree}
use alcatraz.Monitor.Tree.Order.{find_key, place, find_key-cong, place-perm, remove-perm}
use alcatraz.Monitor.Tree.Laws.{
  search_tree-find_key, add_tree-Chain, del_tree-Chain, inorder-add_tree_new, add_tree_old,
}
use alcatraz.Monitor.Manager.{
  Manager, Task, key_of, push_nodes, reset_task_manager, add_task_to_task_manager, take_node,
  del_task_from_task_manager, error_task_overflow,
}
use alcatraz.Monitor.Manager.View.{
  Inv, add_eq, added, chain', head_split, key', same_key, key_new, del_found, del_missing,
}

-- The nodes in play: those free and those in the tree.
abbrev pub nodes : Manager → List ℕ
nodes m = m.free ++ inorder m.tree

pub add_full :
    (rb : RbLib) (m : Manager) (t : Task)
    → m.free ≡ []
    → add_task_to_task_manager rb m t
      ≡ (record m { count = incr m.count; errors = error_task_overflow ∷ m.errors }, none)
unfolding add_task_to_task_manager
add_full rb m t e = ap (take_node rb (record m { count = incr m.count }) t) e

-- A deleted node goes back to the free list.
pub nodes-deleted :
    (m : Manager) (v : Inv m) (rb : RbLib) (a n : ℕ)
    → search_tree (key_of m) m.tree a ≡ some n
    → Perm (n ∷ (m.free ++ inorder (del_tree rb m.tree n))) (nodes m)
unfolding del_tree
nodes-deleted m v rb a n f =
    let hit : find_key (key_of m) a (inorder m.tree) ≡ some n =
      sym (search_tree-find_key (key_of m) 0 (2 ^ 64) m.tree a v.ordered) ∙ f in
    let out : Perm (m.free ++ n ∷ remove n (inorder m.tree)) (nodes m) =
      Perm.append_left m.free (Perm.symm (remove-perm (key_of m) n a (inorder m.tree) hit)) in
    rw (rb.erase_order n m.tree)
      (Perm.trans (Perm.symm (perm_middle m.free (remove n (inorder m.tree)))) out)

module _ (rb : RbLib) (m : Manager) (t : Task) (v : Inv m) where
  module _ (n : ℕ) (free : List ℕ) (e : m.free ≡ n ∷ free) where
    pub new_key :
        search_tree (key_of m) m.tree t.addr ≡ none
        → find_key (key' m t n free v e) (key' m t n free v e n) (inorder m.tree) ≡ none
    new_key new =
        subst (λ a. find_key (key' m t n free v e) a (inorder m.tree) ≡ none)
          (sym (key_new m t n free v e))
          (sym (
              find_key-cong (key_of m) (key' m t n free v e) t.addr (inorder m.tree)
                (same_key m t n free v e))
            ∙ sym (search_tree-find_key (key_of m) 0 (2 ^ 64) m.tree t.addr v.ordered)
            ∙ new)

    -- The node has moved from the free list to its place in the tree.
    pub nodes-added :
        search_tree (key_of m) m.tree t.addr ≡ none
        → Perm (nodes (added m t n free v e rb)) (nodes m)
    nodes-added new =
        let placed : inorder (added m t n free v e rb).tree
            ≡ place (key' m t n free v e) n (inorder m.tree) =
          inorder-add_tree_new (key' m t n free v e) rb n (2 ^ 64) m.tree (chain' m t n free v e)
            (new_key new) in
        let moved : Perm (free ++ place (key' m t n free v e) n (inorder m.tree))
            (n ∷ (free ++ inorder m.tree)) =
          Perm.trans (Perm.append_left free (place-perm (key' m t n free v e) n (inorder m.tree)))
            (perm_middle free (inorder m.tree)) in
        rw e (subst (λ xs. Perm (free ++ xs) (n ∷ (free ++ inorder m.tree))) (sym placed) moved)

    pub nodes_known :
        (x : ℕ)
        → search_tree (key_of m) m.tree t.addr ≡ some x
        → (added m t n free v e rb).tree ≡ m.tree
    nodes_known x old =
        add_tree_old (key' m t n free v e) rb n x (2 ^ 64) m.tree (chain' m t n free v e) (
          subst (λ a. find_key (key' m t n free v e) a (inorder m.tree) ≡ some x)
            (sym (key_new m t n free v e))
            (sym (
                find_key-cong (key_of m) (key' m t n free v e) t.addr (inorder m.tree)
                  (same_key m t n free v e))
              ∙ sym (search_tree-find_key (key_of m) 0 (2 ^ 64) m.tree t.addr v.ordered)
              ∙ old))

    added-Inv : t.addr < 2 ^ 64 → Inv (added m t n free v e rb)
    added-Inv fits = record {
      ordered =
          add_tree-Chain (key' m t n free v e) rb n (2 ^ 64) m.tree
            (rw (key_new m t n free v e) fits) (chain' m t n free v e);
      distinct = elim (Option-cases (search_tree (key_of m) m.tree t.addr)) [
        | inl new ↦ Perm.nodup (Perm.symm (nodes-added new)) v.distinct
        | inr (x, old) ↦
            subst (λ u. Nodup (free ++ inorder u)) (sym (nodes_known x old))
              (head_split m t n free v e).1
      ];
    }

  -- Adding a task keeps the invariant: with a free node or without, for a new task or a known one.
  pub add_task-Inv : t.addr < 2 ^ 64 → Inv (add_task_to_task_manager rb m t).0
  add_task-Inv fits = elim (List-cases m.free) [
    | inl e ↦ rw (add_full rb m t e) (record { ordered = v.ordered; distinct = v.distinct })
    | inr (n, free, e) ↦ rw (add_eq m t n free v e rb) (added-Inv n free e fits)
  ]

module _ (rb : RbLib) (m : Manager) (v : Inv m) where
  -- A deletion keeps the invariant, whether the task is known or not.
  pub del_task-Inv : (a : ℕ) → Inv (del_task_from_task_manager rb m a).0
  del_task-Inv a = elim (Option-cases (search_tree (key_of m) m.tree a)) [
    | inl f ↦ rw (del_missing rb m a f) (record { ordered = v.ordered; distinct = v.distinct })
    | inr (n, f) ↦ rw (del_found rb m a n f) (record {
      ordered = del_tree-Chain (key_of m) rb n (2 ^ 64) m.tree v.ordered;
      distinct = Perm.nodup (Perm.symm (nodes-deleted m v rb a n f)) v.distinct;
    })
  ]

push_nodes-mem : (n x : ℕ) → Mem x (push_nodes n []) → x < n
unfolding push_nodes
push_nodes-mem zero x h = absurd (not-mem-nil h)
push_nodes-mem (suc n) x h =
    Or.elim le_prop (mem-cons.0 h) (λ e. omega arith) (λ k. omega (arith, push_nodes-mem n x k))

pub push_nodes-Nodup : (n : ℕ) → Nodup (push_nodes n [])
unfolding push_nodes
push_nodes-Nodup zero = Nodup-nil
push_nodes-Nodup (suc n) =
    Nodup-cons.1 (λ h. lt_irrefl n (push_nodes-mem n n h), push_nodes-Nodup n)

-- A reset makes every node of the pool free, whatever the state was before.
pub reset-Inv : (max : ℕ) (m : Manager) → Inv (reset_task_manager max m)
unfolding reset_task_manager
reset-Inv max m = record { ordered = omega arith; distinct = rw append-nil (push_nodes-Nodup max) }
