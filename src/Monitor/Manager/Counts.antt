-- ===== src/Monitor/Manager/Counts.antt =====
-- How many nodes are in play, and the start of the monitor on the kernel's task list.
use alcatraz.Prelude.{
  ℕ, zero, suc, ◌+◌, ◌≤◌, ◌<◌, ◌^◌, ◌≡◌, refl, sym, ◌∙◌, ap, List, [], ◌∷◌, Option, none, some,
  arith, Option-cases, List-cases, inl, inr, ==_iff, ◌==◌, if◌then◌else◌, false, Bool-cases, pos,
  ◌≢◌, length, length-append, map-eq-none,
}
use alcatraz.Monitor.Tree.{inorder, RbLib, search_tree}
use alcatraz.Monitor.Tree.Order.{length-place}
use alcatraz.Monitor.Tree.Laws.{inorder-add_tree_new}
use alcatraz.Monitor.Manager.{
  Manager, Task, TaskNode, key_of, new_node, push_nodes, reset_task_manager,
  add_task_to_task_manager, copy_task_list_to_task_manager, init_monitor,
}
use alcatraz.Monitor.Manager.View.{Inv, tracked, add_eq, added, chain', key', tracked-add_task}
use alcatraz.Monitor.Manager.Invariant.{nodes, new_key, nodes_known, add_task-Inv, reset-Inv}

module _ (rb : RbLib) (m : Manager) (t : Task) (v : Inv m) where
  tree_count_new :
      (n : ℕ) (free : List ℕ) (e : m.free ≡ n ∷ free)
      → search_tree (key_of m) m.tree t.addr ≡ none
      → length (inorder (added m t n free v e rb).tree) ≡ suc (length (inorder m.tree))
  tree_count_new n free e new =
      ap length (
        inorder-add_tree_new (key' m t n free v e) rb n (2 ^ 64) m.tree (chain' m t n free v e)
          (new_key rb m t v n free e new))
      ∙ length-place (key' m t n free v e) n (inorder m.tree)

  -- With a free node, adding a new task keeps the number of nodes in play, while adding a task
  -- whose pointer is already known loses a node: it is neither free nor in the tree afterwards.
  pub length-nodes-add_task :
      m.free ≢ []
      → length (nodes m)
        ≡ length (nodes (add_task_to_task_manager rb m t).0)
          + elim (tracked m t.addr) [ none ↦ 0 | some known ↦ 1 ]
  length-nodes-add_task room = elim (List-cases m.free) [
    | inl e ↦ absurd (room e)
    | inr (n, free, e) ↦ elim (Option-cases (search_tree (key_of m) m.tree t.addr)) [
      | inl new ↦
          rw (add_eq m t n free v e rb, new)
            (omega (
              arith,
              length-append m.free (inorder m.tree),
              length-append free (inorder (added m t n free v e rb).tree),
              ap length e,
              tree_count_new n free e new,
            ))
      | inr (x, old) ↦
          rw (add_eq m t n free v e rb, old)
            (omega (
              arith,
              length-append m.free (inorder m.tree),
              length-append free (inorder (added m t n free v e rb).tree),
              ap length e,
              ap (λ u. length (inorder u)) (nodes_known rb m t v n free e x old),
            ))
    ]
  ]

-- `g_task_count` is the number of tasks in the tree.
abbrev pub IsCounted : Manager → Type 0
IsCounted m = m.count ≡ pos (length (inorder m.tree))

-- It stays so when a new task finds a free node and when a known task is deleted.
pub add_task-IsCounted :
    (rb : RbLib) (m : Manager) (t : Task)
    → Inv m
    → m.free ≢ []
    → tracked m t.addr ≡ none
    → IsCounted m
    → IsCounted (add_task_to_task_manager rb m t).0
add_task-IsCounted rb m t v room new counted = elim (List-cases m.free) [
  | inl e ↦ absurd (room e)
  | inr (n, free, e) ↦
      rw
        (
          add_eq m t n free v e rb,
          tree_count_new rb m t v n free e (map-eq-none m.pool _ new),
          counted,
        )
        refl
]

-- A task list whose pointers are all different, in the range of a pointer and unknown to `m`.
abbrev pub Differs : ℕ → List Task → Type 0
Differs a [] = Unit {0}
Differs a (t ∷ ts) = ((a == t.addr) ≡ false) × Differs a ts

abbrev pub IsTaskList : List Task → Type 0
IsTaskList [] = Unit {0}
IsTaskList (t ∷ ts) = (t.addr < 2 ^ 64) × Differs t.addr ts × IsTaskList ts

abbrev Unknown : Manager → List Task → Type 0
Unknown m [] = Unit {0}
Unknown m (t ∷ ts) = (tracked m t.addr ≡ none) × Unknown m ts

-- What the kernel's list says of a pointer.
abbrev pub listed : ℕ → List Task → Option TaskNode
listed k [] = none
listed k (t ∷ ts) = if t.addr == k then some (new_node t) else listed k ts

abbrev pub or_else {ℓ} : {A : Type ℓ} → Option A → Option A → Option A
or_else none d = d
or_else (some x) d = some x

Differs-listed : (a : ℕ) (ts : List Task) → Differs a ts → listed a ts ≡ none
Differs-listed a [] d = refl
Differs-listed a (t ∷ ts) d = ground (arith, Differs-listed a ts d.1)

or_else-none {ℓ} : {A : Type ℓ} (o : Option A) → or_else o none ≡ o
or_else-none none = refl
or_else-none (some x) = refl

length-push_nodes : (n : ℕ) → length (push_nodes n []) ≡ n
unfolding push_nodes
length-push_nodes zero = refl
length-push_nodes (suc n) = ap suc (length-push_nodes n)

free-reset : (max : ℕ) (m : Manager) → length (reset_task_manager max m).free ≡ max
unfolding reset_task_manager
free-reset max m = length-push_nodes max

tracked-reset : (max : ℕ) (m : Manager) (k : ℕ) → tracked (reset_task_manager max m) k ≡ none
unfolding reset_task_manager search_tree
tracked-reset max m k = refl

module _ (rb : RbLib) where
  free-add_task :
      (m : Manager) (t : Task) (n : ℕ) (free : List ℕ)
      → Inv m
      → m.free ≡ n ∷ free
      → (add_task_to_task_manager rb m t).0.free ≡ free
  free-add_task m t n free v e = rw (add_eq m t n free v e rb)

  Unknown-add_task :
      (m : Manager) (t : Task) (ts : List Task)
      → Inv m
      → t.addr < 2 ^ 64
      → m.free ≢ []
      → tracked m t.addr ≡ none
      → Differs t.addr ts
      → Unknown m ts
      → Unknown (add_task_to_task_manager rb m t).0 ts
  Unknown-add_task m t [] v fits room new d u = tt
  Unknown-add_task m t (s ∷ ts) v fits room new d u = (
    tracked-add_task rb m t s.addr v fits room new ∙ rw d.0 u.0,
    Unknown-add_task m t ts v fits room new d.1 u.1,
  )

  copy_step :
      (m : Manager) (t : Task) (ts : List Task) (n : ℕ) (free : List ℕ)
      → Inv m
      → m.free ≡ n ∷ free
      → copy_task_list_to_task_manager rb (t ∷ ts) m
        ≡ copy_task_list_to_task_manager rb ts (add_task_to_task_manager rb m t).0
  unfolding copy_task_list_to_task_manager
  copy_step m t ts n free v e =
      ap after (add_eq m t n free v e rb)
      ∙ sym (ap (λ r. copy_task_list_to_task_manager rb ts r.0) (add_eq m t n free v e rb))
    where
      after : Manager × Option ℕ → Manager
      after r = elim r.1 [ none ↦ r.0 | some x ↦ copy_task_list_to_task_manager rb ts r.0 ]

  -- With enough free nodes the copy enters every task of the list.
  tracked-copy :
      (m : Manager) (ts : List Task) (k : ℕ)
      → Inv m
      → length ts ≤ length m.free
      → IsTaskList ts
      → Unknown m ts
      → tracked (copy_task_list_to_task_manager rb ts m) k ≡ or_else (listed k ts) (tracked m k)
  unfolding copy_task_list_to_task_manager
  tracked-copy m [] k v h l u = refl
  tracked-copy m (t ∷ ts) k v h l u = elim (List-cases m.free) [
    | inl e ↦ absurd (omega (arith, ap length e))
    | inr (n, free, e) ↦
        let room : m.free ≢ [] = λ z. cc in
        rw (copy_step m t ts n free v e) (
          tracked-copy (add_task_to_task_manager rb m t).0 ts k (add_task-Inv rb m t v l.0)
            (omega (arith, ap length e, ap length (free-add_task m t n free v e))) l.2
            (Unknown-add_task m t ts v l.0 room u.0 l.1 u.1)
          ∙ rw (tracked-add_task rb m t k v l.0 room u.0) (elim (Bool-cases (t.addr == k)) [
            | inl p ↦ rw (p, ← (==_iff t.addr k).0 p, Differs-listed t.addr ts l.1)
            | inr p ↦ rw p
          ]))
  ]

  Unknown-empty : (m : Manager) (ts : List Task) → ((k : ℕ) → tracked m k ≡ none) → Unknown m ts
  Unknown-empty m [] h = tt
  Unknown-empty m (t ∷ ts) h = (h t.addr, Unknown-empty m ts h)

  -- A restart of the monitor on a task list that fits the pool: afterwards it knows exactly the
  -- listed tasks, each with the kernel's data, whatever it knew before.
  pub tracked-init_monitor :
      (max : ℕ) (ts : List Task) (m : Manager) (k : ℕ)
      → length ts ≤ max
      → IsTaskList ts
      → tracked (init_monitor rb max 1 ts m) k ≡ listed k ts
  unfolding init_monitor
  tracked-init_monitor max ts m k h l =
      tracked-copy (reset_task_manager max m) ts k (reset-Inv max m) (rw (free-reset max m) h) l
        (Unknown-empty (reset_task_manager max m) ts (tracked-reset max m))
      ∙ rw (tracked-reset max m k) (or_else-none (listed k ts))
