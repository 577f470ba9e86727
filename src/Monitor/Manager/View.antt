-- ===== src/Monitor/Manager/View.antt =====
-- The manager seen as a finite map from task pointers to nodes, and what each operation does to it.
use mathlib.Core.Option
use mathlib.Core.List.{Mem, Nodup, mem-append_right, Nodup-cons}
use alcatraz.Prelude.{
  ℕ, ◌^◌, ◌<◌, ◌≡◌, sym, ◌∙◌, ap, ◌++◌, List, [], ◌∷◌, Option, none, some, arith, ◌==◌,
  if◌then◌else◌, Option-cases, List-cases, map-eq-none, inl, inr, incr, decr, pos, minus_one, ◌≢◌,
  Bool-cases, ==_iff, false,
}
use alcatraz.Monitor.Tree.{inorder, RbLib, add_tree, search_tree, del_tree}
use alcatraz.Monitor.Tree.Order.{Chain, Chain-cong, find_key-cong, find_key_mem, find_key_hit}
use alcatraz.Monitor.Tree.Laws.{search_tree-find_key, search_tree-add_tree, search_tree-del_tree}
use alcatraz.Monitor.Manager.{
  Manager, Task, TaskNode, key_of, put_node, new_node, take_node, add_task_to_task_manager,
  del_task_from_task_manager,
}

-- The tree is ordered by the task pointers, and no node is free and in use, or either twice.
pub record Inv (m : Manager) : Type 0 where
  pub ordered : Chain (key_of m) 0 (2 ^ 64) (inorder m.tree)
  pub distinct : Nodup (m.free ++ inorder m.tree)

-- The node that the manager has for a task pointer.
abbrev pub tracked : Manager → ℕ → Option TaskNode
tracked m k = Option.map m.pool (search_tree (key_of m) m.tree k)

-- The node at the head of the free list is not in the tree, so that the write to it changes no key.
module _ (m : Manager) (t : Task) (n : ℕ) (free : List ℕ) (v : Inv m) (e : m.free ≡ n ∷ free) where
  pub head_split : (¬ Mem n (free ++ inorder m.tree)) × Nodup (free ++ inorder m.tree)
  head_split = Nodup-cons.0 (rw e at v.distinct)

  unused : (x : ℕ) → Mem x (inorder m.tree) → (n == x) ≡ false
  unused x h = elim (Bool-cases (n == x)) [
    | inl p ↦ absurd (head_split.0 (rw ((==_iff n x).0 p) (mem-append_right free h)))
    | inr p ↦ p
  ]

  abbrev pub written : ℕ → TaskNode
  written = put_node m.pool n (new_node t)

  abbrev pub key' : ℕ → ℕ
  key' i = (written i).task

  pub same_key : (x : ℕ) → Mem x (inorder m.tree) → key_of m x ≡ key' x
  same_key x h = ground (arith, unused x h)

  pub key_new : key' n ≡ t.addr
  key_new = ground arith

  pub chain' : Chain key' 0 (2 ^ 64) (inorder m.tree)
  chain' = Chain-cong (key_of m) key' 0 (2 ^ 64) (inorder m.tree) same_key v.ordered

  search_same : (k : ℕ) → search_tree key' m.tree k ≡ search_tree (key_of m) m.tree k
  search_same k =
      rw
        (
          search_tree-find_key key' 0 (2 ^ 64) m.tree k chain',
          search_tree-find_key (key_of m) 0 (2 ^ 64) m.tree k v.ordered,
        )
        (sym (find_key-cong (key_of m) key' k (inorder m.tree) same_key))

  found_mem : (k x : ℕ) → search_tree (key_of m) m.tree k ≡ some x → Mem x (inorder m.tree)
  found_mem k x f =
      find_key_mem (key_of m) x k (inorder m.tree)
        (sym (search_tree-find_key (key_of m) 0 (2 ^ 64) m.tree k v.ordered) ∙ f)

  -- The write is to none of the nodes in the tree.
  map_same :
      (k : ℕ)
      → Option.map written (search_tree (key_of m) m.tree k)
        ≡ Option.map m.pool (search_tree (key_of m) m.tree k)
  map_same k = elim (Option-cases (search_tree (key_of m) m.tree k)) [
    | inl f ↦ rw f
    | inr (x, f) ↦ rw f (ground (arith, unused x (found_mem k x f)))
  ]

  module _ (rb : RbLib) where
    abbrev pub added : Manager
    added = record m {
      pool = written;
      free = free;
      tree = add_tree key' rb m.tree n;
      count = incr m.count;
    }

    pub add_eq : add_task_to_task_manager rb m t ≡ (added, some n)
    unfolding add_task_to_task_manager
    add_eq = ap (take_node rb (record m { count = incr m.count }) t) e

    tracked-added :
        (k : ℕ)
        → t.addr < 2 ^ 64
        → search_tree (key_of m) m.tree t.addr ≡ none
        → tracked added k ≡ (if t.addr == k then some (new_node t) else tracked m k)
    tracked-added k fits new =
        rw
          (
            search_tree-add_tree key' rb n k (2 ^ 64) m.tree (rw key_new fits) chain',
            key_new,
            search_same k,
          )
          (elim (Bool-cases (t.addr == k)) [
            | inl p ↦ rw (p, ← (==_iff t.addr k).0 p, new) (ground arith)
            | inr p ↦ rw p (map_same k)
          ])

-- A task that is not known yet and finds a free node is entered with the kernel's data: its address,
-- identifiers, name, credentials, seccomp mode and memory, with -1 for its system call, unmarked and
-- not traced. No other entry changes.
pub tracked-add_task :
    (rb : RbLib) (m : Manager) (t : Task) (k : ℕ)
    → Inv m
    → t.addr < 2 ^ 64
    → m.free ≢ []
    → tracked m t.addr ≡ none
    → tracked (add_task_to_task_manager rb m t).0 k ≡ (
        if t.addr == k
        then some (record {
          task = t.addr;
          pid = t.pid;
          tgid = t.tgid;
          comm = t.comm;
          cred = t.cred;
          syscall_number = minus_one;
          need_exit = 0;
          need_trace = 0;
          seccomp_mode = t.seccomp_mode;
          mm = t.mm;
        })
        else tracked m k)
tracked-add_task rb m t k v fits room new = elim (List-cases m.free) [
  | inl e ↦ absurd (room e)
  | inr (n, free, e) ↦
      rw (add_eq m t n free v e rb)
        (tracked-added m t n free v e rb k fits (map-eq-none m.pool _ new))
]

pub del_found :
    (rb : RbLib) (m : Manager) (a n : ℕ)
    → search_tree (key_of m) m.tree a ≡ some n
    → del_task_from_task_manager rb m a
      ≡ (record m { count = decr m.count; tree = del_tree rb m.tree n; free = n ∷ m.free }, pos 0)
unfolding del_task_from_task_manager
del_found rb m a n f = rw (f, del_task_from_task_manager)

pub del_missing :
    (rb : RbLib) (m : Manager) (a : ℕ)
    → search_tree (key_of m) m.tree a ≡ none
    → del_task_from_task_manager rb m a ≡ (record m { count = decr m.count }, minus_one)
unfolding del_task_from_task_manager
del_missing rb m a f = rw (f, del_task_from_task_manager)

module _ (m : Manager) (v : Inv m) where
  pub found_key : (a n : ℕ) → search_tree (key_of m) m.tree a ≡ some n → key_of m n ≡ a
  found_key a n f =
      find_key_hit (key_of m) a (inorder m.tree) n
        (sym (search_tree-find_key (key_of m) 0 (2 ^ 64) m.tree a v.ordered) ∙ f)

  -- A deletion takes the task's own entry out and no other, and answers 0 exactly when there was
  -- one; it does so whatever the library's tree operations do to the shape of the tree.
  pub tracked-del_task :
      (rb : RbLib) (a k : ℕ)
      → (tracked (del_task_from_task_manager rb m a).0 k ≡ (if a == k then none else tracked m k))
        × ((del_task_from_task_manager rb m a).1
            ≡ elim (tracked m a) [ none ↦ minus_one | some node ↦ pos 0 ])
  tracked-del_task rb a k = elim (Option-cases (search_tree (key_of m) m.tree a)) [
    | inl f ↦
        rw (del_missing rb m a f) (
          elim (Bool-cases (a == k)) [ inl p ↦ rw (p, ← (==_iff a k).0 p, f) | inr p ↦ rw p ],
          rw f,
        )
    | inr (n, f) ↦ rw (del_found rb m a n f) (
      rw
          (
            search_tree-del_tree (key_of m) rb n k (2 ^ 64) m.tree v.ordered
                (rw (found_key a n f) f),
            found_key a n f,
          )
          (ground arith),
      rw f,
    )
  ]
