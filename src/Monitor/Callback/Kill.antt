-- ===== src/Monitor/Callback/Kill.antt =====
-- The exit flag: which nodes `hb_set_exit_flag_in_list_with_lock` marks.
use mathlib.Core.Option
use mathlib.Core.List.{Mem, mem-cons, not-mem-nil}
use mathlib.Core.Logic.Or
use alcatraz.Prelude.{
  ℕ, ◌^◌, ◌≡◌, refl, sym, ap, ◌∙◌, fun_ext, List, [], ◌∷◌, some, ◌==◌, ==_iff, ==_self,
  if◌then◌else◌, Bool, true, false, ◌||◌, arith, Option-cases, inl, inr, Bool-cases,
}
use alcatraz.Monitor.Tree.{inorder, search_tree}
use alcatraz.Monitor.Tree.Laws.{search_tree-find_key}
use alcatraz.Monitor.Tree.Order.{find_key_mem}
use alcatraz.Monitor.Manager.{
  Manager, TaskNode, key_of, put_node, mark_exit, set_exit_flag_in_list_with_lock,
}
use alcatraz.Monitor.Manager.View.{Inv, tracked}

abbrev pub elem : ℕ → List ℕ → Bool
elem i [] = false
elem i (x ∷ xs) = x == i || elem i xs

-- A node of the group `tgid` gets its flag; any other node stays.
abbrev pub marked : ℕ → TaskNode → TaskNode
marked tgid n = if n.tgid == tgid then record n { need_exit = 1 } else n

mark_one_at :
    (tgid x : ℕ) (pool : ℕ → TaskNode) (i : ℕ)
    → (if (pool x).tgid == tgid then put_node pool x (record (pool x) { need_exit = 1 }) else pool)
        i
      ≡ (if x == i then marked tgid (pool i) else pool i)
mark_one_at tgid x pool i = elim (Bool-cases (x == i)) [
  | inl p ↦ rw ((==_iff x i).0 p) (ground (arith, ==_self i))
  | inr p ↦ ground arith
]

marked_twice :
    (b c : Bool) (tgid : ℕ) (n : TaskNode)
    → (if c then marked tgid (if b then marked tgid n else n) else if b then marked tgid n else n)
      ≡ (if b || c then marked tgid n else n)
marked_twice true true tgid n = ground arith
marked_twice true false tgid n = refl
marked_twice false c tgid n = refl

pub mark_exit_at :
    (tgid : ℕ) (xs : List ℕ) (pool : ℕ → TaskNode) (i : ℕ)
    → mark_exit tgid xs pool i ≡ (if elem i xs then marked tgid (pool i) else pool i)
unfolding mark_exit
mark_exit_at tgid [] pool i = refl
mark_exit_at tgid (x ∷ xs) pool i =
    mark_exit_at tgid xs _ i
    ∙ ap (λ n. if elem i xs then marked tgid n else n) (mark_one_at tgid x pool i)
    ∙ marked_twice (x == i) (elem i xs) tgid (pool i)

elem-mem : (i : ℕ) (xs : List ℕ) → Mem i xs → elem i xs ≡ true
elem-mem i [] m = absurd (not-mem-nil m)
elem-mem i (x ∷ xs) m =
    Or.elim (hlevel) (mem-cons.0 m) (λ e. rw (e, ==_self x)) (λ k. ground (arith, elem-mem i xs k))

marked_task : (tgid : ℕ) (n : TaskNode) → (marked tgid n).task ≡ n.task
marked_task tgid n = ground arith

mark_exit_task :
    (tgid : ℕ) (xs : List ℕ) (pool : ℕ → TaskNode) (i : ℕ)
    → (mark_exit tgid xs pool i).task ≡ (pool i).task
mark_exit_task tgid xs pool i =
    ap (λ n. n.task) (mark_exit_at tgid xs pool i) ∙ ground (arith, marked_task tgid (pool i))

module _ (m : Manager) (tgid k : ℕ) where
  -- Marking changes no key.
  pub find_node-set_exit :
      search_tree
        (key_of (set_exit_flag_in_list_with_lock m tgid))
        (set_exit_flag_in_list_with_lock m tgid).tree
        k
      ≡ search_tree (key_of m) m.tree k
  unfolding set_exit_flag_in_list_with_lock
  find_node-set_exit =
      ap (λ (key : ℕ → ℕ). search_tree key m.tree k)
        (fun_ext λ i. mark_exit_task tgid (inorder m.tree) m.pool i)

  pub found_in_tree :
      (n : ℕ) → Inv m → search_tree (key_of m) m.tree k ≡ some n → Mem n (inorder m.tree)
  found_in_tree n v e =
      find_key_mem (key_of m) n k (inorder m.tree)
        (sym (search_tree-find_key (key_of m) 0 (2 ^ 64) m.tree k v.ordered) ∙ e)

  pub pool-set_exit :
      (n : ℕ)
      → Inv m
      → search_tree (key_of m) m.tree k ≡ some n
      → (set_exit_flag_in_list_with_lock m tgid).pool n ≡ marked tgid (m.pool n)
  unfolding set_exit_flag_in_list_with_lock
  pool-set_exit n v e =
      mark_exit_at tgid (inorder m.tree) m.pool n
      ∙ rw (elem-mem n (inorder m.tree) (found_in_tree n v e))

  -- Setting the exit flag of a group marks every tracked task of it, and changes no other entry.
  pub tracked-set_exit :
      Inv m
      → tracked (set_exit_flag_in_list_with_lock m tgid) k ≡ Option.map (marked tgid) (tracked m k)
  tracked-set_exit v =
      ap (Option.map (set_exit_flag_in_list_with_lock m tgid).pool) find_node-set_exit
      ∙ elim (Option-cases (search_tree (key_of m) m.tree k)) [
        | inl e ↦ rw e
        | inr (n, e) ↦ rw e (ap some (pool-set_exit n v e))
      ]
