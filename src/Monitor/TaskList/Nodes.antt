-- ===== src/Monitor/TaskList/Nodes.antt =====
-- The nodes that the loop over the tree of tasks visits.
use mathlib.Core.List.{Mem, mem-cons, mem-cons_self, mem-cons_of_mem, not-mem-nil}
use mathlib.Core.Logic.Or
use alcatraz.Prelude.{
  ℕ, ◌≡◌, refl, ap, List, [], ◌∷◌, none, some, arith, ◌==◌, true, false, inl, inr, Bool-cases,
}
use alcatraz.Monitor.Tree.Order.{find_key}
use alcatraz.Monitor.Manager.{Task, TaskNode}
use alcatraz.Monitor.TaskList.{is_in_task_list, first_hidden, nodes_from}

-- A listed node's key leads to some node.
pub find_key-some :
    (key : ℕ → ℕ) (n : ℕ) (xs : List ℕ) → Mem n xs → (x : ℕ) × (find_key key (key n) xs ≡ some x)
find_key-some key n [] h = absurd (not-mem-nil h)
find_key-some key n (x ∷ xs) h = elim (Bool-cases (key x == key n)) [
  | inl p ↦ (x, rw p refl)
  | inr p ↦
      let other : (n ≡ x) → ⊥ = λ e. absurd (ground (arith, e, ap key e, p)) in
      rw p
        (find_key-some key n xs (Or.elim (hlevel) (mem-cons.0 h) (λ e. absurd (other e)) (λ k. k)))
]

pub nodes_from-mem : (n y : ℕ) (xs : List ℕ) → Mem y (nodes_from n xs) → Mem y xs
nodes_from-mem n y [] h = h
nodes_from-mem n y (x ∷ xs) h = elim (Bool-cases (x == n)) [
  | inl p ↦ rw p at h
  | inr p ↦ mem-cons_of_mem x (nodes_from-mem n y xs (rw p at h))
]

module _ (ts : List Task) (pool : ℕ → TaskNode) where
  pub first_hidden-hidden :
      (ns : List ℕ) (n : ℕ)
      → first_hidden ts pool ns ≡ some n
      → (is_in_task_list ts (pool n).task ≡ false) × Mem n ns
  unfolding first_hidden
  first_hidden-hidden [] n e = cc
  first_hidden-hidden (x ∷ ns) n e = elim (Bool-cases (is_in_task_list ts (pool x).task)) [
    | inl p ↦ let r = first_hidden-hidden ns n (rw p at e) in (r.0, mem-cons_of_mem x r.1)
    | inr p ↦ let here : x ≡ n = ground (arith, e, p) in rw (← here) (p, mem-cons_self)
  ]

  pub first_hidden-none :
      (ns : List ℕ) (n : ℕ)
      → Mem n ns
      → first_hidden ts pool ns ≡ none
      → is_in_task_list ts (pool n).task ≡ true
  unfolding first_hidden
  first_hidden-none [] n h e = absurd (not-mem-nil h)
  first_hidden-none (x ∷ ns) n h e = elim (Bool-cases (is_in_task_list ts (pool x).task)) [
    | inl p ↦
        Or.elim (hlevel) (mem-cons.0 h) (λ q. rw q p) (λ k. first_hidden-none ns n k (rw p at e))
    | inr p ↦ ground (arith, e, p)
  ]
