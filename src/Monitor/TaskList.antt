-- ===== src/Monitor/TaskList.antt =====
-- The search for tasks that are hidden from the kernel's list: `hb_check_task_list`,
-- `hb_get_task_count`, `hb_is_in_task_list`, `hb_check_task_periodic`, `hb_callback_task_switch` and
-- `hb_callback_vm_timer` of Source/hyper_box/monitor.c. Locks are not modelled but for those that
-- the code tries, whose result is an argument.
pub mod Nodes
pub mod Laws
use alcatraz.Prelude.{
  ℕ, zero, suc, ◌+◌, ◌-◌, List, [], ◌∷◌, Option, none, some, Bool, true, false, ◌||◌, not, ◌==◌,
  leb, if◌then◌else◌, ℤ, pos, minus_one, ltz, length,
}
use alcatraz.Memory.RoArea.{RoAddr}
use alcatraz.Monitor.Tree.{Tree, RbLib, inorder}
use alcatraz.Monitor.Manager.{Manager, Task, TaskNode, key_of, del_task_from_task_manager}
use alcatraz.Monitor.Callback.{Monitor}
use alcatraz.Monitor.Integrity.Pointers.{Config}
use alcatraz.Monitor.Integrity.{
  Objects, Periodic, check_timer_expired_and_update, check_function_pointers_periodic,
}

-- What the timer of a processor works on.
pub record Timed : Type 0 where
  pub monitor : Monitor
  pub last_task_check_jiffies : ℕ
  pub periodic : Periodic

-- The loop over the kernel's processes and threads; `max` is TASK_NODE_MAX.
unfoldable pub count_tasks : ℕ → List Task → ℕ → ℕ
count_tasks max [] count = count
count_tasks max (t ∷ ts) count =
    let rest = count_tasks max ts (count + 1) in
    if leb (max - 1) (count + 1) then count + 1 else rest

unfoldable pub get_task_count : ℕ → List Task → ℕ
get_task_count max ts = count_tasks max ts 0

-- The code also compares the identifiers of `task` with those of the same structure in the list.
unfoldable pub is_in_task_list : List Task → ℕ → Bool
is_in_task_list [] task = false
is_in_task_list (t ∷ ts) task = t.addr == task || is_in_task_list ts task

-- `rb_next` as long as the tree is not changed: the first node whose task is hidden.
unfoldable pub first_hidden : List Task → (ℕ → TaskNode) → List ℕ → Option ℕ
first_hidden ts pool [] = none
first_hidden ts pool (n ∷ ns) =
    let rest = first_hidden ts pool ns in if is_in_task_list ts (pool n).task then rest else some n

-- The nodes from `n` on, in the order of `rb_next`.
abbrev pub nodes_from : ℕ → List ℕ → List ℕ
nodes_from n [] = []
nodes_from n (x ∷ xs) = if x == n then x ∷ xs else nodes_from n xs

abbrev pub error_kernel_modification : ℕ
error_kernel_modification = 4

abbrev pub log_modification : Monitor → Monitor
log_modification s = record s {
  manager = record s.manager { errors = error_kernel_modification ∷ s.manager.errors };
}

-- `next_erased` is what `rb_next` gives for a node that has just been erased from the tree: some node
-- of the tree, which the shape of the tree decides, or none.
module _ (rb : RbLib) (next_erased : Tree → ℕ → Option ℕ) (ts : List Task) where
  -- SIGKILL, and the deletion.
  unfoldable pub drop_hidden : Monitor → ℕ → Monitor
  drop_hidden s n =
      let task = key_of s.manager n in
      record {
        manager = (del_task_from_task_manager rb s.manager task).0;
        killed = task ∷ s.killed;
      }

  unfoldable pub nodes_after : Monitor → ℕ → List ℕ
  nodes_after s n = elim (next_erased s.manager.tree n) [
    | none ↦ []
    | some x ↦ nodes_from x (inorder s.manager.tree)
  ]

  -- The loop, on fuel: at most so many tasks are dropped. `none` means that the fuel is used up.
  unfoldable pub drop_hidden_tasks : ℕ → Monitor → List ℕ → Option Monitor
  drop_hidden_tasks zero s ns = none
  drop_hidden_tasks (suc fuel) s ns = elim (first_hidden ts s.manager.pool ns) [
    | none ↦ some s
    | some n ↦ drop_hidden_tasks fuel (drop_hidden s n) (nodes_after (drop_hidden s n) n)
  ]

  -- The fuel is one more than the number of nodes in the tree.
  unfoldable pub check_task_list : ℕ → Monitor → Option (Monitor × ℤ)
  check_task_list max s =
      if ltz (pos (get_task_count max ts)) s.manager.count
      then elim (drop_hidden_tasks (suc (length (inorder s.manager.tree))) s
          (inorder s.manager.tree)) [
            | none ↦ none
            | some s' ↦ some (log_modification s', minus_one)
          ]
      else some (s, pos 0)

  unfoldable pub callback_task_switch : ℕ → Monitor → Option Monitor
  callback_task_switch max s = elim (check_task_list max s) [
    | none ↦ none
    | some (s', result) ↦ some s'
  ]

  -- `g_tasklist_lock` is taken or not; if not, the next timer tries again.
  unfoldable pub check_task_periodic :
      Config → (ℕ → ℕ) → ℕ → Bool → Bool → ℕ → Monitor → ℕ → Option (Monitor × ℕ)
  check_task_periodic c usecs max time_lock tasklist_lock jiffies s last_task_check_jiffies =
      let (expired, last) =
        check_timer_expired_and_update c usecs time_lock jiffies last_task_check_jiffies in
      if not expired
      then some (s, last)
      else if tasklist_lock
      then elim (check_task_list max s) [ none ↦ none | some (s', result) ↦ some (s', last) ]
      else some (s, 0)

  -- The task list, then the function pointers, once the hypervisor is hidden.
  unfoldable pub callback_vm_timer :
      Config
      → (ℕ → ℕ)
      → ℕ
      → List RoAddr
      → Objects
      → (task_lock dkom_lock tasklist_lock : Bool) → (jiffies need_init : ℕ) → Timed
      → Option Timed
  callback_vm_timer c usecs max ro o task_lock dkom_lock tasklist_lock jiffies need_init s =
      let checked =
        check_task_periodic c usecs max task_lock tasklist_lock jiffies s.monitor
          s.last_task_check_jiffies in
      if need_init == 0
      then elim checked [
        | none ↦ none
        | some (m, last) ↦ some (record {
          monitor = m;
          last_task_check_jiffies = last;
          periodic = check_function_pointers_periodic c usecs ro o dkom_lock jiffies s.periodic;
        })
      ]
      else some s
