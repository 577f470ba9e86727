-- ===== src/Monitor/Manager.antt =====
-- The task manager: `struct hb_task_node`, `struct hb_task_manager` (Source/hyper_box/monitor.h)
-- and the functions of Source/hyper_box/monitor.c that change it. The pool is a function from
-- indices to nodes; a `struct hb_task_node*` is an index into it.
pub mod View
pub mod Invariant
pub mod Counts
use alcatraz.Prelude.{
  ℕ, zero, suc, ◌≡◌, List, [], ◌∷◌, Option, none, some, Bool, ◌==◌, if◌then◌else◌, ℤ, pos, negsuc,
  minus_one, incr, decr,
}
use alcatraz.Monitor.Cred.{Cred, uniform}
use alcatraz.Monitor.Tree.{Tree, nil, RbLib, inorder, add_tree, search_tree, del_tree}

-- What the code reads of the kernel's `struct task_struct`: `addr` is the pointer to it,
-- `leader_comm` the name of the group leader, if there is one, and `exe` the names of the dentries
-- from the executable file up to the root, which has none.
pub record Task : Type 0 where
  pub addr : ℕ
  pub pid : ℕ
  pub tgid : ℕ
  pub comm : List ℕ
  pub leader_comm : Option (List ℕ)
  pub cred : Cred
  pub seccomp_mode : ℕ
  pub mm : ℕ
  pub exe : List (List ℕ)

pub record TaskNode : Type 0 where
  pub task : ℕ
  pub pid : ℕ
  pub tgid : ℕ
  pub comm : List ℕ
  pub cred : Cred
  pub syscall_number : ℤ
  pub need_exit : ℕ
  pub need_trace : ℕ
  pub seccomp_mode : ℕ
  pub mm : ℕ

-- `count` is `g_task_count`; `errors` are the codes handed to `hb_error_log`, newest first.
pub record Manager : Type 0 where
  pub pool : ℕ → TaskNode
  pub free : List ℕ
  pub tree : Tree
  pub count : ℤ
  pub errors : List ℕ

abbrev pub error_task_overflow : ℕ
error_task_overflow = 8

-- A node that `memset` has cleared.
abbrev pub zero_node : TaskNode
zero_node = record {
  task = 0;
  pid = 0;
  tgid = 0;
  comm = [];
  cred = uniform 0 0;
  syscall_number = pos 0;
  need_exit = 0;
  need_trace = 0;
  seccomp_mode = 0;
  mm = 0;
}

abbrev pub key_of : Manager → ℕ → ℕ
key_of m i = (m.pool i).task

-- A write through a node pointer.
abbrev pub put_node : (ℕ → TaskNode) → ℕ → TaskNode → ℕ → TaskNode
put_node pool n v i = if n == i then v else pool i

-- The loop `list_add(&pool[i].list, &free)` from 0 to `max - 1`.
unfoldable pub push_nodes : ℕ → List ℕ → List ℕ
push_nodes zero free = free
push_nodes (suc n) free = n ∷ push_nodes n free

-- `hb_prepare_monitor`, where `vmalloc` gives memory or not: the result is the C return value.
unfoldable pub prepare_monitor : ℕ → Bool → Manager → ℤ × Manager
prepare_monitor max allocated m =
    if allocated
    then (pos 0, record m { pool = λ i. zero_node; free = push_nodes max []; tree = nil })
    else (minus_one, record m { free = []; tree = nil })

unfoldable pub reset_task_manager : ℕ → Manager → Manager
reset_task_manager max m = record m {
  pool = λ i. zero_node;
  tree = nil;
  free = push_nodes max [];
  count = pos 0;
}

-- The node that `hb_add_task_to_task_manager` fills in.
abbrev pub new_node : Task → TaskNode
new_node t = record {
  task = t.addr;
  pid = t.pid;
  tgid = t.tgid;
  comm = t.comm;
  cred = t.cred;
  syscall_number = minus_one;
  need_exit = 0;
  need_trace = 0;
  seccomp_mode = t.seccomp_mode;
  mm = t.mm;
}

module _ (rb : RbLib) where
  take_node : Manager → Task → List ℕ → Manager × Option ℕ
  take_node m t [] = (record m { errors = error_task_overflow ∷ m.errors }, none)
  take_node m t (n ∷ free) =
      let pool = put_node m.pool n (new_node t) in
      (
        record m { pool = pool; free = free; tree = add_tree (λ i. (pool i).task) rb m.tree n },
        some n,
      )

  unfoldable pub add_task_to_task_manager : Manager → Task → Manager × Option ℕ
  unfolding take_node
  add_task_to_task_manager m t = take_node (record m { count = incr m.count }) t m.free

  unfoldable pub del_task_from_task_manager : Manager → ℕ → Manager × ℤ
  del_task_from_task_manager m task =
      let m' = record m { count = decr m.count } in
      elim (search_tree (key_of m) m.tree task) [
        | none ↦ (m', minus_one)
        | some n ↦ (record m' { tree = del_tree rb m.tree n; free = n ∷ m.free }, pos 0)
      ]

  -- The loop over the kernel's processes and threads ends with the first task that finds no node.
  unfoldable pub copy_task_list_to_task_manager : List Task → Manager → Manager
  copy_task_list_to_task_manager [] m = m
  copy_task_list_to_task_manager (t ∷ ts) m =
      let (m', added) = add_task_to_task_manager m t in
      let rest = copy_task_list_to_task_manager ts m' in elim added [ none ↦ m' | some n ↦ rest ]

  -- `hb_init_monitor`, on the list of the kernel's tasks.
  unfoldable pub init_monitor : ℕ → ℕ → List Task → Manager → Manager
  init_monitor max reinitialize ts m =
      if reinitialize == 0
      then copy_task_list_to_task_manager ts m
      else copy_task_list_to_task_manager ts (reset_task_manager max m)

-- The body and the loop of `hb_set_exit_flag_in_list_with_lock`, over the nodes of the tree.
unfoldable pub mark_exit : ℕ → List ℕ → (ℕ → TaskNode) → ℕ → TaskNode
mark_exit tgid [] pool = pool
mark_exit tgid (n ∷ ns) pool =
    mark_exit tgid ns
      (if (pool n).tgid == tgid then put_node pool n (record (pool n) { need_exit = 1 }) else pool)

unfoldable pub set_exit_flag_in_list_with_lock : Manager → ℕ → Manager
unfolding mark_exit
set_exit_flag_in_list_with_lock m tgid = record m { pool = mark_exit tgid (inorder m.tree) m.pool }
