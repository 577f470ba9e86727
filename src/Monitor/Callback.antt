-- ===== src/Monitor/Callback.antt =====
-- The callbacks of the hardware breakpoints: `hb_callback_add_task`, `hb_callback_del_task`,
-- `hb_callback_update_cred` and `hb_callback_check_cred_update_syscall` of
-- Source/hyper_box/monitor.c. Each runs whole: the locks that it takes are not modelled.
pub mod Kill
pub mod Keeps
pub mod Syscall
pub mod Group
pub mod Creds
use alcatraz.Prelude.{
  ℕ, zero, suc, List, [], ◌∷◌, Option, none, some, ◌==◌, ltb, if◌then◌else◌, Bool, true, false, not,
  ◌&&◌, ◌||◌, ℤ, pos, negsuc, minus_one, ◌==ℤ◌,
}
use alcatraz.Monitor.Cred.{
  Cred, is_cred_same, check_systemcall_for_cred, nr_fork, nr_vfork, nr_clone, nr_execve,
  nr_execveat,
}
use alcatraz.Monitor.Tree.{RbLib, search_tree}
use alcatraz.Monitor.Path.{get_exe_path, c_string, str_eq, strn_eq}
use alcatraz.Monitor.Manager.{
  Manager, Task, TaskNode, key_of, put_node, add_task_to_task_manager, del_task_from_task_manager,
  set_exit_flag_in_list_with_lock,
}

-- `killed` are the tasks that SIGKILL was sent to, newest first.
pub record Monitor : Type 0 where
  pub manager : Manager
  pub killed : List ℕ

-- `hb_search_tree` on the tree of tasks.
abbrev pub find_node : Manager → ℕ → Option ℕ
find_node m task = search_tree (key_of m) m.tree task

-- A write to fields of `*found`.
abbrev pub modify_node : Manager → ℕ → (TaskNode → TaskNode) → Manager
modify_node m n f = record m { pool = put_node m.pool n (f (m.pool n)) }

abbrev kill : Monitor → ℕ → Monitor
kill s task = record s { killed = task ∷ s.killed }

abbrev set_exit : Monitor → ℕ → Monitor
set_exit s tgid = record s { manager = set_exit_flag_in_list_with_lock s.manager tgid }

abbrev task_comm_len : ℕ
task_comm_len = 16

abbrev path_max : ℕ
path_max = 4096

-- "qemu-system-x86_64", the one entry of `g_hb_spawning_disabled_process`.
abbrev pub spawning_disabled : List ℕ
spawning_disabled =
    b'q' ∷ b'e' ∷ b'm' ∷ b'u' ∷ b'-' ∷ b's' ∷ b'y' ∷ b's' ∷ b't' ∷ b'e' ∷ b'm' ∷ b'-' ∷ b'x' ∷ b'8'
    ∷ b'6' ∷ b'_' ∷ b'6' ∷ b'4' ∷ []

-- "modprobe" and "/usr/bin/kmod", the one entry of `g_hb_workaround_process_path`.
abbrev pub workaround_comm : List ℕ
workaround_comm = b'm' ∷ b'o' ∷ b'd' ∷ b'p' ∷ b'r' ∷ b'o' ∷ b'b' ∷ b'e' ∷ []

abbrev pub workaround_path : List ℕ
workaround_path =
    b'/' ∷ b'u' ∷ b's' ∷ b'r' ∷ b'/' ∷ b'b' ∷ b'i' ∷ b'n' ∷ b'/' ∷ b'k' ∷ b'm' ∷ b'o' ∷ b'd' ∷ []

-- The calls that may create a task.
unfoldable pub is_fork_syscall : ℤ → Bool
is_fork_syscall n = n ==ℤ pos nr_fork || n ==ℤ pos nr_vfork || n ==ℤ pos nr_clone || n ==ℤ minus_one

-- The name that stands for the creating process: its leader's, if it is a thread that has one.
unfoldable pub process_comm : Task → List ℕ
process_comm current =
    if current.pid == current.tgid
    then current.comm
    else elim current.leader_comm [ none ↦ current.comm | some leader ↦ leader ]

abbrev pub trace_node : TaskNode → TaskNode
trace_node node = record node { need_trace = 1 }

-- The part of `hb_callback_add_task` after both nodes are found.
check_creation : Monitor → Task → Task → ℕ → ℕ → Monitor
unfolding is_fork_syscall process_comm strn_eq
check_creation s current task found added =
    if not (is_fork_syscall (s.manager.pool found).syscall_number)
    then kill (set_exit s task.tgid) task.addr
    else if task.pid == task.tgid
    then if strn_eq 15 (process_comm current) spawning_disabled
      then record s {
        manager = modify_node (modify_node s.manager found trace_node) added trace_node;
      }
      else s
    else s

module _ (rb : RbLib) where
  unfoldable pub callback_add_task : Monitor → Task → Task → Monitor
  unfolding check_creation
  callback_add_task s current task =
      let (m, result) = add_task_to_task_manager rb s.manager task in
      let s' = record s { manager = m } in
      elim result [
        | none ↦ s'
        | some added ↦ elim (find_node m current.addr) [
          | none ↦ s'
          | some found ↦ check_creation s' current task found added
        ]
      ]

  unfoldable pub callback_del_task : Monitor → ℕ → Monitor
  callback_del_task s task = record s { manager = (del_task_from_task_manager rb s.manager task).0 }

-- Writes to the node that is found.
abbrev pub note_exec : Task → TaskNode → TaskNode
note_exec task n = record n { mm = task.mm; comm = task.comm }

abbrev pub note_mm : Task → TaskNode → TaskNode
note_mm task n = record n { mm = task.mm }

abbrev pub note_syscall : ℤ → TaskNode → TaskNode
note_syscall syscall_number n = record n { syscall_number = syscall_number }

abbrev pub note_cred : Task → Bool → Cred → TaskNode → TaskNode
note_cred current renames new n = record n {
  comm = if renames then current.comm else n.comm;
  cred = new;
}

abbrev pub write_node : Monitor → ℕ → (TaskNode → TaskNode) → Monitor
write_node s n f = record s { manager = modify_node s.manager n f }

-- The eight identifiers are copied from the saved credentials.
abbrev pub recover_ids : Cred → Cred → Cred
recover_ids saved new = record new {
  uid = saved.uid;
  gid = saved.gid;
  suid = saved.suid;
  sgid = saved.sgid;
  euid = saved.euid;
  egid = saved.egid;
  fsuid = saved.fsuid;
  fsgid = saved.fsgid;
}

-- `hb_callback_update_cred` returns the new state and what `*new` holds afterwards.
unfoldable pub callback_update_cred : Monitor → Task → Task → Cred → Monitor × Cred
callback_update_cred s current task new = elim (find_node s.manager task.addr) [
  | none ↦ (s, new)
  | some found ↦
      let node = s.manager.pool found in
      if not (check_systemcall_for_cred node.syscall_number ==ℤ pos 0)
        && not (is_cred_same node.cred new ==ℤ pos 0)
      then (kill (set_exit s task.tgid) task.addr, recover_ids node.cred new)
      else (
        write_node s found
            (note_cred current (node.syscall_number ==ℤ pos nr_execve && ltb new.uid 1000) new),
        new,
      )
]

-- The program that the kernel runs for drivers: by its name and by the path of its file.
unfoldable pub needs_workaround : Task → Bool
needs_workaround task =
    str_eq task.comm workaround_comm
    && str_eq (c_string (get_exe_path task.exe path_max)) workaround_path

abbrev is_exec : ℤ → Bool
is_exec n = n ==ℤ pos nr_execve || n ==ℤ pos nr_execveat

-- The first checks: of a process that has called `execve`, and of one whose memory has changed
-- without. The result is the state and whether `ret` is still 0.
unfoldable pub check_exec : Monitor → Task → ℕ → Monitor × Bool
check_exec s task found =
    let node = s.manager.pool found in
    if is_exec node.syscall_number
    then if node.need_trace == 0
      then (write_node s found (note_exec task), true)
      else (set_exit s node.tgid, false)
    else if not (node.mm == task.mm)
    then if needs_workaround task
      then (write_node s found (note_mm task), true)
      else (set_exit s node.tgid, false)
    else (s, true)

-- The last check: of the credentials and of the exit flag.
unfoldable pub check_cred : Monitor → Task → ℕ → Bool → Monitor × Bool
check_cred s task found ok =
    let node = s.manager.pool found in
    if not (is_cred_same node.cred task.cred ==ℤ pos 0)
    then (set_exit s node.tgid, false)
    else if node.need_exit == 1
    then (s, false)
    else (s, ok)

-- `hb_callback_check_cred_update_syscall`: the new state and the C return value.
unfoldable pub callback_check_cred_update_syscall : Monitor → Task → ℤ → Monitor × ℤ
callback_check_cred_update_syscall s task syscall_number = elim (find_node s.manager task.addr) [
  | none ↦ (s, pos 0)
  | some found ↦
      let (s1, ok1) = check_exec s task found in
      let s2 = write_node s1 found (note_syscall syscall_number) in
      let (s3, ok3) = check_cred s2 task found ok1 in
      if ok3 then (s3, pos 0) else (kill s3 task.addr, minus_one)
]
