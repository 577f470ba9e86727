-- ===== src/Monitor/Callback/Group.antt =====
-- A group of tasks after one of them has broken a rule, whatever tasks are created and end.
use mathlib.Core.Option
use alcatraz.Prelude.{
  ℕ, ◌≡◌, ◌≢◌, ◌^◌, ◌<◌, refl, sym, ap, ◌∙◌, Option, none, some, arith, if_elim, ◌==◌, false, not,
  List-cases, Option-cases, inl, inr, ℤ, minus_one,
}
use alcatraz.Monitor.Cred.{Cred}
use alcatraz.Monitor.Tree.{RbLib, search_tree}
use alcatraz.Monitor.Manager.{
  Manager, Task, TaskNode, key_of, add_task_to_task_manager, del_task_from_task_manager,
}
use alcatraz.Monitor.Manager.View.{Inv, tracked, tracked-add_task, tracked-del_task, added}
use alcatraz.Monitor.Manager.Invariant.{add_task-Inv, del_task-Inv, add_full}
use alcatraz.Monitor.Callback.{
  Monitor, find_node, modify_node, check_creation, trace_node, callback_add_task, callback_del_task,
  callback_update_cred, callback_check_cred_update_syscall, process_comm, spawning_disabled,
  is_fork_syscall,
}
use alcatraz.Monitor.Path.{strn_eq}
use alcatraz.Monitor.Callback.Keeps.{
  Keeps, Keeps-Inv, Keeps-refl, Keeps-trans, find_node-Keeps, modify-Keeps, set_exit-Keeps,
  syscall-Keeps, update_cred-Keeps,
}
use alcatraz.Monitor.Callback.Syscall.{Breaks, syscall_refused_iff, syscall_marks_group}

-- What can happen in the monitor while the task `k` is not taken out of its list: system calls,
-- updates of credentials, creations of tasks that are not known, and tasks that end or are found to be
-- hidden.
pub data Reach (rb : RbLib) (k : ℕ) (s : Monitor) : Monitor → Type 0 where
  here : Reach rb k s s
  syscall :
      {t : Monitor} (task : Task) (sc : ℤ)
      → Reach rb k s t
      → Reach rb k s (callback_check_cred_update_syscall t task sc).0
  update_cred :
      {t : Monitor} (current task : Task) (new : Cred)
      → Reach rb k s t
      → Reach rb k s (callback_update_cred t current task new).0
  create :
      {t : Monitor} (current task : Task)
      → task.addr < 2 ^ 64
      → find_node t.manager task.addr ≡ none
      → Reach rb k s t
      → Reach rb k s (callback_add_task rb t current task)
  end : {t : Monitor} (a : ℕ) → a ≢ k → Reach rb k s t → Reach rb k s (callback_del_task rb t a)

-- A known task with its exit flag, in a manager that is in order.
pub record IsFlagged (k : ℕ) (m : Manager) : Type 0 where
  pub ordered : Inv m
  pub node : ℕ
  pub known : find_node m k ≡ some node
  pub flag : (m.pool node).need_exit ≡ 1

Keeps-IsFlagged : {m m' : Manager} (k : ℕ) → Keeps m m' → IsFlagged k m → IsFlagged k m'
Keeps-IsFlagged k p f = record {
  ordered = Keeps-Inv p f.ordered;
  node = f.node;
  known = find_node-Keeps p k ∙ f.known;
  flag = p.keeps_flag f.node f.flag;
}

-- Only what the manager knows of the task matters.
tracked-IsFlagged :
    (k : ℕ) (m m' : Manager) → Inv m' → tracked m' k ≡ tracked m k → IsFlagged k m → IsFlagged k m'
tracked-IsFlagged k m m' v same f =
    let had : tracked m' k ≡ some (m.pool f.node) = same ∙ ap (Option.map m.pool) f.known in
    elim (Option-cases (search_tree (key_of m') m'.tree k)) [
      | inl gone ↦
          let lost : none ≡ some (m.pool f.node) = sym (ap (Option.map m'.pool) gone) ∙ had in
          absurd (cc lost)
      | inr (i, found) ↦
          let entry : some (m'.pool i) ≡ some (m.pool f.node) =
            sym (ap (Option.map m'.pool) found) ∙ had in
          let eq : m'.pool i ≡ m.pool f.node = cc entry in
          record {
            ordered = v;
            node = i;
            known = found;
            flag = ap (λ (x : TaskNode). x.need_exit) eq ∙ f.flag;
          }
    ]

module _ (rb : RbLib) (k : ℕ) where
  del-IsFlagged :
      (m : Manager) (a : ℕ)
      → a ≢ k
      → IsFlagged k m
      → IsFlagged k (del_task_from_task_manager rb m a).0
  del-IsFlagged m a apart f =
      let other : (a == k) ≡ false = ground arith in
      tracked-IsFlagged k m (del_task_from_task_manager rb m a).0 (del_task-Inv rb m f.ordered a)
        ((tracked-del_task m f.ordered rb a k).0 ∙ rw other refl) f

  add-IsFlagged :
      (m : Manager) (t : Task)
      → t.addr < 2 ^ 64
      → find_node m t.addr ≡ none
      → IsFlagged k m
      → IsFlagged k (add_task_to_task_manager rb m t).0
  add-IsFlagged m t fits new f =
      let m' = (add_task_to_task_manager rb m t).0 in
      let v' = add_task-Inv rb m t f.ordered fits in
      elim (List-cases m.free) [
        | inl e ↦
            tracked-IsFlagged k m m' v'
              (ap (λ (r : Manager × Option ℕ). tracked r.0 k) (add_full rb m t e)) f
        | inr (n, free, e) ↦
            let apart : t.addr ≢ k = λ q. absurd (cc (ap (find_node m) q, new, f.known)) in
            let other : (t.addr == k) ≡ false = ground arith in
            tracked-IsFlagged k m m' v'
              (tracked-add_task rb m t k f.ordered fits (λ z. absurd (cc (z, e)))
                  (ap (Option.map m.pool) new)
                ∙ rw other refl)
              f
      ]

  check_creation-Keeps :
      (s : Monitor) (current task : Task) (found added : ℕ)
      → Keeps s.manager (check_creation s current task found added).manager
  unfolding check_creation
  check_creation-Keeps s current task found added =
      let P : Monitor → Type 0 = λ t. Keeps s.manager t.manager in
      let traced : Manager = modify_node s.manager found trace_node in
      if_elim P (not (is_fork_syscall (s.manager.pool found).syscall_number)) _ _
        (set_exit-Keeps s.manager task.tgid)
        (if_elim P (task.pid == task.tgid) _ _
          (if_elim P (strn_eq 15 (process_comm current) spawning_disabled) _ _
            (Keeps-trans (modify-Keeps s.manager found trace_node refl refl refl)
              (modify-Keeps traced added trace_node refl refl refl))
            (Keeps-refl s.manager))
          (Keeps-refl s.manager))

  create-IsFlagged :
      (s : Monitor) (current task : Task)
      → task.addr < 2 ^ 64
      → find_node s.manager task.addr ≡ none
      → IsFlagged k s.manager
      → IsFlagged k (callback_add_task rb s current task).manager
  unfolding callback_add_task
  create-IsFlagged s current task fits new f =
      let r = add_task_to_task_manager rb s.manager task in
      let s' : Monitor = record s { manager = r.0 } in
      let entered = add-IsFlagged s.manager task fits new f in
      elim (Option-cases r.1) [
        | inl e ↦ rw (e, callback_add_task) entered
        | inr (added, e) ↦ elim (Option-cases (find_node r.0 current.addr)) [
          | inl g ↦ rw (e, g, callback_add_task) entered
          | inr (found, g) ↦
              rw (e, g, callback_add_task)
                (Keeps-IsFlagged k (check_creation-Keeps s' current task found added) entered)
        ]
      ]

  Reach-IsFlagged : {s t : Monitor} → Reach rb k s t → IsFlagged k s.manager → IsFlagged k t.manager
  unfolding callback_del_task
  Reach-IsFlagged here f = f
  Reach-IsFlagged (syscall {t} task sc r) f =
      Keeps-IsFlagged k (syscall-Keeps t task sc) (Reach-IsFlagged r f)
  Reach-IsFlagged (update_cred {t} current task new r) f =
      Keeps-IsFlagged k (update_cred-Keeps t task current new) (Reach-IsFlagged r f)
  Reach-IsFlagged (create {t} current task fits new r) f =
      create-IsFlagged t current task fits new (Reach-IsFlagged r f)
  Reach-IsFlagged (end {t} a apart r) f = del-IsFlagged t.manager a apart (Reach-IsFlagged r f)

-- Once a task breaks a rule at a system call, every task of its group that is known then is refused
-- every system call for as long as it stays in the monitor's list, whatever happens to other tasks.
pub group_refused_later :
    (rb : RbLib) (s : Monitor) (task : Task) (n : ℕ) (v : Inv s.manager)
    (e : find_node s.manager task.addr ≡ some n) (sc : ℤ) (mate : Task) (i : ℕ) (t : Monitor)
    (later : ℤ)
    → Breaks s task n v e
    → find_node s.manager mate.addr ≡ some i
    → (s.manager.pool i).tgid ≡ (s.manager.pool n).tgid
    → Reach rb mate.addr (callback_check_cred_update_syscall s task sc).0 t
    → (callback_check_cred_update_syscall t mate later).1 ≡ minus_one
group_refused_later rb s task n v e sc mate i t later b f g reach =
    let kept = syscall-Keeps s task sc in
    let at_end = Reach-IsFlagged rb mate.addr reach (record {
      ordered = Keeps-Inv kept v;
      node = i;
      known = find_node-Keeps kept mate.addr ∙ f;
      flag = syscall_marks_group s task n v e sc mate.addr i f g b;
    }) in
    (syscall_refused_iff t mate at_end.node at_end.ordered at_end.known later).1
      (inr (inr (inr at_end.flag)))
