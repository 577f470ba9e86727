-- ===== src/Monitor/Callback/Syscall.antt =====
-- Which system calls `hb_callback_check_cred_update_syscall` refuses, and what a refusal does.
use alcatraz.Prelude.{
  ℕ, ◌≡◌, ◌≢◌, ◌↔◌, ◌⊎◌, refl, sym, ap, ◌∙◌, List, [], ◌∷◌, some, ==_self, if_elim, if◌then◌else◌,
  Bool, true, false, arith, inl, inr, ℤ, pos, minus_one, ◌==ℤ◌,
}
use alcatraz.Monitor.Cred.{Cred}
use alcatraz.Monitor.Cred.Laws.{checksum, is_cred_same_iff}
use alcatraz.Monitor.Manager.{Task, TaskNode}
use alcatraz.Monitor.Manager.View.{Inv}
use alcatraz.Monitor.Callback.{
  Monitor, find_node, note_syscall, is_exec, needs_workaround, check_exec, check_cred,
  callback_check_cred_update_syscall, kill, callback_update_cred,
}
use alcatraz.Monitor.Callback.Keeps.{
  Keeps, recorded, checked, syscall_eq, check_exec-Keeps, check_cred-Keeps, Keeps-Inv, Keeps-trans,
  Keeps-refl, modify-Keeps, find_node-Keeps, syscall-Keeps, update_cred-Keeps,
}
use alcatraz.Monitor.Callback.Kill.{pool-set_exit}

-- What is held against a task.
abbrev pub Offends : Task → TaskNode → Type 0
Offends task node =
    -- A traced process has called execve.
    ((is_exec node.syscall_number ≡ true) × (node.need_trace ≢ 0))
    -- The memory has changed without an execve, and no workaround applies.
    ⊎ ((is_exec node.syscall_number ≡ false)
        × (node.mm ≢ task.mm)
        × (needs_workaround task ≡ false))
    -- The credentials have changed.
    ⊎ (checksum node.cred ≢ checksum task.cred)
    -- The task has been marked before.
    ⊎ (node.need_exit ≡ 1)

cred_refused :
    (s : Monitor) (task : Task) (n : ℕ) (ok : Bool)
    → ((check_cred s task n ok).1 ≡ false) ↔ (
        (checksum (s.manager.pool n).cred ≢ checksum task.cred)
        ⊎ ((s.manager.pool n).need_exit ≡ 1)
        ⊎ (ok ≡ false))
unfolding check_cred
cred_refused s task n ok = ground (arith, is_cred_same_iff (s.manager.pool n).cred task.cred)

cred_marks :
    (s : Monitor) (task : Task) (n k i : ℕ) (ok : Bool)
    → Inv s.manager
    → find_node s.manager k ≡ some i
    → (s.manager.pool i).tgid ≡ (s.manager.pool n).tgid
    → checksum (s.manager.pool n).cred ≢ checksum task.cred
    → ((check_cred s task n ok).0.manager.pool i).need_exit ≡ 1
unfolding check_cred
cred_marks s task n k i ok v f g h = ground (
  arith,
  pool-set_exit s.manager (s.manager.pool n).tgid k i v f,
  is_cred_same_iff (s.manager.pool n).cred task.cred,
)

module _ (s : Monitor) (task : Task) (n : ℕ) (v : Inv s.manager)
    (e : find_node s.manager task.addr ≡ some n) where
  abbrev node : TaskNode
  node = s.manager.pool n

  abbrev after_exec : TaskNode
  after_exec = (check_exec s task n).0.manager.pool n

  same_cred : after_exec.cred ≡ node.cred
  unfolding check_exec
  same_cred = ground (arith, pool-set_exit s.manager node.tgid task.addr n v e)

  same_exit : (check_exec s task n).1 ≡ true → after_exec.need_exit ≡ node.need_exit
  unfolding check_exec
  same_exit h = ground (arith, pool-set_exit s.manager node.tgid task.addr n v e)

  exec_refused : (check_exec s task n).1 ≡ false ↔ (
      ((is_exec node.syscall_number ≡ true) × (node.need_trace ≢ 0))
      ⊎ ((is_exec node.syscall_number ≡ false)
          × (node.mm ≢ task.mm)
          × (needs_workaround task ≡ false)))
  unfolding check_exec
  exec_refused = ground arith

  returns_minus_one :
      (sc : ℤ)
      → ((callback_check_cred_update_syscall s task sc).1 ≡ minus_one)
        ↔ ((checked s task sc n).1 ≡ false)
  returns_minus_one sc = rw (syscall_eq s task sc n e) (ground arith)

  -- A known task's system call is refused exactly when something is held against the task, judged
  -- by what was recorded before this call.
  pub syscall_refused_iff :
      (sc : ℤ) → ((callback_check_cred_update_syscall s task sc).1 ≡ minus_one) ↔ Offends task node
  syscall_refused_iff sc = ground (
    arith,
    returns_minus_one sc,
    cred_refused (recorded s task sc n) task n (check_exec s task n).1,
    same_cred,
    same_exit,
    exec_refused,
    ==_self n,
  )

  check_exec-killed : (check_exec s task n).0.killed ≡ s.killed
  unfolding check_exec
  check_exec-killed = ground arith

  check_cred-killed : (sc : ℤ) → (checked s task sc n).0.killed ≡ s.killed
  unfolding check_cred
  check_cred-killed sc = ground (arith, check_exec-killed)

  -- SIGKILL goes to a known task whose call is refused, and to nobody when the call is not refused.
  pub killed-syscall :
      (sc : ℤ)
      → let r = callback_check_cred_update_syscall s task sc in
        r.0.killed ≡ (if r.1 ==ℤ minus_one then task.addr ∷ s.killed else s.killed)
  killed-syscall sc = rw (syscall_eq s task sc n e) (ground (arith, check_cred-killed sc))

  -- The reasons for which the whole group is marked.
  abbrev pub Breaks : Type 0
  Breaks =
      ((is_exec node.syscall_number ≡ true) × (node.need_trace ≢ 0))
      ⊎ ((is_exec node.syscall_number ≡ false)
          × (node.mm ≢ task.mm)
          × (needs_workaround task ≡ false))
      ⊎ (checksum node.cred ≢ checksum task.cred)

  exec_marks :
      (k i : ℕ)
      → find_node s.manager k ≡ some i
      → (s.manager.pool i).tgid ≡ node.tgid
      → (check_exec s task n).1 ≡ false
      → ((check_exec s task n).0.manager.pool i).need_exit ≡ 1
  unfolding check_exec
  exec_marks k i f g h = ground (arith, pool-set_exit s.manager node.tgid k i v f)

  checked_marks :
      (sc : ℤ) (k i : ℕ)
      → find_node s.manager k ≡ some i
      → (s.manager.pool i).tgid ≡ node.tgid
      → Breaks
      → ((checked s task sc n).0.manager.pool i).need_exit ≡ 1
  checked_marks sc k i f g b = elim b [
    | inl traced ↦ by_exec (exec_refused.1 (inl traced))
    | inr (inl alien) ↦ by_exec (exec_refused.1 (inr alien))
    | inr (inr forged) ↦
        cred_marks (recorded s task sc n) task n k i (check_exec s task n).1 (Keeps-Inv kept v)
          (find_node-Keeps kept k ∙ f) (kept.same_group i ∙ g ∙ sym (kept.same_group n))
          (λ z. forged (sym same_saved ∙ z))
  ]
    where
      written : Keeps (check_exec s task n).0.manager (recorded s task sc n).manager
      written = modify-Keeps (check_exec s task n).0.manager n (note_syscall sc) refl refl refl

      kept : Keeps s.manager (recorded s task sc n).manager
      kept = Keeps-trans (check_exec-Keeps s task n) written

      same_saved : checksum ((recorded s task sc n).manager.pool n).cred ≡ checksum node.cred
      same_saved =
          let same : ((recorded s task sc n).manager.pool n).cred ≡ node.cred =
            ground (arith, same_cred) in
          ap checksum same

      by_exec :
          (check_exec s task n).1 ≡ false → ((checked s task sc n).0.manager.pool i).need_exit ≡ 1
      by_exec h =
          (check_cred-Keeps (recorded s task sc n) task n (check_exec s task n).1).keeps_flag i
            (written.keeps_flag i (exec_marks k i f g h))

  -- A refusal for one of these reasons marks every known task of the group.
  pub syscall_marks_group :
      (sc : ℤ) (k i : ℕ)
      → find_node s.manager k ≡ some i
      → (s.manager.pool i).tgid ≡ node.tgid
      → Breaks
      → ((callback_check_cred_update_syscall s task sc).0.manager.pool i).need_exit ≡ 1
  syscall_marks_group sc k i f g b = rw (syscall_eq s task sc n e) (
      if_elim (λ (r : Monitor × ℤ). (r.0.manager.pool i).need_exit ≡ 1) (checked s task sc n).1
        ((checked s task sc n).0, pos 0) (kill (checked s task sc n).0 task.addr, minus_one)
        (checked_marks sc k i f g b) (checked_marks sc k i f g b))

-- What the guest's tasks do: system calls, and updates of credentials by a task for itself.
pub data Event : Type 0 where
  syscall : Task → ℤ → Event
  update_cred : Task → Cred → Event

abbrev pub happen : Monitor → Event → Monitor
happen s (syscall task sc) = (callback_check_cred_update_syscall s task sc).0
happen s (update_cred task new) = (callback_update_cred s task task new).0

unfoldable pub run : Monitor → List Event → Monitor
run s [] = s
run s (ev ∷ evs) = run (happen s ev) evs

happen-Keeps : (s : Monitor) (ev : Event) → Keeps s.manager (happen s ev).manager
happen-Keeps s (syscall task sc) = syscall-Keeps s task sc
happen-Keeps s (update_cred task new) = update_cred-Keeps s task task new

run-Keeps : (s : Monitor) (evs : List Event) → Keeps s.manager (run s evs).manager
unfolding run
run-Keeps s [] = Keeps-refl s.manager
run-Keeps s (ev ∷ evs) = Keeps-trans (happen-Keeps s ev) (run-Keeps (happen s ev) evs)

-- Once a task breaks a rule, every task of its group that is known then is refused every system
-- call, whatever calls and updates of credentials come in between.
pub group_refused :
    (s : Monitor) (task : Task) (n : ℕ) (v : Inv s.manager)
    (e : find_node s.manager task.addr ≡ some n) (sc : ℤ) (evs : List Event) (mate : Task) (i : ℕ)
    (later : ℤ)
    → Breaks s task n v e
    → find_node s.manager mate.addr ≡ some i
    → (s.manager.pool i).tgid ≡ (s.manager.pool n).tgid
    → (callback_check_cred_update_syscall
        (run (callback_check_cred_update_syscall s task sc).0 evs)
        mate
        later).1
      ≡ minus_one
group_refused s task n v e sc evs mate i later b f g =
    (syscall_refused_iff end mate i (Keeps-Inv kept v) (find_node-Keeps kept mate.addr ∙ f) later).1
      (inr (inr (inr flagged)))
  where
    s1 : Monitor
    s1 = (callback_check_cred_update_syscall s task sc).0

    end : Monitor
    end = run s1 evs

    kept : Keeps s.manager end.manager
    kept = Keeps-trans (syscall-Keeps s task sc) (run-Keeps s1 evs)

    flagged : (end.manager.pool i).need_exit ≡ 1
    flagged =
        (run-Keeps s1 evs).keeps_flag i (syscall_marks_group s task n v e sc mate.addr i f g b)
