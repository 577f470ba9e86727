-- ===== src/Monitor/Callback/Keeps.antt =====
-- What the callbacks never undo: which nodes are in use, for which task and group, and exit flags.
use alcatraz.Prelude.{
  ℕ, ◌≡◌, refl, sym, ap, ◌∙◌, fun_ext, subst, none, some, ◌==◌, minus_one, ltb, if_elim, pos, ◌==ℤ◌,
  if◌then◌else◌, Bool, true, false, not, ◌&&◌, arith, Option-cases, inl, inr, ℤ, ◌^◌,
}
use alcatraz.Monitor.Cred.{Cred, is_cred_same, check_systemcall_for_cred, nr_execve}
use alcatraz.Monitor.Tree.{Tree, inorder, search_tree}
use alcatraz.Monitor.Tree.Order.{Chain}
use alcatraz.Monitor.Manager.{
  Manager, Task, TaskNode, key_of, mark_exit, set_exit_flag_in_list_with_lock,
}
use alcatraz.Monitor.Manager.View.{Inv}
use alcatraz.Monitor.Callback.{
  Monitor, find_node, modify_node, check_exec, check_cred, callback_check_cred_update_syscall,
  callback_update_cred, set_exit, kill, write_node, note_exec, note_mm, note_syscall, note_cred,
  recover_ids, is_exec, needs_workaround,
}
use alcatraz.Monitor.Callback.Kill.{marked, elem, mark_exit_at}

pub record Keeps (m m' : Manager) : Type 0 where
  pub same_free : m'.free ≡ m.free
  pub same_tree : m'.tree ≡ m.tree
  pub same_task : (i : ℕ) → (m'.pool i).task ≡ (m.pool i).task
  pub same_group : (i : ℕ) → (m'.pool i).tgid ≡ (m.pool i).tgid
  pub keeps_flag : (i : ℕ) → (m.pool i).need_exit ≡ 1 → (m'.pool i).need_exit ≡ 1

pub Keeps-refl : (m : Manager) → Keeps m m
Keeps-refl m = record {
  same_free = refl;
  same_tree = refl;
  same_task = λ i. refl;
  same_group = λ i. refl;
  keeps_flag = λ i h. h;
}

pub Keeps-trans : {a b c : Manager} → Keeps a b → Keeps b c → Keeps a c
Keeps-trans p q = record {
  same_free = q.same_free ∙ p.same_free;
  same_tree = q.same_tree ∙ p.same_tree;
  same_task = λ i. q.same_task i ∙ p.same_task i;
  same_group = λ i. q.same_group i ∙ p.same_group i;
  keeps_flag = λ i h. q.keeps_flag i (p.keeps_flag i h);
}

marked_keeps :
    (tgid : ℕ) (b : Bool) (x : TaskNode)
    → let y = (if b then marked tgid x else x) in
      (y.task ≡ x.task) × (y.tgid ≡ x.tgid) × (x.need_exit ≡ 1 → y.need_exit ≡ 1)
marked_keeps tgid b x = (ground arith, ground arith, λ h. ground arith)

pub set_exit-Keeps : (m : Manager) (tgid : ℕ) → Keeps m (set_exit_flag_in_list_with_lock m tgid)
unfolding set_exit_flag_in_list_with_lock
set_exit-Keeps m tgid = record {
  same_free = refl;
  same_tree = refl;
  same_task =
      λ i. ap (λ n. n.task) (at i) ∙ (marked_keeps tgid (elem i (inorder m.tree)) (m.pool i)).0;
  same_group =
      λ i. ap (λ n. n.tgid) (at i) ∙ (marked_keeps tgid (elem i (inorder m.tree)) (m.pool i)).1;
  keeps_flag = λ i h.
      ap (λ n. n.need_exit) (at i) ∙ (marked_keeps tgid (elem i (inorder m.tree)) (m.pool i)).2 h;
}
  where
    at :
        (i : ℕ)
        → mark_exit tgid (inorder m.tree) m.pool i
          ≡ (if elem i (inorder m.tree) then marked tgid (m.pool i) else m.pool i)
    at i = mark_exit_at tgid (inorder m.tree) m.pool i

-- A write to fields that are none of these.
pub modify-Keeps :
    (m : Manager) (n : ℕ) (f : TaskNode → TaskNode)
    → (f (m.pool n)).task ≡ (m.pool n).task
    → (f (m.pool n)).tgid ≡ (m.pool n).tgid
    → (f (m.pool n)).need_exit ≡ (m.pool n).need_exit
    → Keeps m (modify_node m n f)
modify-Keeps m n f a b c = record {
  same_free = refl;
  same_tree = refl;
  same_task = λ i. ground arith;
  same_group = λ i. ground arith;
  keeps_flag = λ i h. ground arith;
}

pub Keeps-Inv : {m m' : Manager} → Keeps m m' → Inv m → Inv m'
Keeps-Inv {m} {m'} k v = record {
  ordered =
      subst (λ t. Chain (key_of m') 0 (2 ^ 64) (inorder t)) (sym k.same_tree)
        (subst (λ key. Chain key 0 (2 ^ 64) (inorder m.tree)) (sym (fun_ext k.same_task))
          v.ordered);
  distinct = rw (k.same_free, k.same_tree) v.distinct;
}

pub find_node-Keeps : {m m' : Manager} → Keeps m m' → (a : ℕ) → find_node m' a ≡ find_node m a
find_node-Keeps {m} {m'} k a =
    ap (λ (t : Tree). search_tree (key_of m') t a) k.same_tree
    ∙ ap (λ (key : ℕ → ℕ). search_tree key m.tree a) (fun_ext k.same_task)

module _ (s : Monitor) (task : Task) where
  abbrev pub Kept : Monitor × Bool → Type 0
  Kept r = Keeps s.manager r.0.manager

  pub check_exec-Keeps : (n : ℕ) → Kept (check_exec s task n)
  unfolding check_exec
  check_exec-Keeps n =
      if_elim Kept (is_exec node.syscall_number)
        (if node.need_trace == 0
          then (write_node s n (note_exec task), true)
          else (set_exit s node.tgid, false))
        (if not (node.mm == task.mm)
          then if needs_workaround task
            then (write_node s n (note_mm task), true)
            else (set_exit s node.tgid, false)
          else (s, true))
        (if_elim Kept (node.need_trace == 0) (write_node s n (note_exec task), true)
          (set_exit s node.tgid, false) (modify-Keeps s.manager n (note_exec task) refl refl refl)
          (set_exit-Keeps s.manager node.tgid))
        (if_elim Kept (not (node.mm == task.mm))
          (if needs_workaround task
            then (write_node s n (note_mm task), true)
            else (set_exit s node.tgid, false))
          (s, true)
          (if_elim Kept (needs_workaround task) (write_node s n (note_mm task), true)
            (set_exit s node.tgid, false) (modify-Keeps s.manager n (note_mm task) refl refl refl)
            (set_exit-Keeps s.manager node.tgid))
          (Keeps-refl s.manager))
    where
      node : TaskNode
      node = s.manager.pool n

  pub check_cred-Keeps : (n : ℕ) (ok : Bool) → Kept (check_cred s task n ok)
  unfolding check_cred
  check_cred-Keeps n ok =
      if_elim Kept (not (is_cred_same (s.manager.pool n).cred task.cred ==ℤ pos 0))
        (set_exit s (s.manager.pool n).tgid, false)
        (if (s.manager.pool n).need_exit == 1 then (s, false) else (s, ok))
        (set_exit-Keeps s.manager (s.manager.pool n).tgid)
        (if_elim Kept ((s.manager.pool n).need_exit == 1) (s, false) (s, ok) (Keeps-refl s.manager)
          (Keeps-refl s.manager))

module _ (s : Monitor) (task : Task) where
  abbrev pub recorded : ℤ → ℕ → Monitor
  recorded sc n = write_node (check_exec s task n).0 n (note_syscall sc)

  abbrev pub checked : ℤ → ℕ → Monitor × Bool
  checked sc n = check_cred (recorded sc n) task n (check_exec s task n).1

  pub checks-Keeps : (sc : ℤ) (n : ℕ) → Keeps s.manager (checked sc n).0.manager
  checks-Keeps sc n = Keeps-trans (check_exec-Keeps s task n) (
      Keeps-trans (modify-Keeps (check_exec s task n).0.manager n (note_syscall sc) refl refl refl)
        (check_cred-Keeps (recorded sc n) task n (check_exec s task n).1))

  pub syscall_eq :
      (sc : ℤ) (n : ℕ)
      → find_node s.manager task.addr ≡ some n
      → callback_check_cred_update_syscall s task sc ≡ (
          if (checked sc n).1
          then ((checked sc n).0, pos 0)
          else (kill (checked sc n).0 task.addr, minus_one))
  unfolding callback_check_cred_update_syscall
  syscall_eq sc n e = rw (e, callback_check_cred_update_syscall)

  pub syscall_unknown :
      (sc : ℤ)
      → find_node s.manager task.addr ≡ none
      → callback_check_cred_update_syscall s task sc ≡ (s, pos 0)
  unfolding callback_check_cred_update_syscall
  syscall_unknown sc e = rw (e, callback_check_cred_update_syscall)

  pub syscall-Keeps :
      (sc : ℤ) → Keeps s.manager (callback_check_cred_update_syscall s task sc).0.manager
  syscall-Keeps sc = elim (Option-cases (find_node s.manager task.addr)) [
    | inl e ↦ rw (syscall_unknown sc e) (Keeps-refl s.manager)
    | inr (n, e) ↦ rw (syscall_eq sc n e) (
        if_elim (λ (r : Monitor × ℤ). Keeps s.manager r.0.manager) (checked sc n).1
          ((checked sc n).0, pos 0) (kill (checked sc n).0 task.addr, minus_one) (checks-Keeps sc n)
          (checks-Keeps sc n))
  ]

  abbrev pub forged : Cred → ℕ → Bool
  forged new n =
      not (check_systemcall_for_cred (s.manager.pool n).syscall_number ==ℤ pos 0)
      && not (is_cred_same (s.manager.pool n).cred new ==ℤ pos 0)

  abbrev pub updated : Task → Cred → ℕ → Monitor
  updated current new n = write_node s n (
      note_cred current ((s.manager.pool n).syscall_number ==ℤ pos nr_execve && ltb new.uid 1000)
        new)

  pub update_cred_eq :
      (current : Task) (new : Cred) (n : ℕ)
      → find_node s.manager task.addr ≡ some n
      → callback_update_cred s current task new ≡ (
          if forged new n
          then (kill (set_exit s task.tgid) task.addr, recover_ids (s.manager.pool n).cred new)
          else (updated current new n, new))
  unfolding callback_update_cred
  update_cred_eq current new n e = rw (e, callback_update_cred)

  pub update_cred_unknown :
      (current : Task) (new : Cred)
      → find_node s.manager task.addr ≡ none
      → callback_update_cred s current task new ≡ (s, new)
  unfolding callback_update_cred
  update_cred_unknown current new e = rw (e, callback_update_cred)

  pub update_cred-Keeps :
      (current : Task) (new : Cred)
      → Keeps s.manager (callback_update_cred s current task new).0.manager
  update_cred-Keeps current new = elim (Option-cases (find_node s.manager task.addr)) [
    | inl e ↦ rw (update_cred_unknown current new e) (Keeps-refl s.manager)
    | inr (n, e) ↦ rw (update_cred_eq current new n e) (
        if_elim (λ (r : Monitor × Cred). Keeps s.manager r.0.manager) (forged new n)
          (kill (set_exit s task.tgid) task.addr, recover_ids (s.manager.pool n).cred new)
          (updated current new n, new) (set_exit-Keeps s.manager task.tgid)
          (modify-Keeps s.manager n
            (note_cred current
              ((s.manager.pool n).syscall_number ==ℤ pos nr_execve && ltb new.uid 1000) new)
            refl refl refl))
  ]
