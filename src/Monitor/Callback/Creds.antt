-- ===== src/Monitor/Callback/Creds.antt =====
-- What `hb_callback_update_cred` lets through, and what `hb_callback_add_task` makes of a creation.
use alcatraz.Prelude.{
  ℕ, ◌≡◌, ◌≢◌, ◌⊎◌, sym, ap, refl, ◌∙◌, ◌∷◌, some, ◌==◌, ==_iff, ==_self, true, false, arith, inl,
  inr, Bool-cases, pos,
}
use alcatraz.Monitor.Cred.{Cred, is_cred_same, check_systemcall_for_cred, is_cred_syscall}
use alcatraz.Monitor.Cred.Laws.{checksum, is_cred_same_iff}
use alcatraz.Monitor.Manager.{Task, TaskNode}
use alcatraz.Monitor.Manager.View.{Inv}
use alcatraz.Monitor.Callback.{Monitor, find_node, callback_update_cred, recover_ids}
use alcatraz.Monitor.Callback.Keeps.{update_cred_eq}
use alcatraz.Monitor.Callback.Kill.{pool-set_exit}

-- All eight identifiers of one are those of the other.
abbrev pub SameIds : Cred → Cred → Type 0
SameIds a b =
    (a.uid ≡ b.uid)
    × (a.gid ≡ b.gid)
    × (a.suid ≡ b.suid)
    × (a.sgid ≡ b.sgid)
    × (a.euid ≡ b.euid)
    × (a.egid ≡ b.egid)
    × (a.fsuid ≡ b.fsuid)
    × (a.fsgid ≡ b.fsgid)

module _ (s : Monitor) (current task : Task) (new : Cred) (n : ℕ) (v : Inv s.manager)
    (e : find_node s.manager task.addr ≡ some n) where
  abbrev node : TaskNode
  node = s.manager.pool n

  abbrev result : Monitor × Cred
  result = callback_update_cred s current task new

  update_cred_undone :
      is_cred_syscall node.syscall_number ≡ false
      → checksum node.cred ≢ checksum new
      → (result.1 ≡ recover_ids node.cred new)
        × ((result.0.manager.pool n).cred ≡ node.cred)
        × (result.0.killed ≡ task.addr ∷ s.killed)
  unfolding check_systemcall_for_cred
  update_cred_undone a b = rw (update_cred_eq s task current new n e) (
    ground (arith, is_cred_same_iff node.cred new),
    ground
        (arith, is_cred_same_iff node.cred new, pool-set_exit s.manager task.tgid task.addr n v e),
    ground (arith, is_cred_same_iff node.cred new),
  )

  update_cred_saved :
      (is_cred_syscall node.syscall_number ≡ true) ⊎ (checksum node.cred ≡ checksum new)
      → (result.1 ≡ new) × ((result.0.manager.pool n).cred ≡ new) × (result.0.killed ≡ s.killed)
  unfolding check_systemcall_for_cred
  update_cred_saved a = rw (update_cred_eq s task current new n e) (
    ground (arith, is_cred_same_iff node.cred new),
    ground (arith, is_cred_same_iff node.cred new, ==_self n),
    ground (arith, is_cred_same_iff node.cred new),
  )

  -- Every known task of the group gets its exit flag.
  group_marked :
      (k i : ℕ)
      → is_cred_syscall node.syscall_number ≡ false
      → checksum node.cred ≢ checksum new
      → find_node s.manager k ≡ some i
      → (s.manager.pool i).tgid ≡ task.tgid
      → (result.0.manager.pool i).need_exit ≡ 1
  unfolding check_systemcall_for_cred
  group_marked k i a b f g =
      rw (update_cred_eq s task current new n e)
        (ground (arith, is_cred_same_iff node.cred new, pool-set_exit s.manager task.tgid k i v f))

  -- An update for a known task is saved whole and kills nobody exactly when the task is in a system
  -- call that may change credentials, or the exclusive or of the identifiers stays. Any other is
  -- undone: all eight identifiers go back to the saved ones, which stay as they are, SIGKILL goes to
  -- the task, and every known task of its group gets its exit flag.
  pub update_cred_judged :
      (((is_cred_syscall node.syscall_number ≡ true) ⊎ (checksum node.cred ≡ checksum new))
        × (result.1 ≡ new)
        × ((result.0.manager.pool n).cred ≡ new)
        × (result.0.killed ≡ s.killed))
      ⊎ ((is_cred_syscall node.syscall_number ≡ false)
          × (checksum node.cred ≢ checksum new)
          × SameIds result.1 node.cred
          × (result.1.rest ≡ new.rest)
          × ((result.0.manager.pool n).cred ≡ node.cred)
          × (result.0.killed ≡ task.addr ∷ s.killed)
          × ((k i : ℕ)
              → find_node s.manager k ≡ some i
              → (s.manager.pool i).tgid ≡ task.tgid
              → (result.0.manager.pool i).need_exit ≡ 1))
  update_cred_judged = elim (Bool-cases (is_cred_syscall node.syscall_number)) [
    | inl a ↦ let r = update_cred_saved (inl a) in inl (inl a, r.0, r.1, r.2)
    | inr a ↦ elim (Bool-cases (checksum node.cred == checksum new)) [
      | inl b ↦
          let same = (==_iff _ _).0 b in
          let r = update_cred_saved (inr same) in inl (inr same, r.0, r.1, r.2)
      | inr b ↦
          let differ : checksum node.cred ≢ checksum new = λ same. cc (b, (==_iff _ _).1 same) in
          let r = update_cred_undone a differ in
          inr (
            a,
            differ,
            rw r.0 (refl, refl, refl, refl, refl, refl, refl, refl),
            rw r.0 refl,
            r.1,
            r.2,
            λ k i f g. group_marked k i a differ f g,
          )
    ]
  ]

  -- Whether an update is saved or undone, the saved credentials and those that the task has
  -- afterwards compare as the same, so that its next system call finds nothing changed.
  pub update_cred_agrees : is_cred_same (result.0.manager.pool n).cred result.1 ≡ pos 0
  update_cred_agrees =
      (is_cred_same_iff (result.0.manager.pool n).cred result.1).1
        (elim (Bool-cases (is_cred_syscall node.syscall_number)) [
          | inl a ↦ saved (inl a)
          | inr a ↦ elim (Bool-cases (checksum node.cred == checksum new)) [
            | inl b ↦ saved (inr ((==_iff _ _).0 b))
            | inr b ↦
                let r = update_cred_undone a (λ same. cc (b, (==_iff _ _).1 same)) in
                ap checksum r.1 ∙ sym (ap checksum r.0)
          ]
        ])
    where
      saved :
          (is_cred_syscall node.syscall_number ≡ true) ⊎ (checksum node.cred ≡ checksum new)
          → checksum (result.0.manager.pool n).cred ≡ checksum result.1
      saved a = let r = update_cred_saved a in ap checksum r.1 ∙ sym (ap checksum r.0)
