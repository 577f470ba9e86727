-- ===== src/Examples/Tasks.antt =====
-- The monitor on two tasks of one process.
use alcatraz.Prelude.{
  ◌⊎◌, true, false, ◌≢◌, ℕ, ◌≡◌, ◌≢◌, refl, List, [], ◌∷◌, none, some, arith, ◌==◌, if◌then◌else◌,
  inr, pos, minus_one,
}
use alcatraz.Monitor.Cred.{Cred, uniform, is_cred_same, is_cred_syscall}
use alcatraz.Monitor.Cred.Laws.{checksum, is_cred_same-uniform}
use alcatraz.Monitor.Tree.{Tree, nil, node, inorder, remove, RbLib, search_tree}
use alcatraz.Monitor.Path.{get_exe_path, c_string, str_eq, strn_eq}
use alcatraz.Monitor.Manager.{
  Manager, Task, new_node, zero_node, push_nodes, add_task_to_task_manager, init_monitor,
}
use alcatraz.Monitor.Manager.View.{Inv, tracked, tracked-add_task}
use alcatraz.Monitor.Manager.Invariant.{push_nodes-Nodup}
use alcatraz.Monitor.Manager.Counts.{tracked-init_monitor}
use alcatraz.Monitor.Callback.{
  Monitor, find_node, callback_check_cred_update_syscall, callback_update_cred,
}
use alcatraz.Monitor.Callback.Syscall.{Event, run, syscall_refused_iff, group_refused, Offends}
use alcatraz.Monitor.Callback.Creds.{SameIds, update_cred_judged}

-- A tree library that does no more than keep the order.
abbrev pub spine : List ℕ → Tree
spine [] = nil
spine (x ∷ xs) = node nil x (spine xs)

pub spine-order : (xs : List ℕ) → inorder (spine xs) ≡ xs
spine-order [] = refl
spine-order (x ∷ xs) = rw (spine-order xs)

abbrev pub plain : RbLib
plain = record {
  insert_color = λ t. t;
  insert_color_order = λ t. refl;
  erase = λ n t. spine (remove n (inorder t));
  erase_order = λ n t. spine-order (remove n (inorder t));
}

abbrev pub leader : Task
leader = record {
  addr = 0x1000;
  pid = 7;
  tgid = 7;
  comm = b's' ∷ b'h' ∷ [];
  leader_comm = none;
  cred = uniform 1000 0;
  seccomp_mode = 0;
  mm = 0x50;
  exe = (b's' ∷ b'h' ∷ []) ∷ (b'b' ∷ []) ∷ [];
}

abbrev pub worker : Task
worker = record leader { addr = 0x2000; pid = 8 }

abbrev pub stranger : Task
stranger = record leader { addr = 0x1800; pid = 9; tgid = 9 }

-- Node 1 is the leader's, node 0 the worker's, node 2 is free.
abbrev pub busy : Manager
busy = record {
  pool = λ i. if i == 1 then new_node leader else if i == 0 then new_node worker else zero_node;
  free = 2 ∷ [];
  tree = node nil 1 (node nil 0 nil);
  count = pos 2;
  errors = [];
}

pub busy-Inv : Inv busy
unfolding push_nodes
busy-Inv = record { ordered = omega arith; distinct = push_nodes-Nodup 3 }

abbrev pub calm : Monitor
calm = record { manager = busy; killed = [] }

pub leader_found : find_node busy 0x1000 ≡ some 1
unfolding search_tree
leader_found = refl

pub worker_found : find_node busy 0x2000 ≡ some 0
unfolding search_tree
worker_found = refl

pub stranger_unknown : find_node busy 0x1800 ≡ none
unfolding search_tree
stranger_unknown = refl

is_cred_same-uniform_example : is_cred_same (uniform 0 0) (uniform 1000 0) ≡ pos 0
is_cred_same-uniform_example = is_cred_same-uniform 1000 0 0 0

tracked-add_task_example :
    tracked (add_task_to_task_manager plain busy stranger).0 0x1800 ≡ some (new_node stranger)
unfolding search_tree
tracked-add_task_example =
    tracked-add_task plain busy stranger 0x1800 busy-Inv (omega arith) (λ e. cc) refl

tracked-init_monitor_example :
    tracked (init_monitor plain 3 1 (leader ∷ worker ∷ []) busy) 0x2000 ≡ some (new_node worker)
tracked-init_monitor_example =
    tracked-init_monitor plain 3 (leader ∷ worker ∷ []) busy 0x2000 (omega arith)
      (omega arith, (refl, tt), (omega arith, tt, tt))

-- "/sh" does not fit three bytes.
short_buffer : get_exe_path ((b's' ∷ b'h' ∷ []) ∷ []) 3 ≡ b'/' ∷ 0 ∷ []
unfolding get_exe_path alcatraz.Monitor.Path.prepend_names alcatraz.Monitor.Path.prepend_name
short_buffer = refl

-- A process that has become root without a system call that may do so.
abbrev pub intruder : Task
intruder = record leader { cred = record (uniform 1000 0) { euid = 0 } }

pub changed : checksum (uniform 1000 0) ≢ checksum intruder.cred
changed e = absurd (omega (arith, e))

syscall_refused_iff_example :
    ((callback_check_cred_update_syscall calm intruder (pos 1)).1 ≡ minus_one
      → Offends intruder (new_node leader))
    × (Offends intruder (new_node leader)
        → (callback_check_cred_update_syscall calm intruder (pos 1)).1 ≡ minus_one)
syscall_refused_iff_example = syscall_refused_iff calm intruder 1 busy-Inv leader_found (pos 1)

-- The worker pays for its leader.
group_refused_example :
    (callback_check_cred_update_syscall
      (run
        (callback_check_cred_update_syscall calm intruder (pos 1)).0
        (Event.syscall stranger (pos 2) ∷ []))
      worker
      (pos 0)).1
    ≡ minus_one
group_refused_example =
    group_refused calm intruder 1 busy-Inv leader_found (pos 1)
      (Event.syscall stranger (pos 2) ∷ []) worker 0 (pos 0) (inr (inr changed)) worker_found refl

abbrev reading : Monitor
reading = record {
  manager = record busy {
    pool = λ i.
        if i == 1
        then record (new_node leader) { syscall_number = pos 0 }
        else if i == 0
        then new_node worker
        else zero_node;
  };
  killed = [];
}

reading-Inv : Inv reading.manager
unfolding push_nodes
reading-Inv = record { ordered = omega arith; distinct = push_nodes-Nodup 3 }

leader_reading : find_node reading.manager 0x1000 ≡ some 1
unfolding search_tree
leader_reading = refl

abbrev forged : Cred
forged = record (uniform 1000 5) { euid = 0 }

update_cred_judged_example :
    let result = callback_update_cred reading leader leader forged in
    let saved = uniform 1000 0 in
    (((is_cred_syscall (pos 0) ≡ true) ⊎ (checksum saved ≡ checksum forged))
      × (result.1 ≡ forged)
      × ((result.0.manager.pool 1).cred ≡ forged)
      × (result.0.killed ≡ []))
    ⊎ ((is_cred_syscall (pos 0) ≡ false)
        × (checksum saved ≢ checksum forged)
        × SameIds result.1 saved
        × (result.1.rest ≡ 5)
        × ((result.0.manager.pool 1).cred ≡ saved)
        × (result.0.killed ≡ 0x1000 ∷ [])
        × ((k i : ℕ)
            → find_node reading.manager k ≡ some i
            → (reading.manager.pool i).tgid ≡ leader.tgid
            → (result.0.manager.pool i).need_exit ≡ 1))
update_cred_judged_example =
    update_cred_judged reading leader leader forged 1 reading-Inv leader_reading
