-- ===== src/Monitor/Integrity.antt =====
-- The periodic check of function pointers in Source/hyper_box/monitor.c: the fields of the kernel's
-- file system and network objects have to point into read-only areas. What the code prints and
-- reports to the log is left out.
pub mod Pointers
pub mod Laws
pub mod Timer
use alcatraz.Prelude.{
  ℕ, ◌+◌, ◌-◌, ◌^◌, ◌%◌, List, [], ◌∷◌, Option, none, some, Bool, true, false, ◌||◌, not, ◌==◌, leb,
  ltb, if◌then◌else◌, ℤ, pos, minus_one, ltz, ◌&&◌,
}
use alcatraz.Memory.RoArea.{RoAddr, is_addr_in_ro_area}
use alcatraz.Monitor.Integrity.Pointers.{
  Config, InodeOperations, FileOperations, SeqOperations, ProtoOps, inode_pointers, file_pointers,
  seq_pointers, proto_pointers,
}

-- The lines `error |= !hb_is_addr_in_ro_area(...)`, from the value of `error` on.
unfoldable pub check_pointers : List RoAddr → Bool → List ℕ → Bool
check_pointers ro error [] = error
check_pointers ro error (p ∷ ps) = check_pointers ro (error || not (is_addr_in_ro_area ro p)) ps

-- The kernel's objects that the monitor has opened: the operations of the files, and of sockets.
-- A pointer to a file or socket that is NULL is `none`.
pub record Objects : Type 0 where
  pub proc_file : Option (InodeOperations × FileOperations)
  pub root_file : Option (InodeOperations × FileOperations)
  pub tcp_file : Option (FileOperations × SeqOperations)
  pub udp_file : Option (FileOperations × SeqOperations)
  pub tcp6_file : Option (FileOperations × SeqOperations)
  pub udp6_file : Option (FileOperations × SeqOperations)
  pub tcp_sock : Option ProtoOps
  pub udp_sock : Option ProtoOps

-- `ret |= result`, where both are 0 or -1.
abbrev pub or_result : ℤ → ℤ → ℤ
or_result ret result =
    if ltz ret (pos 0) then minus_one else if ltz result (pos 0) then minus_one else pos 0

-- What every check of a group of fields returns.
abbrev pub verdict : Bool → ℤ
verdict error = if error then minus_one else pos 0

module _ (c : Config) (ro : List RoAddr) where
  unfoldable pub check_inode_op_fields : InodeOperations → ℤ
  check_inode_op_fields op = verdict (check_pointers ro false (inode_pointers c op))

  unfoldable pub check_file_op_fields : FileOperations → ℤ
  check_file_op_fields op = verdict (check_pointers ro false (file_pointers c op))

  unfoldable pub check_net_seq_afinfo_fields : FileOperations → SeqOperations → ℤ
  check_net_seq_afinfo_fields fops sops =
      if ltz (check_file_op_fields fops) (pos 0)
      then minus_one
      else verdict (check_pointers ro false (seq_pointers c sops))

  unfoldable pub check_proto_op_fields : ProtoOps → ℤ
  check_proto_op_fields op = verdict (check_pointers ro false (proto_pointers c op))

  unfoldable pub check_file : Option (InodeOperations × FileOperations) → ℤ → ℤ
  check_file none ret = ret
  check_file (some (inode_op, file_op)) ret =
      or_result (or_result ret (check_inode_op_fields inode_op)) (check_file_op_fields file_op)

  unfoldable pub check_vfs_object : Objects → ℤ
  check_vfs_object o = check_file o.root_file (check_file o.proc_file (pos 0))

  unfoldable pub check_seq_file : Option (FileOperations × SeqOperations) → ℤ → ℤ
  check_seq_file none ret = ret
  check_seq_file (some (fops, sops)) ret = or_result ret (check_net_seq_afinfo_fields fops sops)

  unfoldable pub check_sock : Option ProtoOps → ℤ → ℤ
  check_sock none ret = ret
  check_sock (some op) ret = or_result ret (check_proto_op_fields op)

  unfoldable pub check_net_object : Objects → ℤ
  check_net_object o =
      let ret = check_seq_file o.udp_file (check_seq_file o.tcp_file (pos 0)) in
      let ret6 = check_seq_file o.udp6_file (check_seq_file o.tcp6_file ret) in
      check_sock o.udp_sock (check_sock o.tcp_sock ret6)

-- `hb_check_timer_expired_and_update`, where `locked` says whether `spin_trylock` got the lock: the
-- result and the new value of `*last_jiffies`. The kernel converts jiffies to microseconds.
unfoldable pub check_timer_expired_and_update :
    Config → (jiffies_to_usecs : ℕ → ℕ) → Bool → ℕ → ℕ → Bool × ℕ
check_timer_expired_and_update c jiffies_to_usecs locked jiffies last =
    let value = (jiffies + 2 ^ 64 - last) % 2 ^ 64 in
    let expired = locked && leb c.timer_interval (jiffies_to_usecs value) in
    (expired || c.hard_test, if expired then jiffies else last)

-- `g_last_dkom_check_jiffies` and the two flags.
pub record Periodic : Type 0 where
  pub last_dkom_check_jiffies : ℕ
  pub vfs_object_attack_detected : ℕ
  pub net_object_attack_detected : ℕ

abbrev note : ℕ → ℤ → ℕ
note detected result =
    if detected == 0 then if ltz result (pos 0) then 1 else detected else detected

unfoldable pub check_function_pointers_periodic :
    Config → (jiffies_to_usecs : ℕ → ℕ) → List RoAddr → Objects → Bool → ℕ → Periodic → Periodic
check_function_pointers_periodic c jiffies_to_usecs ro o locked jiffies s =
    let (expired, last) =
      check_timer_expired_and_update c jiffies_to_usecs locked jiffies s.last_dkom_check_jiffies in
    if not expired then s else record {
      last_dkom_check_jiffies = last;
      vfs_object_attack_detected = note s.vfs_object_attack_detected (check_vfs_object c ro o);
      net_object_attack_detected = note s.net_object_attack_detected (check_net_object c ro o);
    }
