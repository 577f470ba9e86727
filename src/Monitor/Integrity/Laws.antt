-- ===== src/Monitor/Integrity/Laws.antt =====
-- The checks of function pointers find exactly the pointers outside the read-only areas.
use alcatraz.Prelude.{
  ℕ, List, [], ◌∷◌, ◌++◌, Option, none, some, Bool, true, false, ◌&&◌, ◌||◌, not, if◌then◌else◌,
  pos, minus_one, ◌≡◌, refl, ◌∙◌, arith,
}
use alcatraz.Memory.RoArea.{RoAddr, is_addr_in_ro_area}
use alcatraz.Monitor.Integrity.Pointers.{
  Config, InodeOperations, FileOperations, SeqOperations, ProtoOps, inode_pointers, file_pointers,
  seq_pointers, proto_pointers,
}
use alcatraz.Monitor.Integrity.{
  check_pointers, Objects, verdict, check_inode_op_fields, check_file_op_fields,
  check_net_seq_afinfo_fields, check_proto_op_fields, check_file, check_vfs_object, check_seq_file,
  check_sock, check_net_object,
}

-- Whether all of the pointers are in read-only areas.
abbrev pub in_ro : List RoAddr → List ℕ → Bool
in_ro ro [] = true
in_ro ro (p ∷ ps) = is_addr_in_ro_area ro p && in_ro ro ps

in_ro-append :
    (ro : List RoAddr) (ps qs : List ℕ) → in_ro ro (ps ++ qs) ≡ (in_ro ro ps && in_ro ro qs)
in_ro-append ro [] qs = refl
in_ro-append ro (p ∷ ps) qs = ground (arith, in_ro-append ro ps qs)

check_pointers-in_ro :
    (ro : List RoAddr) (error : Bool) (ps : List ℕ)
    → check_pointers ro error ps ≡ (error || not (in_ro ro ps))
unfolding check_pointers
check_pointers-in_ro ro error [] = ground arith
check_pointers-in_ro ro error (p ∷ ps) =
    ground (arith, check_pointers-in_ro ro (error || not (is_addr_in_ro_area ro p)) ps)

all_verdict :
    (ro : List RoAddr) (p q r s t u : List ℕ)
    → verdict (
        false
        || not (in_ro ro p)
        || not (in_ro ro q)
        || not (in_ro ro r)
        || not (in_ro ro s)
        || not (in_ro ro t)
        || not (in_ro ro u))
      ≡ (if in_ro ro ((p ++ q) ++ (r ++ s) ++ (t ++ u)) then pos 0 else minus_one)
all_verdict ro p q r s t u = rw (in_ro-append ro ((p ++ q) ++ (r ++ s)) (t ++ u)) (
    rw (in_ro-append ro (p ++ q) (r ++ s)) (
      rw (in_ro-append ro p q)
        (rw (in_ro-append ro r s) (rw (in_ro-append ro t u) (ground arith)))))

module _ (c : Config) where
  -- All pointers that are looked at behind a file or a socket.
  abbrev pub behind_file : Option (InodeOperations × FileOperations) → List ℕ
  behind_file none = []
  behind_file (some (i, f)) = inode_pointers c i ++ file_pointers c f

  abbrev pub behind_seq_file : Option (FileOperations × SeqOperations) → List ℕ
  behind_seq_file none = []
  behind_seq_file (some (f, s)) = file_pointers c f ++ seq_pointers c s

  abbrev pub behind_sock : Option ProtoOps → List ℕ
  behind_sock none = []
  behind_sock (some op) = proto_pointers c op

  abbrev pub vfs_pointers : Objects → List ℕ
  vfs_pointers o = behind_file o.proc_file ++ behind_file o.root_file

  abbrev pub net_pointers : Objects → List ℕ
  net_pointers o =
      (behind_seq_file o.tcp_file ++ behind_seq_file o.udp_file)
      ++ (behind_seq_file o.tcp6_file ++ behind_seq_file o.udp6_file)
      ++ (behind_sock o.tcp_sock ++ behind_sock o.udp_sock)

module _ (c : Config) (ro : List RoAddr) where
  check_file-verdict :
      (f : Option (InodeOperations × FileOperations)) (e : Bool)
      → check_file c ro f (verdict e) ≡ verdict (e || not (in_ro ro (behind_file c f)))
  unfolding check_file check_inode_op_fields check_file_op_fields
  check_file-verdict none e = ground arith
  check_file-verdict (some (i, f)) e = ground (
    arith,
    check_pointers-in_ro ro false (inode_pointers c i),
    check_pointers-in_ro ro false (file_pointers c f),
    in_ro-append ro (inode_pointers c i) (file_pointers c f),
  )

  check_seq_file-verdict :
      (f : Option (FileOperations × SeqOperations)) (e : Bool)
      → check_seq_file c ro f (verdict e) ≡ verdict (e || not (in_ro ro (behind_seq_file c f)))
  unfolding check_seq_file check_net_seq_afinfo_fields check_file_op_fields
  check_seq_file-verdict none e = ground arith
  check_seq_file-verdict (some (f, s)) e = ground (
    arith,
    check_pointers-in_ro ro false (file_pointers c f),
    check_pointers-in_ro ro false (seq_pointers c s),
    in_ro-append ro (file_pointers c f) (seq_pointers c s),
  )

  check_sock-verdict :
      (s : Option ProtoOps) (e : Bool)
      → check_sock c ro s (verdict e) ≡ verdict (e || not (in_ro ro (behind_sock c s)))
  unfolding check_sock check_proto_op_fields
  check_sock-verdict none e = ground arith
  check_sock-verdict (some op) e =
      ground (arith, check_pointers-in_ro ro false (proto_pointers c op))

  -- The check of the file systems answers 0 exactly when every pointer that it looks at, behind
  -- either file that is open, is NULL or in a read-only area; otherwise it answers -1.
  pub check_vfs_object-in_ro :
      (o : Objects)
      → check_vfs_object c ro o ≡ (if in_ro ro (vfs_pointers c o) then pos 0 else minus_one)
  unfolding check_vfs_object
  check_vfs_object-in_ro o = ground (
    arith,
    check_file-verdict o.proc_file false,
    check_file-verdict o.root_file (not (in_ro ro (behind_file c o.proc_file))),
    in_ro-append ro (behind_file c o.proc_file) (behind_file c o.root_file),
  )

  net_verdict :
      (o : Objects)
      → check_net_object c ro o
        ≡ verdict (
            false
            || not (in_ro ro (behind_seq_file c o.tcp_file))
            || not (in_ro ro (behind_seq_file c o.udp_file))
            || not (in_ro ro (behind_seq_file c o.tcp6_file))
            || not (in_ro ro (behind_seq_file c o.udp6_file))
            || not (in_ro ro (behind_sock c o.tcp_sock))
            || not (in_ro ro (behind_sock c o.udp_sock)))
  unfolding check_net_object
  net_verdict o = rw (check_seq_file-verdict o.tcp_file false) (
      rw (check_seq_file-verdict o.udp_file _) (
        rw (check_seq_file-verdict o.tcp6_file _) (
          rw (check_seq_file-verdict o.udp6_file _) (
            rw (check_sock-verdict o.tcp_sock _)
              (rw (check_sock-verdict o.udp_sock _) (ground arith))))))

  -- The check of the network objects answers 0 exactly when every pointer that it looks at, behind
  -- the files and sockets that are open, is NULL or in a read-only area; otherwise it answers -1.
  pub check_net_object-in_ro :
      (o : Objects)
      → check_net_object c ro o ≡ (if in_ro ro (net_pointers c o) then pos 0 else minus_one)
  check_net_object-in_ro o =
      net_verdict o
      ∙ all_verdict ro (behind_seq_file c o.tcp_file) (behind_seq_file c o.udp_file)
          (behind_seq_file c o.tcp6_file) (behind_seq_file c o.udp6_file) (behind_sock c o.tcp_sock)
          (behind_sock c o.udp_sock)
