-- ===== src/Monitor/Integrity/Pointers.antt =====
-- The structures of function pointers that Source/hyper_box/monitor.c checks, and which of their
-- fields it looks at: this depends on the version of the kernel and on the build.
use alcatraz.Prelude.{ℕ, ◌+◌, ◌*◌, List, [], ◌∷◌, ltb, Bool, ◌&&◌, not, if◌then◌else◌}

-- `version` is `LINUX_VERSION_CODE`; the others are the build's settings of the same names, where
-- `timer_interval` is counted in microseconds.
pub record Config : Type 0 where
  pub version : ℕ
  pub use_compat : Bool
  pub hard_test : Bool
  pub timer_interval : ℕ

-- `LINUX_VERSION_CODE < KERNEL_VERSION(a, b, d)`.
abbrev pub before : Config → ℕ → ℕ → ℕ → Bool
before c a b d = ltb c.version (a * 65536 + b * 256 + d)

-- A field that an `#if` leaves in or out.
abbrev pub only_if : Bool → ℕ → List ℕ → List ℕ
only_if b p rest = if b then p ∷ rest else rest

-- `struct inode_operations`, the function pointers that are checked.
pub record InodeOperations : Type 0 where
  pub lookup : ℕ
  pub follow_link : ℕ
  pub get_link : ℕ
  pub permission : ℕ
  pub get_acl : ℕ
  pub readlink : ℕ
  pub put_link : ℕ
  pub create : ℕ
  pub link : ℕ
  pub unlink : ℕ
  pub symlink : ℕ
  pub mkdir : ℕ
  pub rmdir : ℕ
  pub mknod : ℕ
  pub rename : ℕ
  pub rename2 : ℕ
  pub setattr : ℕ
  pub getattr : ℕ
  pub setxattr : ℕ
  pub getxattr : ℕ
  pub listxattr : ℕ
  pub removexattr : ℕ
  pub fiemap : ℕ
  pub update_time : ℕ
  pub atomic_open : ℕ
  pub tmpfile : ℕ
  pub set_acl : ℕ

-- `struct file_operations`, the function pointers that are checked.
pub record FileOperations : Type 0 where
  pub llseek : ℕ
  pub read : ℕ
  pub write : ℕ
  pub aio_read : ℕ
  pub aio_write : ℕ
  pub read_iter : ℕ
  pub write_iter : ℕ
  pub iterate : ℕ
  pub iterate_shared : ℕ
  pub poll : ℕ
  pub unlocked_ioctl : ℕ
  pub compat_ioctl : ℕ
  pub mmap : ℕ
  pub open_file : ℕ
  pub flush : ℕ
  pub release : ℕ
  pub fsync : ℕ
  pub aio_fsync : ℕ
  pub fasync : ℕ
  pub lock : ℕ
  pub sendpage : ℕ
  pub get_unmapped_area : ℕ
  pub check_flags : ℕ
  pub flock : ℕ
  pub splice_write : ℕ
  pub splice_read : ℕ
  pub setlease : ℕ
  pub fallocate : ℕ
  pub show_fdinfo : ℕ
  pub copy_file_range : ℕ
  pub remap_file_range : ℕ
  pub clone_file_range : ℕ
  pub dedupe_file_range : ℕ

-- `struct seq_operations`, the function pointers that are checked.
pub record SeqOperations : Type 0 where
  pub start : ℕ
  pub stop : ℕ
  pub next : ℕ
  pub show : ℕ

-- `struct proto_ops`, the function pointers that are checked.
pub record ProtoOps : Type 0 where
  pub release : ℕ
  pub bind : ℕ
  pub connect : ℕ
  pub socketpair : ℕ
  pub accept : ℕ
  pub getname : ℕ
  pub poll : ℕ
  pub ioctl : ℕ
  pub compat_ioctl : ℕ
  pub listen : ℕ
  pub shutdown : ℕ
  pub setsockopt : ℕ
  pub getsockopt : ℕ
  pub compat_setsockopt : ℕ
  pub compat_getsockopt : ℕ
  pub sendmsg : ℕ
  pub recvmsg : ℕ
  pub mmap : ℕ
  pub sendpage : ℕ
  pub splice_read : ℕ
  pub set_peek_off : ℕ

-- The fields in the order in which they are checked.
unfoldable pub inode_pointers : Config → InodeOperations → List ℕ
inode_pointers c op =
    op.lookup
    ∷ only_if (before c 4 5 0) op.follow_link (
        only_if (not (before c 4 5 0)) op.get_link (
          op.permission
          ∷ op.get_acl
          ∷ op.readlink
          ∷ only_if (before c 4 5 0) op.put_link (
              op.create
              ∷ op.link
              ∷ op.unlink
              ∷ op.symlink
              ∷ op.mkdir
              ∷ op.rmdir
              ∷ op.mknod
              ∷ op.rename
              ∷ only_if (before c 4 9 0) op.rename2 (
                  op.setattr
                  ∷ op.getattr
                  ∷ only_if (before c 4 9 0) op.setxattr (
                      only_if (before c 4 9 0) op.getxattr (
                        op.listxattr
                        ∷ only_if (before c 4 9 0) op.removexattr (
                            op.fiemap ∷ op.update_time ∷ op.atomic_open ∷ op.tmpfile ∷ op.set_acl
                            ∷ [])))))))

unfoldable pub file_pointers : Config → FileOperations → List ℕ
file_pointers c op =
    op.llseek
    ∷ op.read
    ∷ op.write
    ∷ only_if (before c 3 19 0) op.aio_read (
        only_if (before c 3 19 0) op.aio_write (
          op.read_iter
          ∷ op.write_iter
          ∷ op.iterate
          ∷ only_if (not (before c 4 6 0)) op.iterate_shared (
              op.poll
              ∷ op.unlocked_ioctl
              ∷ only_if (c.use_compat) op.compat_ioctl (
                  op.mmap
                  ∷ op.open_file
                  ∷ op.flush
                  ∷ op.release
                  ∷ op.fsync
                  ∷ only_if (before c 4 9 0) op.aio_fsync (
                      op.fasync
                      ∷ op.lock
                      ∷ op.sendpage
                      ∷ op.get_unmapped_area
                      ∷ op.check_flags
                      ∷ op.flock
                      ∷ op.splice_write
                      ∷ op.splice_read
                      ∷ op.setlease
                      ∷ op.fallocate
                      ∷ op.show_fdinfo
                      ∷ only_if (not (before c 4 5 0)) op.copy_file_range (
                          only_if (not (before c 4 20 0)) op.remap_file_range (
                            only_if (not (before c 4 5 0) && before c 4 20 0) op.clone_file_range (
                              only_if (not (before c 4 5 0) && before c 4 20 0) op.dedupe_file_range
                                ([])))))))))

unfoldable pub seq_pointers : Config → SeqOperations → List ℕ
seq_pointers c op = op.start ∷ op.stop ∷ op.next ∷ op.show ∷ []

unfoldable pub proto_pointers : Config → ProtoOps → List ℕ
proto_pointers c op =
    op.release
    ∷ op.bind
    ∷ op.connect
    ∷ op.socketpair
    ∷ op.accept
    ∷ op.getname
    ∷ op.poll
    ∷ op.ioctl
    ∷ only_if (c.use_compat) op.compat_ioctl (
        op.listen
        ∷ op.shutdown
        ∷ op.setsockopt
        ∷ op.getsockopt
        ∷ only_if (before c 5 9 0 && c.use_compat) op.compat_setsockopt (
            only_if (before c 5 9 0 && c.use_compat) op.compat_getsockopt (
              op.sendmsg ∷ op.recvmsg ∷ op.mmap ∷ op.sendpage ∷ op.splice_read ∷ op.set_peek_off
              ∷ [])))
