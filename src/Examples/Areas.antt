-- ===== src/Examples/Areas.antt =====
-- Read-only areas of a kernel and two modules, and function pointers into them.
use alcatraz.Prelude.{
  ◌≡◌, List, [], ◌∷◌, none, some, false, ◌||◌, if◌then◌else◌, pos, minus_one, ltb, leb, length,
  ◌&&◌,
}
use alcatraz.Memory.RoArea.{
  RoAddr, max_ro_array_count, ro_module, ro_kernel, add_ro_area, is_addr_in_ro_area,
}
use alcatraz.Memory.RoArea.Laws.{is_addr_in_ro_area-add_ro_area}
use alcatraz.Monitor.Integrity.Pointers.{Config, InodeOperations, FileOperations, ProtoOps}
use alcatraz.Monitor.Integrity.{Objects, check_vfs_object}
use alcatraz.Monitor.Integrity.Laws.{in_ro, vfs_pointers, check_vfs_object-in_ro}

-- The kernel's text, an unloaded module's slot, and a module.
abbrev areas : List RoAddr
areas =
    record { start = 0x1000; end = 0x3000; type = ro_kernel }
    ∷ record { start = 0; end = 0; type = ro_module }
    ∷ record { start = 0x8000; end = 0x9000; type = ro_module }
    ∷ []

is_addr_in_ro_area-add_ro_area_example :
    is_addr_in_ro_area (add_ro_area areas 0x5000 0x6000 ro_module) 0x5800 ≡ (
      is_addr_in_ro_area areas 0x5800
      || (ltb (length areas) max_ro_array_count && (leb 0x5000 0x5800 && ltb 0x5800 0x6000)))
is_addr_in_ro_area-add_ro_area_example =
    is_addr_in_ro_area-add_ro_area areas 0x5000 0x6000 ro_module 0x5800

-- Linux 5.8.
abbrev kernel : Config
kernel = record {
  version = 0x050800;
  use_compat = false;
  hard_test = false;
  timer_interval = 100000;
}

abbrev socket : ProtoOps
socket = record {
  release = 0x1100;
  bind = 0x1200;
  connect = 0x1300;
  socketpair = 0;
  accept = 0x1400;
  getname = 0;
  poll = 0x8100;
  ioctl = 0x8200;
  compat_ioctl = 0;
  listen = 0x1500;
  shutdown = 0x1600;
  setsockopt = 0x1700;
  getsockopt = 0x1800;
  compat_setsockopt = 0;
  compat_getsockopt = 0;
  sendmsg = 0x1900;
  recvmsg = 0x1A00;
  mmap = 0;
  sendpage = 0;
  splice_read = 0;
  set_peek_off = 0;
}

abbrev inodes : InodeOperations
inodes = record {
  lookup = 0x2000;
  follow_link = 0;
  get_link = 0;
  permission = 0;
  get_acl = 0;
  readlink = 0;
  put_link = 0;
  create = 0;
  link = 0;
  unlink = 0;
  symlink = 0;
  mkdir = 0;
  rmdir = 0;
  mknod = 0;
  rename = 0;
  rename2 = 0;
  setattr = 0;
  getattr = 0;
  setxattr = 0;
  getxattr = 0;
  listxattr = 0;
  removexattr = 0;
  fiemap = 0;
  update_time = 0;
  atomic_open = 0;
  tmpfile = 0;
  set_acl = 0;
}

abbrev files : FileOperations
files = record {
  llseek = 0;
  read = 0x2100;
  write = 0;
  aio_read = 0;
  aio_write = 0;
  read_iter = 0;
  write_iter = 0;
  iterate = 0;
  iterate_shared = 0;
  poll = 0;
  unlocked_ioctl = 0;
  compat_ioctl = 0;
  mmap = 0;
  open_file = 0;
  flush = 0;
  release = 0;
  fsync = 0;
  aio_fsync = 0;
  fasync = 0;
  lock = 0;
  sendpage = 0;
  get_unmapped_area = 0;
  check_flags = 0;
  flock = 0;
  splice_write = 0;
  splice_read = 0;
  setlease = 0;
  fallocate = 0;
  show_fdinfo = 0;
  copy_file_range = 0;
  remap_file_range = 0;
  clone_file_range = 0;
  dedupe_file_range = 0;
}

abbrev clean : Objects
clean = record {
  proc_file = none;
  root_file = none;
  tcp_file = none;
  udp_file = none;
  tcp6_file = none;
  udp6_file = none;
  tcp_sock = some socket;
  udp_sock = none;
}

abbrev hooked : Objects
hooked = record clean { udp_sock = some (record socket { sendmsg = 0xA000 }) }

-- The `iterate` of the root file system points to where nothing is read-only.
abbrev rooted : Objects
rooted = record clean {
  proc_file = some (inodes, files);
  root_file = some (inodes, record files { iterate = 0xA000 });
}

check_vfs_object-in_ro_example :
    check_vfs_object kernel areas rooted
    ≡ (if in_ro areas (vfs_pointers kernel rooted) then pos 0 else minus_one)
check_vfs_object-in_ro_example = check_vfs_object-in_ro kernel areas rooted
