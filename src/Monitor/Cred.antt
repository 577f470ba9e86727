-- ===== src/Monitor/Cred.antt =====
-- Credentials: `hb_is_cred_same` and `hb_check_systemcall_for_cred` of
-- Source/hyper_box/monitor.c.
pub mod Laws
use alcatraz.Prelude.{ℕ, Bool, not, ◌||◌, bit_xor, ◌==◌, if◌then◌else◌, ℤ, pos, minus_one, ◌==ℤ◌}

-- The fields of the kernel's `struct cred` that the code reads or writes one by one; `rest` stands
-- for the other ones, which the code only copies with the whole.
pub record Cred : Type 0 where
  pub uid : ℕ
  pub gid : ℕ
  pub suid : ℕ
  pub sgid : ℕ
  pub euid : ℕ
  pub egid : ℕ
  pub fsuid : ℕ
  pub fsgid : ℕ
  pub rest : ℕ

-- All identifiers alike, as those of an ordinary process or of root.
abbrev pub uniform : ℕ → ℕ → Cred
uniform u r = record {
  uid = u;
  gid = u;
  suid = u;
  sgid = u;
  euid = u;
  egid = u;
  fsuid = u;
  fsgid = u;
  rest = r;
}

-- The value of the condition: `^` associates to the left.
pub xor_of_ids : Cred → Cred → ℕ
xor_of_ids new old =
    let a = bit_xor (bit_xor (bit_xor old.uid new.uid) old.gid) new.gid in
    let b = bit_xor (bit_xor (bit_xor (bit_xor a old.suid) new.suid) old.sgid) new.sgid in
    let c = bit_xor (bit_xor (bit_xor (bit_xor b old.euid) new.euid) old.egid) new.egid in
    bit_xor (bit_xor (bit_xor (bit_xor c old.fsuid) new.fsuid) old.fsgid) new.fsgid

unfoldable pub is_cred_same : Cred → Cred → ℤ
unfolding xor_of_ids
is_cred_same new old = if not (xor_of_ids new old == 0) then minus_one else pos 0

-- System call numbers of x86-64 Linux.
abbrev pub nr_clone : ℕ
nr_clone = 56

abbrev pub nr_fork : ℕ
nr_fork = 57

abbrev pub nr_vfork : ℕ
nr_vfork = 58

abbrev pub nr_execve : ℕ
nr_execve = 59

abbrev pub nr_exit : ℕ
nr_exit = 60

abbrev pub nr_execveat : ℕ
nr_execveat = 322

-- The calls that may change the credentials; -1 stands for a task that has made no call yet.
unfoldable pub is_cred_syscall : ℤ → Bool
is_cred_syscall n =
    -- execve, setuid, setgid, setreuid, setregid
    n ==ℤ pos 59
    || n ==ℤ pos 105
    || n ==ℤ pos 106
    || n ==ℤ pos 113
    || n ==ℤ pos 114
    -- setresuid, setresgid, setfsuid, setfsgid, setgroups
    || n ==ℤ pos 117
    || n ==ℤ pos 119
    || n ==ℤ pos 122
    || n ==ℤ pos 123
    || n ==ℤ pos 116
    -- capset, prctl, unshare, keyctl
    || n ==ℤ pos 126
    || n ==ℤ pos 157
    || n ==ℤ pos 272
    || n ==ℤ pos 250
    || n ==ℤ minus_one

unfoldable pub check_systemcall_for_cred : ℤ → ℤ
unfolding is_cred_syscall
check_systemcall_for_cred n = if not (is_cred_syscall n) then minus_one else pos 0
