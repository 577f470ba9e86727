-- ===== src/Monitor/Cred/Laws.antt =====
-- What the comparison of credentials sees and what it misses.
use alcatraz.Prelude.{ℕ, ◌≡◌, ap, ◌↔◌, bit_xor, arith, pos}
use alcatraz.Prelude.Bits.{bits_ext, bit, bit-lt, bit_zero, bit-bit_xor, bit_xor_self}
use alcatraz.Monitor.Cred.{Cred, xor_of_ids, is_cred_same, uniform}

-- The exclusive or of the eight identifiers of one record.
abbrev pub checksum : Cred → ℕ
checksum c =
    let u = bit_xor (bit_xor c.uid c.gid) (bit_xor c.suid c.sgid) in
    bit_xor u (bit_xor (bit_xor c.euid c.egid) (bit_xor c.fsuid c.fsgid))

regroup4 : (a b c d : ℕ) → bit_xor (bit_xor a b) (bit_xor c d) ≡ bit_xor (bit_xor a c) (bit_xor b d)
regroup4 a b c d = bits_ext _ _ λ k. omega (arith, bit-bit_xor k)

xor_of_ids-checksum : (new old : Cred) → xor_of_ids new old ≡ bit_xor (checksum old) (checksum new)
unfolding xor_of_ids
xor_of_ids-checksum new old = bits_ext _ _ λ k. omega (arith, bit-bit_xor k)

xor-eq-zero : (a b : ℕ) → bit_xor a b ≡ 0 → a ≡ b
xor-eq-zero a b h =
    bits_ext a b
      λ k. omega (arith, bit-bit_xor k a b, ap (bit k) h, bit_zero k, bit-lt k a, bit-lt k b)

-- The comparison answers 0 exactly when the two records have the same exclusive or of their eight
-- identifiers, whatever the single identifiers are.
pub is_cred_same_iff :
    (new old : Cred) → (is_cred_same new old ≡ pos 0) ↔ (checksum new ≡ checksum old)
unfolding is_cred_same
is_cred_same_iff new old = ground (
  arith,
  xor_of_ids-checksum new old,
  xor-eq-zero (checksum old) (checksum new),
  bit_xor_self (checksum old),
)

-- Not seen: a process whose identifiers are all `u` gets all of them replaced by `v`, as when an
-- attacker turns a user's process into root's.
pub is_cred_same-uniform : (u v r s : ℕ) → is_cred_same (uniform v s) (uniform u r) ≡ pos 0
is_cred_same-uniform u v r s =
    (is_cred_same_iff (uniform v s) (uniform u r)).1
      (rw (bit_xor_self v, bit_xor_self 0, bit_xor_self u))
