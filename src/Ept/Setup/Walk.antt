-- ===== src/Ept/Setup/Walk.antt =====
-- How a processor walks the extended page table.
use alcatraz.Prelude.{ℕ, Bool, ◌+◌, ◌*◌, ◌/◌, ◌%◌, ◌≡◌, arith, ◌==◌, if◌then◌else◌}

-- How a processor reads the tables in memory, four levels down, or fewer where an entry maps a
-- large page: the physical address, the permissions and the size of the page.
abbrev pub frame : ℕ → ℕ
frame e = e / 4096 * 4096

abbrev pub is_large : ℕ → Bool
is_large e = e / 128 % 2 == 1

abbrev pub finish : ℕ → ℕ → ℕ → ℕ → ℕ × ℕ × ℕ
finish e3 e2 e1 a =
    if is_large e3
    then (e3 / 0x40000000 * 0x40000000 + a % 0x40000000, e3 % 8, 0x40000000)
    else if is_large e2
    then (e2 / 0x200000 * 0x200000 + a % 0x200000, e2 % 8, 0x200000)
    else (frame e1 + a % 4096, e1 % 8, 4096)

unfoldable pub walk : (ℕ → ℕ → ℕ) → ℕ → ℕ → ℕ × ℕ × ℕ
walk mem root a =
    let e4 = mem root (a / 0x8000000000 % 512) in
    let e3 = mem (frame e4) (a / 0x40000000 % 512) in
    let e2 = mem (frame e3) (a / 0x200000 % 512) in
    let e1 = mem (frame e2) (a / 4096 % 512) in finish e3 e2 e1 a

-- `a` is mapped to itself, with all permissions, by a page of `size` bytes.
abbrev pub IsOwn : ℕ → ℕ → ℕ × ℕ × ℕ → Type 0
IsOwn a size p = (p.0 ≡ a) × (p.1 ≡ 7) × (p.2 ≡ size)

pub finish-huge :
    (e3 e2 e1 a : ℕ)
    → e3 ≡ a / 0x40000000 * 0x40000000 + 0xB7
    → IsOwn a 0x40000000 (finish e3 e2 e1 a)
finish-huge e3 e2 e1 a h =
    let large : e3 / 128 % 2 ≡ 1 = omega (arith, h) in
    (ground (arith, h, large), ground (arith, h, large), ground (arith, h, large))

pub finish-large :
    (e3 e2 e1 a p : ℕ)
    → e3 ≡ p * 4096 + 7
    → e2 ≡ a / 0x200000 * 0x200000 + 0xB7
    → IsOwn a 0x200000 (finish e3 e2 e1 a)
finish-large e3 e2 e1 a p g h =
    let table : e3 / 128 % 2 ≡ 0 = omega (arith, g) in
    let large : e2 / 128 % 2 ≡ 1 = omega (arith, h) in
    (
      ground (arith, h, large, table),
      ground (arith, h, large, table),
      ground (arith, h, large, table),
    )

pub finish-small :
    (e3 e2 e1 a p q : ℕ)
    → e3 ≡ p * 4096 + 7
    → e2 ≡ q * 4096 + 7
    → e1 ≡ a / 4096 * 4096 + 0x37
    → IsOwn a 4096 (finish e3 e2 e1 a)
finish-small e3 e2 e1 a p q f g h =
    let table : e3 / 128 % 2 ≡ 0 = omega (arith, f) in
    let table' : e2 / 128 % 2 ≡ 0 = omega (arith, g) in
    (
      ground (arith, h, table, table'),
      ground (arith, h, table, table'),
      ground (arith, h, table, table'),
    )
