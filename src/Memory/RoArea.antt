-- ===== src/Memory/RoArea.antt =====
-- The read-only areas: `g_ro_array`, of which `g_ro_array_count` entries are in use, and the
-- functions of Source/hyper_box/hypervisor.c on it. The list holds the entries in use.
pub mod Laws
pub mod Kernel
use alcatraz.Prelude.{
  ℕ, zero, suc, ◌+◌, List, [], ◌∷◌, ◌++◌, length, ltb, leb, ◌==◌, if◌then◌else◌, Bool, true, false,
  ◌&&◌, ◌||◌, not, ℤ, pos, minus_one, Option, none, some,
}

-- `struct ro_addr_struct`.
pub record RoAddr : Type 0 where
  pub start : ℕ
  pub end : ℕ
  pub type : ℕ

abbrev pub max_ro_array_count : ℕ
max_ro_array_count = 4096

abbrev pub ro_module : ℕ
ro_module = 0

abbrev pub ro_kernel : ℕ
ro_kernel = 1

-- The write to the first empty slot, or behind the last entry.
unfoldable pub put_ro_area : RoAddr → List RoAddr → List RoAddr
put_ro_area a [] = a ∷ []
put_ro_area a (x ∷ xs) = if x.start == 0 && x.end == 0 then a ∷ xs else x ∷ put_ro_area a xs

unfoldable pub add_ro_area : List RoAddr → ℕ → ℕ → ℕ → List RoAddr
add_ro_area xs start end ro_type =
    if leb max_ro_array_count (length xs)
    then xs
    else put_ro_area (record { start = start; end = end; type = ro_type }) xs

-- `none` is the result -1. A deleted entry keeps its type and its place.
unfoldable pub clear_ro_area : List RoAddr → ℕ → ℕ → Option (List RoAddr)
clear_ro_area [] start end = none
clear_ro_area (x ∷ xs) start end =
    let rest = clear_ro_area xs start end in
    if x.start == start && x.end == end
    then some (record x { start = 0; end = 0 } ∷ xs)
    else elim rest [ none ↦ none | some ys ↦ some (x ∷ ys) ]

unfoldable pub delete_ro_area : List RoAddr → ℕ → ℕ → List RoAddr × ℤ
delete_ro_area xs start end = elim (clear_ro_area xs start end) [
  | none ↦ (xs, minus_one)
  | some ys ↦ (ys, pos 0)
]

abbrev pub holds : RoAddr → ℕ → Bool
holds x addr = leb x.start addr && ltb addr x.end

unfoldable pub in_areas : List RoAddr → ℕ → Bool
in_areas [] addr = false
in_areas (x ∷ xs) addr = holds x addr || in_areas xs addr

unfoldable pub is_addr_in_ro_area : List RoAddr → ℕ → Bool
is_addr_in_ro_area xs addr = if addr == 0 then true else in_areas xs addr

-- The search for a kernel area ends at the first entry of a module.
unfoldable pub in_kernel_areas : List RoAddr → ℕ → Bool
in_kernel_areas [] addr = false
in_kernel_areas (x ∷ xs) addr =
    let rest = in_kernel_areas xs addr in
    if holds x addr && x.type == ro_kernel
    then true
    else if x.type == ro_module
    then false
    else rest

unfoldable pub is_addr_in_kernel_ro_area : List RoAddr → ℕ → Bool
is_addr_in_kernel_ro_area xs addr = if addr == 0 then true else in_kernel_areas xs addr
