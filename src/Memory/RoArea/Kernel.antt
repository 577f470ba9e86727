-- ===== src/Memory/RoArea/Kernel.antt =====
-- The areas of the kernel stay what they are while modules come and go.
use alcatraz.Prelude.{
  ℕ, List, [], ◌∷◌, ◌==◌, true, false, ◌&&◌, ◌≡◌, arith, Bool-cases, inl, inr, Option-cases, some,
}
use alcatraz.Memory.RoArea.{
  RoAddr, ro_module, put_ro_area, add_ro_area, clear_ro_area, delete_ro_area, in_areas,
  is_addr_in_ro_area, in_kernel_areas, is_addr_in_kernel_ro_area,
}

-- An entry that is not a module's is neither empty nor the area from `start` to `end`.
abbrev pub KernelApart : ℕ → ℕ → List RoAddr → Type 0
KernelApart start end [] = Unit {0}
KernelApart start end (x ∷ xs) =
    ((x.type == ro_module) ≡ false
      → ((x.start == 0 && x.end == 0) ≡ false) × ((x.start == start && x.end == end) ≡ false))
    × KernelApart start end xs

in_kernel_areas-put_ro_area :
    (xs : List RoAddr) (start end p : ℕ)
    → KernelApart start end xs
    → in_kernel_areas (put_ro_area (record { start = start; end = end; type = ro_module }) xs) p
      ≡ in_kernel_areas xs p
unfolding put_ro_area in_kernel_areas
in_kernel_areas-put_ro_area [] start end p h = ground arith
in_kernel_areas-put_ro_area (x ∷ xs) start end p h = elim (Bool-cases (x.type == ro_module)) [
  | inl e ↦ ground (arith, e)
  | inr e ↦ ground (arith, e, (h.0 e).0, in_kernel_areas-put_ro_area xs start end p h.1)
]

in_kernel_areas-clear_ro_area :
    (xs ys : List RoAddr) (start end p : ℕ)
    → KernelApart start end xs
    → clear_ro_area xs start end ≡ some ys
    → in_kernel_areas ys p ≡ in_kernel_areas xs p
unfolding clear_ro_area in_kernel_areas
in_kernel_areas-clear_ro_area [] ys start end p h c = cc
in_kernel_areas-clear_ro_area (x ∷ xs) ys start end p h c =
    elim (Option-cases (clear_ro_area xs start end)) [
      | inl n ↦ elim (Bool-cases (x.type == ro_module)) [
        | inl e ↦ ground (arith, c, n, e)
        | inr e ↦ ground (arith, c, n, (h.0 e).1)
      ]
      | inr (zs, n) ↦ elim (Bool-cases (x.type == ro_module)) [
        | inl e ↦ ground (arith, c, n, e)
        | inr e ↦
            ground (arith, c, n, (h.0 e).1, in_kernel_areas-clear_ro_area xs zs start end p h.1 n)
      ]
    ]

-- Adding and deleting the area of a module changes for no address whether it counts as the
-- kernel's, when the kernel's entries are not empty and none is the module's area.
pub is_addr_in_kernel_ro_area-module :
    (xs : List RoAddr) (start end addr : ℕ)
    → KernelApart start end xs
    → (is_addr_in_kernel_ro_area (add_ro_area xs start end ro_module) addr
        ≡ is_addr_in_kernel_ro_area xs addr)
      × (is_addr_in_kernel_ro_area (delete_ro_area xs start end).0 addr
          ≡ is_addr_in_kernel_ro_area xs addr)
unfolding add_ro_area delete_ro_area is_addr_in_kernel_ro_area
is_addr_in_kernel_ro_area-module xs start end addr h = (
  ground (arith, in_kernel_areas-put_ro_area xs start end addr h),
  elim (Option-cases (clear_ro_area xs start end)) [
    | inl n ↦ ground (arith, n)
    | inr (ys, n) ↦ ground (arith, n, in_kernel_areas-clear_ro_area xs ys start end addr h n)
  ],
)

in_kernel_areas-in_areas :
    (xs : List RoAddr) (p : ℕ) → in_kernel_areas xs p ≡ true → in_areas xs p ≡ true
unfolding in_kernel_areas in_areas
in_kernel_areas-in_areas [] p h = h
in_kernel_areas-in_areas (x ∷ xs) p h = ground (arith, h, in_kernel_areas-in_areas xs p)

-- What counts as the kernel's is read-only.
pub is_addr_in_kernel_ro_area-is_addr_in_ro_area :
    (xs : List RoAddr) (addr : ℕ)
    → is_addr_in_kernel_ro_area xs addr ≡ true
    → is_addr_in_ro_area xs addr ≡ true
unfolding is_addr_in_kernel_ro_area is_addr_in_ro_area
is_addr_in_kernel_ro_area-is_addr_in_ro_area xs addr h =
    ground (arith, h, in_kernel_areas-in_areas xs addr)
