-- ===== src/Memory/RoArea/Laws.antt =====
-- What the read-only areas cover after additions and deletions.
use alcatraz.Prelude.{
  ℕ, suc, ◌<◌, ◌≤◌, List, [], ◌∷◌, length, ltb, leb, ◌==◌, false, ◌&&◌, ◌||◌, pos, some, ◌≡◌, arith,
  Bool-cases, inl, inr, ==_self,
}
use alcatraz.Memory.RoArea.{
  RoAddr, max_ro_array_count, put_ro_area, add_ro_area, clear_ro_area, delete_ro_area, holds,
  in_areas, is_addr_in_ro_area,
}

in_areas-put_ro_area :
    (a : RoAddr) (xs : List RoAddr) (p : ℕ)
    → in_areas (put_ro_area a xs) p ≡ (holds a p || in_areas xs p)
unfolding put_ro_area in_areas
in_areas-put_ro_area a [] p = ground arith
in_areas-put_ro_area a (x ∷ xs) p = ground (arith, in_areas-put_ro_area a xs p)

-- While the array has room, an added area and what was covered before are covered, and nothing else
-- is, whichever slot the area goes to; a full array refuses it and stays as it is.
pub is_addr_in_ro_area-add_ro_area :
    (xs : List RoAddr) (start end ro_type addr : ℕ)
    → is_addr_in_ro_area (add_ro_area xs start end ro_type) addr ≡ (
        is_addr_in_ro_area xs addr
        || (ltb (length xs) max_ro_array_count && (leb start addr && ltb addr end)))
unfolding add_ro_area is_addr_in_ro_area
is_addr_in_ro_area-add_ro_area xs start end ro_type addr =
    ground
      (arith, in_areas-put_ro_area (record { start = start; end = end; type = ro_type }) xs addr)

-- No entry is the area from `start` to `end`.
abbrev pub Fresh : ℕ → ℕ → List RoAddr → Type 0
Fresh start end [] = Unit {0}
Fresh start end (x ∷ xs) = ((x.start == start && x.end == end) ≡ false) × Fresh start end xs

clear_ro_area-put_ro_area :
    (a : RoAddr) (xs : List RoAddr) (p : ℕ)
    → Fresh a.start a.end xs
    → (ys : List RoAddr) × (clear_ro_area (put_ro_area a xs) a.start a.end ≡ some ys)
      × (in_areas ys p ≡ in_areas xs p)
unfolding clear_ro_area put_ro_area in_areas
clear_ro_area-put_ro_area a [] p f = (
  record a { start = 0; end = 0 } ∷ [],
  ground (arith, ==_self a.start, ==_self a.end),
  ground arith,
)
clear_ro_area-put_ro_area a (x ∷ xs) p f = elim (Bool-cases (x.start == 0 && x.end == 0)) [
  | inl e ↦ (
    record a { start = 0; end = 0 } ∷ xs,
    ground (arith, e, ==_self a.start, ==_self a.end),
    ground (arith, e),
  )
  | inr e ↦
      let (ys, c, k) = clear_ro_area-put_ro_area a xs p f.1 in
      (x ∷ ys, ground (arith, e, c, f.0), ground (arith, k))
]

-- Loading and unloading: an area that is added to an array with room for it and then deleted is
-- found by the deletion, and exactly what was covered before is covered again.
pub delete_ro_area-add_ro_area :
    (xs : List RoAddr) (start end ro_type addr : ℕ)
    → length xs < max_ro_array_count
    → Fresh start end xs
    → let r = delete_ro_area (add_ro_area xs start end ro_type) start end in
      (r.1 ≡ pos 0) × (is_addr_in_ro_area r.0 addr ≡ is_addr_in_ro_area xs addr)
unfolding delete_ro_area add_ro_area is_addr_in_ro_area
delete_ro_area-add_ro_area xs start end ro_type addr h f =
    let (ys, c, k) =
      clear_ro_area-put_ro_area (record { start = start; end = end; type = ro_type }) xs addr f in
    (ground (arith, c), ground (arith, c, k))

length-put_ro_area : (a : RoAddr) (xs : List RoAddr) → length (put_ro_area a xs) ≤ suc (length xs)
unfolding put_ro_area
length-put_ro_area a [] = omega arith
length-put_ro_area a (x ∷ xs) = ground (arith, length-put_ro_area a xs)

pub length-add_ro_area :
    (xs : List RoAddr) (start end ro_type : ℕ)
    → length (add_ro_area xs start end ro_type) ≤ suc (length xs)
unfolding add_ro_area
length-add_ro_area xs start end ro_type =
    ground (arith, length-put_ro_area (record { start = start; end = end; type = ro_type }) xs)
