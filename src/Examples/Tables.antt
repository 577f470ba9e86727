-- ===== src/Examples/Tables.antt =====
-- Page tables for 1 GB, of which an allocation fails in the middle.
use alcatraz.Prelude.{ℕ, ◌+◌, ◌*◌, ◌≡◌, [], ◌∷◌, ◌==◌, Bool, true, if◌then◌else◌}
use mathlib.Core.List.{Perm}
use alcatraz.Ept.Setup.{EptType}
use alcatraz.Ept.Alloc.{Allocator, alloc_ept_pages, free_ept_pages}
use alcatraz.Ept.Alloc.Laws.{free-alloc_ept_pages}

abbrev runs_out : ℕ → ℕ
runs_out i = if i == 700 then 0 else (i + 1) * 4096

abbrev granted : EptType → Bool
granted t = true

abbrev busy_memory : Allocator
busy_memory = record { calls = 0; live = 0x9000000 ∷ 0x9001000 ∷ [] }

free-alloc_ept_pages_example :
    let (result, arrays, s') = alloc_ept_pages runs_out granted 0x40000000 busy_memory in
    let (left, t) = free_ept_pages arrays s' in
    Perm t.live (0x9000000 ∷ 0x9001000 ∷ []) × (free_ept_pages left t ≡ (left, t))
free-alloc_ept_pages_example = free-alloc_ept_pages runs_out granted 0x40000000 busy_memory
