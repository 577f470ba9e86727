-- ===== src/Examples/Pool.antt =====
-- A memory pool for 4 MB of RAM, and the hypervisor's own module.
use alcatraz.Prelude.{
  ℕ, ◌+◌, ◌*◌, ◌/◌, ◌≤◌, ◌<◌, ◌≡◌, ◌^◌, ◌⊎◌, arith, true, none, some, ◌%◌, false,
}
use alcatraz.Ept.{alloc_kmalloc, alloc_vmalloc}
use alcatraz.Ept.Protect.{IsHidden, IsLocked, IsPermissive, page_of}
use alcatraz.Ept.Pool.{setup_memory_pool}
use alcatraz.Ept.Pool.Laws.{setup_memory_pool_settles}
use alcatraz.Ept.Own.{ListedModule, protect_hyper_box_module, protect_mode_hide, protect_mode_lock}
use alcatraz.Ept.Own.Laws.{Apart, protect_hyper_box_module-IsHidden}
use alcatraz.Examples.Pages.{identity, identity-Words, direct, kmalloc-bound, vmalloc-bound}

abbrev page : ℕ → ℕ
page j = 0x2000000 + j % 1000 * 4096

page-fits : (j : ℕ) → page j + 8191 < 2 ^ 64
page-fits j = omega arith

setup_memory_pool_settles_example :
    let r = setup_memory_pool direct true page 0x400000 identity in
    ((r.1 ≡ some (record { page = page; pop_index = 0; max_count = 0x400000 / 2 ^ 21 * 2 }))
      × ((j b : ℕ)
          → j < 0x400000 / 2 ^ 21 * 2
          → page j ≤ b
          → b < page j + 4096
          → IsHidden r.0 (page_of direct alloc_kmalloc b)))
    ⊎ ((r.1 ≡ none)
        × (n : ℕ) × (page n ≡ 0)
        × ((j b : ℕ)
            → j < n
            → page j ≤ b
            → b < page j + 4096
            → IsPermissive r.0 (page_of direct alloc_kmalloc b)))
setup_memory_pool_settles_example =
    setup_memory_pool_settles direct page page-fits kmalloc-bound 0x400000 identity identity-Words

-- The module's core is at 0x6000000, its structure at 0x7000000.
abbrev own : ListedModule
own = record {
  module_addr = 0x7000000;
  base = 0x6000000;
  core_size = 0x8000;
  ro_size = 0x3000;
  is_helper = false;
}

protect_hyper_box_module-IsHidden_example :
    ((b : ℕ)
      → 0x6000000 ≤ b
      → b < 0x6008000
      → Apart direct vmalloc-bound 0x7000000 0x7000380 (page_of direct alloc_vmalloc b)
      → IsHidden
          (protect_hyper_box_module direct 0x380 own protect_mode_hide identity)
          (page_of direct alloc_vmalloc b))
    × ((b : ℕ)
        → 0x3000 ≤ 0x8000
        → 0x6000000 ≤ b
        → b < 0x6003000
        → Apart direct vmalloc-bound 0x7000000 0x7000380 (page_of direct alloc_vmalloc b)
        → Apart direct vmalloc-bound 0x6003000 0x6008000 (page_of direct alloc_vmalloc b)
        → IsLocked
            (protect_hyper_box_module direct 0x380 own protect_mode_lock identity)
            (page_of direct alloc_vmalloc b))
    × ((mode b : ℕ)
        → 0x7000000 ≤ b
        → b < 0x7000380
        → IsPermissive
            (protect_hyper_box_module direct 0x380 own mode identity)
            (page_of direct alloc_vmalloc b))
protect_hyper_box_module-IsHidden_example =
    protect_hyper_box_module-IsHidden direct vmalloc-bound 0x380 own identity identity-Words
      (omega arith) (omega arith)
