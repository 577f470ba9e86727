-- ===== src/Ept/Pool.antt =====
-- The hypervisor's memory pool: `hb_setup_memory_pool` of Source/hyper_box/hypervisor.c, which hides
-- the pages that `hb_get_memory` gives out (Memory/PageTable). `page i` is what the kernel's
-- allocator gives at the call with number `i`, or 0.
pub mod Laws
use alcatraz.Prelude.{
  ℕ, zero, suc, ◌+◌, ◌*◌, ◌/◌, ◌%◌, ◌^◌, ◌==◌, Bool, true, false, if◌then◌else◌, Option, none, some,
}
use alcatraz.Ept.{Ept, Kernel, alloc_kmalloc, set_all_access_range, hide_range}
use alcatraz.Memory.PageTable.{Pool}

-- The loop that takes and hides `n` pages. The number is that of the call that failed.
unfoldable pub fill_pool : Kernel → (ℕ → ℕ) → ℕ → ℕ → Ept → Ept × Option ℕ
fill_pool k page zero i e = (e, none)
fill_pool k page (suc n) i e =
    let rest =
      fill_pool k page n (i + 1)
        (hide_range k e (page i) ((page i + 4096) % 2 ^ 64) alloc_kmalloc) in
    if page i == 0 then (e, some i) else rest

-- The loop that opens and frees the pages taken before the failure.
unfoldable pub release_pool : Kernel → (ℕ → ℕ) → ℕ → ℕ → Ept → Ept
release_pool k page zero i e = e
release_pool k page (suc n) i e =
    release_pool k page n (i + 1)
      (set_all_access_range k e (page i) ((page i + 4096) % 2 ^ 64) alloc_kmalloc)

-- `array` says whether there is memory for the array of the pool; `none` is the result -1.
unfoldable pub setup_memory_pool : Kernel → Bool → (ℕ → ℕ) → ℕ → Ept → Ept × Option Pool
setup_memory_pool k array page max_ram_size e =
    let max_count = max_ram_size / 2 ^ 21 * 2 in
    elim array [
      | false ↦ (e, none)
      | true ↦
          let (filled, failed) = fill_pool k page max_count 0 e in
          elim failed [
            | none ↦ (filled, some (record { page = page; pop_index = 0; max_count = max_count }))
            | some n ↦ (release_pool k page n 0 filled, none)
          ]
    ]
