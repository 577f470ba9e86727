-- ===== src/Ept/Modules.antt =====
-- The protection of the kernel's own read-only areas and of modules:
-- `hb_protect_kernel_ro_area`, `hb_add_and_protect_module_ro` and
-- `hb_delete_and_unprotect_module_ro` of Source/hyper_box/hypervisor.c.
pub mod Laws
use alcatraz.Prelude.{ℕ, ◌+◌, ◌^◌, ◌%◌, ◌==◌, ◌==ℤ◌, pos, ◌&&◌, not, if◌then◌else◌, List, [], ◌∷◌}
use alcatraz.Memory.RoArea.{RoAddr, ro_kernel, ro_module, add_ro_area, delete_ro_area}
use alcatraz.Ept.{Ept, Kernel, alloc_kmalloc, alloc_vmalloc, lock_range, set_all_access_range}

pub record Guarded : Type 0 where
  pub ept : Ept
  pub ro : List RoAddr

-- The kernel's symbols that bound its read-only areas.
pub data Symbol : Type 0 where
  text_start text_end ex_table_start ex_table_end rodata_start rodata_end : Symbol

abbrev pub sym_list : List (Symbol × Symbol)
sym_list = (text_start, text_end) ∷ (ex_table_start, ex_table_end) ∷ (rodata_start, rodata_end) ∷ []

-- The loop over the pairs; `symbol` is `hb_get_symbol_address`.
unfoldable pub protect_areas :
    Kernel → (symbol : Symbol → ℕ) → List (Symbol × Symbol) → Guarded → Guarded
protect_areas k symbol [] s = s
protect_areas k symbol ((first, last) ∷ pairs) s = protect_areas k symbol pairs (record {
  ept = lock_range k s.ept (symbol first) (symbol last) alloc_kmalloc;
  ro = add_ro_area s.ro (symbol first) (symbol last) ro_kernel;
})

unfoldable pub protect_kernel_ro_area : Kernel → (Symbol → ℕ) → Guarded → Guarded
protect_kernel_ro_area k symbol s = protect_areas k symbol sym_list s

-- What the code reads of `struct module`: where it is, and its core.
pub record Module : Type 0 where
  pub addr : ℕ
  pub core_base : ℕ
  pub core_ro_size : ℕ

abbrev pub core_end : ℕ → ℕ → ℕ
core_end base ro_size = (base + ro_size) % 2 ^ 64

-- `size` is the size of `struct module`.
unfoldable pub add_and_protect_module_ro : Kernel → ℕ → Module → Guarded → Guarded
add_and_protect_module_ro k size m s =
    let stop = core_end m.core_base m.core_ro_size in
    if not (m.core_base == 0) && not (m.core_ro_size == 0)
    then record {
      ept =
          set_all_access_range k (lock_range k s.ept m.core_base stop alloc_vmalloc) m.addr
            ((m.addr + size) % 2 ^ 64) alloc_vmalloc;
      ro = add_ro_area s.ro m.core_base stop ro_module;
    }
    else s

unfoldable pub delete_and_unprotect_module_ro : Kernel → ℕ → ℕ → Guarded → Guarded
delete_and_unprotect_module_ro k base ro_size s =
    let stop = core_end base ro_size in
    let (ro, result) = delete_ro_area s.ro base stop in
    if not (base == 0) && not (ro_size == 0)
    then record {
      ept =
          if result ==ℤ pos 0 then set_all_access_range k s.ept base stop alloc_vmalloc else s.ept;
      ro = ro;
    }
    else s
