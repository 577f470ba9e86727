-- ===== src/Ept/Own.antt =====
-- The hypervisor's own module: `hb_protect_hyper_box_module`, `hb_protect_module_list_ro_area` and
-- the accessors of `struct module` in Source/hyper_box/hypervisor.c, and `hb_protect_monitor_data`
-- of Source/hyper_box/monitor.c.
pub mod Laws
use alcatraz.Prelude.{ℕ, ◌+◌, ◌*◌, ◌%◌, ◌^◌, ◌==◌, Bool, if◌then◌else◌, List, [], ◌∷◌}
use alcatraz.Ept.{Ept, Kernel, alloc_vmalloc, lock_range, set_all_access_range, hide_range}
use alcatraz.Ept.Modules.{Guarded, Module, add_and_protect_module_ro}

-- What `hb_get_module_core_base`, `_core_size` and `_core_ro_size` read, and what the walk over the
-- list looks at: the address of the structure, and whether its name is the helper module's.
pub record ListedModule : Type 0 where
  pub module_addr : ℕ
  pub base : ℕ
  pub core_size : ℕ
  pub ro_size : ℕ
  pub is_helper : Bool

abbrev pub protect_mode_hide : ℕ
protect_mode_hide = 0

abbrev pub protect_mode_lock : ℕ
protect_mode_lock = 1

abbrev pub add64 : ℕ → ℕ → ℕ
add64 a b = (a + b) % 2 ^ 64

unfoldable pub protect_core : Kernel → ListedModule → ℕ → Ept → Ept
protect_core k m protect_mode e =
    if protect_mode == protect_mode_hide
    then hide_range k e m.base (add64 m.base m.core_size) alloc_vmalloc
    else set_all_access_range k (lock_range k e m.base (add64 m.base m.ro_size) alloc_vmalloc)
        (add64 m.base m.ro_size) (add64 m.base m.core_size) alloc_vmalloc

-- `size` is the size of `struct module`.
unfoldable pub protect_hyper_box_module : Kernel → ℕ → ListedModule → ℕ → Ept → Ept
protect_hyper_box_module k size m protect_mode e =
    set_all_access_range k (protect_core k m protect_mode e) m.module_addr
      (add64 m.module_addr size) alloc_vmalloc

abbrev pub module_of : ListedModule → Module
module_of m = record { addr = m.module_addr; core_base = m.base; core_ro_size = m.ro_size }

-- The walk over the modules behind the hypervisor's own, up to the head of the list.
unfoldable pub protect_helpers : Kernel → ℕ → List ListedModule → Guarded → Guarded
protect_helpers k size [] s = s
protect_helpers k size (m ∷ modules) s = protect_helpers k size modules (
    if m.core_size == 0
    then s
    else if m.is_helper
    then add_and_protect_module_ro k size (module_of m) s
    else s)

unfoldable pub protect_module_list_ro_area :
    Kernel → ℕ → ListedModule → List ListedModule → ℕ → Guarded → Guarded
protect_module_list_ro_area k size own modules reinitialize s =
    if reinitialize == 1
    then record s { ept = protect_hyper_box_module k size own protect_mode_lock s.ept }
    else protect_helpers k size modules (add_and_protect_module_ro k size (module_of own) s)

-- `pool` is the address of the task manager's nodes, `node_size` the size of one of `nodes` nodes.
unfoldable pub protect_monitor_data : Kernel → ℕ → ℕ → ℕ → Ept → Ept
protect_monitor_data k pool node_size nodes e =
    hide_range k e pool (add64 pool (node_size * nodes % 2 ^ 64)) alloc_vmalloc
