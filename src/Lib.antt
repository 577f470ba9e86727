-- ===== src/Lib.antt =====
-- Alcatraz: a hypervisor (Source/hyper_box) that runs under a Linux kernel which is already up,
-- protects that kernel's code and watches its tasks from outside.
--
-- The parts and how they interact. The extended page table (EPT) decides what the guest may do
-- with a page; the hypervisor locks the kernel's and the modules' read-only areas in it, records
-- them, and hides its own data. Hardware breakpoints in the kernel make the guest exit when a task
-- is created, ends, changes its credentials or makes a system call; the exit handler calls the
-- monitor, which keeps a node per task and answers whether the call may go on; a refused call
-- becomes `exit`. A timer makes the monitor compare the kernel's function pointers with the
-- recorded areas. A second module, hypervisor/hb_probe.c, only tries VMX: it turns it on for every
-- processor, writes a guest's state into a VMCS and turns it off again.
--
-- Source/hyper_box/monitor.c, monitor.h:
--   Monitor/Cred: hb_is_cred_same, hb_check_systemcall_for_cred.
--   Monitor/Tree: hb_add_tree, hb_search_tree, hb_del_tree on red-black trees. The kernel's
--     rebalancing is the parameter RbLib, of which only the order of the nodes is known.
--   Monitor/Manager: struct hb_task_node and hb_task_manager, and the functions that prepare,
--     reset, fill and empty them. The pool is a function from indices to nodes, a pointer to a
--     node is an index; the size of the pool is an argument.
--   Monitor/Path: prepend, prepend_name, hb_get_exe_path.
--   Monitor/Callback: hb_callback_add_task, _del_task, _update_cred, _check_cred_update_syscall.
--   Monitor/TaskList: hb_check_task_list, hb_callback_vm_timer. The loop that drops hidden tasks runs
--     on fuel, one more than the nodes in the tree; where rb_next goes on after the node in hand has
--     been erased is a parameter.
--   Monitor/Integrity: hb_check_vfs_object, hb_check_net_object and the checks of fields below
--     them, for every kernel version, and the timer around them.
-- Source/hyper_box/hypervisor.c, workaround.h, hyper_box.h:
--   Memory/RoArea: g_ro_array, of which the list holds the entries in use, and the hb_*_ro_area
--     functions.
--   Vmx/Registers: the guest's registers by index and the helpers on fields of the VMCS.
--   Vmx/Control: hb_vm_exit_callback_access_cr, hb_vm_exit_callback_vmcall.
--   Vmx/Breakpoint: hb_handle_systemcall_breakpoints, hb_vm_exit_callback_int.
--   Vmx/Nested: hb_vm_exit_callback_vmx_inst_type2 and its helpers.
--   Vmx/Shadow: hb_vm_exit_callback_vmx_inst_type1 and the two functions on the shadow VMCS.
--   Vmx/Descriptor: hb_vm_exit_callback_gdtr_idtr, hb_vm_exit_callback_ldtr_tr.
--   Vmx/Exit: hb_vm_exit_callback with every reason for an exit. Exit/Instructions has the
--     instructions it executes itself, Exit/Dispatch the dispatch and the exit of a nested guest.
--   Vmx/Controls: hb_setup_vm_control_register and the bitmaps of fields of a nested VMCS.
--   Vmx/Gdt: hb_get_desc_base, hb_get_desc_access and the descriptors of LDTR and TR, in a memory
--     of bytes. Vmx/Setup: hb_setup_vm_host_register, hb_setup_vm_guest_register, hb_setup_vmcs;
--     which fields the processor accepts is a parameter.
--   Vmx/Violation: hb_vm_exit_callback_ept_violation, hb_trigger_shutdown_timer.
--   Memory/PageTable: hb_get_phy_from_log, hb_get_memory and the operations on one entry;
--     PageTable/Sync: hb_sync_page_table, PageTable/Pages: hb_sync_page (monitor.c), PageTable/Dup:
--     hb_dup_page_table_for_host; the addresses of the pages that the kernel gives for tables are a
--     parameter. A table is a function from its physical address and an index; the hypervisor's and
--     the guest's tables lie in one memory.
--   Ept/Pool: hb_setup_memory_pool. Ept/Own: hb_protect_hyper_box_module,
--     hb_protect_module_list_ro_area, hb_protect_monitor_data (monitor.c).
--   Ept/Processor: hb_protect_vmcs, hb_protect_gdt, the protection of the host's IDT;
--     Processor/Gates: hb_setup_host_idt_and_protect with the gates.
--   Ept/Modules: hb_protect_kernel_ro_area, hb_add_and_protect_module_ro and its inverse.
-- Source/hyper_box/mmu.c, mmu.h and the functions on ranges in hypervisor.c:
--   Ept: the entries of 4 KB pages, hb_set_ept_*_page, hb_lock_range, hb_hide_range,
--     hb_set_all_access_range; Ept/Tables: hb_protect_ept_pages; Ept/Setup:
--     hb_setup_ept_pagetable_4KB, whose loops are those of the source, over the counts that
--     hb_alloc_ept_pages computes; where the page tables lie is a parameter. Ept/Alloc:
--     hb_alloc_ept_pages, hb_free_ept_pages.
-- hypervisor/hb_probe.c, hypervisor/asm_helper.asm:
--   Probe: the state of the processors and of the module, and hb_adjust_vmx_cr0_cr4. What the
--     instructions and the allocator answer are functions of the record Hardware.
--   Probe/Guest: the capture of the guest's state.
--   Probe/Write: hb_probe_vmwrite_guest_state, hb_vmx_probe_vmwrite.
--   Probe/Regions: hb_vmx_alloc_regions, hb_vmx_free_regions; pages are counted, an address of
--     a page being as often live as it was allocated and not freed.
--   Probe/Start: hb_vmxon_on_cpu, hb_vmxoff_on_cpu and the loops over the processors.
--   Probe/Module: hypervisor_init, hypervisor_exit and their tests.
-- Prelude holds what the parts share; Examples holds runs on concrete data.
--
-- Numbers are natural numbers; where the code computes on 64 bits the wrap-around is written out,
-- and an `int` is an integer. The loop over a range runs on fuel, the number of pages below its
-- end, which Ept/Ranges shows to be enough. Addresses of the kernel's data stand for the data:
-- a task is what the code reads of it at that moment.
--
-- Not modelled: locks and the interleaving of processors, what is printed, what the processor
-- remembers of old page table entries, an allocation of a page for the copied page tables that
-- fails, the start of the processors in hypervisor.c, the wait after an INIT signal, shutdown and
-- sleep, and the assembly helpers of Source/hyper_box.
mod Prelude
pub mod Memory
pub mod Vmx
pub mod Ept
pub mod Monitor
pub mod Probe
mod Examples
