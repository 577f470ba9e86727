-- ===== src/Vmx/Setup/Fields.antt =====
-- The writes of `hb_setup_vmcs` of Source/hyper_box/hypervisor.c, in their order.
use alcatraz.Prelude.{ℕ, ◌==◌, Bool, if◌then◌else◌, List, [], ◌∷◌, ◌++◌}
use alcatraz.Vmx.Controls.{ControlRegister}
use alcatraz.Vmx.Setup.{HostRegister, VmGuestRegister}

-- The encodings and values, of the host, the guest and the controls.
unfoldable pub host_fields : HostRegister → List (ℕ × ℕ)
host_fields h =
    (0x6C00, h.cr0)
    ∷ (0x6C02, h.cr3)
    ∷ (0x6C04, h.cr4)
    ∷ (0x6C14, h.rsp)
    ∷ (0x6C16, h.rip)
    ∷ (0xC02, h.cs_selector)
    ∷ (0xC04, h.ss_selector)
    ∷ (0xC06, h.ds_selector)
    ∷ (0xC00, h.es_selector)
    ∷ (0xC08, h.fs_selector)
    ∷ (0xC0A, h.gs_selector)
    ∷ (0xC0C, h.tr_selector)
    ∷ (0x6C06, h.fs_base_addr)
    ∷ (0x6C08, h.gs_base_addr)
    ∷ (0x6C0A, h.tr_base_addr)
    ∷ (0x6C0C, h.gdtr_base_addr)
    ∷ (0x6C0E, h.idtr_base_addr)
    ∷ (0x4C00, h.ia32_sys_enter_cs)
    ∷ (0x6C10, h.ia32_sys_enter_esp)
    ∷ (0x6C12, h.ia32_sys_enter_eip)
    ∷ (0x2C04, h.ia32_perf_global_ctrl)
    ∷ (0x2C00, h.ia32_pat)
    ∷ (0x2C02, h.ia32_efer)
    ∷ []

unfoldable pub vm_guest_fields : VmGuestRegister → ℕ → List (ℕ × ℕ)
vm_guest_fields g pre_timer =
    (0x6800, g.cr0)
    ∷ (0x6802, g.cr3)
    ∷ (0x6804, g.cr4)
    ∷ (0x681A, g.dr7)
    ∷ (0x681C, g.rsp)
    ∷ (0x681E, g.rip)
    ∷ (0x6820, g.rflags)
    ∷ (0x802, g.cs_selector)
    ∷ (0x804, g.ss_selector)
    ∷ (0x806, g.ds_selector)
    ∷ (0x800, g.es_selector)
    ∷ (0x808, g.fs_selector)
    ∷ (0x80A, g.gs_selector)
    ∷ (0x80C, g.ldtr_selector)
    ∷ (0x80E, g.tr_selector)
    ∷ (0x6808, g.cs_base_addr)
    ∷ (0x680A, g.ss_base_addr)
    ∷ (0x680C, g.ds_base_addr)
    ∷ (0x6806, g.es_base_addr)
    ∷ (0x680E, g.fs_base_addr)
    ∷ (0x6810, g.gs_base_addr)
    ∷ (0x6812, g.ldtr_base_addr)
    ∷ (0x6814, g.tr_base_addr)
    ∷ (0x4802, g.cs_limit)
    ∷ (0x4804, g.ss_limit)
    ∷ (0x4806, g.ds_limit)
    ∷ (0x4800, g.es_limit)
    ∷ (0x4808, g.fs_limit)
    ∷ (0x480A, g.gs_limit)
    ∷ (0x480C, g.ldtr_limit)
    ∷ (0x480E, g.tr_limit)
    ∷ (0x4816, g.cs_access)
    ∷ (0x4818, g.ss_access)
    ∷ (0x481A, g.ds_access)
    ∷ (0x4814, g.es_access)
    ∷ (0x481C, g.fs_access)
    ∷ (0x481E, g.gs_access)
    ∷ (0x4820, g.ldtr_access)
    ∷ (0x4822, g.tr_access)
    ∷ (0x6816, g.gdtr_base_addr)
    ∷ (0x6818, g.idtr_base_addr)
    ∷ (0x4810, g.gdtr_limit)
    ∷ (0x4812, g.idtr_limit)
    ∷ (0x2802, g.ia32_debug_ctrl)
    ∷ (0x482A, g.ia32_sys_enter_cs)
    ∷ (0x6824, g.ia32_sys_enter_esp)
    ∷ (0x6826, g.ia32_sys_enter_eip)
    ∷ (0x2808, g.ia32_perf_global_ctrl)
    ∷ (0x2804, g.ia32_pat)
    ∷ (0x2806, g.ia32_efer)
    ∷ (0x2800, g.vmcs_link_ptr)
    ∷ (0x4824, 0)
    ∷ (0x4826, 0)
    ∷ (0x4828, 0)
    ∷ (0x6822, 0)
    ∷ (0x482E, pre_timer)
    ∷ []

unfoldable pub control_fields : ControlRegister → ℕ → List (ℕ × ℕ)
control_fields c support_vpid =
    (if support_vpid == 1 then (0, 0xFFFF) ∷ [] else [])
    ++ ((0x4000, c.pin_based_ctrl)
        ∷ (0x4002, c.pri_proc_based_ctrl)
        ∷ (0x401E, c.sec_proc_based_ctrl)
        ∷ (0x4004, c.except_bitmap)
        ∷ (0x2000, c.io_bitmap_addr_a)
        ∷ (0x2002, c.io_bitmap_addr_b)
        ∷ (0x201A, c.ept_ptr)
        ∷ (0x2004, c.msr_bitmap_addr)
        ∷ (0x2026, c.vmread_bitmap_addr)
        ∷ (0x2028, c.vmwrite_bitmap_addr)
        ∷ (0x4012, c.vm_entry_ctrl_field)
        ∷ (0x400C, c.vm_exti_ctrl_field)
        ∷ (0x2012, c.virt_apic_page_addr)
        ∷ (0x6000, c.cr0_guest_host_mask)
        ∷ (0x6002, c.cr4_guest_host_mask)
        ∷ (0x6004, c.cr0_read_shadow)
        ∷ (0x6006, c.cr4_read_shadow)
        ∷ (0x6008, 0)
        ∷ (0x600A, 0)
        ∷ (0x600C, 0)
        ∷ (0x600E, 0)
        ∷ (0x4006, 0)
        ∷ (0x4008, 0)
        ∷ (0x400A, 0)
        ∷ (0x400E, 0)
        ∷ (0x4010, 0)
        ∷ (0x2008, 0)
        ∷ (0x4016, 0)
        ∷ (0x4018, 0)
        ∷ (0x401A, 0)
        ∷ (0x4014, 0)
        ∷ (0x200A, 0)
        ∷ (0x401C, 0)
        ∷ (0x200C, 0)
        ∷ (0x2010, 0)
        ∷ [])

unfoldable pub vmcs_fields : HostRegister → VmGuestRegister → ControlRegister → ℕ → ℕ → List (ℕ × ℕ)
vmcs_fields h g c pre_timer support_vpid =
    host_fields h ++ (vm_guest_fields g pre_timer ++ control_fields c support_vpid)

-- The result of a VMWRITE is looked at by nobody: a field that the processor refuses is passed over.
unfoldable pub write_all : (ℕ → Bool) → List (ℕ × ℕ) → (ℕ → ℕ) → (ℕ → ℕ)
write_all accepts [] vmcs = vmcs
write_all accepts (x ∷ xs) vmcs =
    write_all accepts xs (if accepts x.0 then (λ f. if f == x.0 then x.1 else vmcs f) else vmcs)

unfoldable pub setup_vmcs :
    (ℕ → Bool) → HostRegister → VmGuestRegister → ControlRegister → ℕ → ℕ → (ℕ → ℕ) → (ℕ → ℕ)
setup_vmcs accepts h g c pre_timer support_vpid vmcs =
    write_all accepts (vmcs_fields h g c pre_timer support_vpid) vmcs
