-- ===== src/Examples/Setups.antt =====
-- The controls on a processor that allows VPID and VMCS shadowing.
use alcatraz.Prelude.{true, ℕ, ◌*◌, ◌^◌, ◌+◌, ◌≡◌, not, ◌≢◌, ◌⊎◌, ◌==◌, if◌then◌else◌}
use alcatraz.Vmx.Nested.{no_nested, divert, lookup, vm_host_rip, vm_host_rsp, vm_host_cr3}
use alcatraz.Vmx.Controls.{Platform, nested_bitmaps}
use alcatraz.Vmx.Controls.Fields.{exits, exits-divert}
use alcatraz.Vmx.Controls.{ControlRegister, setup_vm_control_register}
use alcatraz.Vmx.Setup.{Processor}
use alcatraz.Vmx.Setup.Controls.{AreControls, controls_in_place}
use alcatraz.Vmx.Setup.Laws.{host_of, guest_of, IsInPlace, guest_in_place}
use alcatraz.Examples.Nested.{host}

abbrev platform : Platform
platform = record {
  rdmsr = λ m. if m == 0x48B then 0x4020 * 2 ^ 32 else 0x16;
  virt_to_phys = λ a. a;
  support_xsave = 1;
  io_bitmap_a = 0x1000;
  io_bitmap_b = 0x2000;
  msr_bitmap = 0x3000;
  vmread_bitmap = 0x4000;
  vmwrite_bitmap = 0x5000;
  virt_apic_page = 0x6000;
  pml4_page = 0x7000;
}

abbrev off : ℕ
off = 0

-- GUEST_RIP goes through.
exits-divert_example :
    (exits nested_bitmaps.vmread 0x681E ≡ exits nested_bitmaps.vmwrite 0x681E)
    × (exits nested_bitmaps.vmwrite 0x681E ≡ 0
        → (divert host no_nested 0x681E 0x8000 ≡ (no_nested, 0x8000))
          × (lookup no_nested (λ f. f) 0x681E ≡ 0x681E))
    × (exits nested_bitmaps.vmwrite 0x681E ≢ 0
        → (0x681E ≡ vm_host_rip) ⊎ ((0x681E ≡ vm_host_rsp) ⊎ (0x681E ≡ vm_host_cr3)))
exits-divert_example = exits-divert host no_nested (λ f. f) 0x681E 0x8000

abbrev processor : Processor
processor = record {
  cr0 = 0x80050033;
  cr3 = 0x12000;
  cr4 = 0x3406F0;
  dr6 = 0xFFFF0FF1;
  rflags = 2;
  cs = 0x10;
  ss = 0x18;
  ds = 0;
  es = 0;
  fs = 0;
  gs = 0;
  ldtr = 0;
  tr = 0x40;
  gdtr = record { address = 0x9000; size = 0x7F };
  idtr = record { address = 0xA000; size = 0xFFF };
  rdmsr = λ m. if m == 0xC0000080 then 0xD01 else 0;
  mem = λ a. 0;
  breakpoint = λ i. 0x81000000 + i;
  vm_exit_stack = 0x100000;
  stack_size = 0x8000;
  host_phy_pml4 = 0x13000;
  host_idtr = record { address = 0xB000; size = 0xFFF };
  vm_exit_callback_stub = 0x82000000;
}

abbrev controls : ControlRegister
controls = (setup_vm_control_register platform 0 0).0

-- A processor without the field for the performance counters.
controls_in_place_example :
    AreControls
      (λ f. not (f == 0x2808))
      (host_of processor)
      (guest_of processor)
      controls
      7
      true
      (λ f. 0)
controls_in_place_example =
    controls_in_place (λ f. not (f == 0x2808)) (host_of processor) (guest_of processor) controls 7
      true (λ f. 0)

guest_in_place_example : IsInPlace processor controls 7 1 (λ f. 0)
guest_in_place_example = guest_in_place processor controls 7 1 (λ f. 0)
