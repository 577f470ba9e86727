-- ===== src/Probe.antt =====
-- The module hypervisor/hb_probe.c, with its helpers of hypervisor/asm_helper.asm: it turns VMX on
-- for every processor, writes a guest's state into a VMCS, and turns VMX off when it is unloaded.
--
-- A processor is the record `Cpu`. What an instruction or an allocation answers is a function of
-- `Hardware`, so that every failure is a case.
pub mod Guest
pub mod Write
pub mod Regions
pub mod Start
pub mod Module
use alcatraz.Prelude.{
  ℕ, ◌+◌, ◌-◌, ◌==◌, Bool, false, Option, if◌then◌else◌, bit_or, bit_and, bit_xor,
}
use alcatraz.Vmx.Gdt.{Bytes}
use alcatraz.Ept.Processor.{DescPtr}

-- 0, -1 of the helpers, -ENODEV, -EBUSY, -ENOMEM and -EIO.
pub data Code : Type 0 where
  success fail enodev ebusy enomem eio : Code

abbrev pub is_success : Code → Bool
is_success success = Bool.true
is_success _ = false

-- The registers of a processor that the module only reads.
pub record Registers : Type 0 where
  pub cr3 : ℕ
  pub dr7 : ℕ
  pub rflags : ℕ
  pub cs : ℕ
  pub ss : ℕ
  pub ds : ℕ
  pub es : ℕ
  pub fs : ℕ
  pub gs : ℕ
  pub ldtr : ℕ
  pub tr : ℕ
  pub gdtr : DescPtr
  pub idtr : DescPtr

-- `in_vmx` is whether the processor is in VMX operation, `vmxon_pointer` the region of the last VMXON,
-- `current` the VMCS that VMPTRLD made current
-- (0 before) and `vmcs` the fields of that VMCS.
pub record Cpu : Type 0 where
  pub cr0 : ℕ
  pub cr4 : ℕ
  pub in_vmx : Bool
  pub vmxon_pointer : ℕ
  pub current : ℕ
  pub vmcs : ℕ → ℕ
  pub irq_enabled : Bool
  pub preempt_count : ℕ

-- The answers of processor `cpu`: VMXON, VMCLEAR and VMPTRLD get the processor's state, the address
-- of the region and its first dword. The page of the n-th call of `__get_free_page` is 0 on failure.
pub record Hardware : Type 0 where
  pub rdmsr : ℕ → ℕ → ℕ
  pub registers : ℕ → Registers
  pub mem : Bytes
  pub vmxon_ok : ℕ → Cpu → ℕ → ℕ → Bool
  pub vmclear_ok : ℕ → Cpu → ℕ → ℕ → Bool
  pub vmptrld_ok : ℕ → Cpu → ℕ → ℕ → Bool
  pub vmwrite_ok : ℕ → Cpu → ℕ → ℕ → Bool
  pub vmread : ℕ → Cpu → ℕ → Option ℕ
  pub free_page : ℕ → ℕ
  pub kcalloc_ok : Bool

-- `struct hb_percpu_vmx`; the address 0 is NULL.
pub record PercpuVmx : Type 0 where
  pub vmxon_region : ℕ
  pub vmcs_region : ℕ
  pub vmx_on : Bool
  pub saved_cr0 : ℕ
  pub saved_cr4 : ℕ

-- `g_vmx` is whether the pointer is set, and `percpu` the array that it points to. `live` counts for
-- each page how often it is allocated, `calls` the calls of the allocator, and `word` is the first
-- dword of each page.
pub record Machine : Type 0 where
  pub cpus : ℕ → Cpu
  pub g_vmx : Bool
  pub percpu : ℕ → PercpuVmx
  pub revision : ℕ
  pub probe_failed : Bool
  pub live : ℕ → ℕ
  pub calls : ℕ
  pub word : ℕ → ℕ

abbrev pub put {ℓ} : {A : Type ℓ} → (ℕ → A) → ℕ → A → (ℕ → A)
put f i v = λ j. if j == i then v else f j

-- `bts` and `btc` of bit 13 of CR4.
unfoldable pub enable_vmx : Cpu → Cpu
enable_vmx c = record c { cr4 = bit_or c.cr4 0x2000 }

unfoldable pub disable_vmx : Cpu → Cpu
disable_vmx c = record c { cr4 = bit_xor c.cr4 0x2000 }

abbrev pub msr_cr0_fixed0 : ℕ
msr_cr0_fixed0 = 0x486

abbrev pub msr_cr0_fixed1 : ℕ
msr_cr0_fixed1 = 0x487

abbrev pub msr_cr4_fixed0 : ℕ
msr_cr4_fixed0 = 0x488

abbrev pub msr_cr4_fixed1 : ℕ
msr_cr4_fixed1 = 0x489

unfoldable pub adjust_vmx_cr0_cr4 : Hardware → ℕ → Cpu → Cpu
adjust_vmx_cr0_cr4 h cpu c = record c {
  cr0 = bit_and (bit_or c.cr0 (h.rdmsr cpu msr_cr0_fixed0)) (h.rdmsr cpu msr_cr0_fixed1);
  cr4 = bit_and (bit_or c.cr4 (h.rdmsr cpu msr_cr4_fixed0)) (h.rdmsr cpu msr_cr4_fixed1);
}
