-- ===== src/Vmx/Exit/Registers.antt =====
-- What the guest sees of instructions that the hypervisor executes for it.
use alcatraz.Prelude.{
  ℕ, ◌+◌, ◌*◌, ◌/◌, ◌%◌, ◌^◌, ◌≡◌, ◌<◌, refl, ap, ◌∙◌, arith, ==_self, bit_and, bit_or,
}
use alcatraz.Prelude.Bits.{dbl, bit_and-ones, bit_or-dbl, bits_ext, bit-bit_or, bit_zero}
use alcatraz.Vmx.Registers.{Vm, advance_vm_guest_rip}
use alcatraz.Vmx.Exit.{Machinery, Cpu, vm_of}
use alcatraz.Vmx.Exit.Instructions.{vm_exit_callback_cpuid, exit_rdmsr, exit_wrmsr, exit_xsetbv}

low32 : (v : ℕ) → bit_and v 0xFFFFFFFF ≡ v % 2 ^ 32
low32 v = omega (arith, bit_and-ones 32 v)

zero_or : (a : ℕ) → bit_or 0 a ≡ a
zero_or a = bits_ext _ _ λ k. ground (arith, bit-bit_or k 0 a, bit_zero k)

-- EDX:EAX as one number.
joined : (d a : ℕ) → a < 2 ^ 32 → bit_or (d * 2 ^ 32 % 2 ^ 64) a ≡ d % 2 ^ 32 * 2 ^ 32 + a
joined d a h =
    let high : d * 2 ^ 32 % 2 ^ 64 ≡ dbl 32 (d % 2 ^ 32) = omega arith in
    rw high (bit_or-dbl 32 (d % 2 ^ 32) a (omega arith) ∙ omega arith)

-- A guest that writes an MSR by WRMSR and reads it by RDMSR, which the hypervisor executes for it,
-- gets the low halves of RAX and RDX back, zero-extended. `t` is the guest at the RDMSR, with the
-- MSRs as the WRMSR has left them and the same low half of RCX.
pub rdmsr-wrmsr :
    (s t : Cpu)
    → t.msr ≡ (exit_wrmsr s).msr
    → (vm_of t).regs.rcx % 2 ^ 32 ≡ (vm_of s).regs.rcx % 2 ^ 32
    → ((vm_of (exit_rdmsr t)).regs.rax ≡ (vm_of s).regs.rax % 2 ^ 32)
      × ((vm_of (exit_rdmsr t)).regs.rdx ≡ (vm_of s).regs.rdx % 2 ^ 32)
unfolding exit_rdmsr exit_wrmsr advance_vm_guest_rip
rdmsr-wrmsr s t same index =
    let r = (vm_of s).regs in
    let v = bit_or (r.rdx * 2 ^ 32 % 2 ^ 64) (bit_and r.rax 0xFFFFFFFF) in
    let value : v ≡ r.rdx % 2 ^ 32 * 2 ^ 32 + r.rax % 2 ^ 32 =
      rw (low32 r.rax) (joined r.rdx (r.rax % 2 ^ 32) (omega arith)) in
    let found : t.msr ((vm_of t).regs.rcx % 2 ^ 32) ≡ v =
      ap t.msr index
      ∙ ap (λ (f : ℕ → ℕ). f (r.rcx % 2 ^ 32)) same
      ∙ (rw (==_self (r.rcx % 2 ^ 32)) refl) in
    (
      ap (λ (x : ℕ). bit_and x 0xFFFFFFFF) (found ∙ value) ∙ low32 _ ∙ omega arith,
      ap (λ (x : ℕ). x / 2 ^ 32) (found ∙ value) ∙ omega arith,
    )

-- XSETBV takes the whole of RAX: the guest's XCR gets EDX:EAX if the upper half of RAX is 0, but
-- RAX itself if the lower half of RDX is 0, whatever is in its upper half.
pub xsetbv_whole_rax :
    (c : Cpu)
    → let r = (vm_of c).regs in
      let v = (exit_xsetbv c).xcr (r.rcx % 2 ^ 32) in
      (r.rax < 2 ^ 32 → v ≡ r.rdx % 2 ^ 32 * 2 ^ 32 + r.rax) × (r.rdx % 2 ^ 32 ≡ 0 → v ≡ r.rax)
unfolding exit_xsetbv
xsetbv_whole_rax c =
    let r = (vm_of c).regs in
    rw (==_self (r.rcx % 2 ^ 32)) (
      λ h. joined r.rdx r.rax h,
      λ h.
          let none_high : r.rdx * 2 ^ 32 % 2 ^ 64 ≡ 0 = omega arith in rw none_high (zero_or r.rax),
    )

-- CPUID changes the low halves of the four registers and no more: the upper halves, which the
-- processor clears, keep what the guest had there.
pub cpuid_keeps_high :
    (e : Machinery) (s : Vm)
    → let r = s.regs in
      let r' = (vm_exit_callback_cpuid e s).regs in
      let (a, b, c, d) = e.cpuid (r.rax % 2 ^ 32) (r.rcx % 2 ^ 32) in
      ((r'.rax % 2 ^ 32 ≡ a % 2 ^ 32) × (r'.rax / 2 ^ 32 ≡ r.rax / 2 ^ 32))
      × ((r'.rbx % 2 ^ 32 ≡ b % 2 ^ 32) × (r'.rbx / 2 ^ 32 ≡ r.rbx / 2 ^ 32))
      × ((r'.rcx % 2 ^ 32 ≡ c % 2 ^ 32) × (r'.rcx / 2 ^ 32 ≡ r.rcx / 2 ^ 32))
      × ((r'.rdx % 2 ^ 32 ≡ d % 2 ^ 32) × (r'.rdx / 2 ^ 32 ≡ r.rdx / 2 ^ 32))
unfolding vm_exit_callback_cpuid advance_vm_guest_rip
cpuid_keeps_high e s = (
  (omega arith, omega arith),
  (omega arith, omega arith),
  (omega arith, omega arith),
  (omega arith, omega arith),
)
