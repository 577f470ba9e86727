-- ===== src/Ept/Processor/Gates.antt =====
-- The gates that `hb_setup_host_idt_and_protect` of Source/hyper_box/hypervisor.c fills.
pub mod Laws
use alcatraz.Prelude.{
  ℕ, zero, suc, ◌+◌, ◌*◌, ◌/◌, ◌%◌, ◌^◌, Bool, ◌||◌, ◌==◌, ltb, if◌then◌else◌, List, [], ◌∷◌,
}
use alcatraz.Ept.{Ept, Kernel}
use alcatraz.Ept.Processor.{DescPtr, fixed_size, protect_host_idt}

-- A gate of 16 bytes.
pub record Gate : Type 0 where
  pub offset_low : ℕ
  pub segment : ℕ
  pub ist : ℕ
  pub type_bits : ℕ
  pub dpl : ℕ
  pub p : ℕ
  pub offset_middle : ℕ
  pub offset_high : ℕ

-- The addresses of the stubs in assembly, and the kernel's constants.
pub record Stubs : Type 0 where
  pub int_callback_stub : ℕ
  pub int_nmi_callback_stub : ℕ
  pub int_with_error_callback_stub : ℕ
  pub kernel_cs : ℕ
  pub debug_stack : ℕ
  pub gate_interrupt : ℕ

-- `handlers`.
abbrev pub handlers : Stubs → List ℕ
handlers s =
    let stub = s.int_callback_stub in
    let nmi = s.int_nmi_callback_stub in
    let error = s.int_with_error_callback_stub in
    stub ∷ stub ∷ nmi ∷ stub ∷ stub ∷ stub ∷ stub ∷ stub ∷ error ∷ stub ∷ error ∷ error ∷ error
    ∷ error ∷ error ∷ stub ∷ stub ∷ error ∷ stub ∷ stub ∷ stub ∷ error ∷ []

-- The element of an array, with what stands for those after its end.
abbrev pub at_or : List ℕ → ℕ → ℕ → ℕ
at_or [] other i = other
at_or (x ∷ xs) other zero = x
at_or (x ∷ xs) other (suc i) = at_or xs other i

abbrev pub handler_of : Stubs → ℕ → ℕ
handler_of s i = if ltb i 22 then at_or (handlers s) s.int_callback_stub i else s.int_callback_stub

abbrev pub gate_of : Stubs → ℕ → Gate
gate_of s handler = record {
  offset_low = handler % 2 ^ 16;
  segment = s.kernel_cs;
  ist = s.debug_stack;
  type_bits = s.gate_interrupt;
  dpl = 0;
  p = 1;
  offset_middle = handler / 2 ^ 16 % 2 ^ 16;
  offset_high = handler / 2 ^ 32 % 2 ^ 32;
}

abbrev pub put_gate : (ℕ → Gate) → ℕ → Gate → ℕ → Gate
put_gate idt i g = λ j. if j == i then g else idt j

-- The first `n` gates.
unfoldable pub fill_idt : Stubs → ℕ → (ℕ → Gate) → ℕ → Gate
fill_idt s zero idt = idt
fill_idt s (suc n) idt = put_gate (fill_idt s n idt) n (gate_of s (handler_of s n))

-- The host's IDT: its register, its gates on the page `page`, and the extended page table. `idtr` is
-- the guest's.
pub record HostIdt : Type 0 where
  pub host_idtr : DescPtr
  pub idt : ℕ → Gate
  pub ept : Ept

unfoldable pub setup_host_idt_and_protect :
    Stubs → Kernel → ℕ → DescPtr → (ℕ → Gate) → Ept → HostIdt
setup_host_idt_and_protect s k page idtr idt ept =
    let host : DescPtr = record { address = page; size = fixed_size idtr.size } in
    record { host_idtr = host; idt = fill_idt s (4096 / 16) idt; ept = protect_host_idt k host ept }
